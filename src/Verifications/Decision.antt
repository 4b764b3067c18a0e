-- ===== src/Verifications/Decision.antt =====
-- The facts of a run and the decision: the first rule that matches, or the fallback.
use onboarding_and_verificat.Prelude.{
  ℕ, suc, String, Bool, true, false, ◌&&◌, if◌then◌else◌, Option, none, some, List, [], ◌∷◌, ◌==◌,
  any, strip, map,
}
use onboarding_and_verificat.Prelude.Json.{
  Json, Fields, null, bool, str, list, dict, cons, end, field, get, lookup, items, set_field,
  str_or_null, int, of_list,
}
use onboarding_and_verificat.Model.Status.{
  SubmissionStatus, draft, submitted, under_review, approved, rejected, returned, completed,
  cancelled,
}
use onboarding_and_verificat.Model.Submission.{Submission}
use onboarding_and_verificat.Model.Verification.{StepStatus, StepOutcome, VerificationStepRun}
use onboarding_and_verificat.Verifications.Values.{
  Python, truthy, or_else, str_of, text_of, texts_under, lookup_mapping,
}
use onboarding_and_verificat.Verifications.Steps.{outcome_text}
use onboarding_and_verificat.Prelude.Int.{pos}

-- SubmissionStatus.value
abbrev pub status_value : SubmissionStatus → String
status_value draft = "draft"
status_value submitted = "submitted"
status_value under_review = "under_review"
status_value approved = "approved"
status_value rejected = "rejected"
status_value returned = "returned"
status_value completed = "completed"
status_value cancelled = "cancelled"

abbrev pub step_status_text : StepStatus → String
step_status_text StepStatus.pending = "pending"
step_status_text StepStatus.waiting_user_action = "waiting_user_action"
step_status_text StepStatus.completed = "completed"
step_status_text StepStatus.failed = "failed"
step_status_text StepStatus.skipped = "skipped"
step_status_text StepStatus.expired = "expired"

abbrev pub outcome_json : Option StepOutcome → Json
outcome_json none = null
outcome_json (some o) = str (outcome_text o)

-- {step.step_key: ... for step in steps}
abbrev pub per_step : (VerificationStepRun → Json) → List VerificationStepRun → Fields → Fields
per_step f [] d = d
per_step f (s ∷ steps) d = per_step f steps (set_field s.step_key (f s) d)

abbrev step_facts : VerificationStepRun → Json
step_facts s = dict (
    field "status" (str (step_status_text s.status)) (
      field "outcome" (outcome_json s.outcome) (
        field "input" (dict s.input_snapshot)
          (field "output" (dict s.output_snapshot) (field "result" (dict s.result_snapshot) end)))))

pub record Decision : Type 0 where
  pub decision : String
  pub kyc_level : String
  pub matched_rule : Option ℕ
  pub reason_codes : List String

module _ (py : Python) where
  -- _build_facts
  unfoldable pub build_facts : Submission → List VerificationStepRun → Fields
  build_facts x steps =
      field "submission"
        (dict (
          field "id" (str (py.uuid x.id)) (
            field "template_id" (str (py.uuid x.template_id)) (
              field "template_version_id" (str (py.uuid x.template_version_id)) (
                field "submitter_id" (str_or_null x.submitter_id) (
                  field "external_ref" (str_or_null x.external_ref)
                    (field "status" (str (status_value x.status)) end)))))))
        (field "answers" (dict x.form_data) (
          field "computed_data" (dict x.computed_data)
            (field "steps" (dict (per_step step_facts steps end)) end)))

  -- Whether `float(a) >= float(b)`; false where either raises.
  abbrev at_least : Option String → Option String → Bool
  at_least none b = false
  at_least (some a) none = false
  at_least (some a) (some b) = py.ge a b

  abbrev listed : Json → Json → Option Bool
  listed (list js) actual = some (any (λ j. py.equal actual j) (items js))
  listed _ actual = none

  abbrev is_true : Json → Bool
  is_true (bool b) = b
  is_true _ = false

  abbrev in_or_truthy : Option Bool → Fields → Json → Bool
  in_or_truthy (some found) condition actual = found
  in_or_truthy none condition actual = is_true (get condition "truthy") && truthy py actual

  abbrev compare_fact : Fields → Json → Bool
  compare_fact condition actual = elim (lookup "equals" condition) [
    | some wanted ↦ py.equal actual wanted
    | none ↦ elim (lookup "gte" condition) [
      | some bound ↦ at_least (py.to_float actual) (py.to_float bound)
      | none ↦ elim (lookup "lte" condition) [
        | some bound ↦ at_least (py.to_float bound) (py.to_float actual)
        | none ↦ in_or_truthy (listed (get condition "in") actual) condition actual
      ]
    ]
  ]

  abbrev at_fact : Option String → Fields → Fields → Bool
  at_fact none condition facts = false
  at_fact (some path) condition facts =
      if strip path == "" then false else compare_fact condition (lookup_mapping (dict facts) path)

  -- _condition_matches
  unfoldable pub condition_matches : Fields → Fields → Bool
  condition_matches condition facts = at_fact (text_of (get condition "fact")) condition facts

  -- all(... for condition in conditions if isinstance(condition, dict))
  abbrev pub all_match : List Json → Fields → Bool
  all_match [] facts = true
  all_match (dict condition ∷ conditions) facts =
      condition_matches condition facts && all_match conditions facts
  all_match (_ ∷ conditions) facts = all_match conditions facts

  abbrev conditions_match : Json → Fields → Bool
  conditions_match (list (cons j js)) facts = all_match (j ∷ items js) facts
  conditions_match _ facts = false

  -- _rule_matches
  unfoldable pub rule_matches : Fields → Fields → Bool
  rule_matches rule facts = conditions_match (get rule "all") facts

  abbrev pub list_items : Json → List Json
  list_items (list js) = items js
  list_items _ = []

  -- What a rule or the fallback decides; `none` where its reason codes cannot be iterated.
  unfoldable pub decided : Fields → Option ℕ → Option Decision
  decided rule matched = elim (texts_under (lookup "reason_codes" rule)) [
    | none ↦ none
    | some codes ↦ some (record {
      decision = str_of py (or_else py (get rule "decision") (str "manual_review"));
      kyc_level = str_of py (or_else py (get rule "kyc_level") (str "pending_review"));
      matched_rule = matched;
      reason_codes = codes;
    })
  ]

  abbrev pub manual_review_for : String → Decision
  manual_review_for reason = record {
    decision = "manual_review";
    kyc_level = "pending_review";
    matched_rule = none;
    reason_codes = reason ∷ [];
  }

  abbrev pub matches_at : Json → Fields → Option Fields
  matches_at (dict rule) facts = if rule_matches rule facts then some rule else none
  matches_at _ facts = none

  -- The loop over the rules, from the position `n` on.
  unfoldable pub first_match : ℕ → List Json → Fields → Option (ℕ × Fields)
  first_match n [] facts = none
  first_match n (j ∷ js) facts = elim (matches_at j facts) [
    | some rule ↦ some (n, rule)
    | none ↦ first_match (suc n) js facts
  ]

  abbrev pub fallback_decision : Json → Option Decision
  fallback_decision (dict fallback) = decided fallback none
  fallback_decision _ = some (manual_review_for "decision_fallback_used")

  abbrev pub decide_by : Option (ℕ × Fields) → Fields → Option Decision
  decide_by (some (n, rule)) cfg = decided rule (some n)
  decide_by none cfg = fallback_decision (get cfg "fallback")

  abbrev decide_config : Json → Fields → Option Decision
  decide_config (dict cfg) facts =
      decide_by (first_match 0 (list_items (get cfg "rules")) facts) cfg
  decide_config _ facts = some (manual_review_for "decision_config_missing")

  -- _evaluate_demo_decision; `none` where it raises
  unfoldable pub evaluate_demo_decision : Fields → Fields → Option Decision
  evaluate_demo_decision flow facts = decide_config (get flow "decision") facts

abbrev matched_json : Option ℕ → Json
matched_json none = null
matched_json (some n) = int (pos n)

-- The dict that the decision is kept as.
abbrev pub decision_fields : Decision → Fields
decision_fields d = field "decision" (str d.decision) (
    field "kyc_level" (str d.kyc_level) (
      field "matched_rule" (matched_json d.matched_rule)
        (field "reason_codes" (list (of_list (map str d.reason_codes))) end)))
