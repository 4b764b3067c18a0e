-- ===== src/Verifications/Advance.antt =====
-- The advance of a run: passes over its steps until no step moves, and what the run is then left as.
use onboarding_and_verificat.Prelude.{
  ℕ, zero, suc, String, Bool, true, false, if◌then◌else◌, Option, none, some, List, [], ◌∷◌, ◌++◌,
  ◌==◌, ◌is◌, all, find, update, length,
}
use onboarding_and_verificat.Prelude.Json.{Json, Fields, dict, str, end, field, set_field}
use onboarding_and_verificat.Model.Submission.{Submission}
use onboarding_and_verificat.Model.Verification.{RunStatus, VerificationStepRun, VerificationRun}
use onboarding_and_verificat.Model.Db.{Db}
use onboarding_and_verificat.Session.{
  Error, Action, pure, raise, gets, or_raise, modify, commit, ◌>>=◌, ◌>>◌,
}
use onboarding_and_verificat.Submissions.Service.{write}
use onboarding_and_verificat.Verifications.Values.{Python}
use onboarding_and_verificat.Verifications.Steps.{
  is_terminal, is_waiting, is_idle, deps_satisfied, run_step,
}
use onboarding_and_verificat.Verifications.Decision.{
  Decision, step_status_text, outcome_json, per_step, build_facts, evaluate_demo_decision,
  decision_fields,
}

-- What the loop makes of one step.
pub data Visit : Type 0 where
  passed raised : Visit
  moved_to : VerificationStepRun → Visit

abbrev pub moved_by : Option VerificationStepRun → Visit
moved_by none = raised
moved_by (some t) = moved_to t

pub data Swept : Type 0 where
  still crashed : Swept
  changed : List VerificationStepRun → Swept

abbrev pub after_passed : VerificationStepRun → Swept → Swept
after_passed s still = still
after_passed s crashed = crashed
after_passed s (changed rest) = changed (s ∷ rest)

abbrev pub after_moved : VerificationStepRun → List VerificationStepRun → Swept → Swept
after_moved t rest still = changed (t ∷ rest)
after_moved t rest crashed = crashed
after_moved t rest (changed rest') = changed (t ∷ rest')

-- A step that begins to wait ends the pass.
abbrev pub sweep_moved :
    (VerificationStepRun → Swept) → List VerificationStepRun → VerificationStepRun → Bool → Swept
sweep_moved next rest t true = changed (t ∷ rest)
sweep_moved next rest t false = after_moved t rest (next t)

-- The rest of a pass, which `next` goes on with after one step.
abbrev pub sweep_on :
    (VerificationStepRun → Swept) → List VerificationStepRun → VerificationStepRun → Visit → Swept
sweep_on next rest s passed = after_passed s (next s)
sweep_on next rest s raised = crashed
sweep_on next rest s (moved_to t) = sweep_moved next rest t (is_waiting t.status)

abbrev pub at_run : ℕ → VerificationRun → Bool
at_run i r = r.id is i

abbrev pub write_run : ℕ → (VerificationRun → VerificationRun) → Db → Db
write_run i f db = record db { verification_runs = update (at_run i) f db.verification_runs }

abbrev pub steps_of : Option VerificationRun → List VerificationStepRun
steps_of none = []
steps_of (some r) = r.steps

abbrev pub with_steps : List VerificationStepRun → VerificationRun → VerificationRun
with_steps steps r = record r { steps = steps }

-- What follows a pass over `steps`: a pass that moved a step is committed.
abbrev pub round_on :
    ℕ
    → (List VerificationStepRun → Action (List VerificationStepRun))
    → List VerificationStepRun
    → Swept
    → Action (List VerificationStepRun)
round_on i next steps still = pure steps
round_on i next steps crashed = raise Error.unhandled
round_on i next steps (changed steps') =
    modify (write_run i (with_steps steps')) >> commit >> next steps'

-- The first step that waits for the user.
abbrev pub first_waiting : List VerificationStepRun → Option VerificationStepRun
first_waiting steps = find (λ s. is_waiting s.status) steps

abbrev pub all_terminal : List VerificationStepRun → Bool
all_terminal steps = all (λ s. is_terminal s.status) steps

abbrev pub run_status_text : RunStatus → String
run_status_text RunStatus.pending = "pending"
run_status_text RunStatus.in_progress = "in_progress"
run_status_text RunStatus.waiting_user_action = "waiting_user_action"
run_status_text RunStatus.completed = "completed"
run_status_text RunStatus.failed = "failed"
run_status_text RunStatus.manual_review = "manual_review"

abbrev pub decided_status : String → RunStatus
decided_status decision =
    if decision == "approved"
    then RunStatus.completed
    else if decision == "rejected"
    then RunStatus.failed
    else RunStatus.manual_review

abbrev summary_of : VerificationStepRun → Json
summary_of s = dict (
    field "status" (str (step_status_text s.status))
      (field "outcome" (outcome_json s.outcome) (field "result" (dict s.result_snapshot) end)))

-- class _FlowContext
pub record FlowContext : Type 0 where
  pub submission : Submission
  pub flow_key : String
  pub flow_config : Fields

module _ (py : Python) (now : ℕ) (ctx : FlowContext) where
  unfoldable pub visit : List VerificationStepRun → VerificationStepRun → Visit
  visit steps s =
      if is_idle s
      then passed
      else if deps_satisfied s steps
      then moved_by (run_step py now ctx.flow_config ctx.submission steps s)
      else passed

  -- One pass of the inner loop of `_advance_run`, over the steps after `done`. It stops where a step
  -- begins to wait; `crashed` where a step raises.
  unfoldable pub sweep : List VerificationStepRun → List VerificationStepRun → Swept
  sweep done [] = still
  sweep done (s ∷ rest) =
      sweep_on (λ u. sweep (done ++ u ∷ []) rest) rest s (visit (done ++ s ∷ rest) s)

  -- The outer loop of `_advance_run`, which commits after each pass that moved a step.
  unfoldable pub rounds : ℕ → ℕ → List VerificationStepRun → Action (List VerificationStepRun)
  rounds zero i steps = raise Error.unfinished
  rounds (suc n) i steps = round_on i (rounds n i) steps (sweep [] steps)

  abbrev pub waiting_run : VerificationStepRun → VerificationRun → VerificationRun
  waiting_run s r = record r {
    status = RunStatus.waiting_user_action;
    current_step_key = some s.step_key;
    is_active = true;
  }

  abbrev pub unfinished_run : VerificationRun → VerificationRun
  unfinished_run r = record r {
    status = RunStatus.in_progress;
    current_step_key = none;
    is_active = true;
  }

  abbrev pub decided_run : Fields → Decision → VerificationRun → VerificationRun
  decided_run facts d r = record r {
    current_step_key = none;
    facts_snapshot = facts;
    result_snapshot = decision_fields d;
    decision = some d.decision;
    kyc_level = some d.kyc_level;
    completed_at = some now;
    is_active = false;
    status = decided_status d.decision;
  }

  abbrev run_summary : ℕ → Decision → List VerificationStepRun → Fields
  run_summary i d steps = field "run_id" (str (py.uuid i)) (
      field "status" (str (run_status_text (decided_status d.decision))) (
        field "decision" (str d.decision) (
          field "kyc_level" (str d.kyc_level)
            (field "steps" (dict (per_step summary_of steps end)) end))))

  abbrev pub decided_submission : ℕ → Decision → List VerificationStepRun → Submission → Submission
  decided_submission i d steps x = record x {
    computed_data = set_field "verification" (dict (run_summary i d steps)) x.computed_data;
    validation_results = set_field "decision" (dict (decision_fields d)) x.validation_results;
  }

  unfoldable pub decide_run : ℕ → List VerificationStepRun → Action (Unit {0})
  decide_run i steps = do
    let facts = build_facts py ctx.submission steps
    d ← or_raise (evaluate_demo_decision py ctx.flow_config facts) Error.unhandled
    modify (write_run i (decided_run facts d))
    modify (write ctx.submission.id (decided_submission i d steps))
    commit

  -- _finalize_run
  unfoldable pub finalize_run : ℕ → List VerificationStepRun → Action (Unit {0})
  finalize_run i steps = elim (first_waiting steps) [
    | some s ↦ modify (write_run i (waiting_run s)) >> commit
    | none ↦ elim (all_terminal steps) [
      | false ↦ modify (write_run i unfinished_run) >> commit
      | true ↦ decide_run i steps
    ]
  ]

  -- _advance_run
  unfoldable pub advance_run : ℕ → Action (Unit {0})
  advance_run i = do
    modify (write_run i (λ r. record r { deferred_until = none }))
    steps ← gets (λ db. steps_of (find (at_run i) db.verification_runs))
    settled ← rounds (suc (length steps)) i steps
    finalize_run i settled
