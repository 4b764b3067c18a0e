-- ===== src/Verifications/Flow.antt =====
-- The flow of a submission's template version, and the steps that a new run gets from it.
use onboarding_and_verificat.Prelude.{
  ℕ, suc, String, Bool, true, false, not, ◌&&◌, if◌then◌else◌, Option, none, some, List, [], ◌∷◌,
  ◌==◌, any, find, keep, strip, prefix, ◌||◌,
}
use onboarding_and_verificat.Prelude.Json.{
  Json, Fields, dict, str, list, cons, end, get, lookup, items,
}
use onboarding_and_verificat.Model.Submission.{Submission}
use onboarding_and_verificat.Model.Verification.{StepStatus, VerificationStepRun}
use onboarding_and_verificat.Session.{
  Error, Action, pure, raise, gets, or_raise, guard, modify, commit, ◌>>=◌, ◌>>◌,
}
use onboarding_and_verificat.Submissions.Service.{at_id}
use onboarding_and_verificat.Templates.Config.{merged_rules_config}
use onboarding_and_verificat.Verifications.Values.{Python, or_else, str_of, texts_under}
use onboarding_and_verificat.Verifications.Advance.{
  FlowContext, at_run, write_run, steps_of, with_steps,
}

abbrev pub has_key : String → VerificationStepRun → Bool
has_key key s = s.step_key == key

unfoldable pub keys_distinct : List VerificationStepRun → Bool
keys_distinct [] = true
keys_distinct (s ∷ steps) = not (any (has_key s.step_key) steps) && keys_distinct steps

abbrev pub flow_of : Json → Option Fields
flow_of (dict flow) = some flow
flow_of _ = none

abbrev pub has_items : Json → Bool
has_items (list (cons j js)) = true
has_items _ = false

-- What becomes of one entry of the flow's steps.
pub data Row : Type 0 where
  no_row no_key broken : Row
  row : VerificationStepRun → Row

abbrev pub shown_name : Json → Option String
shown_name (str name) = some (prefix 255 name)
shown_name _ = none

abbrev pub new_step :
    ℕ → ℕ → String → String → List String → String → String → Fields → VerificationStepRun
new_step id sid key name deps kind adapter config = record {
  id = id;
  submission_id = sid;
  step_key = key;
  display_name = some name;
  step_type = kind;
  adapter_key = adapter;
  status = StepStatus.pending;
  outcome = none;
  attempt_count = 0;
  waiting_for = none;
  correlation_id = none;
  depends_on = deps;
  config_snapshot = config;
  input_snapshot = end;
  output_snapshot = end;
  result_snapshot = end;
  action_schema = end;
  error_details = end;
  started_at = none;
  completed_at = none;
}

abbrev pub unless_any : List VerificationStepRun → Action (Unit {0}) → Action (Unit {0})
unless_any [] m = m
unless_any (s ∷ steps) m = pure tt

-- The rows from an entry on: `skip` are those of the rest where the entry makes none, else `next`.
abbrev pub rows_on :
    Action (List VerificationStepRun)
    → Action (List VerificationStepRun)
    → Row
    → Action (List VerificationStepRun)
rows_on skip next no_row = skip
rows_on skip next no_key = raise Error.verification_flow_invalid
rows_on skip next broken = raise Error.unhandled
rows_on skip next (row s) = next >>= λ rest. pure (s ∷ rest)

module _ (py : Python) where
  abbrev pub configured_key : Fields → String
  configured_key flow = str_of py (or_else py (get flow "flow_key") (str "default"))

  abbrev pub context_of : Submission → Fields → FlowContext
  context_of x flow = record { submission = x; flow_key = configured_key flow; flow_config = flow }

  -- The flow that the rules configure, as requested.
  unfoldable pub flow_from : Submission → String → Fields → Action FlowContext
  flow_from x flow_key rules_config = do
    flow ← or_raise (flow_of (get rules_config "verification_flow")) Error.verification_flow_missing
    _ ←
        guard (flow_key == "" || (flow_key == configured_key flow))
          Error.verification_flow_not_found
    _ ← guard (has_items (get flow "steps")) Error.verification_flow_invalid
    pure (context_of x flow)

  -- _load_flow_context
  unfoldable pub load_flow_context : ℕ → String → Action FlowContext
  load_flow_context sid flow_key = do
    found ← gets (λ db. find (at_id sid) db.submissions)
    x ← or_raise found Error.submission_not_found
    rules_config ← merged_rules_config x.template_version_id
    flow_from x flow_key rules_config

  abbrev pub row_of : ℕ → ℕ → Fields → String → Option String → Option (List String) → Row
  row_of id sid config key (some name) (some deps) = row (
      new_step id sid key name (keep (λ d. not (d == "")) deps)
        (str_of py (or_else py (get config "type") (str "challenge_response")))
        (str_of py
          (or_else py (get config "adapter") (or_else py (get config "type") (str "unknown"))))
        config)
  row_of id sid config key _ _ = broken

  abbrev pub keyed_row : ℕ → ℕ → Fields → String → Row
  keyed_row id sid config key =
      if key == ""
      then no_key
      else row_of id sid config key (shown_name (or_else py (get config "name") (str key)))
          (texts_under (lookup "depends_on" config))

  unfoldable pub step_row : ℕ → ℕ → Json → Row
  step_row id sid (dict config) =
      keyed_row id sid config (strip (str_of py (or_else py (get config "key") (str ""))))
  step_row id sid _ = no_row

  -- The loop of `_initialize_steps`.
  unfoldable pub step_rows : (ℕ → ℕ) → ℕ → ℕ → List Json → Action (List VerificationStepRun)
  step_rows ids n sid [] = pure []
  step_rows ids n sid (j ∷ js) =
      rows_on (step_rows ids n sid js) (step_rows ids (suc n) sid js) (step_row (ids n) sid j)

  abbrev pub listed_steps : Json → List Json
  listed_steps (list js) = items js
  listed_steps _ = []

  -- The rows of a run without steps. Two rows of one key break the table's unique constraint.
  unfoldable pub create_steps : (ℕ → ℕ) → ℕ → ℕ → Fields → Action (Unit {0})
  create_steps ids i sid flow = do
    steps ← step_rows ids 0 sid (listed_steps (get flow "steps"))
    _ ← guard (keys_distinct steps) Error.unhandled
    modify (write_run i (with_steps steps))
    commit

  -- _initialize_steps
  unfoldable pub initialize_steps : (ℕ → ℕ) → ℕ → ℕ → Fields → Action (Unit {0})
  initialize_steps ids i sid flow = do
    existing ← gets (λ db. steps_of (find (at_run i) db.verification_runs))
    unless_any existing (create_steps ids i sid flow)
