-- ===== src/Verifications/Service.antt =====
-- The handlers: start or resume a run, and submit the user's action on a step. A new run's id and
-- the ids of its steps (uuid7) are arguments.
use onboarding_and_verificat.Prelude.{
  ℕ, String, Bool, true, false, if◌then◌else◌, Option, none, some, List, [], ◌∷◌, ◌++◌, ◌==◌, ◌is◌,
  find, update,
}
use onboarding_and_verificat.Prelude.Json.{Fields, end}
use onboarding_and_verificat.Model.Verification.{RunStatus, VerificationStepRun, VerificationRun}
use onboarding_and_verificat.Model.Db.{Db}
use onboarding_and_verificat.Session.{
  Error, Action, pure, gets, or_raise, guard, modify, commit, ◌>>=◌, ◌>>◌,
}
use onboarding_and_verificat.Submissions.Service.{at_id}
use onboarding_and_verificat.Verifications.Values.{Python}
use onboarding_and_verificat.Verifications.Steps.{is_waiting}
use onboarding_and_verificat.Verifications.Advance.{FlowContext, at_run, write_run, advance_run}
use onboarding_and_verificat.Verifications.Actions.{apply_user_action}
use onboarding_and_verificat.Verifications.Flow.{has_key, load_flow_context, initialize_steps}

-- class VerificationStartRequest
pub record VerificationStartRequest : Type 0 where
  pub journey : String
  pub deferred : Bool
  pub flow_key : String

-- What the dispatch to Temporal comes to: there is none, it starts and records a workflow, or it
-- signals the one that the run has.
pub data Dispatch : Type 0 where
  unavailable started signalled : Dispatch

-- _get_latest_run
unfoldable pub get_latest_run : ℕ → List VerificationRun → Option VerificationRun
get_latest_run sid [] = none
get_latest_run sid (r ∷ runs) = elim (get_latest_run sid runs) [
  | some later ↦ some later
  | none ↦ if r.submission_id is sid then some r else none
]

module _ (py : Python) (now : ℕ) where
  abbrev pub new_run : ℕ → FlowContext → String → VerificationRun
  new_run i ctx journey = record {
    id = i;
    submission_id = ctx.submission.id;
    template_version_id = ctx.submission.template_version_id;
    flow_key = ctx.flow_key;
    journey = journey;
    status = RunStatus.pending;
    decision = none;
    kyc_level = none;
    current_step_key = none;
    is_active = true;
    rules_snapshot = ctx.flow_config;
    facts_snapshot = end;
    result_snapshot = end;
    started_at = now;
    completed_at = none;
    deferred_until = none;
    steps = [];
  }

  abbrev pub add_run : VerificationRun → Db → Db
  add_run r db = record db { verification_runs = db.verification_runs ++ r ∷ [] }

  abbrev pub create_run : (ℕ → ℕ) → ℕ → FlowContext → String → Action ℕ
  create_run ids i ctx journey = do
    modify (add_run (new_run i ctx journey))
    commit
    initialize_steps py ids i ctx.submission.id ctx.flow_config
    pure i

  abbrev pub resumed : FlowContext → String → VerificationRun → VerificationRun
  resumed ctx journey r = record r {
    flow_key = ctx.flow_key;
    journey = if journey == "" then r.journey else journey;
    rules_snapshot = ctx.flow_config;
  }

  abbrev pub resume_run : FlowContext → String → VerificationRun → Action ℕ
  resume_run ctx journey r = modify (write_run r.id (resumed ctx journey)) >> pure r.id

  -- The active run of the submission, or a new one.
  unfoldable pub open_run : (ℕ → ℕ) → ℕ → FlowContext → String → Option VerificationRun → Action ℕ
  open_run ids i ctx journey none = create_run ids i ctx journey
  open_run ids i ctx journey (some r) =
      if r.is_active then resume_run ctx journey r else create_run ids i ctx journey

  abbrev pub deferred_run : VerificationRun → VerificationRun
  deferred_run r = record r {
    status = RunStatus.pending;
    current_step_key = none;
    deferred_until = some now;
  }

  abbrev pub dispatch_or : Dispatch → Action (Unit {0}) → Action (Unit {0})
  dispatch_or unavailable m = m
  dispatch_or started m = commit
  dispatch_or signalled m = pure tt

  abbrev pub proceed : Dispatch → Bool → FlowContext → ℕ → Action (Unit {0})
  proceed dispatch true ctx run = modify (write_run run deferred_run) >> commit
  proceed dispatch false ctx run = dispatch_or dispatch (advance_run py now ctx run)

  -- start_verification
  unfoldable pub start_verification :
      Dispatch → (ℕ → ℕ) → ℕ → ℕ → VerificationStartRequest → Action (Unit {0})
  start_verification dispatch ids i sid request = do
    ctx ← load_flow_context py sid request.flow_key
    latest ← gets (λ db. get_latest_run ctx.submission.id db.verification_runs)
    run ← open_run ids i ctx request.journey latest
    proceed dispatch request.deferred ctx run

  abbrev pub put_step : VerificationStepRun → VerificationRun → VerificationRun
  put_step s r = record r { steps = update (has_key s.step_key) (λ _. s) r.steps }

  abbrev pub active_run : Option VerificationRun → Option VerificationRun
  active_run none = none
  active_run (some r) = if r.is_active then some r else none

  -- The step of that key, if it waits for the user's action.
  unfoldable pub waiting_step : String → VerificationRun → Action VerificationStepRun
  waiting_step key r = do
    s ← or_raise (find (has_key key) r.steps) Error.verification_step_not_found
    _ ← guard (is_waiting s.status) Error.verification_step_not_waiting
    pure s

  abbrev pub act : FlowContext → VerificationRun → VerificationStepRun → Fields → Action (Unit {0})
  act ctx r s payload = do
    s' ← apply_user_action py now ctx.flow_config payload s
    modify (write_run r.id (put_step s'))
    commit

  -- submit_step_action
  unfoldable pub submit_step_action : Dispatch → ℕ → String → Fields → Action (Unit {0})
  submit_step_action dispatch sid key payload = do
    found ← gets (λ db. find (at_id sid) db.submissions)
    x ← or_raise found Error.submission_not_found
    latest ← gets (λ db. get_latest_run x.id db.verification_runs)
    r ← or_raise (active_run latest) Error.verification_run_not_found
    ctx ← load_flow_context py sid r.flow_key
    s ← waiting_step key r
    dispatch_or dispatch (act ctx r s payload >> advance_run py now ctx r.id)

  -- advance_verification_run_in_tenant
  unfoldable pub advance_verification_run : ℕ → Action (Unit {0})
  advance_verification_run i = do
    found ← gets (λ db. find (at_run i) db.verification_runs)
    r ← or_raise found Error.verification_run_not_found
    ctx ← load_flow_context py r.submission_id r.flow_key
    advance_run py now ctx r.id

  -- apply_verification_action_in_tenant
  unfoldable pub apply_verification_action : ℕ → String → Fields → Action (Unit {0})
  apply_verification_action i key payload = do
    found ← gets (λ db. find (at_run i) db.verification_runs)
    r ← or_raise found Error.verification_run_not_found
    ctx ← load_flow_context py r.submission_id r.flow_key
    s ← waiting_step key r
    act ctx r s payload
