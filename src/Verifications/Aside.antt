-- ===== src/Verifications/Aside.antt =====
-- Invariants that the requests of a verification outlive: what these write are runs, and the decision
-- on a submission.
use onboarding_and_verificat.Prelude.{
  ℕ, String, Bool, true, false, Option, none, some, List, inl, inr, Bool-cases, Option-cases, find,
}
use onboarding_and_verificat.Prelude.Json.{Fields}
use onboarding_and_verificat.Model.Verification.{VerificationStepRun, VerificationRun}
use onboarding_and_verificat.Model.Db.{Db}
use onboarding_and_verificat.Session.{Action, pure, gets, modify, commit, ◌>>=◌, ◌>>◌}
use onboarding_and_verificat.Session.Keeps.{
  Done, Read, Keeps, Keeps-pure, Keeps-bind, Keeps-commit, Keeps-Read,
}
use onboarding_and_verificat.Submissions.Service.{at_id, write}
use onboarding_and_verificat.Verifications.Values.{Python}
use onboarding_and_verificat.Verifications.Decision.{Decision}
use onboarding_and_verificat.Verifications.Steps.{is_waiting}
use onboarding_and_verificat.Verifications.Actions.{apply_user_action}
use onboarding_and_verificat.Verifications.Advance.{
  FlowContext, at_run, write_run, decided_submission, advance_run,
}
use onboarding_and_verificat.Verifications.Flow.{initialize_steps, load_flow_context, has_key}
use onboarding_and_verificat.Verifications.Reading.{
  load_flow_context-IsRead, apply_user_action-IsRead,
}
use onboarding_and_verificat.Verifications.Service.{
  VerificationStartRequest, Dispatch, unavailable, started, signalled, get_latest_run, new_run,
  add_run, create_run, open_run, deferred_run, dispatch_or, proceed, start_verification, put_step,
  active_run, waiting_step, act, submit_step_action, advance_verification_run,
  apply_verification_action,
}
use onboarding_and_verificat.Verifications.Writes.{
  commit_run-Keeps, initialize_steps-Keeps, advance_run-Keeps,
}

-- Nothing is asked of the database but that an invariant outlives new runs and the decision on a
-- submission.
module _ (py : Python) (now : ℕ) (I : Db → Type 0)
    (runs-kept : (rs : List VerificationRun) (db : Db)
      → I db
      → I (record db { verification_runs = rs }))
    (decision-kept : (ctx : FlowContext) (i : ℕ) (d : Decision) (steps : List VerificationStepRun)
        (db : Db)
      → I db
      → I (write ctx.submission.id (decided_submission py now ctx i d steps) db)) where
  create_run-Keeps :
      (ids : ℕ → ℕ) (i : ℕ) (ctx : FlowContext) (journey : String)
      → Keeps I Read (create_run py now ids i ctx journey)
  create_run-Keeps ids i ctx journey s h =
      let db = add_run py now (new_run py now i ctx journey) s.working in
      let added = runs-kept db.verification_runs s.working h.1 in
      Keeps-bind I Read Done (initialize_steps py ids i ctx.submission.id ctx.flow_config)
        (λ _. pure i)
        (initialize_steps-Keeps py now I runs-kept decision-kept ids i ctx.submission.id
          ctx.flow_config)
        (λ _ _. Keeps-pure I Read i tt) (record { committed = db; working = db }) (added, added)

  open_run-Keeps :
      (ids : ℕ → ℕ) (i : ℕ) (ctx : FlowContext) (journey : String) (latest : Option VerificationRun)
      → Keeps I Read (open_run py now ids i ctx journey latest)
  unfolding open_run
  open_run-Keeps ids i ctx journey none = create_run-Keeps ids i ctx journey
  open_run-Keeps ids i ctx journey (some r) = elim (Bool-cases r.is_active) [
    | inl active ↦ rw active (λ s h. (tt, (h.0, runs-kept _ s.working h.1)))
    | inr closed ↦ rw closed (create_run-Keeps ids i ctx journey)
  ]

  dispatch_or-Keeps :
      (dispatch : Dispatch) (m : Action (Unit {0}))
      → Keeps I Done m
      → Keeps I Done (dispatch_or py now dispatch m)
  dispatch_or-Keeps unavailable m h = h
  dispatch_or-Keeps started m h = Keeps-commit I
  dispatch_or-Keeps signalled m h = Keeps-pure I Done tt tt

  proceed-Keeps :
      (dispatch : Dispatch) (deferred : Bool) (ctx : FlowContext) (run : ℕ)
      → Keeps I Done (proceed py now dispatch deferred ctx run)
  proceed-Keeps dispatch true ctx run =
      commit_run-Keeps py now I runs-kept decision-kept run (deferred_run py now)
  proceed-Keeps dispatch false ctx run =
      dispatch_or-Keeps dispatch (advance_run py now ctx run)
        (advance_run-Keeps py now I runs-kept decision-kept ctx run)

  flow-Keeps : (sid : ℕ) (key : String) → Keeps I Read (load_flow_context py sid key)
  flow-Keeps sid key =
      Keeps-Read I (load_flow_context py sid key) (load_flow_context-IsRead py sid key)

  pub start_verification-Keeps :
      (dispatch : Dispatch) (ids : ℕ → ℕ) (i sid : ℕ) (request : VerificationStartRequest)
      → Keeps I Done (start_verification py now dispatch ids i sid request)
  unfolding start_verification
  start_verification-Keeps dispatch ids i sid request =
      Keeps-bind I Done Read (load_flow_context py sid request.flow_key)
        (λ ctx. gets (λ db. get_latest_run ctx.submission.id db.verification_runs) >>= λ latest.
          open_run py now ids i ctx request.journey latest
          >>= proceed py now dispatch request.deferred ctx)
        (flow-Keeps sid request.flow_key)
        (λ ctx _ s h.
          let latest = get_latest_run ctx.submission.id s.working.verification_runs in
          Keeps-bind I Done Read (open_run py now ids i ctx request.journey latest)
            (proceed py now dispatch request.deferred ctx)
            (open_run-Keeps ids i ctx request.journey latest)
            (λ run _. proceed-Keeps dispatch request.deferred ctx run) s h)

  waiting_step-Keeps :
      (key : String) (r : VerificationRun) → Keeps I Read (waiting_step py now key r)
  unfolding waiting_step
  waiting_step-Keeps key r s h = elim (Option-cases (find (has_key key) r.steps)) [
    | inl e ↦ rw e h
    | inr (t, e) ↦ elim (Bool-cases (is_waiting t.status)) [
      | inl waits ↦ rw (e, waits) (tt, h)
      | inr passive ↦ rw (e, passive) h
    ]
  ]

  act-Keeps :
      (ctx : FlowContext) (r : VerificationRun) (s : VerificationStepRun) (payload : Fields)
      → Keeps I Done (act py now ctx r s payload)
  act-Keeps ctx r s payload =
      Keeps-bind I Done Read (apply_user_action py now ctx.flow_config payload s)
        (λ t. modify (write_run r.id (put_step py now t)) >> commit)
        (Keeps-Read I (apply_user_action py now ctx.flow_config payload s)
          (apply_user_action-IsRead py now ctx.flow_config payload s))
        (λ t _. commit_run-Keeps py now I runs-kept decision-kept r.id (put_step py now t))

  -- The rest of an action on a step, once its run is found.
  on_step-Keeps :
      (sid : ℕ) (key : String) (r : VerificationRun)
      (m : FlowContext → VerificationStepRun → Action (Unit {0}))
      → ((ctx : FlowContext) (s : VerificationStepRun) → Keeps I Done (m ctx s))
      → Keeps I Done
          (load_flow_context py sid r.flow_key >>= λ ctx. waiting_step py now key r >>= m ctx)
  on_step-Keeps sid key r m h =
      Keeps-bind I Done Read (load_flow_context py sid r.flow_key)
        (λ ctx. waiting_step py now key r >>= m ctx) (flow-Keeps sid r.flow_key)
        (λ ctx _.
          Keeps-bind I Done Read (waiting_step py now key r) (m ctx) (waiting_step-Keeps key r)
            (λ s _. h ctx s))

  pub submit_step_action-Keeps :
      (dispatch : Dispatch) (sid : ℕ) (key : String) (payload : Fields)
      → Keeps I Done (submit_step_action py now dispatch sid key payload)
  unfolding submit_step_action
  submit_step_action-Keeps dispatch sid key payload s h =
      elim (Option-cases (find (at_id sid) s.working.submissions)) [
        | inl e ↦ rw e h
        | inr (x, e) ↦
            let active = active_run py now (get_latest_run x.id s.working.verification_runs) in
            elim (Option-cases active) [
              | inl e' ↦ rw (e, e') h
              | inr (r, e') ↦
                  rw (e, e')
                    (on_step-Keeps sid key r
                      (λ ctx t.
                        dispatch_or py now dispatch
                          (act py now ctx r t payload >> advance_run py now ctx r.id))
                      (λ ctx t.
                        dispatch_or-Keeps dispatch
                          (act py now ctx r t payload >> advance_run py now ctx r.id)
                          (Keeps-bind I Done Done (act py now ctx r t payload)
                            (λ _. advance_run py now ctx r.id) (act-Keeps ctx r t payload)
                            (λ _ _. advance_run-Keeps py now I runs-kept decision-kept ctx r.id)))
                      s h)
            ]
      ]

  pub advance_verification_run-Keeps : (i : ℕ) → Keeps I Done (advance_verification_run py now i)
  unfolding advance_verification_run
  advance_verification_run-Keeps i s h =
      elim (Option-cases (find (at_run i) s.working.verification_runs)) [
        | inl e ↦ rw e h
        | inr (r, e) ↦ rw e (
            Keeps-bind I Done Read (load_flow_context py r.submission_id r.flow_key)
              (λ ctx. advance_run py now ctx r.id) (flow-Keeps r.submission_id r.flow_key)
              (λ ctx _. advance_run-Keeps py now I runs-kept decision-kept ctx r.id) s h)
      ]

  pub apply_verification_action-Keeps :
      (i : ℕ) (key : String) (payload : Fields)
      → Keeps I Done (apply_verification_action py now i key payload)
  unfolding apply_verification_action
  apply_verification_action-Keeps i key payload s h =
      elim (Option-cases (find (at_run i) s.working.verification_runs)) [
        | inl e ↦ rw e h
        | inr (r, e) ↦ rw e (
            on_step-Keeps r.submission_id key r (λ ctx t. act py now ctx r t payload)
              (λ ctx t. act-Keeps ctx r t payload) s h)
      ]
