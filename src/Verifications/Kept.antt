-- ===== src/Verifications/Kept.antt =====
-- Every handler keeps the attempts at each step bounded.
use onboarding_and_verificat.Prelude.{
  ℕ, String, ◌≡◌, Bool, true, false, Option, none, some, List, [], ◌∷◌, inl, inr, Bool-cases,
  Option-cases, arith, All, All-append, All-update, find, find-All, ◌is◌, subst,
}
use onboarding_and_verificat.Prelude.Json.{Fields}
use onboarding_and_verificat.Model.Verification.{VerificationStepRun, VerificationRun}
use onboarding_and_verificat.Model.Db.{Db}
use onboarding_and_verificat.Session.{Action, pure, gets, modify, commit, ◌>>=◌, ◌>>◌}
use onboarding_and_verificat.Session.Keeps.{
  Done, Keeps, Keeps-pure, Keeps-bind, Keeps-commit, Read, Keeps-Read,
}
use onboarding_and_verificat.Submissions.Service.{at_id}
use onboarding_and_verificat.Verifications.Values.{Python}
use onboarding_and_verificat.Verifications.Steps.{is_waiting}
use onboarding_and_verificat.Verifications.Actions.{apply_user_action}
use onboarding_and_verificat.Verifications.Advance.{FlowContext, at_run, write_run, advance_run}
use onboarding_and_verificat.Verifications.Flow.{has_key, load_flow_context, initialize_steps}
use onboarding_and_verificat.Verifications.Service.{
  VerificationStartRequest, Dispatch, unavailable, started, signalled, get_latest_run, new_run,
  add_run, create_run, resumed, open_run, deferred_run, dispatch_or, proceed, start_verification,
  put_step, active_run, waiting_step, act, submit_step_action, advance_verification_run,
  apply_verification_action,
}
use onboarding_and_verificat.Verifications.Attempts.{IsWithin, apply_user_action-Keeps}
use onboarding_and_verificat.Verifications.Bounded.{
  StepsWithin, AllWithin, write_run-AllWithin, commit_run-Keeps, advance_run-Keeps,
}
use onboarding_and_verificat.Verifications.Created.{initialize_steps-Keeps}
use onboarding_and_verificat.Verifications.Reading.{load_flow_context-IsRead}

module _ (py : Python) where
  waiting_step-Keeps :
      (I : Db → Type 0) (now : ℕ) (key : String) (r : VerificationRun)
      → StepsWithin py r.steps
      → Keeps I (λ s. (is_waiting s.status ≡ true) × IsWithin py s) (waiting_step py now key r)
  unfolding waiting_step
  waiting_step-Keeps I now key r within s h = elim (Option-cases (find (has_key key) r.steps)) [
    | inl e ↦ rw e h
    | inr (t, e) ↦ elim (Bool-cases (is_waiting t.status)) [
      | inl waits ↦
          rw (e, waits) ((waits, find-All (IsWithin py) (has_key key) r.steps t within e), h)
      | inr passive ↦ rw (e, passive) h
    ]
  ]

  latest-All :
      (sid : ℕ) (P : VerificationRun → Type 0) (runs : List VerificationRun) (r : VerificationRun)
      → All P runs
      → get_latest_run sid runs ≡ some r
      → P r
  unfolding get_latest_run
  latest-All sid P [] r h e = absurd (ground arith)
  latest-All sid P (r' ∷ runs) r h e = elim (Option-cases (get_latest_run sid runs)) [
    | inr (t, later) ↦ latest-All sid P runs r h.1 (ground (arith, later, e))
    | inl last ↦ elim (Bool-cases (r'.submission_id is sid)) [
      | inl same ↦ let e' : r' ≡ r = ground (arith, last, same, e) in subst P e' h.0
      | inr other ↦ absurd (ground (arith, last, other, e))
    ]
  ]

  active_latest :
      (now : ℕ) (latest : Option VerificationRun) (r : VerificationRun)
      → active_run py now latest ≡ some r
      → latest ≡ some r
  active_latest now none r e = e
  active_latest now (some r') r e = elim (Bool-cases r'.is_active) [
    | inl active ↦ ground (arith, active, e)
    | inr closed ↦ absurd (ground (arith, closed, e))
  ]

  module _ (now : ℕ) where
    act-Keeps :
        (ctx : FlowContext) (r : VerificationRun) (s : VerificationStepRun) (payload : Fields)
        → (is_waiting s.status ≡ true) × IsWithin py s
        → Keeps (AllWithin py) Done (act py now ctx r s payload)
    act-Keeps ctx r s payload (waits, within) =
        Keeps-bind (AllWithin py) Done (IsWithin py)
          (apply_user_action py now ctx.flow_config payload s)
          (λ t. modify (write_run r.id (put_step py now t)) >> commit)
          (apply_user_action-Keeps py now (AllWithin py) ctx.flow_config payload s waits within)
          (λ t done. commit_run-Keeps py r.id (put_step py now t) (λ r' h.
            All-update (IsWithin py) (IsWithin py) (has_key t.step_key) (λ _. t) r'.steps
              (λ u hit old. done) (λ u miss old. old) h))

    create_run-Keeps :
        (ids : ℕ → ℕ) (i : ℕ) (ctx : FlowContext) (journey : String)
        → Keeps (AllWithin py) Read (create_run py now ids i ctx journey)
    create_run-Keeps ids i ctx journey s h =
        let added =
          All-append (λ r. StepsWithin py r.steps) s.working.verification_runs
            (new_run py now i ctx journey ∷ []) h.1 (tt, tt) in
        let db = add_run py now (new_run py now i ctx journey) s.working in
        Keeps-bind (AllWithin py) Read Done
          (initialize_steps py ids i ctx.submission.id ctx.flow_config) (λ _. pure i)
          (initialize_steps-Keeps py ids i ctx.submission.id ctx.flow_config)
          (λ _ _. Keeps-pure (AllWithin py) Read i tt) (record { committed = db; working = db })
          (added, added)

    open_run-Keeps :
        (ids : ℕ → ℕ) (i : ℕ) (ctx : FlowContext) (journey : String)
        (latest : Option VerificationRun)
        → Keeps (AllWithin py) Read (open_run py now ids i ctx journey latest)
    unfolding open_run
    open_run-Keeps ids i ctx journey none = create_run-Keeps ids i ctx journey
    open_run-Keeps ids i ctx journey (some r) = elim (Bool-cases r.is_active) [
      | inl active ↦ rw active (λ s h. (
        tt,
        (h.0, write_run-AllWithin py r.id (resumed py now ctx journey) (λ r' w. w) s.working h.1),
      ))
      | inr closed ↦ rw closed (create_run-Keeps ids i ctx journey)
    ]

    dispatch_or-Keeps :
        (dispatch : Dispatch) (m : Action (Unit {0}))
        → Keeps (AllWithin py) Done m
        → Keeps (AllWithin py) Done (dispatch_or py now dispatch m)
    dispatch_or-Keeps unavailable m h = h
    dispatch_or-Keeps started m h = Keeps-commit (AllWithin py)
    dispatch_or-Keeps signalled m h = Keeps-pure (AllWithin py) Done tt tt

    proceed-Keeps :
        (dispatch : Dispatch) (deferred : Bool) (ctx : FlowContext) (run : ℕ)
        → Keeps (AllWithin py) Done (proceed py now dispatch deferred ctx run)
    proceed-Keeps dispatch true ctx run = commit_run-Keeps py run (deferred_run py now) (λ r h. h)
    proceed-Keeps dispatch false ctx run =
        dispatch_or-Keeps dispatch (advance_run py now ctx run) (advance_run-Keeps py now ctx run)

    pub start_verification-Keeps :
        (dispatch : Dispatch) (ids : ℕ → ℕ) (i sid : ℕ) (request : VerificationStartRequest)
        → Keeps (AllWithin py) Done (start_verification py now dispatch ids i sid request)
    unfolding start_verification
    start_verification-Keeps dispatch ids i sid request =
        Keeps-bind (AllWithin py) Done Read (load_flow_context py sid request.flow_key)
          (λ ctx. gets (λ db. get_latest_run ctx.submission.id db.verification_runs) >>= λ latest.
            open_run py now ids i ctx request.journey latest
            >>= proceed py now dispatch request.deferred ctx)
          (Keeps-Read (AllWithin py) (load_flow_context py sid request.flow_key)
            (load_flow_context-IsRead py sid request.flow_key))
          (λ ctx _ s h.
            let latest = get_latest_run ctx.submission.id s.working.verification_runs in
            Keeps-bind (AllWithin py) Done Read (open_run py now ids i ctx request.journey latest)
              (proceed py now dispatch request.deferred ctx)
              (open_run-Keeps ids i ctx request.journey latest)
              (λ run _. proceed-Keeps dispatch request.deferred ctx run) s h)

    latest-Within :
        (sid : ℕ) (runs : List VerificationRun) (r : VerificationRun)
        → All (λ r. StepsWithin py r.steps) runs
        → active_run py now (get_latest_run sid runs) ≡ some r
        → StepsWithin py r.steps
    latest-Within sid runs r h e =
        latest-All sid (λ r'. StepsWithin py r'.steps) runs r h
          (active_latest now (get_latest_run sid runs) r e)

    -- The rest of an action on a step, once its run is found.
    on_step-Keeps :
        (sid : ℕ) (key : String) (payload : Fields) (r : VerificationRun)
        (m : FlowContext → VerificationStepRun → Action (Unit {0}))
        → StepsWithin py r.steps
        → ((ctx : FlowContext) (s : VerificationStepRun)
            → (is_waiting s.status ≡ true) × IsWithin py s
            → Keeps (AllWithin py) Done (m ctx s))
        → Keeps
            (AllWithin py)
            Done
            (load_flow_context py sid r.flow_key >>= λ ctx. waiting_step py now key r >>= m ctx)
    on_step-Keeps sid key payload r m within h =
        Keeps-bind (AllWithin py) Done Read (load_flow_context py sid r.flow_key)
          (λ ctx. waiting_step py now key r >>= m ctx)
          (Keeps-Read (AllWithin py) (load_flow_context py sid r.flow_key)
            (load_flow_context-IsRead py sid r.flow_key))
          (λ ctx _.
            Keeps-bind (AllWithin py) Done (λ s. (is_waiting s.status ≡ true) × IsWithin py s)
              (waiting_step py now key r) (m ctx)
              (waiting_step-Keeps (AllWithin py) now key r within) (h ctx))

    pub submit_step_action-Keeps :
        (dispatch : Dispatch) (sid : ℕ) (key : String) (payload : Fields)
        → Keeps (AllWithin py) Done (submit_step_action py now dispatch sid key payload)
    unfolding submit_step_action
    submit_step_action-Keeps dispatch sid key payload s h =
        elim (Option-cases (find (at_id sid) s.working.submissions)) [
          | inl e ↦ rw e h
          | inr (x, e) ↦
              let active = active_run py now (get_latest_run x.id s.working.verification_runs) in
              elim (Option-cases active) [
                | inl e' ↦ rw (e, e') h
                | inr (r, e') ↦
                    let within = latest-Within x.id s.working.verification_runs r h.1 e' in
                    rw (e, e')
                      (on_step-Keeps sid key payload r
                        (λ ctx t.
                          dispatch_or py now dispatch
                            (act py now ctx r t payload >> advance_run py now ctx r.id))
                        within
                        (λ ctx t waits.
                          dispatch_or-Keeps dispatch
                            (act py now ctx r t payload >> advance_run py now ctx r.id)
                            (Keeps-bind (AllWithin py) Done Done (act py now ctx r t payload)
                              (λ _. advance_run py now ctx r.id) (act-Keeps ctx r t payload waits)
                              (λ _ _. advance_run-Keeps py now ctx r.id)))
                        s h)
              ]
        ]

    pub advance_verification_run-Keeps :
        (i : ℕ) → Keeps (AllWithin py) Done (advance_verification_run py now i)
    unfolding advance_verification_run
    advance_verification_run-Keeps i s h =
        elim (Option-cases (find (at_run i) s.working.verification_runs)) [
          | inl e ↦ rw e h
          | inr (r, e) ↦ rw e (
              Keeps-bind (AllWithin py) Done Read (load_flow_context py r.submission_id r.flow_key)
                (λ ctx. advance_run py now ctx r.id)
                (Keeps-Read (AllWithin py) (load_flow_context py r.submission_id r.flow_key)
                  (load_flow_context-IsRead py r.submission_id r.flow_key))
                (λ ctx _. advance_run-Keeps py now ctx r.id) s h)
        ]

    pub apply_verification_action-Keeps :
        (i : ℕ) (key : String) (payload : Fields)
        → Keeps (AllWithin py) Done (apply_verification_action py now i key payload)
    unfolding apply_verification_action
    apply_verification_action-Keeps i key payload s h =
        elim (Option-cases (find (at_run i) s.working.verification_runs)) [
          | inl e ↦ rw e h
          | inr (r, e) ↦
              let within =
                find-All (λ r'. StepsWithin py r'.steps) (at_run i) s.working.verification_runs r
                  h.1 e in
              rw e (
                on_step-Keeps r.submission_id key payload r (λ ctx t. act py now ctx r t payload)
                  within (λ ctx t waits. act-Keeps ctx r t payload waits) s h)
        ]
