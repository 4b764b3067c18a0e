-- ===== src/Verifications/Outcome.antt =====
-- What `_advance_run` leaves of a run: it waits for the user, waits for a step that others block, or
-- is decided.
use onboarding_and_verificat.Prelude.{
  ℕ, suc, ◌≡◌, refl, sym, subst, true, false, none, some, List, ◌⊎◌, inl, inr, Bool-cases,
  Option-cases, find, find-update, length,
}
use onboarding_and_verificat.Model.Verification.{RunStatus, VerificationStepRun, VerificationRun}
use onboarding_and_verificat.Model.Db.{Db}
use onboarding_and_verificat.Session.{Error, Result, ok, err, Session, serve, ◌>>=◌}
use onboarding_and_verificat.Verifications.Values.{Python}
use onboarding_and_verificat.Verifications.Decision.{Decision, build_facts, evaluate_demo_decision}
use onboarding_and_verificat.Verifications.Advance.{
  FlowContext, at_run, write_run, first_waiting, all_terminal, decided_status, waiting_run,
  unfinished_run, decided_run, decide_run, finalize_run, rounds, advance_run,
}
use onboarding_and_verificat.Verifications.Settling.{ArePassed}
use onboarding_and_verificat.Verifications.Rounds.{Settles, rounds-Settles, open_count-length}
use onboarding_and_verificat.Verifications.Quiet.{AreQuiet, still-AreQuiet}

-- The run waits for the user at its first waiting step.
abbrev pub IsWaitingRun : VerificationRun → Type 0
IsWaitingRun r =
    (s : VerificationStepRun) × (first_waiting r.steps ≡ some s)
    × (r.status ≡ RunStatus.waiting_user_action)
    × (r.current_step_key ≡ some s.step_key)
    × (r.is_active ≡ true)

-- The run is in progress: no step waits, and some step is not done.
abbrev pub IsUnfinishedRun : VerificationRun → Type 0
IsUnfinishedRun r =
    (first_waiting r.steps ≡ none)
    × (all_terminal r.steps ≡ false)
    × (r.status ≡ RunStatus.in_progress)
    × (r.current_step_key ≡ none)
    × (r.is_active ≡ true)

module _ (py : Python) (now : ℕ) (ctx : FlowContext) where
  -- The run is over: every step is done, and its status is that of the decision on its facts.
  abbrev pub IsDecidedRun : VerificationRun → Type 0
  IsDecidedRun r =
      (d : Decision) × (evaluate_demo_decision py ctx.flow_config
          (build_facts py ctx.submission r.steps)
        ≡ some d)
      × (all_terminal r.steps ≡ true)
      × (r.status ≡ decided_status d.decision)
      × (r.decision ≡ some d.decision)
      × (r.kyc_level ≡ some d.kyc_level)
      × (r.is_active ≡ false)

  abbrev pub IsResting : VerificationRun → Type 0
  IsResting r = IsWaitingRun r ⊎ (IsUnfinishedRun r ⊎ IsDecidedRun r)

  module _ (i : ℕ) where
    abbrev pub Rests : List VerificationStepRun → Result (Unit {0}) × Session → Type 0
    Rests steps (err e, s) = e ≡ Error.unhandled
    Rests steps (ok _, s) =
        (r : VerificationRun) × (find (at_run i) s.committed.verification_runs ≡ some r)
        × (r.steps ≡ steps)
        × IsResting r

    decide_run-Rests :
        (r : VerificationRun) (s : Session)
        → find (at_run i) s.working.verification_runs ≡ some r
        → first_waiting r.steps ≡ none
        → all_terminal r.steps ≡ true
        → Rests r.steps (decide_run py now ctx i r.steps s)
    unfolding decide_run
    decide_run-Rests r s there unwaiting terminal =
        let facts = build_facts py ctx.submission r.steps in
        elim (Option-cases (evaluate_demo_decision py ctx.flow_config facts)) [
          | inl e ↦ rw e refl
          | inr (d, e) ↦ rw e (
            decided_run py now ctx facts d r,
            find-update (at_run i) (decided_run py now ctx facts d) s.working.verification_runs r
                (λ y. refl) there,
            refl,
            inr (inr (d, e, terminal, refl, refl, refl, refl)),
          )
        ]

    finalize_run-Rests :
        (r : VerificationRun) (s : Session)
        → find (at_run i) s.working.verification_runs ≡ some r
        → Rests r.steps (finalize_run py now ctx i r.steps s)
    unfolding finalize_run
    finalize_run-Rests r s there = elim (Option-cases (first_waiting r.steps)) [
      | inl e ↦ elim (Bool-cases (all_terminal r.steps)) [
        | inl terminal ↦ rw (finalize_run, e, terminal) (decide_run-Rests r s there e terminal)
        | inr blocked ↦
            rw (finalize_run, e, blocked)
              (
                unfinished_run py now ctx r,
                find-update (at_run i) (unfinished_run py now ctx) s.working.verification_runs r
                    (λ y. refl) there,
                refl,
                inr (inl (e, blocked, refl, refl, refl)),
              )
      ]
      | inr (w, e) ↦
          rw (finalize_run, e)
            (
              waiting_run py now ctx w r,
              find-update (at_run i) (waiting_run py now ctx w) s.working.verification_runs r
                  (λ y. refl) there,
              refl,
              inl (w, e, refl, refl, refl),
            )
    ]

    -- How the advance of the run `r` ends: it raises, or the run rests with steps that no pass moves.
    abbrev pub Ends : VerificationRun → Result (Unit {0}) × Db → Type 0
    Ends r (err e, db) = e ≡ Error.unhandled
    Ends r (ok _, db) =
        (r' : VerificationRun) × (find (at_run i) db.verification_runs ≡ some r')
        × ArePassed r.steps r'.steps
        × AreQuiet r'.steps
        × IsResting r'

    abbrev served : Result (Unit {0}) × Session → Result (Unit {0}) × Db
    served (out, s) = (out, s.committed)

    Rests-Ends :
        (r : VerificationRun) (settled : List VerificationStepRun)
        (out : Result (Unit {0}) × Session)
        → ArePassed r.steps settled
        → AreQuiet settled
        → Rests settled out
        → Ends r (served out)
    Rests-Ends r settled (err e, s) pass quiet h = h
    Rests-Ends r settled (ok _, s) pass quiet (r', there, same, rests) = (
      r',
      there,
      subst (ArePassed r.steps) (sym same) pass,
      subst AreQuiet (sym same) quiet,
      rests,
    )

    finalized-Ends :
        (r : VerificationRun) (out : Result (List VerificationStepRun) × Session) (s : Session)
        → Settles py now ctx i r.steps out
        → Ends r (served (((λ _. out) >>= finalize_run py now ctx i) s))
    finalized-Ends r (err e, s') s h = h
    finalized-Ends r (ok settled, s') s ((r', (there, same)), quiet, pass) =
        Rests-Ends r settled (finalize_run py now ctx i settled s') pass
          (still-AreQuiet py now ctx settled quiet)
          (subst (λ steps. Rests steps (finalize_run py now ctx i steps s')) same
            (finalize_run-Rests r' s' there))

    undeferred : VerificationRun → VerificationRun
    undeferred r = record r { deferred_until = none }

    -- The advance of a run comes to an end within its fuel, and raises nothing but what a step or the
    -- decision raises. Where it returns, the steps that were done or waited are as before, each other
    -- step waits, is done or depends on a step that is not done, and the run's status, current step
    -- and activity are those of its steps: it waits at the first step that waits, is in progress where
    -- none waits and not all are done, and is closed with the decision on its facts where all are done.
    pub advance_run-Ends :
        (r : VerificationRun) (db : Db)
        → find (at_run i) db.verification_runs ≡ some r
        → Ends r (serve (advance_run py now ctx i) db)
    unfolding advance_run undeferred
    advance_run-Ends r db there =
        let db' = write_run i undeferred db in
        let s : Session = record { committed = db; working = db' } in
        let found = find-update (at_run i) undeferred db.verification_runs r (λ y. refl) there in
        rw found (
          finalized-Ends (undeferred r) (rounds py now ctx (suc (length r.steps)) i r.steps s) s (
            rounds-Settles py now ctx i (suc (length r.steps)) (undeferred r) s
              (open_count-length r.steps) found))
