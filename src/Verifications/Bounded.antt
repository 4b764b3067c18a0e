-- ===== src/Verifications/Bounded.antt =====
-- The advance of a run keeps every step within its attempts.
use onboarding_and_verificat.Prelude.{
  ℕ, zero, suc, none, List, [], inl, inr, Bool-cases, Option-cases, All, All-update, find, find-All,
  length,
}
use onboarding_and_verificat.Model.Verification.{VerificationStepRun, VerificationRun}
use onboarding_and_verificat.Model.Db.{Db}
use onboarding_and_verificat.Session.{Error, Action, gets, or_raise, modify, commit, ◌>>=◌, ◌>>◌}
use onboarding_and_verificat.Session.Keeps.{
  Done, Keeps, Keeps-pure, Keeps-raise, Keeps-gets, Keeps-or_raise, Keeps-bind, Keeps-modify,
  Keeps-commit,
}
use onboarding_and_verificat.Submissions.Service.{write}
use onboarding_and_verificat.Verifications.Values.{Python}
use onboarding_and_verificat.Verifications.Decision.{build_facts, evaluate_demo_decision}
use onboarding_and_verificat.Verifications.Advance.{
  Swept, still, crashed, changed, FlowContext, at_run, write_run, with_steps, steps_of,
  first_waiting, all_terminal, sweep, round_on, rounds, waiting_run, unfinished_run, decided_run,
  decided_submission, decide_run, finalize_run, advance_run,
}
use onboarding_and_verificat.Verifications.Settling.{IsPass, sweep-IsPass}
use onboarding_and_verificat.Verifications.Attempts.{IsWithin, AreWithin_passed}

module _ (py : Python) where
  abbrev pub StepsWithin : List VerificationStepRun → Type 0
  StepsWithin steps = All (IsWithin py) steps

  -- Every step of every run is within its attempts.
  abbrev pub AllWithin : Db → Type 0
  AllWithin db = All (λ r. StepsWithin r.steps) db.verification_runs

  pub write_run-AllWithin :
      (i : ℕ) (f : VerificationRun → VerificationRun)
      → ((r : VerificationRun) → StepsWithin r.steps → StepsWithin (f r).steps)
      → (db : Db) → AllWithin db
      → AllWithin (write_run i f db)
  write_run-AllWithin i f keeps db h =
      All-update (λ r. StepsWithin r.steps) (λ r. StepsWithin r.steps) (at_run i) f
        db.verification_runs (λ r hit. keeps r) (λ r miss within. within) h

  -- A write to a run, committed.
  pub commit_run-Keeps :
      (i : ℕ) (f : VerificationRun → VerificationRun)
      → ((r : VerificationRun) → StepsWithin r.steps → StepsWithin (f r).steps)
      → Keeps AllWithin Done (modify (write_run i f) >> commit)
  commit_run-Keeps i f keeps =
      Keeps-bind AllWithin Done Done (modify (write_run i f)) (λ _. commit)
        (Keeps-modify AllWithin (write_run i f) (write_run-AllWithin i f keeps))
        (λ _ _. Keeps-commit AllWithin)

  pub steps_of-Within :
      (i : ℕ) (db : Db)
      → AllWithin db
      → StepsWithin (steps_of (find (at_run i) db.verification_runs))
  steps_of-Within i db h = elim (Option-cases (find (at_run i) db.verification_runs)) [
    | inl e ↦ rw e tt
    | inr (r, e) ↦ rw e (find-All (λ r. StepsWithin r.steps) (at_run i) db.verification_runs r h e)
  ]

  module _ (now : ℕ) (ctx : FlowContext) (i : ℕ) where
    round_on-Keeps :
        (next : List VerificationStepRun → Action (List VerificationStepRun))
        (steps : List VerificationStepRun) (v : Swept)
        → StepsWithin steps
        → IsPass steps v
        → ((steps' : List VerificationStepRun)
            → StepsWithin steps'
            → Keeps AllWithin StepsWithin (next steps'))
        → Keeps AllWithin StepsWithin (round_on i next steps v)
    round_on-Keeps next steps still within pass h = Keeps-pure AllWithin StepsWithin steps within
    round_on-Keeps next steps crashed within pass h =
        Keeps-raise AllWithin StepsWithin Error.unhandled
    round_on-Keeps next steps (changed steps') within pass h =
        let within' = AreWithin_passed py steps steps' pass.1 within in
        Keeps-bind AllWithin StepsWithin Done (modify (write_run i (with_steps steps')) >> commit)
          (λ _. next steps') (commit_run-Keeps i (with_steps steps') (λ r _. within'))
          (λ _ _. h steps' within')

    rounds-Keeps :
        (n : ℕ) (steps : List VerificationStepRun)
        → StepsWithin steps
        → Keeps AllWithin StepsWithin (rounds py now ctx n i steps)
    unfolding rounds
    rounds-Keeps zero steps within = Keeps-raise AllWithin StepsWithin Error.unfinished
    rounds-Keeps (suc n) steps within =
        round_on-Keeps (rounds py now ctx n i) steps (sweep py now ctx [] steps) within
          (sweep-IsPass py now ctx [] steps) (rounds-Keeps n)

    decide_run-Keeps :
        (steps : List VerificationStepRun) → Keeps AllWithin Done (decide_run py now ctx i steps)
    unfolding decide_run
    decide_run-Keeps steps =
        let facts = build_facts py ctx.submission steps in
        let found = evaluate_demo_decision py ctx.flow_config facts in
        Keeps-bind AllWithin Done (λ _. Unit {0}) (or_raise found Error.unhandled)
          (λ d.
            modify (write_run i (decided_run py now ctx facts d))
            >> modify (write ctx.submission.id (decided_submission py now ctx i d steps))
            >> commit)
          (Keeps-or_raise AllWithin (λ _. Unit {0}) found Error.unhandled (λ d e. tt))
          (λ d _.
            Keeps-bind AllWithin Done Done
              (modify (write_run i (decided_run py now ctx facts d))
                >> modify (write ctx.submission.id (decided_submission py now ctx i d steps)))
              (λ _. commit)
              (Keeps-bind AllWithin Done Done
                (modify (write_run i (decided_run py now ctx facts d)))
                (λ _. modify (write ctx.submission.id (decided_submission py now ctx i d steps)))
                (Keeps-modify AllWithin (write_run i (decided_run py now ctx facts d))
                  (write_run-AllWithin i (decided_run py now ctx facts d) (λ r h. h)))
                (λ _ _.
                  Keeps-modify AllWithin
                    (write ctx.submission.id (decided_submission py now ctx i d steps))
                    (λ db h. h)))
              (λ _ _. Keeps-commit AllWithin))

    finalize_run-Keeps :
        (steps : List VerificationStepRun) → Keeps AllWithin Done (finalize_run py now ctx i steps)
    unfolding finalize_run
    finalize_run-Keeps steps = elim (Option-cases (first_waiting steps)) [
      | inl e ↦ elim (Bool-cases (all_terminal steps)) [
        | inl terminal ↦ rw (finalize_run, e, terminal) (decide_run-Keeps steps)
        | inr blocked ↦
            rw (finalize_run, e, blocked)
              (commit_run-Keeps i (unfinished_run py now ctx) (λ r h. h))
      ]
      | inr (w, e) ↦ rw (finalize_run, e) (commit_run-Keeps i (waiting_run py now ctx w) (λ r h. h))
    ]

    undeferred : VerificationRun → VerificationRun
    undeferred r = record r { deferred_until = none }

    pub advance_run-Keeps : Keeps AllWithin Done (advance_run py now ctx i)
    unfolding advance_run undeferred
    advance_run-Keeps =
        let steps_now = λ (db : Db). steps_of (find (at_run i) db.verification_runs) in
        let go = λ (steps : List VerificationStepRun).
          rounds py now ctx (suc (length steps)) i steps >>= finalize_run py now ctx i in
        Keeps-bind AllWithin Done Done (modify (write_run i undeferred))
          (λ _. gets steps_now >>= go)
          (Keeps-modify AllWithin (write_run i undeferred)
            (write_run-AllWithin i undeferred (λ r h. h)))
          (λ _ _.
            Keeps-bind AllWithin Done StepsWithin (gets steps_now) go
              (Keeps-gets AllWithin StepsWithin steps_now (λ db. steps_of-Within i db))
              (λ steps within.
                Keeps-bind AllWithin Done StepsWithin
                  (rounds py now ctx (suc (length steps)) i steps) (finalize_run py now ctx i)
                  (rounds-Keeps (suc (length steps)) steps within)
                  (λ settled _. finalize_run-Keeps settled)))
