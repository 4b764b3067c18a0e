-- ===== src/Verifications/Writes.antt =====
-- Invariants that the advance of a run, and the creation of its steps, outlive: what these write are
-- runs, and the decision on a submission.
use onboarding_and_verificat.Prelude.{
  ℕ, zero, suc, none, List, [], ◌∷◌, inl, inr, Bool-cases, Option-cases, find, length,
}
use onboarding_and_verificat.Prelude.Json.{Json, Fields, get}
use onboarding_and_verificat.Model.Verification.{VerificationStepRun, VerificationRun}
use onboarding_and_verificat.Model.Db.{Db}
use onboarding_and_verificat.Session.{
  Error, Action, pure, gets, or_raise, guard, modify, commit, ◌>>=◌, ◌>>◌,
}
use onboarding_and_verificat.Session.Keeps.{
  Done, Read, Keeps, Keeps-pure, Keeps-raise, Keeps-gets, Keeps-or_raise, Keeps-guard, Keeps-bind,
  Keeps-modify, Keeps-commit,
}
use onboarding_and_verificat.Submissions.Service.{write}
use onboarding_and_verificat.Verifications.Values.{Python}
use onboarding_and_verificat.Verifications.Decision.{Decision, build_facts, evaluate_demo_decision}
use onboarding_and_verificat.Verifications.Advance.{
  Swept, still, crashed, changed, FlowContext, at_run, write_run, with_steps, steps_of,
  first_waiting, all_terminal, sweep, round_on, rounds, waiting_run, unfinished_run, decided_run,
  decided_submission, decide_run, finalize_run, advance_run,
}
use onboarding_and_verificat.Verifications.Flow.{
  Row, no_row, no_key, broken, row, step_row, rows_on, step_rows, listed_steps, keys_distinct,
  create_steps, unless_any, initialize_steps,
}

-- Nothing is asked of the database but that an invariant outlives new runs and the decision on a
-- submission.
module _ (py : Python) (now : ℕ) (I : Db → Type 0)
    (runs-kept : (rs : List VerificationRun) (db : Db)
      → I db
      → I (record db { verification_runs = rs }))
    (decision-kept : (ctx : FlowContext) (i : ℕ) (d : Decision) (steps : List VerificationStepRun)
        (db : Db)
      → I db
      → I (write ctx.submission.id (decided_submission py now ctx i d steps) db)) where
  pub commit_run-Keeps :
      (i : ℕ) (f : VerificationRun → VerificationRun)
      → Keeps I Done (modify (write_run i f) >> commit)
  commit_run-Keeps i f =
      Keeps-bind I Done Done (modify (write_run i f)) (λ _. commit)
        (Keeps-modify I (write_run i f) (λ db h. runs-kept _ db h)) (λ _ _. Keeps-commit I)

  module _ (ctx : FlowContext) (i : ℕ) where
    round_on-Keeps :
        (next : List VerificationStepRun → Action (List VerificationStepRun))
        (steps : List VerificationStepRun) (v : Swept)
        → ((steps' : List VerificationStepRun) → Keeps I Read (next steps'))
        → Keeps I Read (round_on i next steps v)
    round_on-Keeps next steps still h = Keeps-pure I Read steps tt
    round_on-Keeps next steps crashed h =
        Keeps-raise I (Read {A = List VerificationStepRun}) Error.unhandled
    round_on-Keeps next steps (changed steps') h =
        Keeps-bind I Read Done (modify (write_run i (with_steps steps')) >> commit)
          (λ _. next steps') (commit_run-Keeps i (with_steps steps')) (λ _ _. h steps')

    rounds-Keeps :
        (n : ℕ) (steps : List VerificationStepRun) → Keeps I Read (rounds py now ctx n i steps)
    unfolding rounds
    rounds-Keeps zero steps = Keeps-raise I (Read {A = List VerificationStepRun}) Error.unfinished
    rounds-Keeps (suc n) steps =
        round_on-Keeps (rounds py now ctx n i) steps (sweep py now ctx [] steps) (rounds-Keeps n)

    decide_run-Keeps :
        (steps : List VerificationStepRun) → Keeps I Done (decide_run py now ctx i steps)
    unfolding decide_run
    decide_run-Keeps steps =
        let facts = build_facts py ctx.submission steps in
        let found = evaluate_demo_decision py ctx.flow_config facts in
        Keeps-bind I Done Read (or_raise found Error.unhandled)
          (λ d.
            modify (write_run i (decided_run py now ctx facts d))
            >> modify (write ctx.submission.id (decided_submission py now ctx i d steps))
            >> commit)
          (Keeps-or_raise I Read found Error.unhandled (λ d e. tt))
          (λ d _.
            Keeps-bind I Done Done
              (modify (write_run i (decided_run py now ctx facts d))
                >> modify (write ctx.submission.id (decided_submission py now ctx i d steps)))
              (λ _. commit)
              (Keeps-bind I Done Done (modify (write_run i (decided_run py now ctx facts d)))
                (λ _. modify (write ctx.submission.id (decided_submission py now ctx i d steps)))
                (Keeps-modify I (write_run i (decided_run py now ctx facts d))
                  (λ db h. runs-kept _ db h))
                (λ _ _.
                  Keeps-modify I (write ctx.submission.id (decided_submission py now ctx i d steps))
                    (decision-kept ctx i d steps)))
              (λ _ _. Keeps-commit I))

    finalize_run-Keeps :
        (steps : List VerificationStepRun) → Keeps I Done (finalize_run py now ctx i steps)
    unfolding finalize_run
    finalize_run-Keeps steps = elim (Option-cases (first_waiting steps)) [
      | inl e ↦ elim (Bool-cases (all_terminal steps)) [
        | inl terminal ↦ rw (finalize_run, e, terminal) (decide_run-Keeps steps)
        | inr blocked ↦
            rw (finalize_run, e, blocked) (commit_run-Keeps i (unfinished_run py now ctx))
      ]
      | inr (w, e) ↦ rw (finalize_run, e) (commit_run-Keeps i (waiting_run py now ctx w))
    ]

    undeferred : VerificationRun → VerificationRun
    undeferred r = record r { deferred_until = none }

    pub advance_run-Keeps : Keeps I Done (advance_run py now ctx i)
    unfolding advance_run undeferred
    advance_run-Keeps =
        let steps_now = λ (db : Db). steps_of (find (at_run i) db.verification_runs) in
        let go = λ (steps : List VerificationStepRun).
          rounds py now ctx (suc (length steps)) i steps >>= finalize_run py now ctx i in
        Keeps-bind I Done Done (modify (write_run i undeferred)) (λ _. gets steps_now >>= go)
          (Keeps-modify I (write_run i undeferred) (λ db h. runs-kept _ db h))
          (λ _ _.
            Keeps-bind I Done Read (gets steps_now) go (Keeps-gets I Read steps_now (λ db h. tt))
              (λ steps _.
                Keeps-bind I Done Read (rounds py now ctx (suc (length steps)) i steps)
                  (finalize_run py now ctx i) (rounds-Keeps (suc (length steps)) steps)
                  (λ settled _. finalize_run-Keeps settled)))

  rows_on-Keeps :
      (skip next : Action (List VerificationStepRun)) (v : Row)
      → Keeps I Read skip
      → Keeps I Read next
      → Keeps I Read (rows_on skip next v)
  rows_on-Keeps skip next no_row hs hn = hs
  rows_on-Keeps skip next no_key hs hn =
      Keeps-raise I (Read {A = List VerificationStepRun}) Error.verification_flow_invalid
  rows_on-Keeps skip next broken hs hn =
      Keeps-raise I (Read {A = List VerificationStepRun}) Error.unhandled
  rows_on-Keeps skip next (row s) hs hn =
      Keeps-bind I Read Read next (λ rest. pure (s ∷ rest)) hn
        (λ rest _. Keeps-pure I Read (s ∷ rest) tt)

  step_rows-Keeps :
      (ids : ℕ → ℕ) (n sid : ℕ) (js : List Json) → Keeps I Read (step_rows py ids n sid js)
  unfolding step_rows
  step_rows-Keeps ids n sid [] = Keeps-pure I (Read {A = List VerificationStepRun}) [] tt
  step_rows-Keeps ids n sid (j ∷ js) =
      rows_on-Keeps (step_rows py ids n sid js) (step_rows py ids (suc n) sid js)
        (step_row py (ids n) sid j) (step_rows-Keeps ids n sid js)
        (step_rows-Keeps ids (suc n) sid js)

  create_steps-Keeps :
      (ids : ℕ → ℕ) (i sid : ℕ) (flow : Fields) → Keeps I Done (create_steps py ids i sid flow)
  unfolding create_steps
  create_steps-Keeps ids i sid flow =
      Keeps-bind I Done Read (step_rows py ids 0 sid (listed_steps py (get flow "steps")))
        (λ steps. guard (keys_distinct steps) Error.unhandled >>= λ _.
          modify (write_run i (with_steps steps)) >> commit)
        (step_rows-Keeps ids 0 sid (listed_steps py (get flow "steps")))
        (λ steps _.
          Keeps-bind I Done Done (guard (keys_distinct steps) Error.unhandled)
            (λ _. modify (write_run i (with_steps steps)) >> commit)
            (Keeps-guard I (keys_distinct steps) Error.unhandled)
            (λ _ _. commit_run-Keeps i (with_steps steps)))

  unless_any-Keeps :
      (steps : List VerificationStepRun) (m : Action (Unit {0}))
      → Keeps I Done m
      → Keeps I Done (unless_any steps m)
  unless_any-Keeps [] m h = h
  unless_any-Keeps (s ∷ steps) m h = Keeps-pure I Done tt tt

  pub initialize_steps-Keeps :
      (ids : ℕ → ℕ) (i sid : ℕ) (flow : Fields) → Keeps I Done (initialize_steps py ids i sid flow)
  unfolding initialize_steps
  initialize_steps-Keeps ids i sid flow =
      let existing = λ (db : Db). steps_of (find (at_run i) db.verification_runs) in
      Keeps-bind I Done Read (gets existing)
        (λ steps. unless_any steps (create_steps py ids i sid flow))
        (Keeps-gets I Read existing (λ db h. tt))
        (λ steps _.
          unless_any-Keeps steps (create_steps py ids i sid flow)
            (create_steps-Keeps ids i sid flow))
