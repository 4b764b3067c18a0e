-- ===== src/Verifications/Unstuck.antt =====
-- The advance of a run whose steps depend on steps of a lower rank.
use onboarding_and_verificat.Prelude.{
  ℕ, String, ◌≡◌, refl, some, List, [], ◌∷◌, ◌⊎◌, inl, inr, arith, All, any, find,
}
use onboarding_and_verificat.Model.Verification.{VerificationStepRun, VerificationRun}
use onboarding_and_verificat.Model.Db.{Db}
use onboarding_and_verificat.Session.{Error, Result, ok, err, serve}
use onboarding_and_verificat.Verifications.Values.{Python}
use onboarding_and_verificat.Verifications.Advance.{FlowContext, at_run, advance_run}
use onboarding_and_verificat.Verifications.Flow.{has_key}
use onboarding_and_verificat.Verifications.Settling.{ArePassed}
use onboarding_and_verificat.Verifications.Quiet.{AreQuiet}
use onboarding_and_verificat.Verifications.Outcome.{
  IsWaitingRun, IsDecidedRun, IsResting, Ends, advance_run-Ends,
}
use onboarding_and_verificat.Verifications.Progress.{
  RanksIn, AreRanked, keys_kept, RanksIn-kept, quiet_terminal,
}

module _ (rank : String → ℕ) where
  ranked_steps :
      (steps steps' some_steps some_steps' : List VerificationStepRun)
      → ((key : String) → any (has_key key) steps' ≡ any (has_key key) steps)
      → ArePassed some_steps some_steps'
      → All (RanksIn rank steps) some_steps
      → All (RanksIn rank steps') some_steps'
  ranked_steps steps steps' [] [] keys pass ranks = tt
  ranked_steps steps steps' [] (t ∷ rest') keys pass ranks = elim pass [ ]
  ranked_steps steps steps' (s ∷ rest) [] keys pass ranks = elim pass [ ]
  ranked_steps steps steps' (s ∷ rest) (t ∷ rest') keys (inl same, pass) ranks = (
    RanksIn-kept rank steps steps' s t keys (rw same refl) (rw same refl) ranks.0,
    ranked_steps steps steps' rest rest' keys pass ranks.1,
  )
  ranked_steps steps steps' (s ∷ rest) (t ∷ rest') keys (inr moved, pass) ranks = (
    RanksIn-kept rank steps steps' s t keys moved.1.1 moved.1.2 ranks.0,
    ranked_steps steps steps' rest rest' keys pass ranks.1,
  )

  AreRanked-kept :
      (steps steps' : List VerificationStepRun)
      → ArePassed steps steps'
      → AreRanked rank steps
      → AreRanked rank steps'
  AreRanked-kept steps steps' pass ranks =
      ranked_steps steps steps' steps steps' (λ key. keys_kept steps steps' key pass) pass ranks

  module _ (py : Python) (now : ℕ) (ctx : FlowContext) (i : ℕ) where
    not_unfinished :
        (r : VerificationRun)
        → AreQuiet r.steps
        → AreRanked rank r.steps
        → IsResting py now ctx r
        → IsWaitingRun r ⊎ IsDecidedRun py now ctx r
    not_unfinished r quiet ranks (inl waiting) = inl waiting
    not_unfinished r quiet ranks (inr (inr over)) = inr over
    not_unfinished r quiet ranks (inr (inl unfinished)) =
        let done = quiet_terminal rank r.steps quiet unfinished.0 ranks in
        absurd (ground (arith, done, unfinished.1))

    -- The advance raises, or leaves the run waiting for the user or decided.
    abbrev pub Moves : Result (Unit {0}) × Db → Type 0
    Moves (err e, db) = e ≡ Error.unhandled
    Moves (ok _, db) =
        (r : VerificationRun) × (find (at_run i) db.verification_runs ≡ some r)
        × (IsWaitingRun r ⊎ IsDecidedRun py now ctx r)

    Ends-Moves :
        (r : VerificationRun) (out : Result (Unit {0}) × Db)
        → AreRanked rank r.steps
        → Ends py now ctx i r out
        → Moves out
    Ends-Moves r (err e, db) ranks h = h
    Ends-Moves r (ok _, db) ranks (r', there, pass, quiet, rests) =
        (r', there, not_unfinished r' quiet (AreRanked-kept r.steps r'.steps pass ranks) rests)

    -- A run whose steps each depend only on keys of the flow, of a lower rank, is never left in
    -- progress: unless the advance raises, the run then waits for the user or is decided.
    pub advance_run-Moves :
        (r : VerificationRun) (db : Db)
        → find (at_run i) db.verification_runs ≡ some r
        → AreRanked rank r.steps
        → Moves (serve (advance_run py now ctx i) db)
    advance_run-Moves r db there ranks =
        Ends-Moves r (serve (advance_run py now ctx i) db) ranks
          (advance_run-Ends py now ctx i r db there)
