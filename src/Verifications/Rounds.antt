-- ===== src/Verifications/Rounds.antt =====
-- The rounds of `_advance_run`: they end with the fuel given, and at a pass that moves no step.
use onboarding_and_verificat.Prelude.{
  ℕ, zero, suc, ◌<◌, ◌≡◌, refl, sym, subst, ◌∙◌, some, List, [], ◌∷◌, ◌⊎◌, inl, inr, arith, find,
  find-update, length,
}
use onboarding_and_verificat.Model.Verification.{VerificationStepRun, VerificationRun}
use onboarding_and_verificat.Session.{Error, Result, ok, err, Session, Action}
use onboarding_and_verificat.Verifications.Values.{Python}
use onboarding_and_verificat.Verifications.Advance.{
  moved_to, Swept, still, crashed, changed, at_run, write_run, with_steps, FlowContext, sweep,
  round_on, rounds,
}
use onboarding_and_verificat.Verifications.Settling.{
  open_count, VisitOf, ArePassed, ArePassed-refl, IsPass, sweep-IsPass,
}

moved_trans :
    (s t u : VerificationStepRun)
    → (t ≡ s) ⊎ VisitOf s (moved_to t)
    → (u ≡ t) ⊎ VisitOf t (moved_to u)
    → (u ≡ s) ⊎ VisitOf s (moved_to u)
moved_trans s t u (inl p) (inl q) = inl (q ∙ p)
moved_trans s t u (inl p) (inr q) = inr (subst (λ w. VisitOf w (moved_to u)) p q)
moved_trans s t u (inr p) (inl q) = inr (subst (λ w. VisitOf s (moved_to w)) (sym q) p)
moved_trans s t u (inr p) (inr q) = absurd (ground (arith, p.1.0, q.0))

pub ArePassed-trans :
    (steps mid last : List VerificationStepRun)
    → ArePassed steps mid
    → ArePassed mid last
    → ArePassed steps last
ArePassed-trans [] [] [] p q = tt
ArePassed-trans [] [] (u ∷ last) p q = elim q [ ]
ArePassed-trans [] (t ∷ mid) last p q = elim p [ ]
ArePassed-trans (s ∷ steps) [] last p q = elim p [ ]
ArePassed-trans (s ∷ steps) (t ∷ mid) [] p q = elim q [ ]
ArePassed-trans (s ∷ steps) (t ∷ mid) (u ∷ last) p q =
    (moved_trans s t u p.0 q.0, ArePassed-trans steps mid last p.1 q.1)

pub open_count-length : (steps : List VerificationStepRun) → open_count steps < suc (length steps)
open_count-length [] = omega arith
open_count-length (s ∷ steps) = ground (arith, open_count-length steps)

module _ (py : Python) (now : ℕ) (ctx : FlowContext) (i : ℕ) where
  -- The rounds raise, or they leave the run with steps that no further pass moves.
  abbrev pub Settles :
      List VerificationStepRun → Result (List VerificationStepRun) × Session → Type 0
  Settles steps (err e, s) = e ≡ Error.unhandled
  Settles steps (ok settled, s) =
      ((r : VerificationRun) × ((find (at_run i) s.working.verification_runs ≡ some r)
          × (r.steps ≡ settled)))
      × (sweep py now ctx [] settled ≡ still)
      × ArePassed steps settled

  Settles-from :
      (steps mid : List VerificationStepRun) (out : Result (List VerificationStepRun) × Session)
      → ArePassed steps mid
      → Settles mid out
      → Settles steps out
  Settles-from steps mid (err e, s) pass h = h
  Settles-from steps mid (ok settled, s) pass h =
      (h.0, h.1, ArePassed-trans steps mid settled pass h.2)

  round_on-Settles :
      (n : ℕ) (next : List VerificationStepRun → Action (List VerificationStepRun)) (v : Swept)
      (r : VerificationRun) (s : Session)
      → sweep py now ctx [] r.steps ≡ v
      → IsPass r.steps v
      → open_count r.steps < suc n
      → find (at_run i) s.working.verification_runs ≡ some r
      → ((r' : VerificationRun) (s' : Session)
          → open_count r'.steps < n
          → find (at_run i) s'.working.verification_runs ≡ some r'
          → Settles r'.steps (next r'.steps s'))
      → Settles r.steps (round_on i next r.steps v s)
  round_on-Settles n next still r s e pass fuel there h =
      ((r, (there, refl)), e, ArePassed-refl r.steps)
  round_on-Settles n next crashed r s e pass fuel there h = refl
  round_on-Settles n next (changed steps') r s e pass fuel there h =
      let db = write_run i (with_steps steps') s.working in
      Settles-from r.steps steps' (next steps' (record { committed = db; working = db })) pass.1 (
        h (with_steps steps' r) (record { committed = db; working = db })
          (omega (arith, pass.0, fuel))
          (find-update (at_run i) (with_steps steps') s.working.verification_runs r (λ y. refl)
            there))

  pub rounds-Settles :
      (n : ℕ) (r : VerificationRun) (s : Session)
      → open_count r.steps < n
      → find (at_run i) s.working.verification_runs ≡ some r
      → Settles r.steps (rounds py now ctx n i r.steps s)
  unfolding rounds
  rounds-Settles zero r s fuel there = ground arith
  rounds-Settles (suc n) r s fuel there =
      round_on-Settles n (rounds py now ctx n i) (sweep py now ctx [] r.steps) r s refl
        (sweep-IsPass py now ctx [] r.steps) fuel there (rounds-Settles n)
