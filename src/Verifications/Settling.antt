-- ===== src/Verifications/Settling.antt =====
-- The passes over the steps end: each pass that moves a step leaves fewer steps to move.
use onboarding_and_verificat.Prelude.{
  ℕ, ◌<◌, ◌≡◌, refl, Bool, true, false, not, Option, none, some, List, [], ◌∷◌, ◌++◌, ◌⊎◌, inl, inr,
  arith, Bool-cases, keep, length,
}
use onboarding_and_verificat.Model.Verification.{VerificationStepRun}
use onboarding_and_verificat.Verifications.Values.{Python}
use onboarding_and_verificat.Verifications.Steps.{is_idle, is_waiting, deps_satisfied, run_step}
use onboarding_and_verificat.Verifications.Advance.{
  Visit, passed, raised, moved_to, moved_by, Swept, still, crashed, changed, after_passed,
  after_moved, sweep_moved, sweep_on, FlowContext, visit, sweep,
}
use onboarding_and_verificat.Verifications.Moves.{IsMoved, AreMoved, run_step-IsMoved}

-- The number of steps that are neither done nor waiting.
abbrev pub open_count : List VerificationStepRun → ℕ
open_count steps = length (keep (λ s. not (is_idle s)) steps)

-- What a visit makes of a step.
abbrev pub VisitOf : VerificationStepRun → Visit → Type 0
VisitOf s (moved_to t) = (is_idle s ≡ false) × IsMoved s t
VisitOf s _ = Unit

-- Steps after a pass, one by one: as before, or moved from neither done nor waiting.
abbrev pub ArePassed : List VerificationStepRun → List VerificationStepRun → Type 0
ArePassed [] [] = Unit
ArePassed (s ∷ steps) (t ∷ steps') = ((t ≡ s) ⊎ VisitOf s (moved_to t)) × ArePassed steps steps'
ArePassed _ _ = ⊥

-- A pass that changed the steps left fewer to move.
abbrev pub IsPass : List VerificationStepRun → Swept → Type 0
IsPass steps (changed steps') = (open_count steps' < open_count steps) × ArePassed steps steps'
IsPass steps _ = Unit

pub ArePassed-refl : (steps : List VerificationStepRun) → ArePassed steps steps
ArePassed-refl [] = tt
ArePassed-refl (s ∷ steps) = (inl refl, ArePassed-refl steps)

moved_by-VisitOf :
    (s : VerificationStepRun) (found : Option VerificationStepRun)
    → is_idle s ≡ false
    → AreMoved s found
    → VisitOf s (moved_by found)
moved_by-VisitOf s none free moved = tt
moved_by-VisitOf s (some t) free moved = (free, moved)

after_passed-IsPass :
    (s : VerificationStepRun) (rest : List VerificationStepRun) (r : Swept)
    → IsPass rest r
    → IsPass (s ∷ rest) (after_passed s r)
after_passed-IsPass s rest still h = tt
after_passed-IsPass s rest crashed h = tt
after_passed-IsPass s rest (changed rest') h = (ground (arith, h.0), (inl refl, h.1))

after_moved-IsPass :
    (rest : List VerificationStepRun) (s t : VerificationStepRun) (r : Swept)
    → VisitOf s (moved_to t)
    → IsPass rest r
    → IsPass (s ∷ rest) (after_moved t rest r)
after_moved-IsPass rest s t still v h = (ground (arith, v.0, v.1), (inr v, ArePassed-refl rest))
after_moved-IsPass rest s t crashed v h = tt
after_moved-IsPass rest s t (changed rest') v h = (ground (arith, v.0, v.1, h.0), (inr v, h.1))

sweep_moved-IsPass :
    (next : VerificationStepRun → Swept) (rest : List VerificationStepRun)
    (s t : VerificationStepRun) (waits : Bool)
    → VisitOf s (moved_to t)
    → IsPass rest (next t)
    → IsPass (s ∷ rest) (sweep_moved next rest t waits)
sweep_moved-IsPass next rest s t true v h = (ground (arith, v.0, v.1), (inr v, ArePassed-refl rest))
sweep_moved-IsPass next rest s t false v h = after_moved-IsPass rest s t (next t) v h

sweep_on-IsPass :
    (next : VerificationStepRun → Swept) (rest : List VerificationStepRun) (s : VerificationStepRun)
    (v : Visit)
    → VisitOf s v
    → ((u : VerificationStepRun) → IsPass rest (next u))
    → IsPass (s ∷ rest) (sweep_on next rest s v)
sweep_on-IsPass next rest s passed v h = after_passed-IsPass s rest (next s) (h s)
sweep_on-IsPass next rest s raised v h = tt
sweep_on-IsPass next rest s (moved_to t) v h =
    sweep_moved-IsPass next rest s t (is_waiting t.status) v (h t)

module _ (py : Python) (now : ℕ) (ctx : FlowContext) where
  visit-VisitOf :
      (steps : List VerificationStepRun) (s : VerificationStepRun)
      → VisitOf s (visit py now ctx steps s)
  unfolding visit
  visit-VisitOf steps s = elim (Bool-cases (is_idle s)) [
    | inl idle ↦ rw idle tt
    | inr free ↦ elim (Bool-cases (deps_satisfied s steps)) [
      | inl ready ↦
          rw (free, ready)
            (moved_by-VisitOf s (run_step py now ctx.flow_config ctx.submission steps s) free
              (run_step-IsMoved py now ctx.flow_config ctx.submission steps s))
      | inr blocked ↦ rw (free, blocked) tt
    ]
  ]

  pub sweep-IsPass :
      (done rest : List VerificationStepRun) → IsPass rest (sweep py now ctx done rest)
  unfolding sweep
  sweep-IsPass done [] = tt
  sweep-IsPass done (s ∷ rest) =
      sweep_on-IsPass (λ u. sweep py now ctx (done ++ u ∷ []) rest) rest s
        (visit py now ctx (done ++ s ∷ rest) s) (visit-VisitOf (done ++ s ∷ rest) s)
        (λ u. sweep-IsPass (done ++ u ∷ []) rest)
