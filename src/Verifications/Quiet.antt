-- ===== src/Verifications/Quiet.antt =====
-- A run that no pass moves: each step is done, waits, or depends on a step that is not done.
use onboarding_and_verificat.Prelude.{
  ℕ, ◌≡◌, ◌≢◌, refl, subst, Bool, true, false, Option, none, some, List, [], ◌∷◌, ◌++◌, ◌⊎◌, inl,
  inr, Bool-cases, All, append_assoc,
}
use onboarding_and_verificat.Model.Verification.{VerificationStepRun}
use onboarding_and_verificat.Verifications.Values.{Python}
use onboarding_and_verificat.Verifications.Steps.{is_idle, is_waiting, deps_satisfied, run_step}
use onboarding_and_verificat.Verifications.Advance.{
  Visit, passed, raised, moved_to, moved_by, Swept, still, crashed, changed, after_passed,
  after_moved, sweep_moved, sweep_on, FlowContext, visit, sweep,
}

abbrev pub IsQuietIn : List VerificationStepRun → VerificationStepRun → Type 0
IsQuietIn steps s = (is_idle s ≡ true) ⊎ (deps_satisfied s steps ≡ false)

-- No step can be moved.
abbrev pub AreQuiet : List VerificationStepRun → Type 0
AreQuiet steps = All (IsQuietIn steps) steps

moved_by-not_passed : (found : Option VerificationStepRun) → moved_by found ≢ passed
moved_by-not_passed none e = cc
moved_by-not_passed (some t) e = cc

after_passed_still : (s : VerificationStepRun) (r : Swept) → after_passed s r ≡ still → r ≡ still
after_passed_still s still e = refl
after_passed_still s crashed e = cc
after_passed_still s (changed rest) e = cc

after_moved_changes :
    (t : VerificationStepRun) (rest : List VerificationStepRun) (r : Swept)
    → after_moved t rest r ≢ still
after_moved_changes t rest still e = cc
after_moved_changes t rest crashed e = cc
after_moved_changes t rest (changed rest') e = cc

sweep_moved_changes :
    (next : VerificationStepRun → Swept) (rest : List VerificationStepRun) (t : VerificationStepRun)
    (waits : Bool)
    → sweep_moved next rest t waits ≢ still
sweep_moved_changes next rest t true e = cc
sweep_moved_changes next rest t false e = after_moved_changes t rest (next t) e

sweep_on_still :
    (next : VerificationStepRun → Swept) (rest : List VerificationStepRun) (s : VerificationStepRun)
    (v : Visit)
    → sweep_on next rest s v ≡ still
    → (v ≡ passed) × (next s ≡ still)
sweep_on_still next rest s passed e = (refl, after_passed_still s (next s) e)
sweep_on_still next rest s raised e = cc
sweep_on_still next rest s (moved_to t) e =
    absurd (sweep_moved_changes next rest t (is_waiting t.status) e)

module _ (py : Python) (now : ℕ) (ctx : FlowContext) where
  visit_passed :
      (steps : List VerificationStepRun) (s : VerificationStepRun)
      → visit py now ctx steps s ≡ passed
      → IsQuietIn steps s
  unfolding visit
  visit_passed steps s e = elim (Bool-cases (is_idle s)) [
    | inl idle ↦ inl idle
    | inr free ↦ elim (Bool-cases (deps_satisfied s steps)) [
      | inl ready ↦ absurd (
          moved_by-not_passed (run_step py now ctx.flow_config ctx.submission steps s)
            (rw (free, ready) at e))
      | inr blocked ↦ inr blocked
    ]
  ]

  sweep_still :
      (done rest : List VerificationStepRun)
      → sweep py now ctx done rest ≡ still
      → All (IsQuietIn (done ++ rest)) rest
  unfolding sweep
  sweep_still done [] e = tt
  sweep_still done (s ∷ rest) e =
      let after =
        sweep_on_still (λ u. sweep py now ctx (done ++ u ∷ []) rest) rest s
          (visit py now ctx (done ++ s ∷ rest) s) e in
      let others = sweep_still (done ++ s ∷ []) rest after.1 in
      (
        visit_passed (done ++ s ∷ rest) s after.0,
        subst (λ steps. All (IsQuietIn steps) rest) (append_assoc done (s ∷ []) rest) others,
      )

  pub still-AreQuiet :
      (steps : List VerificationStepRun) → sweep py now ctx [] steps ≡ still → AreQuiet steps
  still-AreQuiet steps e = sweep_still [] steps e
