-- ===== src/Verifications/Moves.antt =====
-- What one step of the loop changes: a step that moved is done or waits, and keeps its key, its
-- dependencies and its attempts.
use onboarding_and_verificat.Prelude.{
  ℕ, String, ◌≡◌, refl, true, Option, none, some, List, inl, inr, Bool-cases, ◌∷◌, [], ◌==◌, length,
}
use onboarding_and_verificat.Prelude.Json.{Json, Fields, list, dict, cons}
use onboarding_and_verificat.Model.Submission.{Submission}
use onboarding_and_verificat.Model.Verification.{StepOutcome, VerificationStepRun}
use onboarding_and_verificat.Verifications.Values.{Python}
use onboarding_and_verificat.Verifications.Steps.{
  is_idle, Comparison, phone_challenge, fayda_profile, fayda_challenge, start_challenge_step,
  compared_step, finish_comparison, compare_pairs, judged, total_score, run_comparison_step,
  run_step,
}

-- A step as the loop leaves it, next to the step that it came to.
abbrev pub IsMoved : VerificationStepRun → VerificationStepRun → Type 0
IsMoved s t =
    (is_idle t ≡ true)
    × (t.step_key ≡ s.step_key)
    × (t.depends_on ≡ s.depends_on)
    × (t.attempt_count ≡ s.attempt_count)
    × (t.config_snapshot ≡ s.config_snapshot)

-- The same of a step that may raise.
abbrev pub AreMoved : VerificationStepRun → Option VerificationStepRun → Type 0
AreMoved s none = Unit
AreMoved s (some t) = IsMoved s t

module _ (py : Python) where
  phone_challenge-IsMoved :
      (phone : Option String) (s : VerificationStepRun) → IsMoved s (phone_challenge py phone s)
  phone_challenge-IsMoved none s = (refl, refl, refl, refl, refl)
  phone_challenge-IsMoved (some phone) s = (refl, refl, refl, refl, refl)

  fayda_profile-IsMoved :
      (national_id : String) (found : Json) (s : VerificationStepRun)
      → IsMoved s (fayda_profile py national_id found s)
  fayda_profile-IsMoved national_id (dict profile) s = (refl, refl, refl, refl, refl)
  fayda_profile-IsMoved national_id _ s = (refl, refl, refl, refl, refl)

  fayda_challenge-IsMoved :
      (flow : Fields) (national_id : Option String) (s : VerificationStepRun)
      → IsMoved s (fayda_challenge py flow national_id s)
  fayda_challenge-IsMoved flow none s = (refl, refl, refl, refl, refl)
  fayda_challenge-IsMoved flow (some national_id) s = fayda_profile-IsMoved national_id _ s

  module _ (now : ℕ) where
    start_challenge_step-IsMoved :
        (flow : Fields) (x : Submission) (steps : List VerificationStepRun)
        (s : VerificationStepRun)
        → IsMoved s (start_challenge_step py now flow x steps s)
    unfolding start_challenge_step
    start_challenge_step-IsMoved flow x steps s =
        elim (Bool-cases (s.adapter_key == "demo_phone_otp")) [
          | inl phone ↦ rw phone (phone_challenge-IsMoved _ _)
          | inr other ↦ elim (Bool-cases (s.adapter_key == "demo_fayda_otp")) [
            | inl fayda ↦ rw (other, fayda) (fayda_challenge-IsMoved _ _ _)
            | inr neither ↦ rw (other, neither) (refl, refl, refl, refl, refl)
          ]
        ]

    judged_step-IsMoved :
        (cs : List (Comparison py)) (score : String) (found : Option StepOutcome)
        (s : VerificationStepRun)
        → AreMoved s (elim found [
          | none ↦ none
          | some outcome ↦ some (compared_step py now cs score outcome s)
        ])
    judged_step-IsMoved cs score none s = tt
    judged_step-IsMoved cs score (some outcome) s = (refl, refl, refl, refl, refl)

    finish_comparison-IsMoved :
        (cs : List (Comparison py)) (s : VerificationStepRun)
        → AreMoved s (finish_comparison py now cs s)
    finish_comparison-IsMoved [] s = (refl, refl, refl, refl, refl)
    finish_comparison-IsMoved (c ∷ cs) s =
        let score = py.mean (total_score py "0.0" (c ∷ cs)) (length (c ∷ cs)) in
        judged_step-IsMoved (c ∷ cs) score (judged py s.config_snapshot score) s

    compare_pairs-IsMoved :
        (x : Submission) (steps : List VerificationStepRun) (pairs : Json) (s : VerificationStepRun)
        → AreMoved s (compare_pairs py now x steps pairs s)
    compare_pairs-IsMoved x steps (list (cons j js)) s = finish_comparison-IsMoved _ s
    compare_pairs-IsMoved x steps _ s = (refl, refl, refl, refl, refl)

    pub run_step-IsMoved :
        (flow : Fields) (x : Submission) (steps : List VerificationStepRun)
        (s : VerificationStepRun)
        → AreMoved s (run_step py now flow x steps s)
    unfolding run_step run_comparison_step
    run_step-IsMoved flow x steps s = elim (Bool-cases (s.step_type == "challenge_response")) [
      | inl challenge ↦ rw challenge (start_challenge_step-IsMoved flow x steps s)
      | inr other ↦ elim (Bool-cases (s.step_type == "comparison")) [
        | inl comparison ↦ rw (other, comparison) (compare_pairs-IsMoved x steps _ s)
        | inr neither ↦ rw (other, neither) (refl, refl, refl, refl, refl)
      ]
    ]
