-- ===== src/Verifications/Answered.antt =====
-- A step passes only with the code that it expects.
use onboarding_and_verificat.Prelude.{
  ℕ, suc, String, ◌≡◌, refl, true, false, Option, none, some, ◌⊎◌, inl, inr, arith, Bool-cases,
  Option-cases, ◌==◌, strip, if◌then◌else◌,
}
use onboarding_and_verificat.Prelude.Int.{ℤ}
use onboarding_and_verificat.Prelude.Json.{Json, Fields, dict, get}
use onboarding_and_verificat.Model.Verification.{StepStatus, StepOutcome, VerificationStepRun}
use onboarding_and_verificat.Session.{Error, Result, ok, err, Session, pure}
use onboarding_and_verificat.Verifications.Values.{Python}
use onboarding_and_verificat.Verifications.Steps.{filled, demo_registry, demo_code, fayda_code}
use onboarding_and_verificat.Verifications.Actions.{
  reaches, mark_retry_or_fail, counted, max_attempts, wrong_code, answer_profile, give_code,
  input_text, apply_user_action, phone_passed, fayda_passed,
}

module _ (py : Python) (now : ℕ) where
  abbrev pub fayda_expected : Json → VerificationStepRun → Option String
  fayda_expected (dict profile) s = some (fayda_code py profile s.config_snapshot)
  fayda_expected _ s = none

  -- The code that the adapter of the step expects, if it knows one.
  unfoldable pub expected_code : Fields → VerificationStepRun → Option String
  expected_code flow s =
      if s.adapter_key == "demo_phone_otp"
      then some (demo_code py s.config_snapshot "111111")
      else if s.adapter_key == "demo_fayda_otp"
      then fayda_expected
          (get (demo_registry flow s.config_snapshot) (input_text py now s "national_id")) s
      else none

  -- The step has passed.
  abbrev pub IsPassed : VerificationStepRun → Result VerificationStepRun → Type 0
  IsPassed s out =
      (t : VerificationStepRun) × (out ≡ ok t)
      × (t.status ≡ StepStatus.completed)
      × (t.outcome ≡ some StepOutcome.pass)
      × (t.attempt_count ≡ suc s.attempt_count)

  -- The step has failed for good, where the attempts reach the limit, or waits for another attempt.
  abbrev pub IsRefused : VerificationStepRun → ℤ → Result VerificationStepRun → Type 0
  IsRefused s limit out =
      (t : VerificationStepRun) × (out ≡ ok t)
      × (t.attempt_count ≡ suc s.attempt_count)
      × (((reaches (suc s.attempt_count) limit ≡ true)
            × (t.status ≡ StepStatus.failed)
            × (t.outcome ≡ some StepOutcome.fail))
          ⊎ ((reaches (suc s.attempt_count) limit ≡ false)
              × (t.status ≡ StepStatus.waiting_user_action)
              × (t.outcome ≡ some StepOutcome.pending)))

  abbrev pub IsChecked : String → String → VerificationStepRun → Result VerificationStepRun → Type 0
  IsChecked code expected s out =
      (((strip code == expected) ≡ true) × IsPassed s out)
      ⊎ (((strip code == expected) ≡ false)
          × (((max_attempts py s.config_snapshot ≡ none) × (out ≡ err Error.unhandled))
              ⊎ ((limit : ℤ) × (max_attempts py s.config_snapshot ≡ some limit)
                  × IsRefused s limit out)))

  wrong_code-Refused :
      (s : VerificationStepRun) (state : Session)
      → ((max_attempts py s.config_snapshot ≡ none)
          × ((wrong_code py now (counted s) state).0 ≡ err Error.unhandled))
        ⊎ ((limit : ℤ) × (max_attempts py s.config_snapshot ≡ some limit)
            × IsRefused s limit (wrong_code py now (counted s) state).0)
  unfolding mark_retry_or_fail
  wrong_code-Refused s state = elim (Option-cases (max_attempts py s.config_snapshot)) [
    | inl e ↦ inl (e, rw e refl)
    | inr (limit, e) ↦ elim (Bool-cases (reaches (suc s.attempt_count) limit)) [
      | inl over ↦ inr (
        limit,
        e,
        (
          mark_retry_or_fail now limit (counted s),
          rw e refl,
          rw over refl,
          inl (over, rw over refl, rw over refl),
        ),
      )
      | inr more ↦ inr (
        limit,
        e,
        (
          mark_retry_or_fail now limit (counted s),
          rw e refl,
          rw more refl,
          inr (more, rw more refl, rw more refl),
        ),
      )
    ]
  ]

  compared_code-Checked :
      (code expected : String) (s t : VerificationStepRun) (state : Session)
      → (t.status ≡ StepStatus.completed)
        × ((t.outcome ≡ some StepOutcome.pass) × (t.attempt_count ≡ suc s.attempt_count))
      → IsChecked code expected s
          ((if strip code == expected then pure t else wrong_code py now (counted s)) state).0
  compared_code-Checked code expected s t state (done, (passes, once)) =
      elim (Bool-cases (strip code == expected)) [
        | inl e ↦ inl (e, (t, rw e refl, done, passes, once))
        | inr e ↦ inr (e, rw e (wrong_code-Refused s state))
      ]

  fayda-Checked :
      (code expected : String) (found : Json) (s : VerificationStepRun) (state : Session)
      → fayda_expected found s ≡ some expected
      → IsChecked code expected s (answer_profile py now code found (counted s) state).0
  fayda-Checked code expected (dict profile) s state e =
      let same : fayda_code py profile s.config_snapshot ≡ expected = ground (arith, e) in
      rw same (
        compared_code-Checked code expected s (fayda_passed py now profile (counted s)) state
          (refl, (refl, refl)))
  fayda-Checked code expected _ s state e = absurd (ground (arith, e))

  give_code-Checked :
      (code expected : String) (flow : Fields) (s : VerificationStepRun) (state : Session)
      → expected_code flow s ≡ some expected
      → IsChecked code expected s (give_code py now code flow (counted s) state).0
  unfolding expected_code
  give_code-Checked code expected flow s state e =
      elim (Bool-cases (s.adapter_key == "demo_phone_otp")) [
        | inl phone ↦
            let same : demo_code py s.config_snapshot "111111" ≡ expected =
              ground (arith, phone, e) in
            rw (phone, same)
              (compared_code-Checked code expected s (phone_passed py now (counted s)) state
                (refl, (refl, refl)))
        | inr other ↦ elim (Bool-cases (s.adapter_key == "demo_fayda_otp")) [
          | inl fayda ↦
              let found =
                get (demo_registry flow s.config_snapshot) (input_text py now s "national_id") in
              let known : fayda_expected found s ≡ some expected =
                ground (arith, other, fayda, e) in
              rw (other, fayda) (fayda-Checked code expected found s state known)
          | inr neither ↦ absurd (ground (arith, other, neither, e))
        ]
      ]

  -- A code is given for a step whose adapter expects one. The step passes exactly where the code, its
  -- surrounding blanks left out, is the expected one. Another code counts against the limit, which
  -- fails the step when it is reached and else leaves it waiting; a limit that is no number raises.
  pub apply_user_action-Checked :
      (flow payload : Fields) (s : VerificationStepRun) (state : Session) (code expected : String)
      → filled (get payload "otp_code") ≡ some code
      → expected_code flow s ≡ some expected
      → IsChecked code expected s (apply_user_action py now flow payload s state).0
  unfolding apply_user_action
  apply_user_action-Checked flow payload s state code expected given e =
      rw given (give_code-Checked code expected flow s state e)
