-- ===== src/Verifications/Actions.antt =====
-- The user's answer to a challenge: the code is compared, and a wrong one counts against the attempts.
use onboarding_and_verificat.Prelude.{
  ℕ, suc, String, Bool, true, if◌then◌else◌, Option, none, some, ◌==◌, leb, strip,
}
use onboarding_and_verificat.Prelude.Int.{ℤ, pos, negsuc}
use onboarding_and_verificat.Prelude.Json.{Json, Fields, bool, str, dict, end, field, get, lookup}
use onboarding_and_verificat.Model.Verification.{StepStatus, StepOutcome, VerificationStepRun}
use onboarding_and_verificat.Session.{Error, Action, pure, raise, or_raise, ◌>>=◌}
use onboarding_and_verificat.Verifications.Values.{Python, truthy, or_else, str_of}
use onboarding_and_verificat.Verifications.Steps.{
  note, filled, fail_step, demo_registry, demo_code, fayda_code,
}

-- Whether `count >= limit`
abbrev pub reaches : ℕ → ℤ → Bool
reaches count (pos limit) = leb limit count
reaches count (negsuc n) = true

-- _mark_retry_or_fail
unfoldable pub mark_retry_or_fail : ℕ → ℤ → VerificationStepRun → VerificationStepRun
mark_retry_or_fail now limit s =
    if reaches s.attempt_count limit
    then record s {
      completed_at = some now;
      status = StepStatus.failed;
      outcome = some StepOutcome.fail;
      waiting_for = none;
      action_schema = end;
      error_details =
          note "max_attempts_reached" "The verification step exhausted its allowed OTP attempts.";
      result_snapshot =
          field "outcome" (str "fail") (field "reason" (str "max_attempts_reached") end);
    }
    else record s {
      status = StepStatus.waiting_user_action;
      outcome = some StepOutcome.pending;
      error_details = note "invalid_otp" "The provided OTP code is invalid. Try again.";
    }

-- The next attempt.
abbrev pub counted : VerificationStepRun → VerificationStepRun
counted s = record s { attempt_count = suc s.attempt_count; error_details = end }

abbrev pub passed_step : ℕ → Fields → Fields → VerificationStepRun → VerificationStepRun
passed_step now output attributes s = record s {
  completed_at = some now;
  status = StepStatus.completed;
  outcome = some StepOutcome.pass;
  waiting_for = none;
  action_schema = end;
  output_snapshot = output;
  result_snapshot = field "outcome" (str "pass") (field "attributes" (dict attributes) end);
}

abbrev fayda_attributes : String → Fields → Fields
fayda_attributes national_id profile = field "national_id" (str national_id) (
    field "first_name" (get profile "first_name") (
      field "last_name" (get profile "last_name") (
        field "registered_phone" (get profile "registered_phone")
          (field "date_of_birth" (get profile "date_of_birth") end))))

-- int(cfg.get("max_attempts", 3)); `none` where it raises
abbrev pub max_attempts : Python → Fields → Option ℤ
max_attempts py cfg = elim (lookup "max_attempts" cfg) [
  | none ↦ some (pos 3)
  | some j ↦ py.to_int j
]

module _ (py : Python) (now : ℕ) where
  abbrev pub wrong_code : VerificationStepRun → Action VerificationStepRun
  wrong_code s = do
    limit ← or_raise (max_attempts py s.config_snapshot) Error.unhandled
    pure (mark_retry_or_fail now limit s)

  -- str(step.input_snapshot.get(key) or "")
  abbrev pub input_text : VerificationStepRun → String → String
  input_text s key = str_of py (or_else py (get s.input_snapshot key) (str ""))

  abbrev pub phone_passed : VerificationStepRun → VerificationStepRun
  phone_passed s =
      let phone = str (input_text s "phone_number") in
      passed_step now (field "phone_number" phone (field "verified" (bool true) end))
        (field "phone_number" phone (field "phone_verified" (bool true) end)) s

  abbrev pub answer_phone : String → VerificationStepRun → Action VerificationStepRun
  answer_phone code s =
      if strip code == demo_code py s.config_snapshot "111111"
      then pure (phone_passed s)
      else wrong_code s

  abbrev pub fayda_passed : Fields → VerificationStepRun → VerificationStepRun
  fayda_passed profile s =
      let attributes = fayda_attributes (input_text s "national_id") profile in
      passed_step now (field "attributes" (dict attributes) end) attributes s

  abbrev pub no_profile : Json → VerificationStepRun → Action VerificationStepRun
  no_profile found s =
      if truthy py found
      then raise Error.unhandled
      else pure (
          fail_step
            (note "fayda_profile_not_found"
              "No Fayda demo profile found for the given national ID.")
            s)

  abbrev pub answer_profile : String → Json → VerificationStepRun → Action VerificationStepRun
  answer_profile code (dict profile) s =
      if strip code == fayda_code py profile s.config_snapshot
      then pure (fayda_passed profile s)
      else wrong_code s
  answer_profile code found s = no_profile found s

  abbrev pub answer_fayda : String → Fields → VerificationStepRun → Action VerificationStepRun
  answer_fayda code flow s =
      answer_profile code (get (demo_registry flow s.config_snapshot) (input_text s "national_id"))
        s

  abbrev pub give_code : String → Fields → VerificationStepRun → Action VerificationStepRun
  give_code code flow s =
      if s.adapter_key == "demo_phone_otp"
      then answer_phone code s
      else if s.adapter_key == "demo_fayda_otp"
      then answer_fayda code flow s
      else raise Error.unsupported_adapter

  -- _apply_user_action, with the step as it leaves it
  unfoldable pub apply_user_action :
      Fields → Fields → VerificationStepRun → Action VerificationStepRun
  apply_user_action flow payload s = do
    code ← or_raise (filled (get payload "otp_code")) Error.otp_code_missing
    give_code code flow (counted s)
