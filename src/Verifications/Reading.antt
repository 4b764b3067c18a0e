-- ===== src/Verifications/Reading.antt =====
-- The flow of a submission is only read, and an answer to a step writes nothing itself.
use onboarding_and_verificat.Prelude.{
  ℕ, String, refl, inl, inr, Option-cases, arith, find, ◌is◌, Bool, true, false, if◌then◌else◌,
  Option, none, some, ◌==◌, strip, Bool-cases,
}
use onboarding_and_verificat.Prelude.Json.{Fields, get, Json, dict}
use onboarding_and_verificat.Model.Submission.{Submission}
use onboarding_and_verificat.Session.Keeps.{IsRead, IsRead-bind}
use onboarding_and_verificat.Submissions.Service.{at_id}
use onboarding_and_verificat.Templates.Config.{merged_rules_config}
use onboarding_and_verificat.Verifications.Values.{Python, truthy}
use onboarding_and_verificat.Verifications.Flow.{flow_of, load_flow_context, flow_from}
use onboarding_and_verificat.Model.Verification.{VerificationStepRun}
use onboarding_and_verificat.Session.{Error, pure, or_raise}
use onboarding_and_verificat.Verifications.Steps.{fayda_code, demo_code, filled}
use onboarding_and_verificat.Verifications.Actions.{
  apply_user_action, give_code, counted, wrong_code, max_attempts, answer_profile, fayda_passed,
  phone_passed,
}

merged_rules_config-IsRead : (id : ℕ) → IsRead (merged_rules_config id)
unfolding merged_rules_config
merged_rules_config-IsRead id s =
    elim (Option-cases (find (λ v. v.id is id) s.working.definitions)) [
      | inl e ↦ rw e refl
      | inr (v, e) ↦ rw e refl
    ]

module _ (py : Python) where
  flow_from-IsRead :
      (x : Submission) (key : String) (rules : Fields) → IsRead (flow_from py x key rules)
  unfolding flow_from
  flow_from-IsRead x key rules s = elim (Option-cases (flow_of (get rules "verification_flow"))) [
    | inl e ↦ rw e refl
    | inr (flow, e) ↦ rw e (ground arith)
  ]

  pub load_flow_context-IsRead : (sid : ℕ) (key : String) → IsRead (load_flow_context py sid key)
  unfolding load_flow_context
  load_flow_context-IsRead sid key s =
      elim (Option-cases (find (at_id sid) s.working.submissions)) [
        | inl e ↦ rw e refl
        | inr (x, e) ↦ rw e (
            IsRead-bind (merged_rules_config x.template_version_id) (flow_from py x key)
              (merged_rules_config-IsRead x.template_version_id) (flow_from-IsRead x key) s)
      ]

-- An answer to a step writes nothing itself.
module _ (py : Python) (now : ℕ) where
  wrong_code-IsRead : (s : VerificationStepRun) → IsRead (wrong_code py now s)
  wrong_code-IsRead s state = ground (arith, Option-cases (max_attempts py s.config_snapshot))

  compared-IsRead :
      (right : Bool) (s t : VerificationStepRun)
      → IsRead (if right then pure t else wrong_code py now s)
  compared-IsRead true s t = λ state. refl
  compared-IsRead false s t = wrong_code-IsRead s

  answer_profile-IsRead :
      (code : String) (found : Json) (s : VerificationStepRun)
      → IsRead (answer_profile py now code found s)
  answer_profile-IsRead code (dict profile) s =
      compared-IsRead (strip code == fayda_code py profile s.config_snapshot) s
        (fayda_passed py now profile s)
  answer_profile-IsRead code found s = λ state. ground (arith, Bool-cases (truthy py found))

  give_code-IsRead :
      (code : String) (flow : Fields) (s : VerificationStepRun)
      → IsRead (give_code py now code flow s)
  give_code-IsRead code flow s = elim (Bool-cases (s.adapter_key == "demo_phone_otp")) [
    | inl phone ↦ rw phone (
        compared-IsRead (strip code == demo_code py s.config_snapshot "111111") s
          (phone_passed py now s))
    | inr other ↦ elim (Bool-cases (s.adapter_key == "demo_fayda_otp")) [
      | inl fayda ↦ rw (other, fayda) (answer_profile-IsRead code _ s)
      | inr neither ↦ rw (other, neither) (λ state. refl)
    ]
  ]

  or_raise-IsRead : {A : Type 0} (o : Option A) (e : Error) → IsRead (or_raise o e)
  or_raise-IsRead none e s = refl
  or_raise-IsRead (some a) e s = refl

  pub apply_user_action-IsRead :
      (flow payload : Fields) (s : VerificationStepRun)
      → IsRead (apply_user_action py now flow payload s)
  unfolding apply_user_action
  apply_user_action-IsRead flow payload s =
      IsRead-bind (or_raise (filled (get payload "otp_code")) Error.otp_code_missing)
        (λ code. give_code py now code flow (counted s))
        (or_raise-IsRead (filled (get payload "otp_code")) Error.otp_code_missing)
        (λ code. give_code-IsRead code flow (counted s))
