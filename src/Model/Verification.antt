-- ===== src/Model/Verification.antt =====
-- Verification runs and their steps (app/models/tenant/verification.py). A run holds its steps, in the
-- order of their creation. The text columns `status` and `outcome` are enumerations of what is
-- written to them.
use onboarding_and_verificat.Prelude.{ℕ, String, Bool, Option, List}
use onboarding_and_verificat.Prelude.Json.{Fields}

-- VerificationStepRun.status
pub data StepStatus : Type 0 where
  pending waiting_user_action completed failed skipped expired : StepStatus

-- VerificationStepRun.outcome
pub data StepOutcome : Type 0 where
  pass fail review pending : StepOutcome

-- VerificationRun.status
pub data RunStatus : Type 0 where
  pending in_progress waiting_user_action completed failed manual_review : RunStatus

-- class VerificationStepRun
pub record VerificationStepRun : Type 0 where
  pub id : ℕ
  pub submission_id : ℕ
  pub step_key : String
  pub display_name : Option String
  pub step_type : String
  pub adapter_key : String
  pub status : StepStatus
  pub outcome : Option StepOutcome
  pub attempt_count : ℕ
  pub waiting_for : Option String
  pub correlation_id : Option String
  pub depends_on : List String
  pub config_snapshot : Fields
  pub input_snapshot : Fields
  pub output_snapshot : Fields
  pub result_snapshot : Fields
  pub action_schema : Fields
  pub error_details : Fields
  pub started_at : Option ℕ
  pub completed_at : Option ℕ

-- class VerificationRun
pub record VerificationRun : Type 0 where
  pub id : ℕ
  pub submission_id : ℕ
  pub template_version_id : ℕ
  pub flow_key : String
  pub journey : String
  pub status : RunStatus
  pub decision : Option String
  pub kyc_level : Option String
  pub current_step_key : Option String
  pub is_active : Bool
  pub rules_snapshot : Fields
  pub facts_snapshot : Fields
  pub result_snapshot : Fields
  pub started_at : ℕ
  pub completed_at : Option ℕ
  pub deferred_until : Option ℕ
  pub steps : List VerificationStepRun
