-- ===== src/Model/Transform.antt =====
-- Transform rule sets and their log (app/models/tenant/transform.py).
use onboarding_and_verificat.Prelude.{ℕ, String, Bool, Option, List}
use onboarding_and_verificat.Prelude.Int.{ℤ}
use onboarding_and_verificat.Prelude.Json.{Fields}
use onboarding_and_verificat.Model.Status.{RuleSetStatus, TransformOperation}

-- class TransformRule
pub record TransformRule : Type 0 where
  pub id : ℕ
  pub source_unique_key : Option String
  pub target_unique_key : String
  pub operation : TransformOperation
  pub params : Fields
  pub display_order : ℤ
  pub is_required : Bool

-- class TransformRuleSet
pub record TransformRuleSet : Type 0 where
  pub id : ℕ
  pub template_id : ℕ
  pub source_version_id : ℕ
  pub target_version_id : ℕ
  pub status : RuleSetStatus
  pub auto_generated : Bool
  pub changelog : Option String
  pub rules : List TransformRule
