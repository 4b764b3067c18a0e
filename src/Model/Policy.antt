-- ===== src/Model/Policy.antt =====
-- Authorization policies (app/models/public/authz_policy.py).
use onboarding_and_verificat.Prelude.{ℕ, String, Option}
use onboarding_and_verificat.Prelude.Json.{Fields}

-- class AuthzPolicy
pub record AuthzPolicy : Type 0 where
  pub scope : String
  pub tenant_id : Option ℕ
  pub version : ℕ
  pub policy : Fields
