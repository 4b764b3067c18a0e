-- ===== src/Model/Product.antt =====
-- Products (app/models/tenant/product.py).
use onboarding_and_verificat.Prelude.{ℕ, String, Option}
use onboarding_and_verificat.Prelude.Int.{ℤ}

-- class ProductStatus
pub data ProductStatus : Type 0 where
  draft active inactive : ProductStatus

-- class Product
pub record Product : Type 0 where
  pub id : ℕ
  pub name : String
  pub product_code : String
  pub description : Option String
  pub status : ProductStatus
  pub version : ℤ
  pub template_id : Option ℕ
