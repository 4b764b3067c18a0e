-- ===== src/Products/Active.antt =====
-- What an active product keeps.
use onboarding_and_verificat.Prelude.{ℕ, ◌≡◌, true, false, some, ◌is◌, find}
use onboarding_and_verificat.Model.Product.{Product}
use onboarding_and_verificat.Model.Db.{Db}
use onboarding_and_verificat.Products.Service.{is_active, at_product}
use onboarding_and_verificat.Products.Requests.{Request, deactivate}

-- The request does not deactivate the product `i`.
abbrev pub IsNotDeactivating : ℕ → Request → Type 0
IsNotDeactivating i (deactivate j) = (i is j) ≡ false
IsNotDeactivating i _ = Unit

-- The product `i` is there and active, with the code and the template of `x`.
abbrev pub IsLive : ℕ → Product → Db → Type 0
IsLive i x db =
    (y : Product) × (find (at_product i) db.products ≡ some y)
    × (is_active y.status ≡ true)
    × (y.product_code ≡ x.product_code)
    × (y.template_id ≡ x.template_id)
