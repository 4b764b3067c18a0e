-- ===== src/Products/Configured.antt =====
-- An active product has a template, whatever the requests.
use onboarding_and_verificat.Prelude.{◌≡◌, true, is_some, Found}
use onboarding_and_verificat.Model.Product.{Product}
use onboarding_and_verificat.Model.Db.{Db}
use onboarding_and_verificat.Products.Service.{is_active}

-- An active product has a template.
abbrev pub IsConfigured : Product → Type 0
IsConfigured x = is_active x.status ≡ true → is_some x.template_id ≡ true

abbrev pub AreConfigured : Db → Type 0
AreConfigured db = Found (λ x. x.id) IsConfigured db.products
