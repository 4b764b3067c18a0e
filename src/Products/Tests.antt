-- ===== src/Products/Tests.antt =====
-- The theorems on products at one product and the template it uses.
use onboarding_and_verificat.Prelude.{true, none, some, [], ◌∷◌}
use onboarding_and_verificat.Prelude.Int.{pos}
use onboarding_and_verificat.Model.Status.{kyc}
use onboarding_and_verificat.Model.Product.{Product, active}
use onboarding_and_verificat.Model.Template.{TenantTemplate}
use onboarding_and_verificat.Model.Db.{Db}
use onboarding_and_verificat.Products.Requests.{create, update, delete, activate, after}

abbrev template : TenantTemplate
template = record {
  id = 1;
  name = "onboarding";
  description = none;
  template_type = kyc;
  baseline_level = pos 1;
  is_active = true;
  active_version_id = none;
}

abbrev start : Db
start = record {
  templates = template ∷ [];
  definitions = [];
  reviews = [];
  products = [];
  submissions = [];
  status_history = [];
  comments = [];
  answers = [];
  rule_sets = [];
  verification_runs = [];
  baseline_templates = [];
  baseline_definitions = [];
  authz_policies = [];
}

abbrev launched : Db
launched = after (activate 9) (
    after
      (create 9 (record {
        name = "Savings";
        description = none;
        product_code = "SAV";
        template_id = some 1;
      }))
      start)

abbrev savings : Product
savings = record {
  id = 9;
  name = "Savings";
  product_code = "SAV";
  description = none;
  status = active;
  version = pos 1;
  template_id = some 1;
}

-- A change of the code is tried, then a deletion.
abbrev later : Db
later = after (delete 9) (
    after
      (update 9
        (record { name = none; description = none; product_code = some "X"; template_id = none }))
      launched)
