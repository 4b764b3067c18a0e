-- ===== src/Products/Service.antt =====
-- The operations on products. The database keeps `product_code` unique (a unique index): a commit that
-- would break it fails with an IntegrityError.
use onboarding_and_verificat.Prelude.{
  ℕ, String, Bool, true, false, not, ◌&&◌, Option, none, some, [], ◌∷◌, ◌++◌, ◌is◌, ◌==◌, any, find,
  keep, update, is_some,
}
use onboarding_and_verificat.Prelude.Int.{pos}
use onboarding_and_verificat.Model.Product.{ProductStatus, draft, active, inactive, Product}
use onboarding_and_verificat.Model.Submission.{Submission}
use onboarding_and_verificat.Model.Db.{Db}
use onboarding_and_verificat.Session.{
  Error, Action, pure, gets, or_raise, guard, modify, commit, ◌>>=◌, ◌>>◌,
}

abbrev pub is_active : ProductStatus → Bool
is_active draft = false
is_active active = true
is_active inactive = false

abbrev pub at_product : ℕ → Product → Bool
at_product i x = x.id is i

abbrev pub write_product : ℕ → (Product → Product) → Db → Db
write_product i f db = record db { products = update (at_product i) f db.products }

-- Whether a template, if one is named, exists and is active.
abbrev pub template_usable : Option ℕ → Db → Bool
template_usable none db = true
template_usable (some template) db =
    is_some (find (λ t. (t.id is template) && t.is_active) db.templates)

-- _validate_template_active, of an optional template
abbrev validate_template_active : Option ℕ → Action (Unit {0})
validate_template_active template_id = do
  usable ← gets (template_usable template_id)
  guard usable Error.inactive_template

-- Whether the unique index on product codes (alembic/versions/002_tenant_schema_tables.py), whose error
-- the service reports, refuses the code for the product `i`.
abbrev pub code_taken : ℕ → String → Db → Bool
code_taken i code db = any (λ x. not (at_product i x) && (x.product_code == code)) db.products

-- class ProductCreate
pub record ProductCreate : Type 0 where
  pub name : String
  pub description : Option String
  pub product_code : String
  pub template_id : Option ℕ

unfoldable pub new_product : ℕ → ProductCreate → Product
new_product i request = record {
  id = i;
  name = request.name;
  product_code = request.product_code;
  description = request.description;
  status = draft;
  version = pos 1;
  template_id = request.template_id;
}

abbrev pub add_product : Product → Db → Db
add_product x db = record db { products = db.products ++ x ∷ [] }

unfoldable pub create_product : ℕ → ProductCreate → Action Product
create_product i request = do
  validate_template_active request.template_id
  taken ← gets (code_taken i request.product_code)
  guard (not taken) Error.product_code_taken
  modify (add_product (new_product i request))
  commit
  pure (new_product i request)

unfoldable pub get_product : ℕ → Action Product
get_product i = do
  found ← gets (λ db. find (at_product i) db.products)
  or_raise found Error.product_not_found

-- class ProductUpdate: `none` is a field that the request did not set. (The columns `name` and
-- `product_code` take no null.)
pub record ProductUpdate : Type 0 where
  pub name : Option String
  pub description : Option (Option String)
  pub product_code : Option String
  pub template_id : Option (Option ℕ)

abbrev set_or {ℓ} : {A : Type ℓ} → Option A → A → A
set_or none old = old
set_or (some new) old = new

-- The loop of `setattr` over the fields that are set.
unfoldable pub updated_product : ProductUpdate → Product → Product
updated_product u x = record x {
  name = set_or u.name x.name;
  description = set_or u.description x.description;
  product_code = set_or u.product_code x.product_code;
  template_id = set_or u.template_id x.template_id;
}

-- updates["template_id"], or `None`
abbrev pub new_template : ProductUpdate → Option ℕ
new_template u = elim u.template_id [ none ↦ none | some t ↦ t ]

-- An active product keeps its code and its template.
abbrev pub touches_config : ProductUpdate → Bool
touches_config u = elim u.product_code [ some _ ↦ true | none ↦ is_some u.template_id ]

unfoldable pub update_product : ℕ → ProductUpdate → Action Product
update_product i u = do
  x ← get_product i
  guard (not (is_active x.status && touches_config u)) Error.product_is_active
  validate_template_active (new_template u)
  taken ← gets (code_taken i (updated_product u x).product_code)
  guard (not taken) Error.product_code_taken
  modify (write_product i (updated_product u))
  commit
  pure (updated_product u x)

abbrev refers_to : ℕ → Submission → Bool
refers_to i s = elim s.product_id [ none ↦ false | some product ↦ product is i ]

-- The deletion of a product; the submissions that refer to it lose the reference (ON DELETE SET NULL).
abbrev pub without_product : ℕ → Db → Db
without_product i db = record db {
  products = keep (λ x. not (at_product i x)) db.products;
  submissions = update (refers_to i) (λ s. record s { product_id = none }) db.submissions;
}

unfoldable pub delete_product : ℕ → Action (Unit {0})
delete_product i = do
  x ← get_product i
  guard (not (is_active x.status)) Error.product_is_active
  modify (without_product i)
  commit

abbrev pub product_status : ProductStatus → Product → Product
product_status status x = record x { status = status }

unfoldable pub activate_product : ℕ → Action Product
activate_product i = do
  x ← get_product i
  guard (not (is_active x.status)) Error.product_already_active
  guard (is_some x.template_id) Error.product_without_template
  modify (write_product i (product_status active))
  commit
  pure (product_status active x)

unfoldable pub deactivate_product : ℕ → Action Product
deactivate_product i = do
  x ← get_product i
  guard (is_active x.status) Error.product_not_active
  modify (write_product i (product_status inactive))
  commit
  pure (product_status inactive x)
