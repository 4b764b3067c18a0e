-- ===== src/Products/Requests.antt =====
-- The requests of app/routes/products/routes.py that write, any sequence of them, and the change that
-- each makes to what is committed.
use onboarding_and_verificat.Prelude.{
  ℕ, ◌≡◌, refl, inl, inr, true, false, ◌&&◌, some, arith, find, is_some, Bool-cases, Option-cases,
}
use onboarding_and_verificat.Model.Product.{draft, active, inactive, Product}
use onboarding_and_verificat.Model.Db.{Db}
use onboarding_and_verificat.Session.{Action, pure, serve, ◌>>◌}
use onboarding_and_verificat.Products.Service.{
  is_active, at_product, write_product, template_usable, code_taken, ProductCreate, new_product,
  add_product, create_product, get_product, ProductUpdate, updated_product, new_template,
  touches_config, update_product, without_product, delete_product, product_status, activate_product,
  deactivate_product,
}

-- A request, with the id that a new product gets.
pub data Request : Type 0 where
  create : ℕ → ProductCreate → Request
  update : ℕ → ProductUpdate → Request
  delete activate deactivate : ℕ → Request

unfoldable pub handle : Request → Action (Unit {0})
handle (create i request) = create_product i request >> pure tt
handle (update i u) = update_product i u >> pure tt
handle (delete i) = delete_product i
handle (activate i) = activate_product i >> pure tt
handle (deactivate i) = deactivate_product i >> pure tt

-- What is committed after a request.
unfoldable pub after : Request → Db → Db
after r db = (serve (handle r) db).1

-- Sequences of requests that are `Allowed`.
pub data Reach (Allowed : Request → Type 0) (start : Db) : Db → Type 0 where
  here : Reach Allowed start start
  next :
      {db : Db} (r : Request)
      → Reach Allowed start db
      → Allowed r
      → Reach Allowed start (after r db)

-- The changes that the requests make.
pub data Change (r : Request) (db db' : Db) : Type 0 where
  kept : db' ≡ db → Change r db db'
  added :
      (x : Product)
      → x.status ≡ draft
      → code_taken x.id x.product_code db ≡ false
      → db' ≡ add_product x db
      → Change r db db'
  edited :
      (i : ℕ) (x : Product) (u : ProductUpdate)
      → find (at_product i) db.products ≡ some x
      → (is_active x.status && touches_config u) ≡ false
      → code_taken i (updated_product u x).product_code db ≡ false
      → db' ≡ write_product i (updated_product u) db
      → Change r db db'
  removed :
      (i : ℕ) (x : Product)
      → find (at_product i) db.products ≡ some x
      → is_active x.status ≡ false
      → db' ≡ without_product i db
      → Change r db db'
  activated :
      (i : ℕ) (x : Product)
      → find (at_product i) db.products ≡ some x
      → is_active x.status ≡ false
      → is_some x.template_id ≡ true
      → db' ≡ write_product i (product_status active) db
      → Change r db db'
  deactivated :
      (i : ℕ) (x : Product)
      → r ≡ deactivate i
      → find (at_product i) db.products ≡ some x
      → is_active x.status ≡ true
      → db' ≡ write_product i (product_status inactive) db
      → Change r db db'

pub after-Change : (r : Request) (db : Db) → Change r db (after r db)
unfolding after handle create_product new_product update_product delete_product activate_product
    deactivate_product get_product
after-Change (create i request) db = elim (Bool-cases (template_usable request.template_id db)) [
  | inl usable ↦ elim (Bool-cases (code_taken i request.product_code db)) [
    | inl taken ↦ kept (ground arith)
    | inr free ↦ added (new_product i request) refl free (ground arith)
  ]
  | inr unusable ↦ kept (ground arith)
]
after-Change (update i u) db = elim (Option-cases (find (at_product i) db.products)) [
  | inl e ↦ kept (ground arith)
  | inr (x, e) ↦ elim (Bool-cases (is_active x.status && touches_config u)) [
    | inl touched ↦ kept (ground arith)
    | inr fine ↦ elim (Bool-cases (template_usable (new_template u) db)) [
      | inl usable ↦ elim (Bool-cases (code_taken i (updated_product u x).product_code db)) [
        | inl taken ↦ kept (ground arith)
        | inr free ↦ edited i x u e fine free (ground arith)
      ]
      | inr unusable ↦ kept (ground arith)
    ]
  ]
]
after-Change (delete i) db = elim (Option-cases (find (at_product i) db.products)) [
  | inl e ↦ kept (ground arith)
  | inr (x, e) ↦ elim (Bool-cases (is_active x.status)) [
    | inl a ↦ kept (ground arith)
    | inr a ↦ removed i x e a (ground arith)
  ]
]
after-Change (activate i) db = elim (Option-cases (find (at_product i) db.products)) [
  | inl e ↦ kept (ground arith)
  | inr (x, e) ↦ elim (Bool-cases (is_active x.status)) [
    | inl a ↦ kept (ground arith)
    | inr a ↦ elim (Bool-cases (is_some x.template_id)) [
      | inl t ↦ activated i x e a t (ground arith)
      | inr t ↦ kept (ground arith)
    ]
  ]
]
after-Change (deactivate i) db = elim (Option-cases (find (at_product i) db.products)) [
  | inl e ↦ kept (ground arith)
  | inr (x, e) ↦ elim (Bool-cases (is_active x.status)) [
    | inl a ↦ deactivated i x refl e a (ground arith)
    | inr a ↦ kept (ground arith)
  ]
]
