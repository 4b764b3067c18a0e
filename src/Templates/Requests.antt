-- ===== src/Templates/Requests.antt =====
-- The requests of app/routes/tenant_templates/routes.py on versions that write, any sequence of them,
-- and the change that each makes to the versions.
use onboarding_and_verificat.Prelude.{
  ℕ, String, ◌≡◌, inl, inr, Bool, true, false, Option, some, [], arith, find, ◌is◌, Bool-cases,
  Option-cases,
}
use onboarding_and_verificat.Model.Status.{approved, changes_requested}
use onboarding_and_verificat.Model.Template.{TenantTemplateDefinition}
use onboarding_and_verificat.Model.Db.{Db}
use onboarding_and_verificat.Session.{Action, serve}
use onboarding_and_verificat.Submissions.Access.{Context}
use onboarding_and_verificat.Templates.Service.{
  at_version, write_version, is_pending, is_approved, get_definition, get_tenant_template,
  TenantTemplateDefinitionUpdate, updated_version, update_definition, without_version,
  delete_definition, submitted_version, submit_for_review, judged, is_submitter, approve,
  request_changes, names_version,
}
use onboarding_and_verificat.Templates.Publish.{collision, published_version, publish_definition}

-- A request on a version of a template, with the id that a new row of the review history gets.
pub data Request : Type 0 where
  update : ℕ → ℕ → TenantTemplateDefinitionUpdate → Request
  delete : ℕ → ℕ → Request
  submit accept return : ℕ → ℕ → ℕ → Option String → Request
  publish : ℕ → ℕ → Bool → Request

-- The setting AUTH_ENABLED is on.
unfoldable pub handle : Context → Request → Action (Unit {0})
handle ctx (update t i u) = update_definition t i u
handle ctx (delete t i) = delete_definition t i
handle ctx (submit rid t i notes) = submit_for_review ctx rid t i notes
handle ctx (accept rid t i notes) = approve true ctx rid t i notes
handle ctx (return rid t i notes) = request_changes ctx rid t i notes
handle ctx (publish t i set_as_active) = publish_definition t i set_as_active

-- What is committed after a request.
unfoldable pub after : Context → Request → Db → Db
after ctx r db = (serve (handle ctx r) db).1

pub data Reach (start : Db) : Db → Type 0 where
  here : Reach start start
  next : {db : Db} (ctx : Context) (r : Request) → Reach start db → Reach start (after ctx r db)

-- The steps that a request makes on a version that is a draft.
pub data Step (v : TenantTemplateDefinition)
    : (TenantTemplateDefinition → TenantTemplateDefinition) → Type 0 where
  changed : (u : TenantTemplateDefinitionUpdate) → Step v (updated_version u)
  submitted : (ctx : Context) → Step v (submitted_version ctx)
  accepted :
      (ctx : Context) (notes : Option String)
      → is_pending v.review_status ≡ true
      → is_submitter ctx v.submitted_for_review_by ≡ false
      → Step v (judged ctx approved notes)
  returned : (ctx : Context) (notes : Option String) → Step v (judged ctx changes_requested notes)
  released : is_approved v.review_status ≡ true → Step v published_version

-- The changes that the requests make to the versions.
pub data Change (db db' : Db) : Type 0 where
  kept : db'.definitions ≡ db.definitions → Change db db'
  stepped :
      (i : ℕ) (v : TenantTemplateDefinition)
      (f : TenantTemplateDefinition → TenantTemplateDefinition)
      → find (at_version i) db.definitions ≡ some v
      → v.is_draft ≡ true
      → Step v f
      → db'.definitions ≡ (write_version i f db).definitions
      → Change db db'
  removed :
      (i : ℕ) (v : TenantTemplateDefinition)
      → find (at_version i) db.definitions ≡ some v
      → v.is_draft ≡ true
      → db'.definitions ≡ (without_version i db).definitions
      → Change db db'

pub after-Change : (ctx : Context) (r : Request) (db : Db) → Change db (after ctx r db)
unfolding after handle get_definition get_tenant_template update_definition delete_definition
    submit_for_review approve request_changes publish_definition
after-Change ctx (update t i u) db = elim (Option-cases (find (at_version i) db.definitions)) [
  | inl e ↦ kept (ground arith)
  | inr (v, e) ↦ elim (Bool-cases (v.template_id is t)) [
    | inl own ↦ elim (Bool-cases v.is_draft) [
      | inl d ↦ elim (Bool-cases (is_pending v.review_status)) [
        | inl p ↦ kept (ground arith)
        | inr p ↦ stepped i v (updated_version u) e d (changed u) (ground arith)
      ]
      | inr d ↦ kept (ground arith)
    ]
    | inr other ↦ kept (ground arith)
  ]
]
after-Change ctx (delete t i) db = elim (Option-cases (find (at_version i) db.definitions)) [
  | inl e ↦ kept (ground arith)
  | inr (v, e) ↦ elim (Bool-cases (v.template_id is t)) [
    | inl own ↦ elim (Bool-cases v.is_draft) [
      | inl d ↦ elim (Option-cases (find (λ x. x.id is t) db.templates)) [
        | inl absent ↦ kept (ground arith)
        | inr (template, present) ↦ elim (Bool-cases (is_pending v.review_status)) [
          | inl p ↦ kept (ground arith)
          | inr p ↦ elim (Bool-cases (names_version template.active_version_id i)) [
            | inl n ↦ kept (ground arith)
            | inr n ↦ removed i v e d (ground arith)
          ]
        ]
      ]
      | inr d ↦ elim (Option-cases (find (λ x. x.id is t) db.templates)) [
        | inl absent ↦ kept (ground arith)
        | inr (template, present) ↦ kept (ground arith)
      ]
    ]
    | inr other ↦ kept (ground arith)
  ]
]
after-Change ctx (submit rid t i notes) db =
    elim (Option-cases (find (at_version i) db.definitions)) [
      | inl e ↦ kept (ground arith)
      | inr (v, e) ↦ elim (Bool-cases (v.template_id is t)) [
        | inl own ↦ elim (Bool-cases v.is_draft) [
          | inl d ↦ elim (Bool-cases (is_pending v.review_status)) [
            | inl p ↦ kept (ground arith)
            | inr p ↦ elim (Bool-cases (is_approved v.review_status)) [
              | inl a ↦ kept (ground arith)
              | inr a ↦ stepped i v (submitted_version ctx) e d (submitted ctx) (ground arith)
            ]
          ]
          | inr d ↦ kept (ground arith)
        ]
        | inr other ↦ kept (ground arith)
      ]
    ]
after-Change ctx (accept rid t i notes) db =
    elim (Option-cases (find (at_version i) db.definitions)) [
      | inl e ↦ kept (ground arith)
      | inr (v, e) ↦ elim (Bool-cases (v.template_id is t)) [
        | inl own ↦ elim (Bool-cases v.is_draft) [
          | inl d ↦ elim (Bool-cases (is_pending v.review_status)) [
            | inl p ↦ elim (Bool-cases (is_submitter ctx v.submitted_for_review_by)) [
              | inl s ↦ kept (ground arith)
              | inr s ↦
                  stepped i v (judged ctx approved notes) e d (accepted ctx notes p s)
                    (ground arith)
            ]
            | inr p ↦ kept (ground arith)
          ]
          | inr d ↦ kept (ground arith)
        ]
        | inr other ↦ kept (ground arith)
      ]
    ]
after-Change ctx (return rid t i notes) db =
    elim (Option-cases (find (at_version i) db.definitions)) [
      | inl e ↦ kept (ground arith)
      | inr (v, e) ↦ elim (Bool-cases (v.template_id is t)) [
        | inl own ↦ elim (Bool-cases v.is_draft) [
          | inl d ↦ elim (Bool-cases (is_pending v.review_status)) [
            | inl p ↦
                stepped i v (judged ctx changes_requested notes) e d (returned ctx notes)
                  (ground arith)
            | inr p ↦ kept (ground arith)
          ]
          | inr d ↦ kept (ground arith)
        ]
        | inr other ↦ kept (ground arith)
      ]
    ]
after-Change ctx (publish t i set_as_active) db =
    elim (Option-cases (find (at_version i) db.definitions)) [
      | inl e ↦ kept (ground arith)
      | inr (v, e) ↦ elim (Bool-cases (v.template_id is t)) [
        | inl own ↦ elim (Bool-cases v.is_draft) [
          | inl d ↦ elim (Bool-cases (is_approved v.review_status)) [
            | inl a ↦ elim (Option-cases (collision [] v.question_groups)) [
              | inl clear ↦ elim (Option-cases (find (λ x. x.id is t) db.templates)) [
                | inl absent ↦ kept (ground arith)
                | inr (template, present) ↦ elim (Bool-cases set_as_active) [
                  | inl active ↦ stepped i v published_version e d (released a) (ground arith)
                  | inr inactive ↦ stepped i v published_version e d (released a) (ground arith)
                ]
              ]
              | inr (clash, found) ↦ kept (ground arith)
            ]
            | inr a ↦ kept (ground arith)
          ]
          | inr d ↦ kept (ground arith)
        ]
        | inr other ↦ kept (ground arith)
      ]
    ]
