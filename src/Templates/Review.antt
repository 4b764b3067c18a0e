-- ===== src/Templates/Review.antt =====
-- Who reviewed a version: the four-eyes rule of templates.
use onboarding_and_verificat.Prelude.{
  String, ◌≡◌, ◌≢◌, refl, inl, inr, true, false, ◌&&◌, some, arith, ◌==◌, eq_iff, Found,
  Found-update, Found-keep, Bool-cases,
}
use onboarding_and_verificat.Model.Template.{TenantTemplateDefinition}
use onboarding_and_verificat.Model.Db.{Db}
use onboarding_and_verificat.Submissions.Access.{Context}
use onboarding_and_verificat.Templates.Service.{
  is_pending, is_approved, is_reviewed, updated_version, is_submitter, sets_any,
}
use onboarding_and_verificat.Templates.Requests.{
  Request, after, Reach, here, next, Step, changed, submitted, accepted, returned, released, kept,
  stepped, removed, after-Change,
}

-- Somebody submitted the version.
abbrev HasSubmitter : TenantTemplateDefinition → Type 0
HasSubmitter v = (s : String) × (v.submitted_for_review_by ≡ some s)

-- The version was submitted by a user and reviewed by another (by any, if the name is empty).
abbrev pub HasOtherReviewer : TenantTemplateDefinition → Type 0
HasOtherReviewer v =
    (s : String) × (r : String) × (v.submitted_for_review_by ≡ some s)
    × (v.reviewed_by ≡ some r)
    × ((s == "") ≡ false → r ≢ s)

abbrev pub WasReviewed : TenantTemplateDefinition → Type 0
WasReviewed v =
    (is_pending v.review_status ≡ true → HasSubmitter v)
    × (is_approved v.review_status ≡ true → HasOtherReviewer v)
    × (v.is_draft ≡ false → is_approved v.review_status ≡ true)

abbrev pub WereReviewed : Db → Type 0
WereReviewed db = Found (λ v. v.id) WasReviewed db.definitions

other_user :
    (ctx : Context) (s : String)
    → is_submitter ctx (some s) ≡ false
    → (s == "") ≡ false
    → ctx.user ≢ s
other_user ctx s h named same = ground (arith, eq_iff ctx.user s)

Step-WasReviewed :
    (v : TenantTemplateDefinition) (f : TenantTemplateDefinition → TenantTemplateDefinition)
    → v.is_draft ≡ true
    → Step v f
    → WasReviewed v
    → WasReviewed (f v)
unfolding updated_version
Step-WasReviewed v f d (changed u) h =
    elim (Bool-cases (sets_any u && is_reviewed v.review_status)) [
      | inl reset ↦ rw reset (λ p. cc, λ a. cc, λ closed. cc)
      | inr keeps ↦ rw keeps h
    ]
Step-WasReviewed v f d (submitted ctx) h = (λ p. (ctx.user, refl), λ a. cc, λ closed. cc)
Step-WasReviewed v f d (accepted ctx notes p other) h =
    let (s, by) = h.0 p in
    (λ q. cc, λ a. (s, ctx.user, by, refl, other_user ctx s (rw by at other)), λ closed. refl)
Step-WasReviewed v f d (returned ctx notes) h = (λ p. cc, λ a. cc, λ closed. cc)
Step-WasReviewed v f d (released a) h = (h.0, h.1, λ closed. a)

pub Step-id :
    (v : TenantTemplateDefinition) (f : TenantTemplateDefinition → TenantTemplateDefinition)
    → Step v f
    → (w : TenantTemplateDefinition) → (f w).id ≡ w.id
unfolding updated_version
Step-id v f (changed u) w = elim (Bool-cases (sets_any u && is_reviewed w.review_status)) [
  | inl reset ↦ rw reset refl
  | inr keeps ↦ rw keeps refl
]
Step-id v f (submitted ctx) w = refl
Step-id v f (accepted ctx notes p other) w = refl
Step-id v f (returned ctx notes) w = refl
Step-id v f (released a) w = refl

after-WereReviewed :
    (ctx : Context) (r : Request) (db : Db) → WereReviewed db → WereReviewed (after ctx r db)
after-WereReviewed ctx r db h = elim (after-Change ctx r db) [
  | kept e ↦ rw e h
  | stepped i v f at d step e ↦ rw e (
      Found-update (λ x. x.id) WasReviewed db.definitions i f v at (Step-id v f step)
        (Step-WasReviewed v f d step (h i v at)) h)
  | removed i v at d e ↦ rw e (Found-keep (λ x. x.id) WasReviewed db.definitions i h)
]

-- From a database where this holds and every pending version has a submitter, along any sequence
-- of requests with authentication on, every approved version of a template was submitted by a user
-- and approved by another (by anybody, if the submitter's name was empty), and every published
-- version is approved.
pub Reach-WereReviewed : (start db : Db) → WereReviewed start → Reach start db → WereReviewed db
Reach-WereReviewed start _ h here = h
Reach-WereReviewed start _ h (next {db} ctx r reach) =
    after-WereReviewed ctx r db (Reach-WereReviewed start db h reach)
