-- ===== src/Templates/Published.antt =====
-- A published version stays as it is.
use onboarding_and_verificat.Prelude.{
  ℕ, ◌≡◌, sym, ◌∙◌, subst, inl, inr, true, false, some, List, find, ◌is◌, is_iff, find-update_other,
  find-keep_other, Bool-cases,
}
use onboarding_and_verificat.Model.Template.{TenantTemplateDefinition}
use onboarding_and_verificat.Model.Db.{Db}
use onboarding_and_verificat.Submissions.Access.{Context}
use onboarding_and_verificat.Templates.Service.{at_version}
use onboarding_and_verificat.Templates.Requests.{
  Request, after, Reach, here, next, kept, stepped, removed, after-Change,
}
use onboarding_and_verificat.Templates.Review.{Step-id}

other_version :
    (i j : ℕ) (x v : TenantTemplateDefinition) (vs : List TenantTemplateDefinition)
    → find (at_version i) vs ≡ some x
    → x.is_draft ≡ false
    → find (at_version j) vs ≡ some v
    → v.is_draft ≡ true
    → (i is j) ≡ false
other_version i j x v vs found closed found_v d = elim (Bool-cases (i is j)) [
  | inl e ↦
      let found_v' =
        subst (λ k. find (at_version k) vs ≡ some v) (sym ((is_iff i j).0 e)) found_v in
      cc
  | inr e ↦ e
]

after-published :
    (i : ℕ) (x : TenantTemplateDefinition) (ctx : Context) (r : Request) (db : Db)
    → x.is_draft ≡ false
    → find (at_version i) db.definitions ≡ some x
    → find (at_version i) (after ctx r db).definitions ≡ some x
after-published i x ctx r db closed found = elim (after-Change ctx r db) [
  | kept e ↦ rw e found
  | stepped j v f at d step e ↦ rw e (
      find-update_other (λ w. w.id) i j f db.definitions
        (other_version i j x v db.definitions found closed at d) (Step-id v f step)
      ∙ found)
  | removed j v at d e ↦ rw e (
      find-keep_other (λ w. w.id) i j db.definitions
        (other_version i j x v db.definitions found closed at d)
      ∙ found)
]

-- No sequence of requests on versions changes or deletes a published version of a template.
pub published_is_frozen :
    (i : ℕ) (x : TenantTemplateDefinition) (start db : Db)
    → x.is_draft ≡ false
    → find (at_version i) start.definitions ≡ some x
    → Reach start db
    → find (at_version i) db.definitions ≡ some x
published_is_frozen i x start _ closed found here = found
published_is_frozen i x start _ closed found (next {db} ctx r reach) =
    after-published i x ctx r db closed (published_is_frozen i x start db closed found reach)
