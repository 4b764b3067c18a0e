-- ===== src/Templates/Service.antt =====
-- The operations on a version (definition) of a tenant template: its update, its review, its
-- publication and its deletion. The id of a new row of the review history is an argument.
use onboarding_and_verificat.Prelude.{
  ℕ, String, Bool, true, false, not, ◌&&◌, if◌then◌else◌, Option, none, some, [], ◌∷◌, ◌++◌, ◌is◌,
  ◌==◌, find, keep, update,
}
use onboarding_and_verificat.Prelude.Json.{Fields}
use onboarding_and_verificat.Model.Status.{
  DefinitionReviewStatus, draft, pending_review, approved, changes_requested,
  DefinitionReviewAction,
}
use onboarding_and_verificat.Model.Template.{TenantTemplate, TenantTemplateDefinition}
use onboarding_and_verificat.Model.Db.{Db}
use onboarding_and_verificat.Session.{
  Error, Action, pure, gets, or_raise, guard, modify, commit, ◌>>=◌, ◌>>◌,
}
use onboarding_and_verificat.Submissions.Access.{Context}

abbrev pub at_version : ℕ → TenantTemplateDefinition → Bool
at_version i v = v.id is i

abbrev pub write_version : ℕ → (TenantTemplateDefinition → TenantTemplateDefinition) → Db → Db
write_version i f db = record db { definitions = update (at_version i) f db.definitions }

abbrev pub is_pending : DefinitionReviewStatus → Bool
is_pending pending_review = true
is_pending _ = false

abbrev pub is_approved : DefinitionReviewStatus → Bool
is_approved approved = true
is_approved _ = false

abbrev pub is_reviewed : DefinitionReviewStatus → Bool
is_reviewed approved = true
is_reviewed changes_requested = true
is_reviewed _ = false

unfoldable pub get_definition : ℕ → ℕ → Action TenantTemplateDefinition
get_definition template_id i = do
  found ← gets (λ db. find (at_version i) db.definitions)
  v ← or_raise found Error.definition_not_found
  guard (v.template_id is template_id) Error.definition_not_found
  pure v

unfoldable pub get_tenant_template : ℕ → Action TenantTemplate
get_tenant_template i = do
  found ← gets (λ db. find (λ t. t.id is i) db.templates)
  or_raise found Error.template_not_found

-- _assert_definition_editable
abbrev pub assert_editable : TenantTemplateDefinition → Action (Unit {0})
assert_editable v = do
  guard v.is_draft Error.definition_published
  guard (not (is_pending v.review_status)) Error.definition_pending

-- class TenantTemplateDefinitionUpdate: `none` is a field that the request did not set. (The columns
-- `version_tag` and `rules_config` take no null.)
pub record TenantTemplateDefinitionUpdate : Type 0 where
  pub version_tag : Option String
  pub rules_config : Option Fields
  pub changelog : Option (Option String)

abbrev set_or {ℓ} : {A : Type ℓ} → Option A → A → A
set_or none old = old
set_or (some new) old = new

abbrev is_set {ℓ} : {A : Type ℓ} → Option A → Bool
is_set none = false
is_set (some _) = true

-- Whether the request sets any field.
abbrev pub sets_any : TenantTemplateDefinitionUpdate → Bool
sets_any u =
    if is_set u.version_tag
    then true
    else if is_set u.rules_config
    then true
    else is_set u.changelog

abbrev pub reset_review_state : TenantTemplateDefinition → TenantTemplateDefinition
reset_review_state v = record v {
  review_status = draft;
  submitted_for_review_at = none;
  submitted_for_review_by = none;
  reviewed_at = none;
  reviewed_by = none;
  review_notes = none;
}

abbrev patched_version :
    TenantTemplateDefinitionUpdate → TenantTemplateDefinition → TenantTemplateDefinition
patched_version u v = record v {
  version_tag = set_or u.version_tag v.version_tag;
  rules_config = set_or u.rules_config v.rules_config;
  changelog = set_or u.changelog v.changelog;
}

-- A version that was reviewed needs a new review after an update.
unfoldable pub updated_version :
    TenantTemplateDefinitionUpdate → TenantTemplateDefinition → TenantTemplateDefinition
updated_version u v =
    if sets_any u && is_reviewed v.review_status
    then reset_review_state (patched_version u v)
    else patched_version u v

unfoldable pub update_definition : ℕ → ℕ → TenantTemplateDefinitionUpdate → Action (Unit {0})
update_definition template_id i u = do
  v ← get_definition template_id i
  assert_editable v
  modify (write_version i (updated_version u))
  commit

-- The deletion of a version and of its review history (cascade).
abbrev pub without_version : ℕ → Db → Db
without_version i db = record db {
  definitions = keep (λ v. not (at_version i v)) db.definitions;
  reviews = keep (λ r. not (r.definition_id is i)) db.reviews;
}

abbrev pub names_version : Option ℕ → ℕ → Bool
names_version none i = false
names_version (some j) i = j is i

unfoldable pub delete_definition : ℕ → ℕ → Action (Unit {0})
delete_definition template_id i = do
  v ← get_definition template_id i
  template ← get_tenant_template template_id
  assert_editable v
  guard (not (names_version template.active_version_id i)) Error.active_version
  modify (without_version i)
  commit

-- _append_review_event
abbrev pub append_review : Context → ℕ → ℕ → DefinitionReviewAction → Option String → Db → Db
append_review ctx rid i action notes db = record db {
  reviews =
      db.reviews
      ++ record {
        id = rid;
        definition_id = i;
        action = action;
        notes = notes;
        created_by = ctx.user;
        created_at = ctx.now;
      }
        ∷ [];
}

abbrev pub submitted_version : Context → TenantTemplateDefinition → TenantTemplateDefinition
submitted_version ctx v = record v {
  review_status = pending_review;
  submitted_for_review_at = some ctx.now;
  submitted_for_review_by = some ctx.user;
  reviewed_at = none;
  reviewed_by = none;
  review_notes = none;
}

unfoldable pub submit_for_review : Context → ℕ → ℕ → ℕ → Option String → Action (Unit {0})
submit_for_review ctx rid template_id i notes = do
  v ← get_definition template_id i
  assert_editable v
  guard (not (is_pending v.review_status)) Error.already_pending
  guard (not (is_approved v.review_status)) Error.already_approved
  modify (write_version i (submitted_version ctx))
  modify (append_review ctx rid i DefinitionReviewAction.submitted notes)
  commit

abbrev pub judged :
    Context
    → DefinitionReviewStatus
    → Option String
    → TenantTemplateDefinition
    → TenantTemplateDefinition
judged ctx status notes v = record v {
  review_status = status;
  reviewed_at = some ctx.now;
  reviewed_by = some ctx.user;
  review_notes = notes;
}

-- version.submitted_for_review_by and reviewer == version.submitted_for_review_by
abbrev pub is_submitter : Context → Option String → Bool
is_submitter ctx none = false
is_submitter ctx (some user) = not (user == "") && (ctx.user == user)

unfoldable pub approve : Bool → Context → ℕ → ℕ → ℕ → Option String → Action (Unit {0})
approve auth_enabled ctx rid template_id i notes = do
  v ← get_definition template_id i
  guard v.is_draft Error.definition_published
  guard (is_pending v.review_status) Error.not_pending
  guard (not (auth_enabled && is_submitter ctx v.submitted_for_review_by)) Error.own_definition
  modify (write_version i (judged ctx approved notes))
  modify (append_review ctx rid i DefinitionReviewAction.approved notes)
  commit

unfoldable pub request_changes : Context → ℕ → ℕ → ℕ → Option String → Action (Unit {0})
request_changes ctx rid template_id i notes = do
  v ← get_definition template_id i
  guard v.is_draft Error.definition_published
  guard (is_pending v.review_status) Error.not_pending
  modify (write_version i (judged ctx changes_requested notes))
  modify (append_review ctx rid i DefinitionReviewAction.changes_requested notes)
  commit
