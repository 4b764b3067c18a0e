-- ===== src/Templates/Publish.antt =====
-- publish_tenant_template_definition, with `auto_generate_transform_rules` off: the generated rule set
-- is a transaction of its own, after the commit, and its failure is ignored.
use onboarding_and_verificat.Prelude.{
  ℕ, String, Bool, false, if◌then◌else◌, Option, none, some, List, [], ◌∷◌, ◌is◌, ◌==◌, any, update,
}
use onboarding_and_verificat.Model.Template.{Question, QuestionGroup, TenantTemplateDefinition}
use onboarding_and_verificat.Model.Db.{Db}
use onboarding_and_verificat.Session.{
  Error, Action, pure, raise, guard, modify, commit, ◌>>=◌, ◌>>◌,
}
use onboarding_and_verificat.Templates.Service.{
  get_definition, get_tenant_template, is_approved, write_version,
}

abbrev is_seen : String → List String → Bool
is_seen key seen = any (λ k. k == key) seen

-- The first question of a group whose key was seen before.
abbrev repeated : List String → List Question → Option String
repeated seen [] = none
repeated seen (q ∷ qs) =
    if is_seen q.unique_key seen then some q.unique_key else repeated (q.unique_key ∷ seen) qs

abbrev or_else : Option String → Option Error → Option Error
or_else none later = later
or_else (some key) later = some (Error.duplicate_question key)

-- The first collision of keys, in the order of the loop.
unfoldable pub collision : List String → List QuestionGroup → Option Error
collision seen [] = none
collision seen (g ∷ gs) =
    if is_seen g.unique_key seen
    then some (Error.duplicate_group g.unique_key)
    else or_else (repeated [] g.questions) (collision (g.unique_key ∷ seen) gs)

abbrev pub raise_if : Option Error → Action (Unit {0})
raise_if none = pure tt
raise_if (some e) = raise e

abbrev pub published_version : TenantTemplateDefinition → TenantTemplateDefinition
published_version v = record v { is_draft = false }

abbrev set_active : ℕ → ℕ → Db → Db
set_active template_id i db = record db {
  templates =
      update (λ t. t.id is template_id) (λ t. record t { active_version_id = some i }) db.templates;
}

abbrev pub activate : Bool → ℕ → ℕ → Db → Db
activate set_as_active template_id i db = if set_as_active then set_active template_id i db else db

unfoldable pub publish_definition : ℕ → ℕ → Bool → Action (Unit {0})
publish_definition template_id i set_as_active = do
  v ← get_definition template_id i
  guard v.is_draft Error.definition_published
  guard (is_approved v.review_status) Error.not_approved
  raise_if (collision [] v.question_groups)
  get_tenant_template template_id
  modify (write_version i published_version)
  modify (activate set_as_active template_id i)
  commit
