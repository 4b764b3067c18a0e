-- ===== src/Templates/Config.antt =====
-- The rules of a version, merged over those of the baseline version it was copied from.
use onboarding_and_verificat.Prelude.{ℕ, Option, none, some, find, ◌is◌}
use onboarding_and_verificat.Prelude.Json.{Json, Fields, dict, end, field, lookup, set_field}
use onboarding_and_verificat.Model.Db.{Db}
use onboarding_and_verificat.Session.{Error, Action, pure, gets, or_raise, ◌>>=◌}

-- _deep_merge. The keys of a dict are distinct, so each key of the override meets the base's value.
unfoldable mutual
  pub deep_merge : Fields → Fields → Fields
  deep_merge base end = base
  deep_merge base (field k v rest) =
      deep_merge (set_field k (merge_value (lookup k base) v) base) rest

  pub merge_value : Option Json → Json → Json
  merge_value (some (dict b)) (dict o) = dict (deep_merge b o)
  merge_value old new = new

abbrev pub baseline_rules : Option ℕ → Db → Fields
baseline_rules none db = end
baseline_rules (some i) db = elim (find (λ b. b.id is i) db.baseline_definitions) [
  | none ↦ end
  | some b ↦ b.rules_config
]

-- get_tenant_template_definition_with_config, its `rules_config`
unfoldable pub merged_rules_config : ℕ → Action Fields
merged_rules_config version_id = do
  found ← gets (λ db. find (λ v. v.id is version_id) db.definitions)
  version ← or_raise found Error.definition_not_found
  base ← gets (baseline_rules version.copied_from_baseline_version_id)
  pure (deep_merge base version.rules_config)
