-- ===== src/Authz/Service.antt =====
-- The stored policies, their check and update, and the permissions that they and the defaults give to
-- roles. What a query reads of a policy is what is stored: the cache of some seconds is left out.
use onboarding_and_verificat.Prelude.{
  ℕ, suc, String, Bool, true, false, not, ◌&&◌, ◌||◌, if◌then◌else◌, Option, none, some, List, [],
  ◌∷◌, ◌++◌, ◌==◌, ◌is◌, map, all, find, update, strip,
}
use Prim.Native.String.{◌++◌ as concat}
use onboarding_and_verificat.Prelude.Json.{
  Json, Fields, str, list, dict, get, items, texts, dict_or_empty,
}
use onboarding_and_verificat.Model.Policy.{AuthzPolicy}
use onboarding_and_verificat.Model.Db.{Db}
use onboarding_and_verificat.Session.{Error, Action, guard, modify, commit, ◌>>◌}
use onboarding_and_verificat.Authz.Permissions.{has, normalize_permission, role_permissions_valid}

-- DEFAULT_ROLE_PERMISSIONS.get(role, set())
unfoldable pub default_permissions : String → List String
default_permissions role =
    if role == "maker"
    then "submissions.create" ∷ "submissions.read" ∷ "submissions.update" ∷ "submissions.delete"
      ∷ "submissions.submit" ∷ "submissions.comment" ∷ "templates.read" ∷ "products.read"
      ∷ "baseline_templates.read" ∷ []
    else if role == "checker"
    then "submissions.read_all" ∷ "submissions.transition" ∷ "submissions.comment"
      ∷ "templates.read" ∷ "products.read" ∷ "baseline_templates.read" ∷ []
    else if (role == "platform_admin") || (role == "tenant_admin")
    then "templates.read" ∷ "templates.create" ∷ "templates.update" ∷ "templates.publish"
      ∷ "products.read" ∷ "products.create" ∷ "products.update" ∷ "products.delete"
      ∷ "products.activate" ∷ "products.deactivate" ∷ "submissions.read_all" ∷ "submissions.comment"
      ∷ "baseline_templates.read" ∷ []
    else if role == "schema_author"
    then "baseline_templates.create" ∷ "baseline_templates.update" ∷ "baseline_templates.delete"
      ∷ "baseline_templates.definitions.create" ∷ "baseline_templates.definitions.update"
      ∷ "baseline_templates.definitions.delete" ∷ "baseline_templates.read" ∷ []
    else if role == "super_admin"
    then "*" ∷ []
    else []

-- What a list of a policy grants; nothing where it is no list.
abbrev pub granted : Json → List String
granted (list js) = map normalize_permission (texts (items js))
granted _ = []

abbrev pub wildcard : String → List String
wildcard role = if has (default_permissions role) "*" then "*" ∷ [] else []

-- The loops over the roles: the defaults, what a policy adds, and what it puts in their place.
unfoldable pub defaults_of : List String → List String
defaults_of [] = []
defaults_of (r ∷ roles) = map normalize_permission (default_permissions r) ++ defaults_of roles

unfoldable pub added_by : Fields → List String → List String
added_by doc [] = []
added_by doc (r ∷ roles) = granted (get doc r) ++ added_by doc roles

unfoldable pub replaced_by : Fields → List String → List String
replaced_by doc [] = []
replaced_by doc (r ∷ roles) = wildcard r ++ (granted (get doc r) ++ replaced_by doc roles)

abbrev pub is_replace : Json → Bool
is_replace (str s) = s == "replace"
is_replace _ = false

-- A policy over permissions: it replaces those of the roles, adds to them, or has no roles.
abbrev pub overlay : Json → Bool → List String → List String → List String
overlay (dict doc) true roles ps = replaced_by doc roles
overlay (dict doc) false roles ps = ps ++ added_by doc roles
overlay _ replaces roles ps = ps

abbrev pub overlaid_by : Fields → List String → List String → List String
overlaid_by doc roles ps = overlay (get doc "roles") (is_replace (get doc "mode")) roles ps

abbrev pub base_permissions : Bool → List String → List String
base_permissions true roles = []
base_permissions false roles = defaults_of roles

-- _merge_role_permissions; a policy that is not there is an empty dict
unfoldable pub merge_role_permissions : List String → Fields → Fields → Fields → List String
merge_role_permissions roles global_doc realm_doc tenant_doc =
    let base = base_permissions (is_replace (get global_doc "mode")) roles in
    overlaid_by tenant_doc roles (overlaid_by realm_doc roles (overlaid_by global_doc roles base))

abbrev pub same_tenant : Option ℕ → Option ℕ → Bool
same_tenant none none = true
same_tenant (some i) (some j) = i is j
same_tenant _ _ = false

abbrev pub at_scope : String → Option ℕ → AuthzPolicy → Bool
at_scope scope tenant p = (p.scope == scope) && same_tenant p.tenant_id tenant

abbrev pub policy_of : Option AuthzPolicy → Fields
policy_of none = Fields.end
policy_of (some p) = p.policy

-- _load_policy
unfoldable pub load_policy : String → Option ℕ → Db → Fields
load_policy scope tenant db = policy_of (find (at_scope scope tenant) db.authz_policies)

abbrev pub tenant_policy : Option ℕ → Db → Fields
tenant_policy none db = Fields.end
tenant_policy (some t) db = load_policy "tenant" (some t) db

-- What `require_permission` gives to a user's roles, in a realm and perhaps a known tenant.
unfoldable pub user_permissions : List String → String → Option ℕ → Db → List String
user_permissions roles realm tenant db =
    merge_role_permissions roles (load_policy "global" none db)
      (if realm == "" then Fields.end else load_policy (concat "realm:" realm) none db)
      (tenant_policy tenant db)

-- The check of `require_permission`, of a user who is no platform super admin.
unfoldable pub permitted : List String → List String → Bool
permitted required ps = has ps "*" || all (has ps) required

abbrev pub is_checked_role : String → Bool
is_checked_role role = (role == "maker") || (role == "checker")

-- The entry of a role; `true` where it is not looked at.
abbrev pub entry_valid : String → Json → Bool
entry_valid role (list js) =
    not (is_checked_role role) || role_permissions_valid role (texts (items js))
entry_valid role _ = true

abbrev pub roles_valid : Fields → Bool
roles_valid Fields.end = true
roles_valid (Fields.field role v rest) = entry_valid role v && roles_valid rest

-- Whether the policy passes the check of `upsert_global_policy` and its siblings.
unfoldable pub policy_valid : Fields → Bool
policy_valid policy = roles_valid (dict_or_empty (get policy "roles"))

abbrev pub with_policy : Fields → AuthzPolicy → AuthzPolicy
with_policy policy p = record p { policy = policy; version = suc p.version }

abbrev pub first_policy : String → Option ℕ → Fields → AuthzPolicy
first_policy scope tenant policy = record {
  scope = scope;
  tenant_id = tenant;
  version = 1;
  policy = policy;
}

-- An update of the row, or a new one.
unfoldable pub put_policy : String → Option ℕ → Fields → List AuthzPolicy → List AuthzPolicy
put_policy scope tenant policy rows = elim (find (at_scope scope tenant) rows) [
  | none ↦ rows ++ first_policy scope tenant policy ∷ []
  | some p ↦ update (at_scope scope tenant) (with_policy policy) rows
]

abbrev pub write_policy : String → Option ℕ → Fields → Db → Db
write_policy scope tenant policy db = record db {
  authz_policies = put_policy scope tenant policy db.authz_policies;
}

abbrev pub checked_write : String → Option ℕ → Fields → Action (Unit {0})
checked_write scope tenant policy = do
  guard (policy_valid policy) Error.invalid_policy
  modify (write_policy scope tenant policy)
  commit

abbrev pub with_global : List AuthzPolicy → List AuthzPolicy
with_global rows = elim (find (at_scope "global" none) rows) [
  | none ↦ rows ++ first_policy "global" none Fields.end ∷ []
  | some p ↦ rows
]

abbrev pub ensure_global : Db → Db
ensure_global db = record db { authz_policies = with_global db.authz_policies }

-- upsert_global_policy, which creates an empty policy where there is none
unfoldable pub upsert_global_policy : Fields → Action (Unit {0})
upsert_global_policy policy = do
  guard (policy_valid policy) Error.invalid_policy
  modify ensure_global
  commit
  modify (write_policy "global" none policy)
  commit

unfoldable pub upsert_realm_policy : String → Fields → Action (Unit {0})
upsert_realm_policy realm policy = checked_write (concat "realm:" (strip realm)) none policy

unfoldable pub upsert_tenant_policy : ℕ → Fields → Action (Unit {0})
upsert_tenant_policy tenant policy = checked_write "tenant" (some tenant) policy
