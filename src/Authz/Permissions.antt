-- ===== src/Authz/Permissions.antt =====
-- Permissions, the implications between them, and the check of what a policy grants a role.
use onboarding_and_verificat.Prelude.{
  ℕ, zero, suc, ◌+◌, String, Bool, true, false, not, if◌then◌else◌, Option, none, some, List, [],
  ◌∷◌, ◌==◌, map, any, strip,
}

abbrev pub has : List String → String → Bool
has ps p = any (λ q. q == p) ps

-- _normalize_permission
unfoldable pub normalize_permission : String → String
normalize_permission p = if p == "submissions.read_own" then "submissions.read" else p

-- The table `implies` of `_permission_closure`; each permission implies at most one.
abbrev pub implications : List (String × String)
implications =
    ("submissions.read_all", "submissions.read")
    ∷ ("submissions.transition", "submissions.read_all")
    ∷ ("submissions.update", "submissions.read")
    ∷ ("submissions.delete", "submissions.read")
    ∷ ("submissions.submit", "submissions.read")
    ∷ ("submissions.comment", "submissions.read")
    ∷ ("products.create", "products.read")
    ∷ ("products.update", "products.read")
    ∷ ("products.delete", "products.read")
    ∷ ("products.activate", "products.read")
    ∷ ("products.deactivate", "products.read")
    ∷ ("templates.create", "templates.read")
    ∷ ("templates.update", "templates.read")
    ∷ ("templates.publish", "templates.read")
    ∷ ("baseline_templates.create", "baseline_templates.read")
    ∷ ("baseline_templates.update", "baseline_templates.read")
    ∷ ("baseline_templates.delete", "baseline_templates.read")
    ∷ ("baseline_templates.definitions.create", "baseline_templates.read")
    ∷ ("baseline_templates.definitions.update", "baseline_templates.read")
    ∷ ("baseline_templates.definitions.delete", "baseline_templates.read")
    ∷ []

abbrev pub under : List (String × String) → String → Option String
under [] p = none
under ((k, q) ∷ table) p = if k == p then some q else under table p

-- implies.get(p, set())
unfoldable pub implied : String → Option String
implied p = under implications p

abbrev pub push : Option String → List String → List String → List String
push none visited stack = stack
push (some q) visited stack = if has visited q then stack else q ∷ stack

-- The loop of `_permission_closure` on fuel; `none` where the fuel runs out.
unfoldable pub visit_all : ℕ → List String → List String → Option (List String)
visit_all zero visited stack = none
visit_all (suc n) visited [] = some visited
visit_all (suc n) visited (p ∷ stack) = elim (has visited p) [
  | true ↦ visit_all n visited stack
  | false ↦ visit_all n (p ∷ visited) (push (implied p) (p ∷ visited) stack)
]

-- Each permission on the stack is visited with at most two that it implies.
abbrev pub closure_fuel : List String → ℕ
closure_fuel [] = 1
closure_fuel (p ∷ ps) = 3 + closure_fuel ps

-- _permission_closure
unfoldable pub permission_closure : List String → Option (List String)
permission_closure start = visit_all (closure_fuel start) [] start

abbrev pub forbidden_to : String → List String
forbidden_to role =
    if role == "maker"
    then "submissions.read_all" ∷ "submissions.transition" ∷ []
    else if role == "checker"
    then "submissions.create" ∷ "submissions.update" ∷ "submissions.delete" ∷ "submissions.submit"
      ∷ []
    else []

abbrev pub meets : List String → List String → Bool
meets effective forbidden = any (has effective) forbidden

abbrev accepted : Option (List String) → List String → Bool
accepted none forbidden = false
accepted (some effective) forbidden = not (meets effective forbidden)

-- Whether `validate_policy_role_permissions` accepts the permissions of a role.
unfoldable pub role_permissions_valid : String → List String → Bool
role_permissions_valid role ps =
    if strip role == ""
    then true
    else accepted (permission_closure (map normalize_permission ps)) (forbidden_to (strip role))
