-- ===== src/Authz/Separation.antt =====
-- A maker is never given the review of submissions by a policy, nor a checker their writing.
use Prim.Native.String.{◌++◌ as concat}
use onboarding_and_verificat.Prelude.{
  ℕ, String, ◌≡◌, refl, sym, subst, Bool, true, false, not, if◌then◌else◌, Option, none, some, List,
  [], ◌∷◌, ◌++◌, ◌==◌, eq_iff, all, any, map, arith, Bool-cases, Option-cases, inl, inr, strip, All,
  find, find-All,
}
use onboarding_and_verificat.Prelude.Json.{
  Json, Fields, end, field, list, dict, get, items, texts, dict_or_empty,
}
use onboarding_and_verificat.Model.Db.{Db}
use onboarding_and_verificat.Authz.Permissions.{
  has, normalize_permission, forbidden_to, role_permissions_valid,
}
use onboarding_and_verificat.Authz.Closure.{itself, permission_closure-Implies}
use onboarding_and_verificat.Authz.Service.{
  default_permissions, granted, wildcard, defaults_of, added_by, replaced_by, is_replace, overlay,
  overlaid_by, base_permissions, merge_role_permissions, at_scope, load_policy, tenant_policy,
  user_permissions, is_checked_role, entry_valid, roles_valid, policy_valid,
}

-- The roles that a policy is checked for, with what the check relies on.
abbrev pub IsGuarded : String → Type 0
IsGuarded role =
    (strip role ≡ role)
    × ((role == "") ≡ false)
    × (is_checked_role role ≡ true)
    × (wildcard role ≡ [])
    × (all (λ f. not (has (map normalize_permission (default_permissions role)) f))
          (forbidden_to role)
        ≡ true)

pub maker-IsGuarded : IsGuarded "maker"
unfolding strip default_permissions normalize_permission
maker-IsGuarded = (refl, refl, refl, refl, refl)

pub checker-IsGuarded : IsGuarded "checker"
unfolding strip default_permissions normalize_permission
checker-IsGuarded = (refl, refl, refl, refl, refl)

has-append :
    (xs ys : List String) (q : String)
    → has xs q ≡ false
    → has ys q ≡ false
    → has (xs ++ ys) q ≡ false
has-append [] ys q hx hy = hy
has-append (x ∷ xs) ys q hx hy = ground (arith, hx, has-append xs ys q (ground (arith, hx)) hy)

any-has :
    (f : String → Bool) (xs : List String) (q : String)
    → has xs q ≡ true
    → f q ≡ true
    → any f xs ≡ true
any-has f [] q h e = ground arith
any-has f (x ∷ xs) q h e = elim (Bool-cases (x == q)) [
  | inl same ↦ let e' = subst (λ y. f y ≡ true) (sym ((eq_iff x q).0 same)) e in ground (arith, e')
  | inr other ↦ ground (arith, any-has f xs q (ground (arith, other, h)) e)
]

all-has :
    (f : String → Bool) (xs : List String) (q : String)
    → has xs q ≡ true
    → all f xs ≡ true
    → f q ≡ true
all-has f [] q h e = ground arith
all-has f (x ∷ xs) q h e = elim (Bool-cases (x == q)) [
  | inl same ↦ subst (λ y. f y ≡ true) ((eq_iff x q).0 same) (ground (arith, e))
  | inr other ↦ all-has f xs q (ground (arith, other, h)) (ground (arith, e))
]

module _ (role q : String) (guarded : IsGuarded role)
    (forbidden : has (forbidden_to role) q ≡ true) where
  -- Permissions that the check of the role accepts do not hold one that is forbidden.
  accepted_free :
      (ps : List String)
      → role_permissions_valid role ps ≡ true
      → has (map normalize_permission ps) q ≡ false
  unfolding role_permissions_valid
  accepted_free ps valid =
      let (result, ends, exact) = permission_closure-Implies (map normalize_permission ps) in
      elim (Bool-cases (has (map normalize_permission ps) q)) [
        | inr free ↦ free
        | inl given ↦
            let reached = (exact q).1 (q, given, itself) in
            let met = any-has (has result) (forbidden_to role) q forbidden reached in
            let refused = rw (guarded.0, guarded.1, ends, met) at valid in
            absurd (ground (arith, refused))
      ]

  granted_free : (v : Json) → entry_valid role v ≡ true → has (granted v) q ≡ false
  granted_free (list js) valid = accepted_free (texts (items js)) (ground (arith, valid, guarded.2))
  granted_free _ valid = refl

  policy_free : (doc : Fields) → roles_valid doc ≡ true → has (granted (get doc role)) q ≡ false
  policy_free end valid = refl
  policy_free (field r v rest) valid = elim (Bool-cases (r == role)) [
    | inl same ↦
        let e = (eq_iff r role).0 same in
        let valid' = subst (λ x. entry_valid x v ≡ true) e (ground (arith, valid)) in
        rw same (granted_free v valid')
    | inr other ↦ rw other (policy_free rest (ground (arith, valid)))
  ]

  overlay_free :
      (v : Json) (replaces : Bool) (ps : List String)
      → roles_valid (dict_or_empty v) ≡ true
      → has ps q ≡ false
      → has (overlay v replaces (role ∷ []) ps) q ≡ false
  unfolding added_by replaced_by
  overlay_free (dict doc) true ps valid free =
      has-append (wildcard role) (granted (get doc role) ++ []) q (rw guarded.3 refl)
        (has-append (granted (get doc role)) [] q (policy_free doc valid) refl)
  overlay_free (dict doc) false ps valid free =
      has-append ps (granted (get doc role) ++ []) q free
        (has-append (granted (get doc role)) [] q (policy_free doc valid) refl)
  overlay_free _ replaces ps valid free = free

  base_free : (replaces : Bool) → has (base_permissions replaces (role ∷ [])) q ≡ false
  unfolding defaults_of
  base_free true = refl
  base_free false =
      let defaults = map normalize_permission (default_permissions role) in
      let absent = all-has (λ f. not (has defaults f)) (forbidden_to role) q forbidden guarded.4 in
      has-append defaults [] q (ground (arith, absent)) refl

  overlaid_free :
      (doc : Fields) (ps : List String)
      → policy_valid doc ≡ true
      → has ps q ≡ false
      → has (overlaid_by doc (role ∷ []) ps) q ≡ false
  unfolding policy_valid
  overlaid_free doc ps valid free =
      overlay_free (get doc "roles") (is_replace (get doc "mode")) ps valid free

-- Every stored policy passed the check.
abbrev pub AreValid : Db → Type 0
AreValid db = All (λ p. policy_valid p.policy ≡ true) db.authz_policies

load_policy-Valid :
    (scope : String) (tenant : Option ℕ) (db : Db)
    → AreValid db
    → policy_valid (load_policy scope tenant db) ≡ true
unfolding load_policy policy_valid
load_policy-Valid scope tenant db valid =
    elim (Option-cases (find (at_scope scope tenant) db.authz_policies)) [
      | inl e ↦ rw e refl
      | inr (p, e) ↦ rw e (
          find-All (λ p'. policy_valid p'.policy ≡ true) (at_scope scope tenant) db.authz_policies p
            valid e)
    ]

tenant_policy-Valid :
    (tenant : Option ℕ) (db : Db) → AreValid db → policy_valid (tenant_policy tenant db) ≡ true
unfolding policy_valid
tenant_policy-Valid none db valid = refl
tenant_policy-Valid (some t) db valid = load_policy-Valid "tenant" (some t) db valid

realm_policy-Valid :
    (blank : Bool) (scope : String) (db : Db)
    → AreValid db
    → policy_valid (if blank then end else load_policy scope none db) ≡ true
unfolding policy_valid
realm_policy-Valid true scope db valid = refl
realm_policy-Valid false scope db valid = load_policy-Valid scope none db valid

pub guarded_free :
    (role q realm : String) (tenant : Option ℕ) (db : Db)
    → IsGuarded role
    → has (forbidden_to role) q ≡ true
    → AreValid db
    → has (user_permissions (role ∷ []) realm tenant db) q ≡ false
unfolding user_permissions merge_role_permissions
guarded_free role q realm tenant db guarded forbidden valid =
    let global = load_policy "global" none db in
    let in_realm = if realm == "" then end else load_policy (concat "realm:" realm) none db in
    let base = base_permissions (is_replace (get global "mode")) (role ∷ []) in
    let first =
      overlaid_free role q guarded forbidden global base (load_policy-Valid "global" none db valid)
        (base_free role q guarded forbidden (is_replace (get global "mode"))) in
    let second =
      overlaid_free role q guarded forbidden in_realm (overlaid_by global (role ∷ []) base)
        (realm_policy-Valid (realm == "") (concat "realm:" realm) db valid) first in
    overlaid_free role q guarded forbidden (tenant_policy tenant db)
      (overlaid_by in_realm (role ∷ []) (overlaid_by global (role ∷ []) base))
      (tenant_policy-Valid tenant db valid) second
