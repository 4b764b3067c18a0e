-- ===== src/Authz/Requests.antt =====
-- The requests that store policies, and what any sequence of them leaves a maker and a checker.
use Prim.Native.String.{◌++◌ as concat}
use onboarding_and_verificat.Prelude.{
  ℕ, String, ◌≡◌, refl, sym, subst, true, false, Option, none, some, List, [], ◌∷◌, ◌⊎◌, inl, inr,
  Bool-cases, Option-cases, All, All-append, All-update, find, strip,
}
use onboarding_and_verificat.Prelude.Json.{Fields, end}
use onboarding_and_verificat.Model.Policy.{AuthzPolicy}
use onboarding_and_verificat.Model.Db.{Db}
use onboarding_and_verificat.Session.{Action, modify, commit, serve, ◌>>◌}
use onboarding_and_verificat.Session.Keeps.{
  Done, Keeps, Keeps-bind, Keeps-modify, Keeps-commit, Keeps-serve,
}
use onboarding_and_verificat.Authz.Permissions.{has, forbidden_to}
use onboarding_and_verificat.Authz.Service.{
  at_scope, policy_valid, with_policy, first_policy, put_policy, write_policy, with_global,
  ensure_global, checked_write, upsert_global_policy, upsert_realm_policy, upsert_tenant_policy,
  user_permissions,
}
use onboarding_and_verificat.Authz.Separation.{
  AreValid, IsGuarded, maker-IsGuarded, checker-IsGuarded, guarded_free,
}

pub data Request : Type 0 where
  global_policy : Fields → Request
  realm_policy : String → Fields → Request
  tenant_policy_of : ℕ → Fields → Request

unfoldable pub handle : Request → Action (Unit {0})
handle (global_policy policy) = upsert_global_policy policy
handle (realm_policy realm policy) = upsert_realm_policy realm policy
handle (tenant_policy_of tenant policy) = upsert_tenant_policy tenant policy

-- What is committed after a request.
unfoldable pub after : Request → Db → Db
after r db = (serve (handle r) db).1

-- Sequences of requests.
pub data Reach (first : Db) : Db → Type 0 where
  here : Reach first first
  next : {db : Db} (r : Request) → Reach first db → Reach first (after r db)

abbrev ValidRow : AuthzPolicy → Type 0
ValidRow p = policy_valid p.policy ≡ true

put_policy-Valid :
    (scope : String) (tenant : Option ℕ) (policy : Fields) (rows : List AuthzPolicy)
    → policy_valid policy ≡ true
    → All ValidRow rows
    → All ValidRow (put_policy scope tenant policy rows)
unfolding put_policy
put_policy-Valid scope tenant policy rows valid h =
    elim (Option-cases (find (at_scope scope tenant) rows)) [
      | inl e ↦
          rw (put_policy, e)
            (All-append ValidRow rows (first_policy scope tenant policy ∷ []) h (valid, tt))
      | inr (p, e) ↦
          rw (put_policy, e)
            (All-update ValidRow ValidRow (at_scope scope tenant) (with_policy policy) rows
              (λ p' hit old. valid) (λ p' miss old. old) h)
    ]

with_global-Valid : (rows : List AuthzPolicy) → All ValidRow rows → All ValidRow (with_global rows)
unfolding policy_valid
with_global-Valid rows h = elim (Option-cases (find (at_scope "global" none) rows)) [
  | inl e ↦
      rw (with_global, e)
        (All-append ValidRow rows (first_policy "global" none end ∷ []) h (refl, tt))
  | inr (p, e) ↦ rw (with_global, e) h
]

-- The write of a policy that was checked.
commit_policy-Keeps :
    (scope : String) (tenant : Option ℕ) (policy : Fields)
    → policy_valid policy ≡ true
    → Keeps AreValid Done (modify (write_policy scope tenant policy) >> commit)
commit_policy-Keeps scope tenant policy valid =
    Keeps-bind AreValid Done Done (modify (write_policy scope tenant policy)) (λ _. commit)
      (Keeps-modify AreValid (write_policy scope tenant policy)
        (λ db h. put_policy-Valid scope tenant policy db.authz_policies valid h))
      (λ _ _. Keeps-commit AreValid)

checked_write-Keeps :
    (scope : String) (tenant : Option ℕ) (policy : Fields)
    → Keeps AreValid Done (checked_write scope tenant policy)
checked_write-Keeps scope tenant policy s h = elim (Bool-cases (policy_valid policy)) [
  | inl valid ↦ rw valid (commit_policy-Keeps scope tenant policy valid s h)
  | inr invalid ↦ rw invalid h
]

upsert_global_policy-Keeps : (policy : Fields) → Keeps AreValid Done (upsert_global_policy policy)
unfolding upsert_global_policy
upsert_global_policy-Keeps policy s h = elim (Bool-cases (policy_valid policy)) [
  | inl valid ↦ rw valid (
      commit_policy-Keeps "global" none policy valid
        (record { committed = ensure_global s.working; working = ensure_global s.working })
        (
          with_global-Valid s.working.authz_policies h.1,
          with_global-Valid s.working.authz_policies h.1,
        ))
  | inr invalid ↦ rw invalid h
]

handle-Keeps : (r : Request) → Keeps AreValid Done (handle r)
unfolding handle upsert_realm_policy upsert_tenant_policy
handle-Keeps (global_policy policy) = upsert_global_policy-Keeps policy
handle-Keeps (realm_policy realm policy) =
    checked_write-Keeps (concat "realm:" (strip realm)) none policy
handle-Keeps (tenant_policy_of tenant policy) = checked_write-Keeps "tenant" (some tenant) policy

Reach-AreValid : (first db : Db) → AreValid first → Reach first db → AreValid db
unfolding after
Reach-AreValid first db h here = h
Reach-AreValid first db h (next {db = db'} r before) =
    Keeps-serve AreValid Done (handle r) db' (handle-Keeps r) (Reach-AreValid first db' h before)

-- From a database whose policies were checked, whatever policies are stored: a user whose only role is
-- maker is never given a permission to read all submissions or to move them through the review, nor
-- one whose only role is checker a permission to create, update, delete or submit them. The
-- permission "*", which stands for all, is not looked at.
pub Reach-Separates :
    (first db : Db) (role q realm : String) (tenant : Option ℕ)
    → AreValid first
    → Reach first db
    → (role ≡ "maker") ⊎ (role ≡ "checker")
    → has (forbidden_to role) q ≡ true
    → has (user_permissions (role ∷ []) realm tenant db) q ≡ false
Reach-Separates first db role q realm tenant valid reach kind forbidden =
    let guarded : IsGuarded role = elim kind [
      | inl e ↦ subst IsGuarded (sym e) maker-IsGuarded
      | inr e ↦ subst IsGuarded (sym e) checker-IsGuarded
    ] in
    guarded_free role q realm tenant db guarded forbidden (Reach-AreValid first db valid reach)
