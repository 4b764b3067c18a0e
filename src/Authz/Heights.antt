-- ===== src/Authz/Heights.antt =====
-- The height of a permission, the number of permissions that its closure visits, and of a stack.
use onboarding_and_verificat.Prelude.{
  ℕ, ◌+◌, ◌<◌, ◌≤◌, String, ◌≡◌, refl, subst, Bool, true, not, Option, none, some, is_some, List,
  [], ◌∷◌, ◌==◌, all, arith, Bool-cases, Option-cases, inl, inr,
}
use onboarding_and_verificat.Authz.Permissions.{
  has, implications, under, implied, push, closure_fuel,
}

-- A permission that implies at most one that implies none.
abbrev is_flat : String → Bool
is_flat q = elim (implied q) [ none ↦ true | some r ↦ not (is_some (implied r)) ]

implications_flat : all (λ e. is_flat e.1) implications ≡ true
unfolding implied
implications_flat = refl

under-all :
    (f : String → Bool) (table : List (String × String)) (p q : String)
    → all (λ e. f e.1) table ≡ true
    → under table p ≡ some q
    → f q ≡ true
under-all f [] p q h e = ground arith
under-all f ((k, q') ∷ table) p q h e = elim (Bool-cases (k == p)) [
  | inl here ↦
      let same : q' ≡ q = ground (arith, here, e) in
      let passes : f q' ≡ true = ground (arith, h) in subst (λ x. f x ≡ true) same passes
  | inr other ↦ under-all f table p q (ground (arith, h)) (ground (arith, other, e))
]

abbrev pub height : String → ℕ
height p = elim (implied p) [ none ↦ 1 | some q ↦ elim (implied q) [ none ↦ 2 | some r ↦ 3 ] ]

abbrev pub heights : List String → ℕ
heights [] = 0
heights (p ∷ ps) = height p + heights ps

implied_last : (p q r : String) → implied p ≡ some q → implied q ≡ some r → implied r ≡ none
unfolding implied
implied_last p q r e e' =
    let flat = under-all is_flat implications p q implications_flat e in
    elim (Option-cases (under implications r)) [
      | inl last ↦ last
      | inr (t, more) ↦ absurd (ground (arith, flat, e', more))
    ]

height-implied : (p q : String) → implied p ≡ some q → height q < height p
height-implied p q e = elim (Option-cases (implied q)) [
  | inl last ↦ rw (height, e, last) (omega arith)
  | inr (r, e') ↦ let last = implied_last p q r e e' in rw (height, e, e', last) (omega arith)
]

height_bound : (p : String) → height p ≤ 3
height_bound p = elim (Option-cases (implied p)) [
  | inl last ↦ rw (height, last) (omega arith)
  | inr (q, e) ↦ elim (Option-cases (implied q)) [
    | inl last ↦ rw (height, e, last) (omega arith)
    | inr (r, e') ↦ rw (height, e, e') (omega arith)
  ]
]

pub height_positive : (p : String) → 0 < height p
height_positive p = elim (Option-cases (implied p)) [
  | inl last ↦ rw (height, last) (omega arith)
  | inr (q, e) ↦ elim (Option-cases (implied q)) [
    | inl last ↦ rw (height, e, last) (omega arith)
    | inr (r, e') ↦ rw (height, e, e') (omega arith)
  ]
]

pub heights-fuel : (ps : List String) → heights ps < closure_fuel ps
heights-fuel [] = omega arith
heights-fuel (p ∷ ps) = let b = height_bound p in omega (arith, b, heights-fuel ps)

pub heights-push :
    (found : Option String) (p : String) (visited stack : List String)
    → implied p ≡ found
    → heights (push found visited stack) < height p + heights stack
heights-push none p visited stack e =
    let some_height = height_positive p in omega (arith, some_height)
heights-push (some q) p visited stack e =
    let lower = height-implied p q e in
    elim (Bool-cases (has visited q)) [
      | inl known ↦ let some_height = height_positive p in rw known (omega (arith, some_height))
      | inr new ↦ rw new (omega (arith, lower))
    ]
