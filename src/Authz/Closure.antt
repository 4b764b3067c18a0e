-- ===== src/Authz/Closure.antt =====
-- The closure of permissions ends, and holds exactly what the given ones imply.
use onboarding_and_verificat.Prelude.{
  ℕ, zero, suc, ◌<◌, String, ◌≡◌, refl, sym, subst, ap, true, Option, none, some, List, [], ◌∷◌,
  ◌==◌, eq_iff, eq_refl, arith, Bool-cases, ◌⊎◌, inl, inr, ◌↔◌,
}
use onboarding_and_verificat.Authz.Permissions.{
  has, implied, push, visit_all, closure_fuel, permission_closure,
}
use onboarding_and_verificat.Authz.Heights.{heights, height_positive, heights-fuel, heights-push}

-- What a permission implies, in any number of steps.
pub data Implies (p : String) : String → Type 0 where
  itself : Implies p p
  step : {q r : String} → Implies p q → implied q ≡ some r → Implies p r

Implies-first : (p q r : String) → implied p ≡ some q → Implies q r → Implies p r
Implies-first p q _ e itself = step itself e
Implies-first p q r e (step between last) = step (Implies-first p q _ e between) last

-- What the visited permissions imply at once is visited or waits on the stack.
IsClosedOver : List String → List String → Type 0
IsClosedOver visited stack =
    (q r : String)
    → has visited q ≡ true
    → implied q ≡ some r
    → (has visited r ≡ true) ⊎ (has stack r ≡ true)

-- The result holds what is visited or on the stack, and what that implies, and nothing else.
Closes : List String → List String → List String → Type 0
Closes visited stack result =
    ((q : String) → (has visited q ≡ true) ⊎ (has stack q ≡ true) → has result q ≡ true)
    × ((q : String)
        → has result q ≡ true
        → (has visited q ≡ true) ⊎ ((p : String) × (has stack p ≡ true) × Implies p q))
    × (IsClosedOver visited stack
        → (q r : String) → has result q ≡ true
        → implied q ≡ some r
        → has result r ≡ true)

Closes-nil : (visited : List String) → Closes visited [] visited
unfolding Closes IsClosedOver
Closes-nil visited = (
  (λ q there. elim there [ inl h ↦ h | inr h ↦ absurd (ground (arith, h)) ]),
  (λ q h. inl h),
  (λ closed q r h e. elim (closed q r h e) [ inl h' ↦ h' | inr h' ↦ absurd (ground (arith, h')) ]),
)

has_cases : (p q : String) (ps : List String) → has (p ∷ ps) q ≡ true → (p ≡ q) ⊎ (has ps q ≡ true)
has_cases p q ps h = elim (Bool-cases (p == q)) [
  | inl same ↦ inl ((eq_iff p q).0 same)
  | inr other ↦ inr (ground (arith, other, h))
]

Closes-known :
    (p : String) (visited stack result : List String)
    → has visited p ≡ true
    → Closes visited stack result
    → Closes visited (p ∷ stack) result
unfolding Closes IsClosedOver
Closes-known p visited stack result known (keeps, sound, closes) = (
  (λ q there. elim there [
    | inl h ↦ keeps q (inl h)
    | inr h ↦ elim (has_cases p q stack h) [
      | inl same ↦ keeps q (inl (subst (λ x. has visited x ≡ true) same known))
      | inr h' ↦ keeps q (inr h')
    ]
  ]),
  (λ q h. elim (sound q h) [ inl h' ↦ inl h' | inr (s, on, by) ↦ inr (s, ground (arith, on), by) ]),
  (λ closed. closes (λ q r h e. elim (closed q r h e) [
    | inl h' ↦ inl h'
    | inr h' ↦ elim (has_cases p r stack h') [
      | inl same ↦ inl (subst (λ x. has visited x ≡ true) same known)
      | inr h'' ↦ inr h''
    ]
  ])),
)

push-keeps :
    (found : Option String) (visited stack : List String) (q : String)
    → has stack q ≡ true
    → has (push found visited stack) q ≡ true
push-keeps none visited stack q h = h
push-keeps (some r) visited stack q h = ground (arith, h)

push-only :
    (found : Option String) (visited stack : List String) (q : String)
    → has (push found visited stack) q ≡ true
    → (has stack q ≡ true) ⊎ (found ≡ some q)
push-only none visited stack q h = inl h
push-only (some r) visited stack q h = elim (Bool-cases (has visited r)) [
  | inl known ↦ inl (ground (arith, known, h))
  | inr new ↦ elim (has_cases r q stack (ground (arith, new, h))) [
    | inl same ↦ inr (ap (λ x. some x) same)
    | inr h' ↦ inl h'
  ]
]

push-there :
    (visited stack : List String) (r : String)
    → (has visited r ≡ true) ⊎ (has (push (some r) visited stack) r ≡ true)
push-there visited stack r = elim (Bool-cases (has visited r)) [
  | inl known ↦ inl known
  | inr new ↦ inr (ground (arith, new, eq_refl r))
]

Closes-new :
    (p : String) (visited stack result : List String)
    → Closes (p ∷ visited) (push (implied p) (p ∷ visited) stack) result
    → Closes visited (p ∷ stack) result
unfolding Closes IsClosedOver
Closes-new p visited stack result (keeps, sound, closes) = (
  (λ q there. elim there [
    | inl h ↦ keeps q (inl (ground (arith, h)))
    | inr h ↦ elim (has_cases p q stack h) [
      | inl same ↦ keeps q (inl (ground (arith, (eq_iff p q).1 same)))
      | inr h' ↦ keeps q (inr (push-keeps (implied p) (p ∷ visited) stack q h'))
    ]
  ]),
  (λ q h. elim (sound q h) [
    | inl h' ↦ elim (has_cases p q visited h') [
      | inl same ↦ inr (p, ground (arith, eq_refl p), subst (λ x. Implies p x) same itself)
      | inr h'' ↦ inl h''
    ]
    | inr (s, on, by) ↦ elim (push-only (implied p) (p ∷ visited) stack s on) [
      | inl h' ↦ inr (s, ground (arith, h'), by)
      | inr e ↦ inr (p, ground (arith, eq_refl p), Implies-first p s q e by)
    ]
  ]),
  (λ closed. closes (λ q r h e. elim (has_cases p q visited h) [
    | inl same ↦
        let e' = subst (λ x. implied x ≡ some r) (sym same) e in
        rw e' (push-there (p ∷ visited) stack r)
    | inr h' ↦ elim (closed q r h' e) [
      | inl there ↦ inl (ground (arith, there))
      | inr there ↦ elim (has_cases p r stack there) [
        | inl same ↦ inl (ground (arith, (eq_iff p r).1 same))
        | inr there' ↦ inr (push-keeps (implied p) (p ∷ visited) stack r there')
      ]
    ]
  ])),
)

visit_all-Closes :
    (n : ℕ) (visited stack : List String)
    → heights stack < n
    → (result : List String) × (visit_all n visited stack ≡ some result)
      × Closes visited stack result
unfolding visit_all
visit_all-Closes zero visited stack fuel = ground arith
visit_all-Closes (suc n) visited [] fuel = (visited, refl, Closes-nil visited)
visit_all-Closes (suc n) visited (p ∷ stack) fuel = elim (Bool-cases (has visited p)) [
  | inl known ↦
      let lower = height_positive p in
      let (result, ends, h) = visit_all-Closes n visited stack (omega (arith, fuel, lower)) in
      (result, rw (visit_all, known) ends, Closes-known p visited stack result known h)
  | inr new ↦
      let lower = heights-push (implied p) p (p ∷ visited) stack refl in
      let (result, ends, h) =
        visit_all-Closes n (p ∷ visited) (push (implied p) (p ∷ visited) stack)
          (omega (arith, fuel, lower)) in
      (result, rw (visit_all, new) ends, Closes-new p visited stack result h)
]

only_start :
    (start : List String) (q : String) (result : List String)
    → (has result q ≡ true
        → (has [] q ≡ true) ⊎ ((p : String) × (has start p ≡ true) × Implies p q))
    → has result q ≡ true
    → (p : String) × (has start p ≡ true) × Implies p q
only_start start q result sound h = elim (sound h) [
  | inl h' ↦ absurd (ground (arith, h'))
  | inr given ↦ given
]

all_implied :
    (start result : List String)
    → ((q : String) → (has [] q ≡ true) ⊎ (has start q ≡ true) → has result q ≡ true)
    → ((q r : String) → has result q ≡ true → implied q ≡ some r → has result r ≡ true)
    → (p q : String) → has start p ≡ true
    → Implies p q
    → has result q ≡ true
all_implied start result keeps closes p _ given itself = keeps p (inr given)
all_implied start result keeps closes p q given (step {q = between} by e) =
    closes between q (all_implied start result keeps closes p between given by) e

-- The closure ends within its fuel, and a permission is in it exactly when one of those given implies
-- it, in any number of steps.
pub permission_closure-Implies :
    (start : List String)
    → (result : List String) × (permission_closure start ≡ some result)
      × ((q : String) → (has result q ≡ true) ↔ ((p : String) × (has start p ≡ true) × Implies p q))
unfolding permission_closure Closes IsClosedOver
permission_closure-Implies start =
    let (result, ends, (keeps, sound, closes)) =
      visit_all-Closes (closure_fuel start) [] start (heights-fuel start) in
    (
      result,
      ends,
      λ q. (
        only_start start q result (sound q),
        λ (p, given, by).
            all_implied start result keeps (closes (λ q' r h e. absurd (ground (arith, h)))) p q
              given by,
      ),
    )
