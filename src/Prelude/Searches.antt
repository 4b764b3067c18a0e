-- ===== src/Prelude/Searches.antt =====
-- A property of every row that a search by id finds, under the changes of a table.
use Prim.Native.Nat.{ℕ}
use mathlib.Core.Path.{◌≡◌, refl, sym, ◌∙◌, subst}
use mathlib.Core.Bool.{Bool, false, not}
use mathlib.Core.Option.{none, some}
use mathlib.Core.List.{List, [], ◌∷◌, ◌++◌}
use mathlib.Core.Logic.{◌⊎◌, inl, inr}
use native.Mathlib.Omega.{arith}
use onboarding_and_verificat.Prelude.Tests.{◌is◌, is_iff, Bool-cases}
use onboarding_and_verificat.Prelude.Lists.{find, find-update, keep, update, any}
use onboarding_and_verificat.Prelude.Rows.{find-update_other, find-keep_other}

module _ {A : Type 0} (id_of : A → ℕ) where
  abbrev has_id : ℕ → A → Bool
  has_id i x = id_of x is i

  abbrev pub Found : (A → Type 0) → List A → Type 0
  Found P xs = (i : ℕ) (x : A) → find (λ y. id_of y is i) xs ≡ some x → P x

  pub found_last :
      (i : ℕ) (t x : A) (xs : List A)
      → find (has_id i) (xs ++ t ∷ []) ≡ some x
      → (find (has_id i) xs ≡ some x) ⊎ (t ≡ x)
  found_last i t x [] h = inr (ground arith)
  found_last i t x (s ∷ xs) h = elim (Bool-cases (id_of s is i)) [
    | inl e ↦ inl (ground arith)
    | inr e ↦ elim (found_last i t x xs (ground arith)) [
      | inl f ↦ inl (ground arith)
      | inr f ↦ inr f
    ]
  ]

  find-keep_same :
      (i : ℕ) (xs : List A) → find (has_id i) (keep (λ y. not (id_of y is i)) xs) ≡ none
  find-keep_same i [] = refl
  find-keep_same i (x ∷ xs) = ground (arith, find-keep_same i xs)

  -- The row that a search finds after an update of the rows of the id `j`.
  pub found_updated :
      (i j : ℕ) (f : A → A) (z x : A) (xs : List A)
      → find (has_id j) xs ≡ some z
      → ((y : A) → id_of (f y) ≡ id_of y)
      → find (has_id i) (update (has_id j) f xs) ≡ some x
      → (f z ≡ x) ⊎ (((i is j) ≡ false) × (find (has_id i) xs ≡ some x))
  found_updated i j f z x xs at same found = elim (Bool-cases (i is j)) [
    | inl e ↦
        let found' =
          subst (λ k. find (has_id k) (update (has_id j) f xs) ≡ some x) ((is_iff i j).0 e) found in
        let there = find-update (has_id j) f xs z (λ y. rw (same y) refl) at in inl cc
    | inr e ↦ inr (e, sym (find-update_other id_of i j f xs e same) ∙ found)
  ]

  -- The row that a search finds after the deletion of the rows of the id `j`.
  pub found_kept :
      (i j : ℕ) (x : A) (xs : List A)
      → find (has_id i) (keep (λ y. not (id_of y is j)) xs) ≡ some x
      → find (has_id i) xs ≡ some x
  found_kept i j x xs found = elim (Bool-cases (i is j)) [
    | inl e ↦
        let found' =
          subst (λ k. find (has_id k) (keep (λ y. not (id_of y is j)) xs) ≡ some x)
            ((is_iff i j).0 e) found in
        absurd (ground (arith, find-keep_same j xs))
    | inr e ↦ sym (find-keep_other id_of i j xs e) ∙ found
  ]

  module _ (P : A → Type 0) (xs : List A) where
    pub Found-append : (t : A) → P t → Found P xs → Found P (xs ++ t ∷ [])
    Found-append t p h i x found = elim (found_last i t x xs found) [
      | inl old ↦ h i x old
      | inr same ↦ subst P same p
    ]

    pub Found-update :
        (j : ℕ) (f : A → A) (z : A)
        → find (has_id j) xs ≡ some z
        → ((y : A) → id_of (f y) ≡ id_of y)
        → P (f z)
        → Found P xs
        → Found P (update (has_id j) f xs)
    Found-update j f z at same p h i x found = elim (found_updated i j f z x xs at same found) [
      | inl e ↦ subst P e p
      | inr (other, old) ↦ h i x old
    ]

    pub Found-keep : (j : ℕ) → Found P xs → Found P (keep (λ y. not (id_of y is j)) xs)
    Found-keep j h i x found = h i x (found_kept i j x xs found)

module _ {ℓ} {A : Type ℓ} where
  pub any-find-false :
      (p q : A → Bool) (xs : List A) (x : A) → any p xs ≡ false → find q xs ≡ some x → p x ≡ false
  any-find-false p q [] x none_passes found = ground arith
  any-find-false p q (y ∷ xs) x none_passes found = ground (arith, any-find-false p q xs x)
