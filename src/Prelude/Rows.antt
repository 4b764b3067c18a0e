-- ===== src/Prelude/Rows.antt =====
-- The search for a row by its id, under changes of other rows.
use Prim.Native.Nat.{ℕ}
use mathlib.Core.Path.{◌≡◌, refl}
use mathlib.Core.Bool.{false, not}
use mathlib.Core.Option.{some}
use mathlib.Core.List.{List, [], ◌∷◌, ◌++◌}
use native.Mathlib.Omega.{arith}
use onboarding_and_verificat.Prelude.Tests.{◌is◌}
use onboarding_and_verificat.Prelude.Lists.{find, keep, update}

module _ {ℓ} {A : Type ℓ} (id_of : A → ℕ) (i : ℕ) where
  -- An update of the rows of one id leaves the search for another alone.
  pub find-update_other :
      (j : ℕ) (f : A → A) (xs : List A)
      → (i is j) ≡ false
      → ((y : A) → id_of (f y) ≡ id_of y)
      → find (λ y. id_of y is i) (update (λ y. id_of y is j) f xs) ≡ find (λ y. id_of y is i) xs
  find-update_other j f [] ne same = refl
  find-update_other j f (x ∷ xs) ne same = ground (arith, same x, find-update_other j f xs ne same)

  pub find-append :
      (xs ys : List A) (x : A)
      → find (λ y. id_of y is i) xs ≡ some x
      → find (λ y. id_of y is i) (xs ++ ys) ≡ some x
  find-append [] ys x h = cc
  find-append (y ∷ xs) ys x h = ground (arith, find-append xs ys x)

  pub find-keep_other :
      (j : ℕ) (xs : List A)
      → (i is j) ≡ false
      → find (λ y. id_of y is i) (keep (λ y. not (id_of y is j)) xs) ≡ find (λ y. id_of y is i) xs
  find-keep_other j [] ne = refl
  find-keep_other j (x ∷ xs) ne = ground (arith, find-keep_other j xs ne)
