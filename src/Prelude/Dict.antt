-- ===== src/Prelude/Dict.antt =====
-- Python's `dict` in order of insertion, over a Boolean test of keys; and stable sorting by a key.
use mathlib.Core.Bool.{Bool}
use mathlib.Core.Option.{Option, none, some}
use mathlib.Core.List.{List, [], ◌∷◌}
use onboarding_and_verificat.Prelude.Tests.{if◌then◌else◌}
use onboarding_and_verificat.Prelude.Int.{ℤ, leb_ℤ}

module _ {ℓ κ} {K : Type ℓ} {V : Type κ} where
  -- d[k] = v: an old key keeps its place.
  abbrev pub put : (K → K → Bool) → K → V → List (K × V) → List (K × V)
  put eq k v [] = (k, v) ∷ []
  put eq k v ((j, w) ∷ d) = if eq j k then (j, v) ∷ d else (j, w) ∷ put eq k v d

  -- The value under a key, if the key is in the dict.
  abbrev pub item : (K → K → Bool) → K → List (K × V) → Option V
  item eq k [] = none
  item eq k ((j, w) ∷ d) = if eq j k then some w else item eq k d

module _ {ℓ} {A : Type ℓ} where
  abbrev insert_by : (A → ℤ) → A → List A → List A
  insert_by key x [] = x ∷ []
  insert_by key x (y ∷ ys) = if leb_ℤ (key x) (key y) then x ∷ y ∷ ys else y ∷ insert_by key x ys

  -- sorted(xs, key=key): rows with equal keys stay in order.
  abbrev pub sorted : (A → ℤ) → List A → List A
  sorted key [] = []
  sorted key (x ∷ xs) = insert_by key x (sorted key xs)
