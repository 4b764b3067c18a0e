-- ===== src/Prelude/Int.antt =====
-- Python's integers, over the native numbers.
use Prim.Native.Nat.{ℕ, zero, suc, ◌+◌, ◌/◌, ◌%◌}
use Prim.Native.String.{String, ◌++◌ as concat}
use mathlib.Core.Path.{◌≡◌, refl}
use mathlib.Core.Bool.{Bool}
use onboarding_and_verificat.Prelude.Tests.{ltb, leb, ◌is◌, if◌then◌else◌}

-- `negsuc n` is -(n + 1).
pub data ℤ : Type 0 where
  pos : ℕ → ℤ
  negsuc : ℕ → ℤ

abbrev pos_part : ℤ → ℕ
pos_part (pos n) = n
pos_part (negsuc n) = 0

abbrev neg_part : ℤ → ℕ
neg_part (pos n) = 0
neg_part (negsuc n) = suc n

abbrev pub leb_ℤ : ℤ → ℤ → Bool
leb_ℤ a b = leb (pos_part a + neg_part b) (pos_part b + neg_part a)

-- n + 1
abbrev pub next_ℤ : ℤ → ℤ
next_ℤ (pos n) = pos (suc n)
next_ℤ (negsuc zero) = pos 0
next_ℤ (negsuc (suc n)) = negsuc n

abbrev digit : ℕ → String
digit d =
    if d is 0
    then "0"
    else if d is 1
    then "1"
    else if d is 2
    then "2"
    else if d is 3
    then "3"
    else if d is 4
    then "4"
    else if d is 5
    then "5"
    else if d is 6
    then "6"
    else if d is 7
    then "7"
    else if d is 8
    then "8"
    else "9"

-- The decimal digits; the number itself is fuel enough, since each round divides by ten.
decimal_fuel : ℕ → ℕ → String
decimal_fuel zero n = digit n
decimal_fuel (suc f) n =
    let more = concat (decimal_fuel f (n / 10)) (digit (n % 10)) in
    if ltb n 10 then digit n else more

-- str(n) for an integer.
unfoldable pub str_ℤ : ℤ → String
unfolding decimal_fuel
str_ℤ (pos n) = decimal_fuel n n
str_ℤ (negsuc n) = concat "-" (decimal_fuel (suc n) (suc n))

str_ints : (str_ℤ (pos 1203) ≡ "1203") × (str_ℤ (negsuc 6) ≡ "-7")
unfolding str_ℤ
str_ints = (refl, refl)
