-- ===== src/Prelude/Text.antt =====
-- Python's `str.strip` and `str.split`, over the characters of a text.
use Prim.Native.Nat.{ℕ, zero, suc}
use Prim.Native.Char.{Char, code}
use Prim.Native.String.{String, ◌++◌ as concat}
use mathlib.Core.Path.{◌≡◌, refl}
use mathlib.Core.Bool.{Bool, true, ◌&&◌, ◌||◌}
use mathlib.Core.Option.{Option, none, some}
use mathlib.Core.List.{List, [], ◌∷◌}
use onboarding_and_verificat.Prelude.Tests.{leb, ◌is◌, if◌then◌else◌}

-- `str.isspace` of one character: the code points that Unicode counts as white space.
is_space : ℕ → Bool
is_space c =
    (leb 9 c && leb c 13)
    || (leb 28 c && leb c 32)
    || (c is 133)
    || (c is 160)
    || (c is 5760)
    || (leb 8192 c && leb c 8202)
    || (c is 8232)
    || (c is 8233)
    || (c is 8239)
    || (c is 8287)
    || (c is 12288)

-- A text of white space only (or of no character).
unfoldable pub is_blank_text : String → Bool
unfolding is_space
is_blank_text String.[] = true
is_blank_text (String.◌∷◌ c s) = is_space (code c) && is_blank_text s

lstrip : String → String
unfolding is_space
lstrip String.[] = String.[]
lstrip (String.◌∷◌ c s) = let rest = lstrip s in if is_space (code c) then rest else String.◌∷◌ c s

rstrip : String → String
unfolding is_blank_text
rstrip String.[] = String.[]
rstrip (String.◌∷◌ c s) =
    let rest = rstrip s in
    if is_space (code c) && is_blank_text s then String.[] else String.◌∷◌ c rest

-- s.strip()
unfoldable pub strip : String → String
unfolding lstrip rstrip
strip s = rstrip (lstrip s)

abbrev cons_head : Char → List String → List String
cons_head c [] = String.◌∷◌ c String.[] ∷ []
cons_head c (p ∷ ps) = String.◌∷◌ c p ∷ ps

-- s.split(sep) for a separator of one character, given by its code point.
unfoldable pub split : ℕ → String → List String
split sep String.[] = String.[] ∷ []
split sep (String.◌∷◌ c s) =
    let rest = split sep s in if code c is sep then String.[] ∷ rest else cons_head c rest

strip_both_ends : strip "  a b " ≡ "a b"
unfolding strip
strip_both_ends = refl

split_commas : split b',' "a,b,,c" ≡ "a" ∷ "b" ∷ "" ∷ "c" ∷ []
unfolding split
split_commas = refl

-- s[len(prefix):] if s.startswith(prefix)
unfoldable pub after_prefix : String → String → Option String
after_prefix String.[] s = some s
after_prefix (String.◌∷◌ c p) String.[] = none
after_prefix (String.◌∷◌ c p) (String.◌∷◌ d s) =
    let rest = after_prefix p s in if code c is code d then rest else none

after_prefix_runs : after_prefix "answers." "answers.name" ≡ some "name"
unfolding after_prefix
after_prefix_runs = refl

-- sep.join(parts)
unfoldable pub join : String → List String → String
join sep [] = ""
join sep (s ∷ []) = s
join sep (s ∷ t ∷ r) = concat s (concat sep (join sep (t ∷ r)))

-- s[:n]
unfoldable pub prefix : ℕ → String → String
prefix zero s = String.[]
prefix (suc n) String.[] = String.[]
prefix (suc n) (String.◌∷◌ c s) = String.◌∷◌ c (prefix n s)

-- list(s)
unfoldable pub chars : String → List String
chars String.[] = []
chars (String.◌∷◌ c s) = String.◌∷◌ c String.[] ∷ chars s
