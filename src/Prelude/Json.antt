-- ===== src/Prelude/Json.antt =====
-- The values of a JSON column as Python holds them.
use Prim.Native.String.{String}
use mathlib.Core.Bool.{Bool}
use mathlib.Core.Option.{Option, none, some}
use mathlib.Core.List.{List, [], ◌∷◌}
use text.Mathlib.Text.{◌==◌}
use onboarding_and_verificat.Prelude.Tests.{if◌then◌else◌}
use onboarding_and_verificat.Prelude.Int.{ℤ}

-- A `float` is kept as its `repr`, which determines it. A `dict` keeps its order of insertion.
mutual
  pub data Json : Type 0 where
    null : Json
    bool : Bool → Json
    int : ℤ → Json
    float : String → Json
    str : String → Json
    list : Items → Json
    dict : Fields → Json

  pub data Items : Type 0 where
    nil : Items
    cons : Json → Items → Items

  pub data Fields : Type 0 where
    end : Fields
    field : String → Json → Fields → Fields

abbrev pub items : Items → List Json
items nil = []
items (cons j js) = j ∷ items js

abbrev pub entries : Fields → List (String × Json)
entries end = []
entries (field k v fs) = (k, v) ∷ entries fs

-- The value under a key, if the key is there.
abbrev pub lookup : String → Fields → Option Json
lookup k end = none
lookup k (field j v fs) = if j == k then some v else lookup k fs

abbrev or_null : Option Json → Json
or_null none = null
or_null (some j) = j

-- d.get(k)
abbrev pub get : Fields → String → Json
get d k = or_null (lookup k d)

-- d[k] = v: an old key keeps its place.
abbrev pub set_field : String → Json → Fields → Fields
set_field k v end = field k v end
set_field k v (field j w fs) = if j == k then field j v fs else field j w (set_field k v fs)

abbrev pub of_list : List Json → Items
of_list [] = nil
of_list (j ∷ js) = cons j (of_list js)

-- `d if isinstance(d, dict) else {}`
abbrev pub dict_or_empty : Json → Fields
dict_or_empty (dict fs) = fs
dict_or_empty _ = end

-- A text, or null for `None`.
abbrev pub str_or_null : Option String → Json
str_or_null none = null
str_or_null (some s) = str s

-- [v for v in values if isinstance(v, str)]
abbrev pub texts : List Json → List String
texts [] = []
texts (str s ∷ js) = s ∷ texts js
texts (_ ∷ js) = texts js
