-- ===== src/Verifications/Values.antt =====
-- What a flow's configuration refers to: answers, the submission, and the output of other steps.
use onboarding_and_verificat.Prelude.{
  ℕ, String, ◌≡◌, refl, Bool, true, false, not, ◌||◌, if◌then◌else◌, Option, none, some, List, [],
  ◌∷◌, ◌==◌, ◌is◌, strip, split, join, after_prefix, chars, map,
}
use onboarding_and_verificat.Prelude.Int.{ℤ, pos, negsuc, str_ℤ}
use onboarding_and_verificat.Prelude.Json.{
  Json, Fields, null, bool, int, float, str, list, dict, nil, cons, end, field, get, items, entries,
  texts,
}
use onboarding_and_verificat.Model.Submission.{Submission}
use onboarding_and_verificat.Model.Verification.{VerificationStepRun}

-- Python's operations on floats (kept as their `repr`), on JSON values and on objects.
pub record Python : Type 0 where
  -- round(SequenceMatcher(None, a, b).ratio(), 4)
  pub ratio : String → String → String
  pub lower : String → String
  pub add : String → String → String
  -- round(total / count, 4)
  pub mean : String → ℕ → String
  pub ge : String → String → Bool
  -- float(x) and int(x); `none` where they raise
  pub to_float : Json → Option String
  pub to_int : Json → Option ℤ
  -- a == b, and whether a float is zero
  pub equal : Json → Json → Bool
  pub is_zero : String → Bool
  -- str() of a list or a dict
  pub str_container : Json → String
  -- str() of a UUID
  pub uuid : ℕ → String
  -- getattr along a dotted path, with the value of an Enum in its place
  pub attribute : Submission → String → Json

-- bool(x)
unfoldable pub truthy : Python → Json → Bool
truthy py null = false
truthy py (bool b) = b
truthy py (int (pos n)) = not (n is 0)
truthy py (int (negsuc n)) = true
truthy py (float repr) = not (py.is_zero repr)
truthy py (str s) = not (s == "")
truthy py (list nil) = false
truthy py (list (cons j js)) = true
truthy py (dict end) = false
truthy py (dict (field k v fs)) = true

-- a or b
abbrev pub or_else : Python → Json → Json → Json
or_else py a b = if truthy py a then a else b

-- str(x)
unfoldable pub str_of : Python → Json → String
str_of py null = "None"
str_of py (bool true) = "True"
str_of py (bool false) = "False"
str_of py (int n) = str_ℤ n
str_of py (float repr) = repr
str_of py (str s) = s
str_of py (list js) = py.str_container (list js)
str_of py (dict fs) = py.str_container (dict fs)

-- `x if isinstance(x, str)`
abbrev pub text_of : Json → Option String
text_of (str s) = some s
text_of _ = none

-- [v for v in d.get(key, []) if isinstance(v, str)]; `none` where the value cannot be iterated
unfoldable pub texts_under : Option Json → Option (List String)
texts_under none = some []
texts_under (some (list js)) = some (texts (items js))
texts_under (some (str s)) = some (chars s)
texts_under (some (dict fs)) = some (map (λ e. e.0) (entries fs))
texts_under (some _) = none

-- The rest of the path, in a value that is no dict.
abbrev walk_on : Json → (Fields → Json) → Json
walk_on (dict fs) rest = rest fs
walk_on _ rest = null

-- The loop of `_lookup_mapping` over the parts of the path; empty parts are passed over.
unfoldable pub walk : List String → Json → Json
walk [] current = current
walk (part ∷ parts) current =
    let step = walk_on current (λ fs. walk parts (get fs part)) in
    let pass = walk parts current in if part == "" then pass else step

-- _lookup_mapping
unfoldable pub lookup_mapping : Json → String → Json
lookup_mapping mapping path = if path == "" then mapping else walk (split b'.' path) mapping

-- by_key.get(key): the last step with the key.
unfoldable pub by_key : List VerificationStepRun → String → Option VerificationStepRun
by_key [] key = none
by_key (s ∷ steps) key = elim (by_key steps key) [
  | some t ↦ some t
  | none ↦ if s.step_key == key then some s else none
]

abbrev snapshot_of : VerificationStepRun → String → String → Json
snapshot_of t kind path =
    if kind == "output"
    then lookup_mapping (dict t.output_snapshot) path
    else if kind == "result"
    then lookup_mapping (dict t.result_snapshot) path
    else null

-- A reference `steps.<key>.<output or result>.<path>`, by its parts.
abbrev step_ref : List VerificationStepRun → List String → Json
step_ref steps (first ∷ key ∷ kind ∷ rest) = elim (by_key steps key) [
  | none ↦ null
  | some t ↦ snapshot_of t kind (join "." rest)
]
step_ref steps _ = null

-- raw[1:] if it begins with a dollar sign
abbrev without_dollar : String → String
without_dollar raw = elim (after_prefix "$" raw) [ none ↦ raw | some rest ↦ rest ]

unfoldable pub resolve_text : Python → Submission → List VerificationStepRun → String → Json
resolve_text py x steps raw = elim (after_prefix "answers." raw) [
  | some path ↦ lookup_mapping (dict x.form_data) path
  | none ↦ elim (after_prefix "submission." raw) [
    | some path ↦ py.attribute x path
    | none ↦ elim (after_prefix "steps." raw) [
      | some _ ↦ step_ref steps (split b'.' raw)
      | none ↦ str raw
    ]
  ]
]

-- _resolve_ref
unfoldable pub resolve_ref : Python → Submission → List VerificationStepRun → Json → Json
resolve_ref py x steps (str ref) = resolve_text py x steps (without_dollar (strip ref))
resolve_ref py x steps other = other

abbrev resolve_fields : Python → Submission → List VerificationStepRun → Fields → Fields
resolve_fields py x steps end = end
resolve_fields py x steps (field k v fs) =
    field k (resolve_ref py x steps v) (resolve_fields py x steps fs)

-- _resolve_input_map
unfoldable pub resolve_input_map : Python → Submission → List VerificationStepRun → Json → Fields
resolve_input_map py x steps (dict spec) = resolve_fields py x steps spec
resolve_input_map py x steps _ = end

-- _string_similarity
unfoldable pub string_similarity : Python → Json → Json → String
string_similarity py null right = "0.0"
string_similarity py left null = "0.0"
string_similarity py left right =
    let a = py.lower (strip (str_of py left)) in
    let b = py.lower (strip (str_of py right)) in
    if (a == "") || (b == "") then "0.0" else if a == b then "1.0" else py.ratio a b

walk_runs : lookup_mapping (dict (field "a" (dict (field "b" (str "x") end)) end)) "a.b" ≡ str "x"
unfolding lookup_mapping walk split
walk_runs = refl
