-- ===== src/Templates/Merge.antt =====
-- What a merge of two dicts holds at each path of keys.
use onboarding_and_verificat.Prelude.{
  String, ◌≡◌, refl, sym, ap, ◌∙◌, inl, inr, false, Option, none, some, ◌==◌, eq_iff, eq_refl,
  arith, Bool-cases, Option-cases, Bool, true, List, [], ◌∷◌, subst, if◌then◌else◌,
}
use onboarding_and_verificat.Prelude.Json.{Json, Fields, dict, end, field, lookup, set_field}
use onboarding_and_verificat.Templates.Config.{deep_merge, merge_value}

-- The keys of a dict are distinct, and so are those of the dicts that it holds.
abbrev mutual
  pub HasDistinctKeys : Fields → Type 0
  HasDistinctKeys end = Unit
  HasDistinctKeys (field k v fs) = (lookup k fs ≡ none) × HasDistinctKeysIn v × HasDistinctKeys fs

  pub HasDistinctKeysIn : Json → Type 0
  HasDistinctKeysIn (dict fs) = HasDistinctKeys fs
  HasDistinctKeysIn _ = Unit

lookup-set_field_same : (k : String) (v : Json) (fs : Fields) → lookup k (set_field k v fs) ≡ some v
lookup-set_field_same k v end = ground (arith, eq_refl k)
lookup-set_field_same k v (field j w fs) = ground (arith, eq_refl k, lookup-set_field_same k v fs)

lookup-set_field_other :
    (j k : String) (v : Json) (fs : Fields)
    → (j == k) ≡ false
    → lookup k (set_field j v fs) ≡ lookup k fs
lookup-set_field_other j k v end ne = ground arith
lookup-set_field_other j k v (field i w fs) ne =
    ground (arith, eq_iff i j, lookup-set_field_other j k v fs ne)

-- What a dict's value, or its absence, makes of the value below it.
unfoldable overlaid : Option Json → Option Json → Option Json
overlaid none below = below
overlaid (some v) below = some (merge_value below v)

overlaid_here :
    (j : String) (v : Json) (base fs : Fields)
    → lookup j fs ≡ none
    → overlaid (lookup j fs) (lookup j (set_field j (merge_value (lookup j base) v) base))
      ≡ overlaid (some v) (lookup j base)
unfolding overlaid
overlaid_here j v base fs absent =
    rw absent (lookup-set_field_same j (merge_value (lookup j base) v) base)

-- Under each key, the merge of a dict with distinct keys over a base holds the base's value where the dict has none, and
-- otherwise the dict's value, merged over the base's where both are dicts.
lookup-deep_merge :
    (k : String) (base fs : Fields)
    → HasDistinctKeys fs
    → lookup k (deep_merge base fs) ≡ overlaid (lookup k fs) (lookup k base)
unfolding deep_merge overlaid
lookup-deep_merge k base end distinct = refl
lookup-deep_merge k base (field j v fs) distinct =
    let merged = merge_value (lookup j base) v in
    elim (Bool-cases (j == k)) [
      | inl same ↦
          let here =
            lookup-deep_merge j (set_field j merged base) fs distinct.2
            ∙ overlaid_here j v base fs distinct.0 in
          rw (same, sym ((eq_iff j k).0 same)) here
      | inr other ↦
          let below = lookup-set_field_other j k merged base other in
          let rest = lookup-deep_merge k (set_field j merged base) fs distinct.2 in
          rw other (rest ∙ ap (overlaid (lookup k fs)) below)
    ]

-- The value that is no dict at a path of keys.
abbrev pub leaf_at : List String → Json → Option Json
leaf_at [] (dict fs) = none
leaf_at [] v = some v
leaf_at (key ∷ path) (dict fs) = elim (lookup key fs) [ none ↦ none | some v ↦ leaf_at path v ]
leaf_at (key ∷ path) _ = none

abbrev leaf_of : List String → Option Json → Option Json
leaf_of path none = none
leaf_of path (some v) = leaf_at path v

-- A value decides what is at a path: it has something there, or on the way there no dict.
abbrev pub decides : List String → Json → Bool
decides [] v = true
decides (key ∷ path) (dict fs) = elim (lookup key fs) [ none ↦ false | some v ↦ decides path v ]
decides (key ∷ path) _ = true

lookup-HasDistinctKeysIn :
    (key : String) (fs : Fields) (v : Json)
    → HasDistinctKeys fs
    → lookup key fs ≡ some v
    → HasDistinctKeysIn v
lookup-HasDistinctKeysIn key end v distinct e = absurd (ground arith)
lookup-HasDistinctKeysIn key (field j w fs) v distinct e = elim (Bool-cases (j == key)) [
  | inl same ↦ let here : w ≡ v = ground arith in subst HasDistinctKeysIn here distinct.1
  | inr other ↦ lookup-HasDistinctKeysIn key fs v distinct.2 (ground arith)
]

-- A value that leaves a path undecided has no leaf there.
undecided : (path : List String) (v : Json) → decides path v ≡ false → leaf_at path v ≡ none
undecided [] v h = absurd (ground arith)
undecided (key ∷ path) (dict fs) h = elim (Option-cases (lookup key fs)) [
  | inl absent ↦ rw (leaf_at, absent) refl
  | inr (w, e) ↦ rw (leaf_at, e) (undecided path w (rw (decides, e) at h))
]
undecided (key ∷ path) _ h = absurd (ground arith)

-- A value that replaces what is below it decides what no leaf below does.
replaced :
    (path : List String) (v : Json) (below : Option Json)
    → (decides path v ≡ false → below ≡ none)
    → leaf_at path v ≡ (if decides path v then leaf_at path v else below)
replaced path v below empty = elim (Bool-cases (decides path v)) [
  | inl full ↦ rw full refl
  | inr bare ↦ rw bare (undecided path v bare ∙ sym (empty bare))
]

leaf_at-key :
    (key : String) (path : List String) (fs : Fields)
    → leaf_at (key ∷ path) (dict fs) ≡ leaf_of path (lookup key fs)
leaf_at-key key path fs = elim (Option-cases (lookup key fs)) [
  | inl absent ↦ rw (leaf_at, absent) refl
  | inr (v, e) ↦ rw (leaf_at, e) refl
]

leaf_at-merge_value :
    (path : List String) (below : Option Json) (v : Json)
    → ((b o : Fields)
        → HasDistinctKeys o
        → leaf_at path (dict (deep_merge b o))
          ≡ (if decides path (dict o) then leaf_at path (dict o) else leaf_at path (dict b)))
    → HasDistinctKeysIn v
    → leaf_at path (merge_value below v)
      ≡ (if decides path v then leaf_at path v else leaf_of path below)
unfolding merge_value
leaf_at-merge_value path none v merged distinct = replaced path v none (λ h. refl)
leaf_at-merge_value path (some (dict b)) (dict o) merged distinct = merged b o distinct
leaf_at-merge_value [] (some (dict b)) _ merged distinct = refl
leaf_at-merge_value (key ∷ path) (some (dict b)) _ merged distinct = refl
leaf_at-merge_value [] (some _) v merged distinct = refl
leaf_at-merge_value (key ∷ path) (some _) v merged distinct =
    replaced (key ∷ path) v none (λ h. refl)

-- At each path of keys where the override has anything, or on the way to which it has something that
-- is no dict, the merge of the override over a base has the plain value (one that is no dict) that the
-- override has at the path, or none if it has none; at each other path it has the base's. The keys of the
-- override's dicts are distinct.
pub leaf_at-deep_merge :
    (path : List String) (base override : Fields)
    → HasDistinctKeys override
    → leaf_at path (dict (deep_merge base override)) ≡ (
        if decides path (dict override)
        then leaf_at path (dict override)
        else leaf_at path (dict base))
unfolding overlaid
leaf_at-deep_merge [] base override distinct = refl
leaf_at-deep_merge (key ∷ path) base override distinct =
    let here =
      leaf_at-key key path (deep_merge base override)
      ∙ ap (leaf_of path) (lookup-deep_merge key base override distinct) in
    elim (Option-cases (lookup key override)) [
      | inl absent ↦ rw (decides, absent) (rw absent at here ∙ sym (leaf_at-key key path base))
      | inr (v, e) ↦
          let below =
            leaf_at-merge_value path (lookup key base) v (leaf_at-deep_merge path)
              (lookup-HasDistinctKeysIn key override v distinct e) in
          rw (decides, e, leaf_at-key key path override, leaf_at-key key path base, e)
            (rw e at here ∙ below)
    ]
