-- ===== src/Answers/Meaning.antt =====
-- What the checks of one answer accept, described without the code's branches.
use onboarding_and_verificat.Prelude.{
  ℕ, ◌≤◌, String, ◌≡◌, refl, subst, ◌≢◌, ◌↔◌, ◌⊎◌, inl, inr, Bool, true, false, not, Option, none,
  some, List, [], ◌∷◌, ◌++◌, arith, eq_iff, ltb, keep, All, Option-cases,
}
use onboarding_and_verificat.Model.Template.{Question}
use onboarding_and_verificat.Answers.{Platform, is_blank, validate_question}
use onboarding_and_verificat.Answers.Checks.{
  Message, too_early, too_late, given, contains, option_values, pieces, check_text, check_choice,
  check_checkbox, check_date, check_value, check_bound, match_errors,
}

-- A value is one of the options.
abbrev pub OneOf : String → List String → Type 0
OneOf v [] = ⊥
OneOf v (w ∷ ws) = (w ≡ v) ⊎ OneOf v ws

pub contains_iff : (v : String) (values : List String) → (contains values v ≡ true) ↔ OneOf v values
contains_iff v [] = (λ h. cc, λ h. absurd h)
contains_iff v (w ∷ ws) = (
  λ h. ground (arith, (eq_iff w v).0, (contains_iff v ws).0),
  λ h. ground (arith, (eq_iff w v).1, (contains_iff v ws).1),
)

-- The pattern, if one is given and is a regular expression, matches the whole value.
abbrev pub TextMatches : Platform → Option String → String → Type 0
TextMatches p pattern raw =
    (rx : String) → given pattern ≡ some rx → p.fullmatch rx raw ≢ some false

-- The value is one of the options, unless the question has none.
abbrev pub IsChoice : List String → String → Type 0
IsChoice values raw = (values ≡ []) ⊎ OneOf raw values

-- So is each piece of a comma-separated value.
abbrev pub AreChoices : List String → String → Type 0
AreChoices values raw = (values ≡ []) ⊎ All (λ v. OneOf v values) (pieces raw)

-- The value is a date, within those ends of the range that are dates.
abbrev pub IsDateWithin : Platform → Question → String → Type 0
IsDateWithin p q raw =
    (day : ℕ) × (p.parse_date raw ≡ some day)
    × ((s : String) (d : ℕ) → given q.min_date ≡ some s → p.parse_date s ≡ some d → d ≤ day)
    × ((s : String) (d : ℕ) → given q.max_date ≡ some s → p.parse_date s ≡ some d → day ≤ d)

match_errors-nil : (o : Option Bool) → (match_errors o ≡ []) ↔ (o ≢ some false)
match_errors-nil o = (λ h. ground arith, λ h. ground arith)

check_text-nil :
    (p : Platform) (pattern : Option String) (raw : String)
    → (check_text p pattern raw ≡ []) ↔ TextMatches p pattern raw
unfolding check_text
check_text-nil p pattern raw = (
  λ h rx e. ground arith,
  λ h. elim (Option-cases (given pattern)) [
    | inl absent ↦ ground arith
    | inr (rx, e) ↦ ground (arith, (match_errors-nil (p.fullmatch rx raw)).1 (h rx e))
  ],
)

check_choice-nil :
    (values : List String) (raw : String) → (check_choice values raw ≡ []) ↔ IsChoice values raw
unfolding check_choice
check_choice-nil values raw = (
  λ h. ground (arith, (contains_iff raw values).0),
  λ h. ground (arith, (contains_iff raw values).1),
)

keep_invalid-nil :
    (values vs : List String)
    → (keep (λ v. not (contains values v)) vs ≡ []) ↔ All (λ v. OneOf v values) vs
keep_invalid-nil values [] = (λ h. tt, λ h. refl)
keep_invalid-nil values (v ∷ vs) = (
  λ h. ground (arith, (contains_iff v values).0, (keep_invalid-nil values vs).0),
  λ h. ground (arith, (contains_iff v values).1, (keep_invalid-nil values vs).1),
)

check_checkbox-nil :
    (values : List String) (raw : String) → (check_checkbox values raw ≡ []) ↔ AreChoices values raw
unfolding check_checkbox
check_checkbox-nil values raw = (
  λ h. ground (arith, (keep_invalid-nil values (pieces raw)).0),
  λ h. ground (arith, (keep_invalid-nil values (pieces raw)).1),
)

-- One end of the range: the value is not outside of it.
abbrev Inside : Platform → Option String → (ℕ → Bool) → Type 0
Inside p limit outside =
    (s : String) (d : ℕ) → given limit ≡ some s → p.parse_date s ≡ some d → outside d ≡ false

check_bound-nil :
    (p : Platform) (limit : Option String) (outside : ℕ → Bool) (m : String → Message)
    → (check_bound p limit outside m ≡ []) ↔ Inside p limit outside
check_bound-nil p limit outside m = (
  λ h s d e f. ground arith,
  λ h. elim (Option-cases (given limit)) [
    | inl absent ↦ ground arith
    | inr (s, e) ↦ elim (Option-cases (p.parse_date s)) [
      | inl no_date ↦ ground arith
      | inr (d, f) ↦ ground (arith, h s d e f)
    ]
  ],
)

pub append-nil_iff {ℓ} : {A : Type ℓ} (xs ys : List A) → (xs ++ ys ≡ []) ↔ ((xs ≡ []) × (ys ≡ []))
append-nil_iff [] ys = (λ h. (refl, h), λ h. h.1)
append-nil_iff (x ∷ xs) ys = (λ h. cc, λ h. cc)

not_before : (a b : ℕ) → ltb a b ≡ false → b ≤ a
not_before a b h = ground arith

before_not : (a b : ℕ) → b ≤ a → ltb a b ≡ false
before_not a b h = ground arith

module _ (p : Platform) (q : Question) (raw : String) (day : ℕ) where
  Within-of-nil :
      check_bound p q.min_date (λ d. ltb day d) too_early
          ++ check_bound p q.max_date (λ d. ltb d day) too_late
        ≡ []
      → p.parse_date raw ≡ some day
      → IsDateWithin p q raw
  Within-of-nil h e =
      let ends = (append-nil_iff _ _).0 h in
      let low = (check_bound-nil p q.min_date (λ d. ltb day d) too_early).0 ends.0 in
      let high = (check_bound-nil p q.max_date (λ d. ltb d day) too_late).0 ends.1 in
      (
        day,
        e,
        λ s d a b. not_before day d (low s d a b),
        λ s d a b. not_before d day (high s d a b),
      )

  nil-of-Within :
      IsDateWithin p q raw
      → p.parse_date raw ≡ some day
      → check_bound p q.min_date (λ d. ltb day d) too_early
          ++ check_bound p q.max_date (λ d. ltb d day) too_late
        ≡ []
  nil-of-Within (day', e', low, high) e =
      let same : day' ≡ day = cc in
      (append-nil_iff _ _).1 (
        (check_bound-nil p q.min_date (λ d. ltb day d) too_early).1
            (λ s d a b. before_not day d (rw same at (low s d a b))),
        (check_bound-nil p q.max_date (λ d. ltb d day) too_late).1
            (λ s d a b. before_not d day (rw same at (high s d a b))),
      )

check_date-nil :
    (p : Platform) (q : Question) (raw : String) → (check_date p q raw ≡ []) ↔ IsDateWithin p q raw
unfolding check_date
check_date-nil p q raw = elim (Option-cases (p.parse_date raw)) [
  | inl no_date ↦ (λ h. ground arith, λ h. ground arith)
  | inr (day, e) ↦ (
    λ h. Within-of-nil p q raw day (ground arith) e,
    λ h. let bounds = nil-of-Within p q raw day h e in ground arith,
  )
]

-- What a value that is not blank has to be, by the question's type.
pub record ValueFits (p : Platform) (q : Question) (raw : String) : Type 0 where
  pub text : q.field_type ≡ "text" → TextMatches p q.regex raw
  pub choice :
      (q.field_type ≡ "dropdown") ⊎ (q.field_type ≡ "radio") → IsChoice (option_values q) raw
  pub checkbox : q.field_type ≡ "checkbox" → AreChoices (option_values q) raw
  pub date : q.field_type ≡ "date" → IsDateWithin p q raw

check_value-nil :
    (p : Platform) (q : Question) (raw : String) → (check_value p q raw ≡ []) ↔ ValueFits p q raw
unfolding check_value check_date
check_value-nil p q raw = (
  λ h. record {
    text = λ e. (check_text-nil p q.regex raw).0 (rw e at h);
    choice = elim [
      | inl e ↦ (check_choice-nil (option_values q) raw).0 (rw e at h)
      | inr e ↦ (check_choice-nil (option_values q) raw).0 (rw e at h)
    ];
    checkbox = λ e. (check_checkbox-nil (option_values q) raw).0 (rw e at h);
    date = λ e. (check_date-nil p q raw).0 (rw e at h);
  },
  λ h.
      let is_text = λ (e : q.field_type ≡ "text"). (check_text-nil p q.regex raw).1 (h.text e) in
      let is_choice = λ (e : (q.field_type ≡ "dropdown") ⊎ (q.field_type ≡ "radio")).
        (check_choice-nil (option_values q) raw).1 (h.choice e) in
      let is_checkbox = λ (e : q.field_type ≡ "checkbox").
        (check_checkbox-nil (option_values q) raw).1 (h.checkbox e) in
      let is_date = λ (e : q.field_type ≡ "date"). (check_date-nil p q raw).1 (h.date e) in
      ground (
        arith,
        eq_iff q.field_type "text",
        eq_iff q.field_type "dropdown",
        eq_iff q.field_type "radio",
        eq_iff q.field_type "checkbox",
        eq_iff q.field_type "date",
      ),
)

-- What an answer, or the lack of one, has to be.
pub record Acceptable (p : Platform) (q : Question) (raw : Option String) : Type 0 where
  pub filled : q.required ≡ true → is_blank raw ≡ false
  pub uploaded : q.field_type ≡ "fileUpload" → raw ≢ none → is_blank raw ≡ false
  pub fits : (r : String) → raw ≡ some r → is_blank raw ≡ false → ValueFits p q r

-- A question reports nothing exactly when its answer is acceptable.
pub validate_question-nil :
    (p : Platform) (q : Question) (raw : Option String)
    → (validate_question p q raw ≡ []) ↔ Acceptable p q raw
unfolding validate_question is_blank
validate_question-nil p q none = (
  λ h. record { filled = λ r. ground arith; uploaded = λ f g. absurd (g refl); fits = λ r e. cc },
  λ h. ground (arith, h.filled),
)
validate_question-nil p q (some raw) = (
  λ h. record {
    filled = λ r. ground arith;
    uploaded = λ f g. ground (arith, eq_iff q.field_type "fileUpload");
    fits = λ r e b.
        let same : raw ≡ r = cc in
        subst (ValueFits p q) same ((check_value-nil p q raw).0 (ground arith));
  },
  λ h.
      let good =
        λ (b : is_blank (some raw) ≡ false). (check_value-nil p q raw).1 (h.fits raw refl b) in
      ground (arith, eq_iff q.field_type "fileUpload", h.filled),
)
