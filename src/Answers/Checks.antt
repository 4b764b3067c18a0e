-- ===== src/Answers/Checks.antt =====
-- _validate_question: the checks of one answer. Regular expressions and the parsing of dates are
-- Python's; they come in as functions.
use onboarding_and_verificat.Prelude.{
  ℕ, String, Bool, true, false, not, ◌&&◌, ◌||◌, if◌then◌else◌, Option, none, some, List, [], ◌∷◌,
  ◌++◌, map, ◌==◌, ltb, any, keep, strip, split,
}
use onboarding_and_verificat.Prelude.Json.{Json}
use onboarding_and_verificat.Model.Template.{Question}

pub record Platform : Type 0 where
  -- re.fullmatch(pattern, value): `none` where the pattern is no regular expression
  pub fullmatch : String → String → Option Bool
  -- date.fromisoformat, as the number of the day; `none` where it raises
  pub parse_date : String → Option ℕ
  -- str() of a dict, or of a list or dict inside a list
  pub str_container : Json → String

-- The messages of the errors, with the values that they quote.
pub data Message : Type 0 where
  required empty_upload bad_format bad_date : Message
  not_an_option : String → Message
  invalid_options : List String → Message
  too_early too_late : String → Message

unfoldable pub is_blank : Option String → Bool
is_blank none = true
is_blank (some raw) = strip raw == ""

abbrev pub option_values : Question → List String
option_values q = map (λ o. o.value) q.options

abbrev pub contains : List String → String → Bool
contains values v = any (λ w. w == v) values

abbrev is_empty : List String → Bool
is_empty [] = true
is_empty (_ ∷ _) = false

-- `if q.regex:` the pattern, unless it is `None` or empty.
abbrev pub given : Option String → Option String
given none = none
given (some s) = if s == "" then none else some s

abbrev pub match_errors : Option Bool → List Message
match_errors (some false) = bad_format ∷ []
match_errors _ = []

unfoldable pub check_text : Platform → Option String → String → List Message
check_text p pattern raw = elim (given pattern) [
  | none ↦ []
  | some rx ↦ match_errors (p.fullmatch rx raw)
]

unfoldable pub check_choice : List String → String → List Message
check_choice values raw =
    if not (is_empty values) && not (contains values raw) then not_an_option raw ∷ [] else []

-- [v.strip() for v in raw.split(",") if v.strip()]
unfoldable pub pieces : String → List String
pieces raw = map strip (keep (λ v. not (strip v == "")) (split b',' raw))

abbrev report_invalid : List String → List Message
report_invalid [] = []
report_invalid (v ∷ vs) = invalid_options (v ∷ vs) ∷ []

unfoldable pub check_checkbox : List String → String → List Message
check_checkbox values raw =
    if is_empty values
    then []
    else report_invalid (keep (λ v. not (contains values v)) (pieces raw))

abbrev pub bound_errors : Option ℕ → (ℕ → Bool) → Message → List Message
bound_errors none outside m = []
bound_errors (some d) outside m = if outside d then m ∷ [] else []

-- One end of the allowed range, where the question gives it and it is a date.
abbrev pub check_bound : Platform → Option String → (ℕ → Bool) → (String → Message) → List Message
check_bound p limit outside m = elim (given limit) [
  | none ↦ []
  | some s ↦ bound_errors (p.parse_date s) outside (m s)
]

abbrev date_errors : Platform → Question → Option ℕ → List Message
date_errors p q none = bad_date ∷ []
date_errors p q (some parsed) =
    check_bound p q.min_date (λ d. ltb parsed d) too_early
    ++ check_bound p q.max_date (λ d. ltb d parsed) too_late

unfoldable pub check_date : Platform → Question → String → List Message
check_date p q raw = date_errors p q (p.parse_date raw)

-- The checks by field type, of an answer that is not blank.
unfoldable pub check_value : Platform → Question → String → List Message
check_value p q raw =
    if q.field_type == "text"
    then check_text p q.regex raw
    else if (q.field_type == "dropdown") || (q.field_type == "radio")
    then check_choice (option_values q) raw
    else if q.field_type == "checkbox"
    then check_checkbox (option_values q) raw
    else if q.field_type == "date"
    then check_date p q raw
    else []

abbrev check_present : Platform → Question → Option String → List Message
check_present p q none = []
check_present p q (some raw) = check_value p q raw

abbrev is_given : Option String → Bool
is_given none = false
is_given (some _) = true

unfoldable pub validate_question : Platform → Question → Option String → List Message
validate_question p q raw =
    if q.required && is_blank raw
    then required ∷ []
    else if (q.field_type == "fileUpload") && (is_given raw && is_blank raw)
    then empty_upload ∷ []
    else if is_blank raw
    then []
    else check_present p q raw
