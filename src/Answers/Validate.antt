-- ===== src/Answers/Validate.antt =====
-- _coerce_answer_value, validate_form_data and validate_answers.
use Prim.Native.String.{◌++◌ as concat}
use onboarding_and_verificat.Prelude.{
  ℕ, String, true, false, if◌then◌else◌, Option, none, some, List, [], ◌∷◌, ◌++◌, map, ◌==◌, ◌is◌,
  put, item,
}
use onboarding_and_verificat.Prelude.Int.{str_ℤ}
use onboarding_and_verificat.Prelude.Json.{
  Json, Items, Fields, null, bool, int, float, str, list, dict, nil, cons, end, field,
}
use onboarding_and_verificat.Model.Template.{Question, TenantTemplateDefinition}
use onboarding_and_verificat.Answers.{
  Platform, Message, load_questions, answer_of, is_visible, validate_question,
}

-- str(item) of an item of a list; `None` items are passed over.
abbrev part : Platform → Json → List String
part p null = []
part p (bool true) = "True" ∷ []
part p (bool false) = "False" ∷ []
part p (int n) = str_ℤ n ∷ []
part p (float repr) = repr ∷ []
part p (str s) = s ∷ []
part p (list js) = p.str_container (list js) ∷ []
part p (dict fs) = p.str_container (dict fs) ∷ []

abbrev parts : Platform → Items → List String
parts p nil = []
parts p (cons j js) = part p j ++ parts p js

-- ",".join(parts)
abbrev join : List String → String
join [] = ""
join (s ∷ []) = s
join (s ∷ t ∷ r) = concat s (concat "," (join (t ∷ r)))

unfoldable pub coerce_answer_value : Platform → Json → Option String
coerce_answer_value p null = none
coerce_answer_value p (bool b) = some (if b then "true" else "false")
coerce_answer_value p (int n) = some (str_ℤ n)
coerce_answer_value p (float repr) = some repr
coerce_answer_value p (str s) = some s
coerce_answer_value p (list js) = some (join (parts p js))
coerce_answer_value p (dict fs) = some (p.str_container (dict fs))

-- {str(k): _coerce_answer_value(v) for k, v in form_data.items()}; a dict's keys are distinct.
unfoldable pub coerced : Platform → Fields → List (String × Option String)
coerced p end = []
coerced p (field k v fs) = (k, coerce_answer_value p v) ∷ coerced p fs

pub record AnswerError : Type 0 where
  pub question_id : ℕ
  pub unique_key : String
  pub message : Message

abbrev pub blame : Question → Message → AnswerError
blame q m = record { question_id = q.id; unique_key = q.unique_key; message = m }

-- The errors of one question, given its visibility and its answer.
unfoldable pub question_errors :
    Platform
    → List (String × Option String)
    → (Question → Option String)
    → Question
    → List AnswerError
question_errors p by_key raw q =
    if is_visible q by_key then map (blame q) (validate_question p q (raw q)) else []

-- The loop over the questions.
unfoldable pub collect :
    Platform
    → List (String × Option String)
    → (Question → Option String)
    → List Question
    → List AnswerError
collect p by_key raw [] = []
collect p by_key raw (q ∷ qs) = question_errors p by_key raw q ++ collect p by_key raw qs

unfoldable pub validate_form_data :
    Platform → List TenantTemplateDefinition → ℕ → Fields → List AnswerError
validate_form_data p definitions version_id form_data =
    let by_key = coerced p form_data in
    collect p by_key (λ q. answer_of by_key q.unique_key) (load_questions definitions version_id)

-- {a.question_id: a.answer for a in answers}: a later answer replaces an earlier one.
unfoldable pub gather :
    List (ℕ × Option String) → List (ℕ × Option String) → List (ℕ × Option String)
gather [] d = d
gather ((i, a) ∷ r) d = gather r (put ◌is◌ i a d)

unfoldable pub by_id : List (ℕ × Option String) → List (ℕ × Option String)
by_id answers = gather answers []

abbrev pub put_answer :
    String → Option (Option String) → List (String × Option String) → List (String × Option String)
put_answer key none d = d
put_answer key (some a) d = put ◌==◌ key a d

-- The answers under the unique keys of their questions; the dict is built up in `d`.
unfoldable pub key_answers :
    List (ℕ × Option String)
    → List Question
    → List (String × Option String)
    → List (String × Option String)
key_answers ids [] d = d
key_answers ids (q ∷ qs) d = key_answers ids qs (put_answer q.unique_key (item ◌is◌ q.id ids) d)

abbrev pub flat : Option (Option String) → Option String
flat none = none
flat (some a) = a

unfoldable pub validate_answers :
    Platform → List TenantTemplateDefinition → ℕ → List (ℕ × Option String) → List AnswerError
validate_answers p definitions version_id answers =
    let questions = load_questions definitions version_id in
    let ids = by_id answers in
    collect p (key_answers ids questions []) (λ q. flat (item ◌is◌ q.id ids)) questions
