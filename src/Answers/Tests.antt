-- ===== src/Answers/Tests.antt =====
-- The theorems on validation at a small version of a template.
use onboarding_and_verificat.Prelude.{
  ℕ, String, Option, none, List, ◌≡◌, ◌↔◌, true, some, [], ◌∷◌, All,
}
use onboarding_and_verificat.Prelude.Json.{Fields, end, field, str}
use onboarding_and_verificat.Model.Template.{Question}
use onboarding_and_verificat.Answers.{validate_question, load_questions}
use onboarding_and_verificat.Answers.Validate.{coerced, validate_answers, validate_form_data}
use onboarding_and_verificat.Answers.Meaning.{Acceptable, validate_question-nil}
use onboarding_and_verificat.Answers.Report.{
  IsSettled, Blames, form_answer, validate_form_data-nil, validate_form_data-Blames,
}
use onboarding_and_verificat.Answers.Listed.{
  IsInOrder, Rejects, answered, answered_under, validate_answers-nil,
}
use onboarding_and_verificat.Answers.Samples.{platform, question, version}

abbrev name : Question
name = question 100 "name" "text" true []

validate_question-nil_example :
    (validate_question platform name (some "Ada") ≡ []) ↔ Acceptable platform name (some "Ada")
validate_question-nil_example = validate_question-nil platform name (some "Ada")

abbrev filled : Fields
filled = field "name" (str "Ada") end

validate_form_data-nil_example :
    (validate_form_data platform (version ∷ []) 10 filled ≡ [])
    ↔ All
        (IsSettled platform (coerced platform filled) (form_answer platform filled))
        (load_questions (version ∷ []) 10)
validate_form_data-nil_example = validate_form_data-nil platform (version ∷ []) 10 filled

-- The required question is missing from an empty form.
validate_form_data-Blames_example :
    All
      (Blames platform
        (coerced platform end)
        (form_answer platform end)
        (load_questions (version ∷ []) 10))
      (validate_form_data platform (version ∷ []) 10 end)
validate_form_data-Blames_example = validate_form_data-Blames platform (version ∷ []) 10 end

-- The second answer to the question is the one that counts.
abbrev twice : List (ℕ × Option String)
twice = (100, none) ∷ (100, some "Ada") ∷ []

validate_answers-nil_example :
    ((validate_answers platform (version ∷ []) 10 twice ≡ [])
      ↔ All
          (IsInOrder platform
            (answered_under twice (load_questions (version ∷ []) 10))
            (answered twice))
          (load_questions (version ∷ []) 10))
    × All
        (Rejects platform
          (answered_under twice (load_questions (version ∷ []) 10))
          (answered twice)
          (load_questions (version ∷ []) 10))
        (validate_answers platform (version ∷ []) 10 twice)
validate_answers-nil_example = validate_answers-nil platform (version ∷ []) 10 twice
