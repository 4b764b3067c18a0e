-- ===== src/Answers/Report.antt =====
-- What the validation of a form reports: nothing exactly when all is well, and only what is wrong.
use onboarding_and_verificat.Prelude.{
  ℕ, String, ◌≡◌, refl, ◌↔◌, ◌⊎◌, inl, inr, true, Option, List, [], ◌∷◌, map, All, All-append,
  Bool-cases,
}
use onboarding_and_verificat.Prelude.Json.{Fields}
use onboarding_and_verificat.Model.Template.{Question, TenantTemplateDefinition}
use onboarding_and_verificat.Answers.{
  Platform, Message, load_questions, answer_of, is_visible, validate_question,
}
use onboarding_and_verificat.Answers.Validate.{
  AnswerError, blame, coerced, question_errors, collect, validate_form_data,
}
use onboarding_and_verificat.Answers.Meaning.{Acceptable, validate_question-nil, append-nil_iff}

module _ (p : Platform) (by_key : List (String × Option String))
    (raw : Question → Option String) where
  -- A question is either hidden or has an acceptable answer.
  abbrev pub IsSettled : Question → Type 0
  IsSettled q = is_visible q by_key ≡ true → Acceptable p q (raw q)

  -- An error names a visible question of the list whose answer is not acceptable.
  abbrev pub Blames : List Question → AnswerError → Type 0
  Blames [] e = ⊥
  Blames (q ∷ qs) e =
      ((is_visible q by_key ≡ true)
        × (e.question_id ≡ q.id)
        × (e.unique_key ≡ q.unique_key)
        × ¬ (Acceptable p q (raw q)))
      ⊎ Blames qs e

  map-blame-nil : (q : Question) (ms : List Message) → (map (blame q) ms ≡ []) ↔ (ms ≡ [])
  map-blame-nil q [] = (λ h. refl, λ h. refl)
  map-blame-nil q (m ∷ ms) = (λ h. cc, λ h. cc)

  question_errors-nil : (q : Question) → (question_errors p by_key raw q ≡ []) ↔ IsSettled q
  unfolding question_errors
  question_errors-nil q = elim (Bool-cases (is_visible q by_key)) [
    | inl seen ↦ rw seen (
      λ h _. (validate_question-nil p q (raw q)).0 ((map-blame-nil q _).0 h),
      λ h. (map-blame-nil q _).1 ((validate_question-nil p q (raw q)).1 (h refl)),
    )
    | inr hidden ↦ rw hidden (λ h e. cc, λ h. refl)
  ]

  pub collect-nil : (qs : List Question) → (collect p by_key raw qs ≡ []) ↔ All IsSettled qs
  unfolding collect
  collect-nil [] = (λ h. tt, λ h. refl)
  collect-nil (q ∷ qs) = (
    λ h.
        let both = (append-nil_iff _ _).0 h in
        ((question_errors-nil q).0 both.0, (collect-nil qs).0 both.1),
    λ h. (append-nil_iff _ _).1 ((question_errors-nil q).1 h.0, (collect-nil qs).1 h.1),
  )

  blamed-messages :
      (q : Question) (qs : List Question) (ms : List Message)
      → is_visible q by_key ≡ true
      → ¬ (Acceptable p q (raw q))
      → All (Blames (q ∷ qs)) (map (blame q) ms)
  blamed-messages q qs [] seen bad = tt
  blamed-messages q qs (m ∷ ms) seen bad =
      (inl (seen, refl, refl, bad), blamed-messages q qs ms seen bad)

  blamed_of :
      (q : Question) (qs : List Question) (ms : List Message)
      → validate_question p q (raw q) ≡ ms
      → is_visible q by_key ≡ true
      → All (Blames (q ∷ qs)) (map (blame q) ms)
  blamed_of q qs [] e seen = tt
  blamed_of q qs (m ∷ ms) e seen =
      blamed-messages q qs (m ∷ ms) seen (λ good. cc ((validate_question-nil p q (raw q)).1 good))

  Blames-question_errors :
      (q : Question) (qs : List Question) → All (Blames (q ∷ qs)) (question_errors p by_key raw q)
  unfolding question_errors
  Blames-question_errors q qs = elim (Bool-cases (is_visible q by_key)) [
    | inl seen ↦ rw seen (blamed_of q qs (validate_question p q (raw q)) refl seen)
    | inr hidden ↦ rw hidden tt
  ]

  Blames-later :
      (q : Question) (qs : List Question) (es : List AnswerError)
      → All (Blames qs) es
      → All (Blames (q ∷ qs)) es
  Blames-later q qs [] h = tt
  Blames-later q qs (e ∷ es) h = (inr h.0, Blames-later q qs es h.1)

  pub collect-Blames : (qs : List Question) → All (Blames qs) (collect p by_key raw qs)
  unfolding collect
  collect-Blames [] = tt
  collect-Blames (q ∷ qs) =
      All-append (Blames (q ∷ qs)) (question_errors p by_key raw q) (collect p by_key raw qs)
        (Blames-question_errors q qs)
        (Blames-later q qs (collect p by_key raw qs) (collect-Blames qs))

-- The answer that a form gives to a question.
abbrev pub form_answer : Platform → Fields → Question → Option String
form_answer p form q = answer_of (coerced p form) q.unique_key

-- A form is accepted exactly when every question of the version is hidden or has an acceptable answer.
pub validate_form_data-nil :
    (p : Platform) (definitions : List TenantTemplateDefinition) (version_id : ℕ) (form : Fields)
    → (validate_form_data p definitions version_id form ≡ [])
      ↔ All
          (IsSettled p (coerced p form) (form_answer p form))
          (load_questions definitions version_id)
unfolding validate_form_data
validate_form_data-nil p definitions version_id form =
    collect-nil p (coerced p form) (form_answer p form) (load_questions definitions version_id)

-- Each error of a form names a visible question of the version whose answer is not acceptable.
pub validate_form_data-Blames :
    (p : Platform) (definitions : List TenantTemplateDefinition) (version_id : ℕ) (form : Fields)
    → All
        (Blames p (coerced p form) (form_answer p form) (load_questions definitions version_id))
        (validate_form_data p definitions version_id form)
unfolding validate_form_data
validate_form_data-Blames p definitions version_id form =
    collect-Blames p (coerced p form) (form_answer p form) (load_questions definitions version_id)
