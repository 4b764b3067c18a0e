-- ===== src/Answers/Listed.antt =====
-- What the validation of a list of answers reports: the answer that counts is the last one given for
-- a question, and a question is shown by the answers to the questions with the key it depends on.
use mathlib.Core.Path.{fun_ext}
use onboarding_and_verificat.Prelude.{
  ℕ, String, ◌≡◌, refl, ◌∙◌, ap, subst, ◌≢◌, ◌↔◌, ◌⊎◌, inl, inr, Bool, true, Option, none, some,
  List, [], ◌∷◌, All, All-map, Bool-cases, Option-cases, item, put, ◌is◌, is_iff, ◌==◌, eq_iff,
  arith, if◌then◌else◌,
}
use onboarding_and_verificat.Model.Template.{Question, TenantTemplateDefinition}
use onboarding_and_verificat.Answers.{Platform, load_questions, answer_of, is_visible}
use onboarding_and_verificat.Answers.Questions.{controls}
use onboarding_and_verificat.Answers.Validate.{
  AnswerError, collect, flat, gather, by_id, put_answer, key_answers, validate_answers,
}
use onboarding_and_verificat.Answers.Meaning.{Acceptable}
use onboarding_and_verificat.Answers.Report.{IsSettled, Blames, collect-nil, collect-Blames}

-- The later of two answers, where there is one.
abbrev pub later_or : Option (Option String) → Option (Option String) → Option (Option String)
later_or none earlier = earlier
later_or (some a) earlier = some a

-- The last answer of the list to a question, if it has one.
abbrev pub last_answer : List (ℕ × Option String) → ℕ → Option (Option String)
last_answer [] i = none
last_answer ((j, a) ∷ rest) i = later_or (last_answer rest i) (if j is i then some a else none)

-- The answer to the last of the questions with a key that have one.
abbrev pub last_keyed : List (ℕ × Option String) → List Question → String → Option (Option String)
last_keyed answers [] key = none
last_keyed answers (q ∷ qs) key =
    later_or (last_keyed answers qs key)
      (if q.unique_key == key then last_answer answers q.id else none)

-- The controlling answer is the one asked for, or, where none is asked for, a text that is not empty.
abbrev pub Meets : Option String → Option String → Type 0
Meets none answer = (a : String) × (answer ≡ some a) × (a ≢ "")
Meets (some wanted) answer = answer ≡ some wanted

-- A question that depends on a key is shown where the answer under the key meets it.
abbrev pub IsShown : (String → Option String) → Question → Type 0
IsShown given q =
    (key : String)
    → q.depends_on_unique_key ≡ some key
    → key ≢ ""
    → Meets q.visible_when_equals (given key)

later_or_assoc :
    (a b c : Option (Option String)) → later_or a (later_or b c) ≡ later_or (later_or a b) c
later_or_assoc none b c = refl
later_or_assoc (some a) b c = refl

later_or-none : (a : Option (Option String)) → later_or a none ≡ a
later_or-none none = refl
later_or-none (some a) = refl

module _ {K : Type 0} (eq : K → K → Bool) (eq_lem : (j k : K) → (eq j k ≡ true) ↔ (j ≡ k)) where
  item-put :
      (j k : K) (a : Option String) (d : List (K × Option String))
      → item eq k (put eq j a d) ≡ later_or (if eq j k then some a else none) (item eq k d)
  item-put j k a [] = ground arith
  item-put j k a ((i, b) ∷ d) = ground (arith, eq_lem i j, eq_lem i k, eq_lem j k, item-put j k a d)

item-gather :
    (answers d : List (ℕ × Option String)) (i : ℕ)
    → item ◌is◌ i (gather answers d) ≡ later_or (last_answer answers i) (item ◌is◌ i d)
unfolding gather
item-gather [] d i = refl
item-gather ((j, a) ∷ rest) d i =
    item-gather rest (put ◌is◌ j a d) i
    ∙ ap (later_or (last_answer rest i)) (item-put ◌is◌ is_iff j i a d)
    ∙ later_or_assoc (last_answer rest i) (if j is i then some a else none) (item ◌is◌ i d)

-- The dict by question id holds the last answers.
item-by_id :
    (answers : List (ℕ × Option String)) (i : ℕ)
    → item ◌is◌ i (by_id answers) ≡ last_answer answers i
unfolding by_id
item-by_id answers i = item-gather answers [] i ∙ later_or-none (last_answer answers i)

put-item :
    (key j : String) (found : Option (Option String)) (d : List (String × Option String))
    → item ◌==◌ key (put_answer j found d)
      ≡ later_or (if j == key then found else none) (item ◌==◌ key d)
put-item key j none d = ground arith
put-item key j (some a) d = item-put ◌==◌ eq_iff j key a d

-- The dict by key holds the answers to the last questions with the keys.
item-key_answers :
    (answers : List (ℕ × Option String)) (questions : List Question)
    (d : List (String × Option String)) (key : String)
    → item ◌==◌ key (key_answers (by_id answers) questions d)
      ≡ later_or (last_keyed answers questions key) (item ◌==◌ key d)
unfolding key_answers
item-key_answers answers [] d key = refl
item-key_answers answers (q ∷ qs) d key =
    let found = item ◌is◌ q.id (by_id answers) in
    item-key_answers answers qs (put_answer q.unique_key found d) key
    ∙ ap (later_or (last_keyed answers qs key)) (put-item key q.unique_key found d)
    ∙ later_or_assoc (last_keyed answers qs key) (if q.unique_key == key then found else none)
        (item ◌==◌ key d)
    ∙ ap
        (λ o.
          later_or (later_or (last_keyed answers qs key) (if q.unique_key == key then o else none))
            (item ◌==◌ key d))
        (item-by_id answers q.id)

controls_iff :
    (wanted answer : Option String) → (controls wanted answer ≡ true) ↔ Meets wanted answer
controls_iff none none = (λ h. cc, λ (a, e, n). cc)
controls_iff none (some a) =
    (λ h. (a, refl, λ e. ground (arith, eq_iff a "")), λ (b, e, n). ground (arith, eq_iff a ""))
controls_iff (some w) none = (λ h. cc, λ h. cc)
controls_iff (some w) (some a) = (λ h. ap some ((eq_iff a w).0 h), λ h. ground (arith, eq_iff a w))

-- is_visible decides whether a question is shown.
is_visible_iff :
    (q : Question) (d : List (String × Option String))
    → (is_visible q d ≡ true) ↔ IsShown (answer_of d) q
unfolding is_visible
is_visible_iff q d = elim (Option-cases q.depends_on_unique_key) [
  | inl free ↦ (λ h key e. absurd (ground arith), λ h. ground arith)
  | inr (key, e) ↦ elim (Bool-cases (key == "")) [
    | inl empty ↦ (λ h k e' n. absurd (n (ground (arith, eq_iff key ""))), λ h. ground arith)
    | inr named ↦ (
      λ h k e' n.
          let here = (controls_iff q.visible_when_equals (answer_of d key)).0 (ground arith) in
          let same : key ≡ k = ground arith in
          subst (λ k'. Meets q.visible_when_equals (answer_of d k')) same here,
      λ h.
          let here =
            (controls_iff q.visible_when_equals (answer_of d key)).1
              (h key e (λ e'. ground (arith, eq_iff key ""))) in
          ground arith,
    )
  ]
]

-- The answer that a list of answers gives to a question, and under a key.
abbrev pub answered : List (ℕ × Option String) → Question → Option String
answered answers q = flat (last_answer answers q.id)

abbrev pub answered_under : List (ℕ × Option String) → List Question → String → Option String
answered_under answers questions key = flat (last_keyed answers questions key)

answered-by_id :
    (answers : List (ℕ × Option String))
    → (λ (q : Question). flat (item ◌is◌ q.id (by_id answers))) ≡ answered answers
answered-by_id answers = fun_ext λ q. ap flat (item-by_id answers q.id)

answer_of-flat :
    (d : List (String × Option String)) (key : String) → answer_of d key ≡ flat (item ◌==◌ key d)
unfolding answer_of
answer_of-flat d key = ground arith

answered-key_answers :
    (answers : List (ℕ × Option String)) (questions : List Question)
    → answer_of (key_answers (by_id answers) questions []) ≡ answered_under answers questions
answered-key_answers answers questions = fun_ext λ key.
    answer_of-flat (key_answers (by_id answers) questions []) key
    ∙ ap flat (
        item-key_answers answers questions [] key
        ∙ later_or-none (last_keyed answers questions key))

module _ (p : Platform) (given : String → Option String) (raw : Question → Option String) where
  -- A question is hidden or has an acceptable answer.
  abbrev pub IsInOrder : Question → Type 0
  IsInOrder q = IsShown given q → Acceptable p q (raw q)

  -- An error names a question of the list that is shown and whose answer is not acceptable.
  abbrev pub Rejects : List Question → AnswerError → Type 0
  Rejects [] e = ⊥
  Rejects (q ∷ qs) e =
      (IsShown given q
        × (e.question_id ≡ q.id)
        × (e.unique_key ≡ q.unique_key)
        × ¬ (Acceptable p q (raw q)))
      ⊎ Rejects qs e

module _ (p : Platform) (d : List (String × Option String)) (raw : Question → Option String) where
  Blames-Rejects :
      (qs : List Question) (e : AnswerError)
      → Blames p d raw qs e
      → Rejects p (answer_of d) raw qs e
  Blames-Rejects [] e h = h
  Blames-Rejects (q ∷ qs) e (inl (seen, i, k, bad)) = inl ((is_visible_iff q d).0 seen, i, k, bad)
  Blames-Rejects (q ∷ qs) e (inr h) = inr (Blames-Rejects qs e h)

  -- What the loop reports, by what is shown.
  collect-Rejects :
      (qs : List Question)
      → ((collect p d raw qs ≡ []) ↔ All (IsInOrder p (answer_of d) raw) qs)
        × All (Rejects p (answer_of d) raw qs) (collect p d raw qs)
  collect-Rejects qs = (
    (
      λ h.
          All-map (IsSettled p d raw) (IsInOrder p (answer_of d) raw)
            (λ q settled shown. settled ((is_visible_iff q d).1 shown)) qs
            ((collect-nil p d raw qs).0 h),
      λ h. (collect-nil p d raw qs).1 (
          All-map (IsInOrder p (answer_of d) raw) (IsSettled p d raw)
            (λ q fine seen. fine ((is_visible_iff q d).0 seen)) qs h),
    ),
    All-map (Blames p d raw qs) (Rejects p (answer_of d) raw qs) (Blames-Rejects qs)
        (collect p d raw qs) (collect-Blames p d raw qs),
  )

-- A list of answers is accepted exactly when every question of the version is hidden or the last
-- answer given to it is acceptable, and each error names a question that is shown and whose last
-- answer is not acceptable. A question that depends on a key is shown by the last answer to the
-- last question with that key that has one.
pub validate_answers-nil :
    (p : Platform) (definitions : List TenantTemplateDefinition) (version_id : ℕ)
    (answers : List (ℕ × Option String))
    → ((validate_answers p definitions version_id answers ≡ [])
        ↔ All
            (IsInOrder p
              (answered_under answers (load_questions definitions version_id))
              (answered answers))
            (load_questions definitions version_id))
      × All
          (Rejects p
            (answered_under answers (load_questions definitions version_id))
            (answered answers)
            (load_questions definitions version_id))
          (validate_answers p definitions version_id answers)
unfolding validate_answers
validate_answers-nil p definitions version_id answers =
    let questions = load_questions definitions version_id in
    rw (← answered-key_answers answers questions, ← answered-by_id answers)
      (collect-Rejects p (key_answers (by_id answers) questions [])
        (λ q. flat (item ◌is◌ q.id (by_id answers))) questions)
