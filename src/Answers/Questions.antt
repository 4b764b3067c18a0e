-- ===== src/Answers/Questions.antt =====
-- _load_questions and _is_visible.
use onboarding_and_verificat.Prelude.{
  ℕ, String, Bool, true, false, not, if◌then◌else◌, Option, none, some, List, [], ◌∷◌, ◌++◌, ◌==◌,
  ◌is◌, find, item, sorted,
}
use onboarding_and_verificat.Model.Template.{QuestionGroup, Question, TenantTemplateDefinition}

abbrev grouped : List QuestionGroup → List Question
grouped [] = []
grouped (g ∷ gs) = sorted (λ q. q.display_order) g.questions ++ grouped gs

-- The questions of a version in order: the groups', then the ungrouped ones.
unfoldable pub all_questions : TenantTemplateDefinition → List Question
all_questions version =
    grouped (sorted (λ g. g.display_order) version.question_groups)
    ++ sorted (λ q. q.display_order) version.ungrouped_questions

abbrev questions_of : Option TenantTemplateDefinition → List Question
questions_of none = []
questions_of (some version) = all_questions version

unfoldable pub load_questions : List TenantTemplateDefinition → ℕ → List Question
load_questions definitions version_id =
    questions_of (find (λ version. version.id is version_id) definitions)

abbrev or_none : Option (Option String) → Option String
or_none none = none
or_none (some a) = a

-- answers_by_key.get(key): an absent key and a `None` under it read alike.
unfoldable pub answer_of : List (String × Option String) → String → Option String
answer_of answers key = or_none (item ◌==◌ key answers)

-- A controlling answer against `visible_when_equals`.
abbrev pub controls : Option String → Option String → Bool
controls none answer = elim answer [ none ↦ false | some a ↦ not (a == "") ]
controls (some wanted) answer = elim answer [ none ↦ false | some a ↦ a == wanted ]

abbrev visible_by : Option String → Option String → List (String × Option String) → Bool
visible_by none wanted answers = true
visible_by (some key) wanted answers =
    if key == "" then true else controls wanted (answer_of answers key)

unfoldable pub is_visible : Question → List (String × Option String) → Bool
is_visible q answers = visible_by q.depends_on_unique_key q.visible_when_equals answers
