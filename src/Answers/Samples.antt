-- ===== src/Answers/Samples.antt =====
-- A platform, a question and a version of a template that the tests share.
use onboarding_and_verificat.Prelude.{
  ℕ, String, Bool, true, false, none, some, List, [], ◌∷◌, ◌==◌, if◌then◌else◌,
}
use onboarding_and_verificat.Prelude.Int.{pos}
use onboarding_and_verificat.Prelude.Json.{end}
use onboarding_and_verificat.Model.Status
use onboarding_and_verificat.Model.Template.{Question, QuestionOption, TenantTemplateDefinition}
use onboarding_and_verificat.Answers.{Platform}

-- A platform whose patterns match only themselves, and whose dates are the two texts below.
abbrev pub platform : Platform
platform = record {
  fullmatch = λ pattern value. some (pattern == value);
  parse_date = λ value.
      if value == "2024-01-01" then some 1 else if value == "2024-01-02" then some 2 else none;
  str_container = λ j. "{}";
}

abbrev pub question : ℕ → String → String → Bool → List QuestionOption → Question
question i key type required options = record {
  id = i;
  unique_key = key;
  label = key;
  field_type = type;
  required = required;
  display_order = pos 0;
  regex = none;
  keyboard_type = none;
  min_date = none;
  max_date = none;
  depends_on_unique_key = none;
  visible_when_equals = none;
  rules = none;
  is_tenant_editable = true;
  options = options;
}

abbrev pub version : TenantTemplateDefinition
version = record {
  id = 10;
  template_id = 1;
  version_tag = "v1";
  copied_from_baseline_version_id = none;
  rules_config = end;
  changelog = none;
  is_draft = false;
  review_status = Status.DefinitionReviewStatus.approved;
  submitted_for_review_at = none;
  submitted_for_review_by = none;
  reviewed_at = none;
  reviewed_by = none;
  review_notes = none;
  question_groups = [];
  ungrouped_questions = question 100 "name" "text" true [] ∷ [];
}
