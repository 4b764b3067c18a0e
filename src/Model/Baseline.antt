-- ===== src/Model/Baseline.antt =====
-- The versions of baseline templates (app/models/public/baseline_template.py), in the public schema.
-- Their groups and questions have the fields of a tenant's.
use onboarding_and_verificat.Prelude.{ℕ, String, Bool, Option, List}
use onboarding_and_verificat.Prelude.Int.{ℤ}
use onboarding_and_verificat.Prelude.Json.{Fields}
use onboarding_and_verificat.Model.Status.{TemplateType}
use onboarding_and_verificat.Model.Template.{Question, QuestionGroup}

-- class BaselineTemplate
pub record BaselineTemplate : Type 0 where
  pub id : ℕ
  pub template_type : TemplateType
  pub level : ℤ
  pub name : String
  pub description : Option String
  pub category : String
  pub is_active : Bool
  pub is_locked : Bool
  pub active_version_id : Option ℕ

-- class BaselineTemplateDefinition
pub record BaselineTemplateDefinition : Type 0 where
  pub id : ℕ
  pub template_id : ℕ
  pub version_tag : String
  pub rules_config : Fields
  pub changelog : Option String
  pub is_draft : Bool
  pub question_groups : List QuestionGroup
  pub ungrouped_questions : List Question
