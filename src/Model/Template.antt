-- ===== src/Model/Template.antt =====
-- Tenant templates, their versions and their questions (app/models/tenant/template.py). A version
-- holds its groups, and a group its questions, as the loaded relationships do.
use onboarding_and_verificat.Prelude.{ℕ, String, Bool, Option, List}
use onboarding_and_verificat.Prelude.Int.{ℤ}
use onboarding_and_verificat.Prelude.Json.{Fields}
use onboarding_and_verificat.Model.Status.{
  TemplateType, DefinitionReviewStatus, DefinitionReviewAction,
}

-- class TenantTemplate
pub record TenantTemplate : Type 0 where
  pub id : ℕ
  pub name : String
  pub description : Option String
  pub template_type : TemplateType
  pub baseline_level : ℤ
  pub is_active : Bool
  pub active_version_id : Option ℕ

-- class QuestionOption
pub record QuestionOption : Type 0 where
  pub id : ℕ
  pub value : String
  pub display_order : ℤ
  pub is_tenant_editable : Bool

-- class Question
pub record Question : Type 0 where
  pub id : ℕ
  pub unique_key : String
  pub label : String
  pub field_type : String
  pub required : Bool
  pub display_order : ℤ
  pub regex : Option String
  pub keyboard_type : Option String
  pub min_date : Option String
  pub max_date : Option String
  pub depends_on_unique_key : Option String
  pub visible_when_equals : Option String
  pub rules : Option Fields
  pub is_tenant_editable : Bool
  pub options : List QuestionOption

-- class QuestionGroup
pub record QuestionGroup : Type 0 where
  pub id : ℕ
  pub unique_key : String
  pub title : String
  pub display_order : ℤ
  pub submit_api_url : Option String
  pub sequential_file_upload : Bool
  pub is_tenant_editable : Bool
  pub questions : List Question

-- class TenantTemplateDefinition
pub record TenantTemplateDefinition : Type 0 where
  pub id : ℕ
  pub template_id : ℕ
  pub version_tag : String
  pub copied_from_baseline_version_id : Option ℕ
  pub rules_config : Fields
  pub changelog : Option String
  pub is_draft : Bool
  pub review_status : DefinitionReviewStatus
  pub submitted_for_review_at : Option ℕ
  pub submitted_for_review_by : Option String
  pub reviewed_at : Option ℕ
  pub reviewed_by : Option String
  pub review_notes : Option String
  pub question_groups : List QuestionGroup
  pub ungrouped_questions : List Question

-- class TenantTemplateDefinitionReview
pub record TenantTemplateDefinitionReview : Type 0 where
  pub id : ℕ
  pub definition_id : ℕ
  pub action : DefinitionReviewAction
  pub notes : Option String
  pub created_by : String
  pub created_at : ℕ
