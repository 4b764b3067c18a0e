-- ===== src/Model/Db.antt =====
-- The tables of one tenant's schema, and those of the public schema that its services read.
use onboarding_and_verificat.Prelude.{List}
use onboarding_and_verificat.Model.Product.{Product}
use onboarding_and_verificat.Model.Template.{
  TenantTemplate, TenantTemplateDefinition, TenantTemplateDefinitionReview,
}
use onboarding_and_verificat.Model.Submission.{
  Submission, SubmissionStatusHistory, SubmissionComment, SubmissionAnswer,
}
use onboarding_and_verificat.Model.Transform.{TransformRuleSet}
use onboarding_and_verificat.Model.Verification.{VerificationRun}
use onboarding_and_verificat.Model.Baseline.{BaselineTemplate, BaselineTemplateDefinition}
use onboarding_and_verificat.Model.Policy.{AuthzPolicy}

pub record Db : Type 0 where
  pub templates : List TenantTemplate
  pub definitions : List TenantTemplateDefinition
  pub reviews : List TenantTemplateDefinitionReview
  pub products : List Product
  pub submissions : List Submission
  pub status_history : List SubmissionStatusHistory
  pub comments : List SubmissionComment
  pub answers : List SubmissionAnswer
  pub rule_sets : List TransformRuleSet
  pub verification_runs : List VerificationRun
  pub baseline_templates : List BaselineTemplate
  pub baseline_definitions : List BaselineTemplateDefinition
  pub authz_policies : List AuthzPolicy
