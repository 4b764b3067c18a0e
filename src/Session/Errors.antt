-- ===== src/Session/Errors.antt =====
-- The HTTPExceptions of the modelled services, by what they report.
use onboarding_and_verificat.Prelude.{ℕ, String, List}
use onboarding_and_verificat.Model.Status.{SubmissionStatus}
use onboarding_and_verificat.Answers.Validate.{AnswerError}

pub data Error : Type 0 where
  submission_not_found template_not_found product_not_found : Error
  no_active_version active_version_not_found parent_comment_not_found : Error
  forbidden four_eyes_violation : Error
  cannot_update cannot_delete : SubmissionStatus → Error
  invalid_transition : SubmissionStatus → SubmissionStatus → Error
  not_submittable : Error
  validation_error : List AnswerError → Error
  rule_set_not_found rule_not_found rule_set_not_draft pair_exists : Error
  rule_set_empty sandbox_failed not_archivable : Error
  compute_invalid : List String → Error
  definition_not_found definition_published definition_pending active_version : Error
  already_pending already_approved not_pending own_definition not_approved : Error
  duplicate_group duplicate_question : String → Error
  inactive_template product_code_taken product_is_active product_not_active : Error
  product_already_active product_without_template : Error
  verification_flow_missing verification_flow_not_found verification_flow_invalid : Error
  verification_run_not_found verification_step_not_found verification_step_not_waiting : Error
  otp_code_missing unsupported_adapter : Error
  invalid_policy permission_denied : Error
  -- an exception that is no HTTPException
  unhandled : Error
  -- the fuel of the model ran out, which is proved not to happen
  unfinished : Error

-- The status code of the response.
unfoldable pub status_code : Error → ℕ
status_code Error.submission_not_found = 404
status_code Error.template_not_found = 404
status_code Error.product_not_found = 404
status_code Error.forbidden = 403
status_code Error.four_eyes_violation = 403
status_code (Error.validation_error _) = 422
status_code Error.rule_set_not_found = 404
status_code Error.rule_not_found = 404
status_code Error.rule_set_not_draft = 403
status_code Error.pair_exists = 409
status_code (Error.compute_invalid _) = 422
status_code Error.inactive_template = 404
status_code Error.product_code_taken = 409
status_code Error.product_is_active = 409
status_code Error.product_not_active = 422
status_code Error.product_already_active = 422
status_code Error.product_without_template = 422
status_code Error.definition_not_found = 404
status_code Error.own_definition = 403
status_code (Error.duplicate_group _) = 409
status_code (Error.duplicate_question _) = 409
status_code Error.verification_flow_missing = 422
status_code Error.verification_flow_not_found = 422
status_code Error.verification_flow_invalid = 422
status_code Error.verification_run_not_found = 404
status_code Error.verification_step_not_found = 404
status_code Error.verification_step_not_waiting = 422
status_code Error.otp_code_missing = 422
status_code Error.unsupported_adapter = 422
status_code Error.permission_denied = 403
status_code Error.unhandled = 500
status_code Error.unfinished = 500
status_code _ = 400
