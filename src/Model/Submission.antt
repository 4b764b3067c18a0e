-- ===== src/Model/Submission.antt =====
-- Submissions, their history, comments and answers (app/models/tenant/submission.py, answer.py).
-- A point in time is a number; the columns that SQLAlchemy refreshes by itself on every write
-- (`updated_at`, `updated_by`) are left out.
use onboarding_and_verificat.Prelude.{ℕ, String, Bool, Option}
use onboarding_and_verificat.Prelude.Json.{Fields}
use onboarding_and_verificat.Model.Status.{SubmissionStatus}

-- class Submission
pub record Submission : Type 0 where
  pub id : ℕ
  pub template_id : ℕ
  pub template_version_id : ℕ
  pub baseline_version_id : Option ℕ
  pub form_data : Fields
  pub computed_data : Fields
  pub validation_results : Fields
  pub attachments : Fields
  pub status : SubmissionStatus
  pub submitter_id : Option String
  pub submitted_at : Option ℕ
  pub reviewed_at : Option ℕ
  pub completed_at : Option ℕ
  pub reviewed_by : Option String
  pub review_notes : Option String
  pub external_ref : Option String
  pub product_id : Option ℕ
  pub created_by : String
  pub created_at : ℕ

-- class SubmissionStatusHistory
pub record SubmissionStatusHistory : Type 0 where
  pub id : ℕ
  pub submission_id : ℕ
  pub from_status : Option SubmissionStatus
  pub to_status : SubmissionStatus
  pub changed_by : String
  pub reason : Option String
  pub extra_data : Fields
  pub created_at : ℕ

-- class SubmissionComment
pub record SubmissionComment : Type 0 where
  pub id : ℕ
  pub submission_id : ℕ
  pub content : String
  pub field_id : Option String
  pub is_internal : Bool
  pub parent_id : Option ℕ
  pub created_by : String
  pub created_at : ℕ

-- class SubmissionAnswer
pub record SubmissionAnswer : Type 0 where
  pub submission_id : ℕ
  pub question_id : ℕ
  pub field_type : String
  pub answer : Option String
