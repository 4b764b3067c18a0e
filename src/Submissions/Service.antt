-- ===== src/Submissions/Service.antt =====
-- The handlers: create, read, list, update, delete, transition, submit, comment. A new row's id
-- (uuid7) is an argument.
use onboarding_and_verificat.Prelude.{
  ℕ, String, Bool, true, false, not, ◌&&◌, ◌||◌, Option, none, some, List, [], ◌∷◌, ◌++◌, ◌is◌, any,
  find, keep, update, is_some,
}
use onboarding_and_verificat.Prelude.Json.{Fields, end, field, bool, list, nil}
use onboarding_and_verificat.Model.Status.{SubmissionStatus, draft, submitted, cancelled, status_eq}
use onboarding_and_verificat.Model.Template.{TenantTemplate, TenantTemplateDefinition}
use onboarding_and_verificat.Model.Submission.{
  Submission, SubmissionStatusHistory, SubmissionComment,
}
use onboarding_and_verificat.Model.Db.{Db}
use onboarding_and_verificat.Answers.{Platform}
use onboarding_and_verificat.Answers.Validate.{AnswerError, validate_form_data}
use onboarding_and_verificat.Session.{
  Error, Action, pure, raise, gets, or_raise, guard, modify, commit, ◌>>=◌, ◌>>◌,
}
use onboarding_and_verificat.Submissions.Access.{Context, enforce_maker_ownership}
use onboarding_and_verificat.Submissions.Transitions.{
  SubmissionStatusTransition, can_move, breaks_four_eyes, moved,
}

abbrev pub at_id : ℕ → Submission → Bool
at_id i s = s.id is i

-- setattr on the loaded row of a submission, flushed to the session.
abbrev pub write : ℕ → (Submission → Submission) → Db → Db
write i f db = record db { submissions = update (at_id i) f db.submissions }

abbrev pub add_history : SubmissionStatusHistory → Db → Db
add_history h db = record db { status_history = db.status_history ++ h ∷ [] }

-- _record_status_change
unfoldable pub history_row :
    Context
    → ℕ
    → ℕ
    → Option SubmissionStatus
    → SubmissionStatus
    → Option String
    → Fields
    → SubmissionStatusHistory
history_row ctx hid sid from to reason extra = record {
  id = hid;
  submission_id = sid;
  from_status = from;
  to_status = to;
  changed_by = ctx.user;
  reason = reason;
  extra_data = extra;
  created_at = ctx.now;
}

unfoldable pub get_submission : Context → ℕ → Action Submission
get_submission ctx i = do
  found ← gets (λ db. find (at_id i) db.submissions)
  s ← or_raise found Error.submission_not_found
  enforce_maker_ownership ctx s
  pure s

-- _get_template_with_active_version
unfoldable pub get_template_with_active_version :
    ℕ → Action (TenantTemplate × TenantTemplateDefinition)
get_template_with_active_version template_id = do
  found ← gets (λ db. find (λ t. t.id is template_id) db.templates)
  template ← or_raise found Error.template_not_found
  version_id ← or_raise template.active_version_id Error.no_active_version
  active ← gets (λ db. find (λ d. d.id is version_id) db.definitions)
  version ← or_raise active Error.active_version_not_found
  pure (template, version)

-- class SubmissionCreate
pub record SubmissionCreate : Type 0 where
  pub template_id : ℕ
  pub form_data : Fields
  pub submitter_id : Option String
  pub external_ref : Option String
  pub product_id : Option ℕ

-- The product, if one is named, has to exist.
abbrev pub product_known : Option ℕ → Db → Bool
product_known none db = true
product_known (some product) db = any (λ p. p.id is product) db.products

unfoldable pub new_submission :
    Context → ℕ → SubmissionCreate → TenantTemplate → TenantTemplateDefinition → Submission
new_submission ctx i request template version = record {
  id = i;
  template_id = template.id;
  template_version_id = version.id;
  baseline_version_id = version.copied_from_baseline_version_id;
  form_data = request.form_data;
  computed_data = end;
  validation_results = end;
  attachments = end;
  status = draft;
  submitter_id = request.submitter_id;
  submitted_at = none;
  reviewed_at = none;
  completed_at = none;
  reviewed_by = none;
  review_notes = none;
  external_ref = request.external_ref;
  product_id = request.product_id;
  created_by = ctx.user;
  created_at = ctx.now;
}

abbrev pub add_submission : Submission → Db → Db
add_submission s db = record db { submissions = db.submissions ++ s ∷ [] }

unfoldable pub create_submission : Context → ℕ → ℕ → SubmissionCreate → Action Submission
create_submission ctx i hid request = do
  located ← get_template_with_active_version request.template_id
  known ← gets (product_known request.product_id)
  guard known Error.product_not_found
  let s = new_submission ctx i request located.0 located.1
  modify (add_submission s)
  modify (add_history (history_row ctx hid s.id none draft (some "Submission created") end))
  commit
  pure s

-- class SubmissionUpdate: `none` is a field that the request did not set.
pub record SubmissionUpdate : Type 0 where
  pub form_data : Option Fields
  pub submitter_id : Option (Option String)
  pub external_ref : Option (Option String)

abbrev set_or {ℓ} : {A : Type ℓ} → Option A → A → A
set_or none old = old
set_or (some new) old = new

-- The loop of `setattr` over the fields that are set.
unfoldable pub updated : SubmissionUpdate → Submission → Submission
updated u s = record s {
  form_data = set_or u.form_data s.form_data;
  submitter_id = set_or u.submitter_id s.submitter_id;
  external_ref = set_or u.external_ref s.external_ref;
}

unfoldable pub update_submission : Context → ℕ → SubmissionUpdate → Action Submission
update_submission ctx i request = do
  s ← get_submission ctx i
  enforce_maker_ownership ctx s
  guard (status_eq s.status draft) (Error.cannot_update s.status)
  modify (write i (updated request))
  commit
  pure (updated request s)

-- The deletion of a row, and of the rows that refer to it (ON DELETE CASCADE).
unfoldable pub without : ℕ → Db → Db
without i db = record db {
  submissions = keep (λ s. not (at_id i s)) db.submissions;
  status_history = keep (λ h. not (h.submission_id is i)) db.status_history;
  comments = keep (λ c. not (c.submission_id is i)) db.comments;
  answers = keep (λ a. not (a.submission_id is i)) db.answers;
  verification_runs = keep (λ r. not (r.submission_id is i)) db.verification_runs;
}

unfoldable pub delete_submission : Context → ℕ → Action (Unit {0})
delete_submission ctx i = do
  s ← get_submission ctx i
  enforce_maker_ownership ctx s
  guard (status_eq s.status draft || status_eq s.status cancelled) (Error.cannot_delete s.status)
  modify (without i)
  commit
  pure tt

unfoldable pub transition_status : Context → ℕ → ℕ → SubmissionStatusTransition → Action Submission
transition_status ctx hid i request = do
  s ← get_submission ctx i
  guard (not (breaks_four_eyes ctx s request.to_status)) Error.four_eyes_violation
  guard (can_move s.status request.to_status) (Error.invalid_transition s.status request.to_status)
  modify (write i (moved ctx request))
  modify (
      add_history
        (history_row ctx hid i (some s.status) request.to_status request.reason request.extra_data))
  commit
  pure (moved ctx request s)

abbrev pub submit_request : SubmissionStatusTransition
submit_request = record {
  to_status = submitted;
  reason = some "User submitted the form";
  review_notes = none;
  extra_data = end;
}

-- {"valid": True, "errors": [], "warnings": []}
abbrev pub clean_results : Fields
clean_results =
    field "valid" (bool true) (field "errors" (list nil) (field "warnings" (list nil) end))

abbrev accept : ℕ → List AnswerError → Action (Unit {0})
accept i [] = modify (write i (λ s. record s { validation_results = clean_results }))
accept i (e ∷ es) = raise (Error.validation_error (e ∷ es))

-- The branch `if validate:` of `submit_submission`.
unfoldable pub validated : Platform → Submission → Bool → Action (Unit {0})
validated p s false = pure tt
validated p s true = do
  errors ← gets (λ db. validate_form_data p db.definitions s.template_version_id s.form_data)
  accept s.id errors

unfoldable pub submit_submission : Platform → Context → ℕ → ℕ → Bool → Action Submission
submit_submission p ctx hid i validate = do
  s ← get_submission ctx i
  enforce_maker_ownership ctx s
  guard (status_eq s.status draft) Error.not_submittable
  validated p s validate
  transition_status ctx hid i submit_request

-- class SubmissionCommentCreate
pub record SubmissionCommentCreate : Type 0 where
  pub content : String
  pub field_id : Option String
  pub is_internal : Bool
  pub parent_id : Option ℕ

-- A parent comment, if one is named, has to be of the same submission.
abbrev pub parent_known : ℕ → Option ℕ → Db → Bool
parent_known i none db = true
parent_known i (some parent) db =
    is_some (find (λ c. (c.id is parent) && (c.submission_id is i)) db.comments)

unfoldable pub new_comment : Context → ℕ → ℕ → SubmissionCommentCreate → SubmissionComment
new_comment ctx cid i request = record {
  id = cid;
  submission_id = i;
  content = request.content;
  field_id = request.field_id;
  is_internal = request.is_internal;
  parent_id = request.parent_id;
  created_by = ctx.user;
  created_at = ctx.now;
}

unfoldable pub add_comment : Context → ℕ → ℕ → SubmissionCommentCreate → Action SubmissionComment
add_comment ctx cid i request = do
  get_submission ctx i
  known ← gets (parent_known i request.parent_id)
  guard known Error.parent_comment_not_found
  let c = new_comment ctx cid i request
  modify (λ db. record db { comments = db.comments ++ c ∷ [] })
  commit
  pure c

-- list_comments, in the order of the table (order of creation).
unfoldable pub list_comments : Context → ℕ → Bool → Action (List SubmissionComment)
list_comments ctx i include_internal = do
  get_submission ctx i
  gets (λ db.
      keep (λ c. (c.submission_id is i) && (include_internal || not c.is_internal)) db.comments)
