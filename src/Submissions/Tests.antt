-- ===== src/Submissions/Tests.antt =====
-- The theorems on submissions at a small tenant: one template with one question, a maker, a checker
-- and another maker.
use onboarding_and_verificat.Prelude.{
  ℕ, String, ◌≡◌, refl, ◌≢◌, true, false, Option, none, some, List, [], ◌∷◌, find, strip, ◌is◌,
}
use onboarding_and_verificat.Prelude.Int.{pos}
use onboarding_and_verificat.Prelude.Json.{Fields, end, field, str}
use onboarding_and_verificat.Model.Status
use onboarding_and_verificat.Model.Status.{
  SubmissionStatus, status_eq, draft, submitted, approved, returned, completed,
}
use onboarding_and_verificat.Model.Template.{TenantTemplate}
use onboarding_and_verificat.Model.Submission.{Submission}
use onboarding_and_verificat.Model.Db.{Db}
use onboarding_and_verificat.Answers.{
  Message, load_questions, all_questions, answer_of, is_visible, is_blank, validate_question,
  check_value, check_text,
}
use onboarding_and_verificat.Answers.Validate.{
  AnswerError, blame, coerced, coerce_answer_value, question_errors, collect, validate_form_data,
}
use onboarding_and_verificat.Answers.Report.{validate_form_data-nil}
use onboarding_and_verificat.Answers.Samples.{platform, question, version}
use onboarding_and_verificat.Session.{Error, ok, err, serve}
use onboarding_and_verificat.Submissions.Access.{Context, is_maker_only, may_access}
use onboarding_and_verificat.Submissions.Transitions.{
  SubmissionStatusTransition, breaks_four_eyes, is_review, can_move, valid_transitions, moved,
}
use onboarding_and_verificat.Submissions.Service.{
  at_id, create_submission, get_template_with_active_version, new_submission, history_row,
  update_submission, updated, submit_submission, get_submission, validated, transition_status,
  clean_results,
}
use onboarding_and_verificat.Submissions.Submitting.{form_errors}
use onboarding_and_verificat.Submissions.Requests.{
  Request, create, update, handle, transition, submit, after, Reach, here, next,
}
use onboarding_and_verificat.Submissions.Audit.{IsAudited, history_of, Reach-IsAudited}
use onboarding_and_verificat.Submissions.FourEyes.{KeepsFourEyes, IsOrdinary, Reach-KeepsFourEyes}
use onboarding_and_verificat.Submissions.Review.{HasEntry, IsDecisionOf, completed_was_decided}
use onboarding_and_verificat.Submissions.Frozen.{form_is_frozen}
use onboarding_and_verificat.Submissions.Ownership.{IsUntouched, others-IsUntouched}
use onboarding_and_verificat.Submissions.Validation.{
  submitted_form, submitted_entry, HasSubmitted, submit_accepts, submit_refuses,
}

abbrev template : TenantTemplate
template = record {
  id = 1;
  name = "onboarding";
  description = none;
  template_type = Status.kyc;
  baseline_level = pos 1;
  is_active = true;
  active_version_id = some 10;
}

abbrev start : Db
start = record {
  templates = template ∷ [];
  definitions = version ∷ [];
  reviews = [];
  products = [];
  submissions = [];
  status_history = [];
  comments = [];
  answers = [];
  rule_sets = [];
  verification_runs = [];
  baseline_templates = [];
  baseline_definitions = [];
  authz_policies = [];
}

abbrev maker : Context
maker = record { user = "ann"; roles = "maker" ∷ []; super_admin = false; now = 1 }

abbrev checker : Context
checker = record { user = "bob"; roles = "checker" ∷ []; super_admin = false; now = 2 }

abbrev form : Fields
form = field "name" (str "Ada") end

abbrev created_request : Request
created_request = create 7 70 (record {
  template_id = 1;
  form_data = form;
  submitter_id = none;
  external_ref = none;
  product_id = none;
})

abbrev to : SubmissionStatus → SubmissionStatusTransition
to status = record { to_status = status; reason = none; review_notes = some "ok"; extra_data = end }

abbrev drafted : Db
drafted = after platform maker created_request start

abbrev handed_in : Db
handed_in = after platform maker (submit 71 7 true) drafted

abbrev eve : Context
eve = record { user = "eve"; roles = "maker" ∷ []; super_admin = false; now = 3 }

abbrev approved_form : Db
approved_form = after platform checker (transition 72 7 (to approved)) handed_in

abbrev finished : Db
finished = after platform checker (transition 73 7 (to completed)) approved_form

-- The row of the submission with a status, the user who reviewed it, and the times.
abbrev form_row :
    SubmissionStatus → Option ℕ → Option ℕ → Option String → Option ℕ → Fields → Submission
form_row status submitted_at reviewed_at reviewed_by completed_at results = record {
  id = 7;
  template_id = 1;
  template_version_id = 10;
  baseline_version_id = none;
  form_data = form;
  computed_data = end;
  validation_results = results;
  attachments = end;
  status = status;
  submitter_id = none;
  submitted_at = submitted_at;
  reviewed_at = reviewed_at;
  completed_at = completed_at;
  reviewed_by = reviewed_by;
  review_notes = elim reviewed_by [ none ↦ none | some _ ↦ some "ok" ];
  external_ref = none;
  product_id = none;
  created_by = "ann";
  created_at = 1;
}

abbrev draft_row : Submission
draft_row = form_row draft none none none none end

abbrev finished_row : Submission
finished_row = form_row completed (some 1) (some 2) (some "bob") (some 2) clean_results

abbrev returned_row : Submission
returned_row = form_row returned (some 1) (some 2) (some "bob") none clean_results

abbrev returned_form : Db
returned_form = after platform checker (transition 72 7 (to returned)) handed_in

abbrev edit_request : Request
edit_request = update 7 (record {
  form_data = some (field "name" (str "Bob") end);
  submitter_id = none;
  external_ref = none;
})

-- The maker tries to edit the returned form, then submits it again.
abbrev edited_form : Db
edited_form = after platform maker edit_request returned_form

abbrev resubmitted : Db
resubmitted = after platform maker (transition 73 7 (to submitted)) edited_form

abbrev resubmitted_row : Submission
resubmitted_row = form_row submitted (some 1) (some 2) (some "bob") none clean_results

-- What the runs leave.
runs :
    (drafted.submissions ≡ draft_row ∷ [])
    × (drafted.definitions ≡ version ∷ [])
    × (finished.submissions ≡ finished_row ∷ [])
    × (returned_form.submissions ≡ returned_row ∷ [])
    × (resubmitted.submissions ≡ resubmitted_row ∷ [])
unfolding after handle create_submission get_template_with_active_version new_submission
    update_submission updated submit_submission get_submission may_access is_maker_only validated
    validate_form_data load_questions all_questions collect question_errors validate_question
    is_blank check_value check_text coerced coerce_answer_value answer_of is_visible strip
    transition_status breaks_four_eyes is_review can_move valid_transitions moved history_row
    status_eq
runs = (refl, refl, refl, refl, refl)

found_one :
    (x : Submission) (ss : List Submission)
    → ss ≡ x ∷ []
    → (x.id is 7) ≡ true
    → find (at_id 7) ss ≡ some x
found_one x ss e h = rw e (rw h refl)

whole : Reach IsOrdinary start finished
whole =
    next platform checker (transition 73 7 (to completed))
      (next platform checker (transition 72 7 (to approved))
        (next platform maker (submit 71 7 true)
          (next platform maker created_request here refl (tt, tt)) refl tt)
        refl tt)
      refl tt

Reach-IsAudited_example : IsAudited finished
Reach-IsAudited_example = Reach-IsAudited IsOrdinary start finished tt whole

Reach-KeepsFourEyes_example : KeepsFourEyes finished
Reach-KeepsFourEyes_example = Reach-KeepsFourEyes start finished tt tt whole

completed_was_decided_example :
    HasEntry (IsDecisionOf finished_row) (history_of 7 finished.status_history)
completed_was_decided_example =
    completed_was_decided start finished 7 finished_row tt tt tt whole
      (found_one finished_row finished.submissions runs.2 refl) refl

form_is_frozen_example :
    (resubmitted_row.form_data ≡ returned_row.form_data)
    × (resubmitted_row.created_by ≡ returned_row.created_by)
    × (resubmitted_row.status ≢ draft)
form_is_frozen_example =
    form_is_frozen 7 returned_row resubmitted_row returned_form resubmitted (rw runs.3 (tt, tt))
      (found_one returned_row returned_form.submissions runs.3 refl) (λ e. cc)
      (next platform maker (transition 73 7 (to submitted))
        (next platform maker edit_request here tt tt) tt tt)
      (found_one resubmitted_row resubmitted.submissions runs.4 refl)

eve_is_barred : may_access eve draft_row ≡ false
unfolding may_access is_maker_only
eve_is_barred = refl

others-IsUntouched_example :
    IsUntouched 7 draft_row drafted (after platform eve edit_request drafted)
others-IsUntouched_example =
    others-IsUntouched platform eve edit_request drafted 7 draft_row tt
      (found_one draft_row drafted.submissions runs.0 refl) eve_is_barred

maker_may : may_access maker draft_row ≡ true
unfolding may_access is_maker_only
maker_may = refl

abbrev complete_errors : List AnswerError
complete_errors = validate_form_data platform (version ∷ []) 10 form

no_errors : complete_errors ≡ []
unfolding validate_form_data load_questions all_questions collect question_errors validate_question
    is_blank check_value check_text coerced coerce_answer_value answer_of is_visible strip
no_errors = refl

-- A draft of the form in a database of its own.
abbrev with_row : Submission → Db
with_row x = record start { submissions = x ∷ [] }

submit_accepts_example :
    (db' : Db) × (serve (submit_submission platform maker 71 7 true) (with_row draft_row)
      ≡ (ok (submitted_form maker draft_row), db'))
    × HasSubmitted 7
        (submitted_form maker draft_row)
        (submitted_entry maker 71 7)
        (with_row draft_row)
        db'
submit_accepts_example =
    submit_accepts platform maker 71 7 draft_row (with_row draft_row) refl maker_may refl
      ((validate_form_data-nil platform (version ∷ []) 10 form).0 no_errors)

abbrev empty_row : Submission
empty_row = record draft_row { form_data = end }

missing :
    validate_form_data platform (version ∷ []) 10 end
    ≡ blame (question 100 "name" "text" true []) Message.required ∷ []
unfolding validate_form_data load_questions all_questions collect question_errors validate_question
    is_blank coerced answer_of is_visible
missing = refl

submit_refuses_example :
    (e : AnswerError) × (es : List AnswerError) × (form_errors platform empty_row
        (with_row empty_row)
      ≡ e ∷ es)
    × (serve (submit_submission platform maker 71 7 true) (with_row empty_row)
        ≡ (err (Error.validation_error (e ∷ es)), with_row empty_row))
unfolding may_access
submit_refuses_example =
    submit_refuses platform maker 71 7 empty_row (with_row empty_row) refl maker_may refl
      (λ complete. cc (missing, (validate_form_data-nil platform (version ∷ []) 10 end).1 complete))
