-- ===== src/Submissions/Validation.antt =====
-- What submitting a form with validation accepts and refuses.
use onboarding_and_verificat.Prelude.{
  ℕ, ◌≡◌, refl, ◌∙◌, inl, inr, Bool, true, false, some, List, [], ◌∷◌, arith, All, find, ap,
  find-update, find-update_other, find-passes, is_iff, ◌is◌, ◌++◌,
}
use onboarding_and_verificat.Model.Status.{draft, status_eq, submitted}
use onboarding_and_verificat.Model.Submission.{Submission, SubmissionStatusHistory}
use onboarding_and_verificat.Model.Db.{Db}
use onboarding_and_verificat.Answers.{Platform, load_questions}
use onboarding_and_verificat.Answers.Validate.{AnswerError, coerced}
use onboarding_and_verificat.Answers.Report.{IsSettled, form_answer, validate_form_data-nil}
use onboarding_and_verificat.Session.{Error, ok, err, Session, serve}
use onboarding_and_verificat.Submissions.Access.{Context, may_access}
use onboarding_and_verificat.Submissions.Transitions.{
  SubmissionStatusTransition, breaks_four_eyes, can_move, moved, valid_transitions, is_review,
  moved_keeps,
}
use onboarding_and_verificat.Submissions.Service.{
  at_id, get_submission, transition_status, submit_request, validated, submit_submission,
  history_row, clean_results,
}
use onboarding_and_verificat.Submissions.Outcomes.{row, saved, transitioned}
use onboarding_and_verificat.Submissions.Submitting.{
  marked, marked_db, form_errors, List-cases, row-marked,
}
use onboarding_and_verificat.Prelude.Json.{end, field, bool, list, nil}

-- A transition that meets every guard is made.
pub transition_status_ok :
    (ctx : Context) (hid i : ℕ) (request : SubmissionStatusTransition) (x : Submission)
    (s : Session)
    → row i s ≡ some x
    → may_access ctx x ≡ true
    → breaks_four_eyes ctx x request.to_status ≡ false
    → can_move x.status request.to_status ≡ true
    → transition_status ctx hid i request s
      ≡ (ok (moved ctx request x), saved (transitioned ctx hid i request x s.working))
unfolding transition_status get_submission
transition_status_ok ctx hid i request x s found own eyes can = ground arith

-- Every question of the submission's version is hidden or has an acceptable answer.
abbrev pub IsComplete : Platform → Db → Submission → Type 0
IsComplete p db x =
    All (IsSettled p (coerced p x.form_data) (form_answer p x.form_data))
      (load_questions db.definitions x.template_version_id)

access-marked :
    (ctx : Context) (validate : Bool) (x : Submission)
    → may_access ctx (marked validate x) ≡ may_access ctx x
unfolding may_access
access-marked ctx false x = refl
access-marked ctx true x = refl

-- A draft once it is submitted: its status, the time and the result of the validation are new.
abbrev pub submitted_form : Context → Submission → Submission
submitted_form ctx x = record x {
  status = submitted;
  submitted_at = some ctx.now;
  validation_results =
      field "valid" (bool true) (field "errors" (list nil) (field "warnings" (list nil) end));
}

-- The entry that goes into the history.
abbrev pub submitted_entry : Context → ℕ → ℕ → SubmissionStatusHistory
submitted_entry ctx hid i = record {
  id = hid;
  submission_id = i;
  from_status = some draft;
  to_status = submitted;
  changed_by = ctx.user;
  reason = some "User submitted the form";
  extra_data = end;
  created_at = ctx.now;
}

-- The submission `i` is now `y`, each other one is as it was, the history has one entry more, and
-- nothing else changed.
abbrev pub HasSubmitted : ℕ → Submission → SubmissionStatusHistory → Db → Db → Type 0
HasSubmitted i y entry db db' =
    (find (at_id i) db'.submissions ≡ some y)
    × ((j : ℕ) → (j is i) ≡ false → find (at_id j) db'.submissions ≡ find (at_id j) db.submissions)
    × (db' ≡ record db {
      submissions = db'.submissions;
      status_history = db.status_history ++ entry ∷ [];
    })

submitted_form_lem :
    (ctx : Context) (x : Submission)
    → moved ctx submit_request (marked true x) ≡ submitted_form ctx x
unfolding moved
submitted_form_lem ctx x = refl

transitioned-HasSubmitted :
    (ctx : Context) (hid i : ℕ) (x : Submission) (db : Db)
    → find (at_id i) db.submissions ≡ some x
    → x.status ≡ draft
    → HasSubmitted i
        (submitted_form ctx x)
        (submitted_entry ctx hid i)
        db
        (transitioned ctx hid i submit_request (marked true x) (marked_db true x db))
unfolding history_row
transitioned-HasSubmitted ctx hid i x db found is_draft =
    let marked_row = row-marked i true x (saved db) found in
    let at_i = (is_iff x.id i).0 (find-passes (at_id i) db.submissions x found) in
    (
      find-update (at_id i) (moved ctx submit_request) (marked_db true x db).submissions
            (marked true x) (λ y. ap (λ k. k is i) (moved_keeps ctx submit_request y).0) marked_row
          ∙ ap some (submitted_form_lem ctx x),
      λ j ne.
          let ne' : (j is x.id) ≡ false = ground arith in
          find-update_other (λ s. s.id) j i (moved ctx submit_request)
            (marked_db true x db).submissions ne (λ y. (moved_keeps ctx submit_request y).0)
          ∙ find-update_other (λ s. s.id) j x.id
              (λ s. record s { validation_results = clean_results }) db.submissions ne' (λ y. refl),
      rw is_draft refl,
    )

module _ (p : Platform) (ctx : Context) (hid i : ℕ) (x : Submission) (db : Db) where
  -- Submitting with validation a draft that its user may access and whose form is complete returns
  -- and stores it as submitted, at the time of the request, with a validation result that is valid
  -- and lists no error or warning, and its other fields as they were; the history has one entry more,
  -- by the user, from draft to submitted; every other submission and table is as it was.
  pub submit_accepts :
      find (at_id i) db.submissions ≡ some x
      → may_access ctx x ≡ true
      → x.status ≡ draft
      → IsComplete p db x
      → (db' : Db) × (serve (submit_submission p ctx hid i true) db
          ≡ (ok (submitted_form ctx x), db'))
        × HasSubmitted i (submitted_form ctx x) (submitted_entry ctx hid i) db db'
  unfolding submit_submission get_submission validated status_eq
  submit_accepts found own is_draft complete =
      let clean : form_errors p x db ≡ [] =
        (validate_form_data-nil p db.definitions x.template_version_id x.form_data).1 complete in
      let moved_on =
        transition_status_ok ctx hid i submit_request (marked true x)
          (record { committed = db; working = marked_db true x db })
          (row-marked i true x (saved db) found) (access-marked ctx true x ∙ own)
          (unfold breaks_four_eyes is_review in ground arith)
          (unfold can_move valid_transitions in ground arith) in
      (
        transitioned ctx hid i submit_request (marked true x) (marked_db true x db),
        (let answer = submitted_form_lem ctx x in ground arith),
        transitioned-HasSubmitted ctx hid i x db found is_draft,
      )

  -- Submitting with validation a draft that its user may access and whose form is not complete is
  -- refused with the errors of the form, of which there is at least one, and nothing is written.
  pub submit_refuses :
      find (at_id i) db.submissions ≡ some x
      → may_access ctx x ≡ true
      → x.status ≡ draft
      → ¬ (IsComplete p db x)
      → (e : AnswerError) × (es : List AnswerError) × (form_errors p x db ≡ e ∷ es)
        × (serve (submit_submission p ctx hid i true) db
            ≡ (err (Error.validation_error (e ∷ es)), db))
  unfolding submit_submission get_submission validated status_eq
  submit_refuses found own is_draft incomplete = elim (List-cases (form_errors p x db)) [
    | inl clean ↦ absurd (
        incomplete
          ((validate_form_data-nil p db.definitions x.template_version_id x.form_data).0 clean))
    | inr (e, es, bad) ↦ (e, es, bad, ground arith)
  ]
