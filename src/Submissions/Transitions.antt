-- ===== src/Submissions/Transitions.antt =====
-- The workflow of a submission: VALID_TRANSITIONS, and which moves are a review.
use onboarding_and_verificat.Prelude.{
  ◌≡◌, arith, Bool, not, ◌&&◌, Option, none, some, String, List, [], ◌∷◌, any, ◌==◌, if◌then◌else◌,
}
use onboarding_and_verificat.Prelude.Json.{Fields}
use onboarding_and_verificat.Model.Status.{
  SubmissionStatus, draft, submitted, under_review, approved, rejected, returned, completed,
  cancelled, status_eq,
}
use onboarding_and_verificat.Model.Submission.{Submission}
use onboarding_and_verificat.Submissions.Access.{Context}

unfoldable pub valid_transitions : SubmissionStatus → List SubmissionStatus
valid_transitions draft = submitted ∷ cancelled ∷ []
valid_transitions submitted = under_review ∷ approved ∷ rejected ∷ returned ∷ cancelled ∷ []
valid_transitions under_review = approved ∷ rejected ∷ returned ∷ []
valid_transitions returned = submitted ∷ cancelled ∷ []
valid_transitions approved = completed ∷ []
valid_transitions rejected = completed ∷ []
valid_transitions completed = []
valid_transitions cancelled = []

abbrev pub one_of : SubmissionStatus → List SubmissionStatus → Bool
one_of a l = any (λ b. status_eq b a) l

unfoldable pub can_move : SubmissionStatus → SubmissionStatus → Bool
can_move from to = one_of to (valid_transitions from)

-- The statuses that only somebody other than the maker may set.
unfoldable pub is_review : SubmissionStatus → Bool
is_review to = one_of to (under_review ∷ approved ∷ rejected ∷ returned ∷ [])

-- class SubmissionStatusTransition
pub record SubmissionStatusTransition : Type 0 where
  pub to_status : SubmissionStatus
  pub reason : Option String
  pub review_notes : Option String
  pub extra_data : Fields

-- The four-eyes rule of `transition_status`.
unfoldable pub breaks_four_eyes : Context → Submission → SubmissionStatus → Bool
breaks_four_eyes ctx s to = (not ctx.super_admin && (s.created_by == ctx.user)) && is_review to

-- `if data.review_notes: ...`
abbrev noted : Option String → Option String → Option String
noted none old = old
noted (some notes) old = if notes == "" then old else some notes

abbrev reviewed : Context → SubmissionStatusTransition → Submission → Submission
reviewed ctx request s = record s {
  reviewed_at = some ctx.now;
  reviewed_by = some ctx.user;
  review_notes = noted request.review_notes s.review_notes;
}

-- The timestamps that go with the new status.
abbrev stamped : Context → SubmissionStatusTransition → SubmissionStatus → Submission → Submission
stamped ctx request submitted s = record s { submitted_at = some ctx.now }
stamped ctx request approved s = reviewed ctx request s
stamped ctx request rejected s = reviewed ctx request s
stamped ctx request returned s = reviewed ctx request s
stamped ctx request completed s = record s { completed_at = some ctx.now }
stamped ctx request _ s = s

unfoldable pub moved : Context → SubmissionStatusTransition → Submission → Submission
moved ctx request s =
    stamped ctx request request.to_status (record s { status = request.to_status })

-- A transition changes the status, and neither the id, the maker nor the form.
pub moved_keeps :
    (ctx : Context) (request : SubmissionStatusTransition) (s : Submission)
    → ((moved ctx request s).id ≡ s.id)
      × ((moved ctx request s).status ≡ request.to_status)
      × ((moved ctx request s).created_by ≡ s.created_by)
      × ((moved ctx request s).form_data ≡ s.form_data)
unfolding moved
moved_keeps ctx request s = ground arith
