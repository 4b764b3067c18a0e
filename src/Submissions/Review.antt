-- ===== src/Submissions/Review.antt =====
-- What the audit trail and the four-eyes rule say together of a submission that has come through.
use onboarding_and_verificat.Prelude.{
  ℕ, ◌≡◌, refl, ◌≢◌, ◌⊎◌, inl, inr, true, Option, none, some, List, [], ◌∷◌, arith, All, ◌is◌, find,
  find-All, Bool-cases,
}
use onboarding_and_verificat.Model.Status.{
  SubmissionStatus, approved, rejected, completed, status_eq,
}
use onboarding_and_verificat.Model.Submission.{Submission, SubmissionStatusHistory}
use onboarding_and_verificat.Model.Db.{Db}
use onboarding_and_verificat.Submissions.Transitions.{can_move, valid_transitions, is_review}
use onboarding_and_verificat.Submissions.Service.{at_id}
use onboarding_and_verificat.Submissions.Requests.{Reach}
use onboarding_and_verificat.Submissions.Audit.{
  Trail, IsLegal, IsAudited, history_of, Reach-IsAudited,
}
use onboarding_and_verificat.Submissions.Keys.{AreDistinct}
use onboarding_and_verificat.Submissions.FourEyes.{
  ByAnother, KeepsFourEyes, IsOrdinary, Reach-KeepsFourEyes,
}

-- Some entry of the history has the property.
abbrev pub HasEntry : (SubmissionStatusHistory → Type 0) → List SubmissionStatusHistory → Type 0
HasEntry P [] = ⊥
HasEntry P (h ∷ hs) = P h ⊎ HasEntry P hs

-- The statuses from which `completed` is out of reach but through a decision.
abbrev IsUndecided : Option SubmissionStatus → Type 0
IsUndecided from = (from ≢ some approved) × (from ≢ some rejected) × (from ≢ some completed)

abbrev pub IsDecision : SubmissionStatusHistory → Type 0
IsDecision h = (h.to_status ≡ approved) ⊎ (h.to_status ≡ rejected)

decided_step :
    (from : Option SubmissionStatus) (to : SubmissionStatus)
    → IsUndecided from
    → IsLegal from to
    → ((to ≡ approved) ⊎ (to ≡ rejected)) ⊎ IsUndecided (some to)
unfolding can_move valid_transitions status_eq
decided_step from approved u l = inl (inl refl)
decided_step from rejected u l = inl (inr refl)
decided_step none completed u l = cc
decided_step (some from) completed u l = ground arith
decided_step from _ u l = inr (λ e. cc, λ e. cc, λ e. cc)

Trail-completed :
    (from : Option SubmissionStatus) (hs : List SubmissionStatusHistory)
    → IsUndecided from
    → Trail from hs completed
    → HasEntry IsDecision hs
Trail-completed from [] u t = absurd (u.2 t)
Trail-completed from (h ∷ hs) u t = elim (decided_step from h.to_status u t.1) [
  | inl decided ↦ inl decided
  | inr open_still ↦ inr (Trail-completed (some h.to_status) hs open_still t.2)
]

decision_is_review : (h : SubmissionStatusHistory) → IsDecision h → is_review h.to_status ≡ true
unfolding is_review status_eq
decision_is_review h (inl e) = rw e
decision_is_review h (inr e) = rw e

-- A decision that is not the maker's.
abbrev pub IsDecisionOf : Submission → SubmissionStatusHistory → Type 0
IsDecisionOf s h = IsDecision h × (h.changed_by ≢ s.created_by)

first_or_later :
    (s : Submission) (h : SubmissionStatusHistory) (hs : List SubmissionStatusHistory)
    → (h.submission_id is s.id) ≡ true
    → ByAnother s h
    → (HasEntry IsDecision (history_of s.id hs) → HasEntry (IsDecisionOf s) (history_of s.id hs))
    → HasEntry IsDecision (h ∷ history_of s.id hs)
    → HasEntry (IsDecisionOf s) (h ∷ history_of s.id hs)
first_or_later s h hs own eyes later (inl d) = inl (d, eyes own (decision_is_review h d))
first_or_later s h hs own eyes later (inr r) = inr (later r)

decision-ByAnother :
    (s : Submission) (hs : List SubmissionStatusHistory)
    → All (ByAnother s) hs
    → HasEntry IsDecision (history_of s.id hs)
    → HasEntry (IsDecisionOf s) (history_of s.id hs)
decision-ByAnother s [] eyes has = has
decision-ByAnother s (h ∷ hs) eyes has = elim (Bool-cases (h.submission_id is s.id)) [
  | inl own ↦
      rw own (first_or_later s h hs own eyes.0 (decision-ByAnother s hs eyes.1) (rw own at has))
  | inr other ↦ rw other (decision-ByAnother s hs eyes.1 (rw other at has))
]

-- From a database with distinct submission ids, whose histories are paths through the workflow and
-- keep the four-eyes rule, and without a platform super admin, every completed submission was
-- approved or rejected, according to its own history, by a user other than its maker.
pub completed_was_decided :
    (start db : Db) (i : ℕ) (s : Submission)
    → AreDistinct start.submissions
    → IsAudited start
    → KeepsFourEyes start
    → Reach IsOrdinary start db
    → find (at_id i) db.submissions ≡ some s
    → s.status ≡ completed
    → HasEntry (IsDecisionOf s) (history_of s.id db.status_history)
completed_was_decided start db i s distinct audited eyes reach found done =
    let trail =
      find-All _ (at_id i) db.submissions s (Reach-IsAudited IsOrdinary start db audited reach)
        found in
    let separated =
      find-All _ (at_id i) db.submissions s (Reach-KeepsFourEyes start db distinct eyes reach)
        found in
    decision-ByAnother s db.status_history separated (
      Trail-completed none (history_of s.id db.status_history) (λ e. cc, λ e. cc, λ e. cc)
        (rw done at trail))
