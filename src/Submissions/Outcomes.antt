-- ===== src/Submissions/Outcomes.antt =====
-- How each handler ends: it raises and leaves the session as it was, or it commits a known change.
use onboarding_and_verificat.Prelude.{
  ℕ, ◌≡◌, ◌⊎◌, inl, inr, true, false, ◌||◌, Option, some, arith, find, Bool-cases, Option-cases,
}
use onboarding_and_verificat.Model.Status.{status_eq, status_eq_iff, draft, cancelled}
use onboarding_and_verificat.Model.Submission.{Submission}
use onboarding_and_verificat.Model.Db.{Db}
use onboarding_and_verificat.Session.{Error, Result, ok, err, Session}
use onboarding_and_verificat.Submissions.Access.{Context, may_access}
use onboarding_and_verificat.Submissions.Transitions.{
  SubmissionStatusTransition, can_move, breaks_four_eyes, moved,
}
use onboarding_and_verificat.Submissions.Service.{
  at_id, write, add_history, history_row, get_submission, update_submission, updated,
  SubmissionUpdate, delete_submission, without, transition_status,
}

-- The call raises and writes nothing.
abbrev pub Raises : {A : Type 0} → Result A × Session → Session → Type 0
Raises out s = (e : Error) × (out ≡ (err e, s))

-- The row that a request reads.
abbrev pub row : ℕ → Session → Option Submission
row i s = find (at_id i) s.working.submissions

pub get_submission_cases :
    (ctx : Context) (i : ℕ) (s : Session)
    → Raises (get_submission ctx i s) s
      ⊎ ((x : Submission) × (row i s ≡ some x)
          × (may_access ctx x ≡ true)
          × (get_submission ctx i s ≡ (ok x, s)))
unfolding get_submission
get_submission_cases ctx i s = elim (Option-cases (row i s)) [
  | inl absent ↦ inl (Error.submission_not_found, ground arith)
  | inr (x, e) ↦ elim (Bool-cases (may_access ctx x)) [
    | inl own ↦ inr (x, e, own, ground arith)
    | inr other ↦ inl (Error.forbidden, ground arith)
  ]
]

-- The session after a commit.
abbrev pub saved : Db → Session
saved db = record { committed = db; working = db }

abbrev pub transitioned : Context → ℕ → ℕ → SubmissionStatusTransition → Submission → Db → Db
transitioned ctx hid i request x db =
    add_history
      (history_row ctx hid i (some x.status) request.to_status request.reason request.extra_data)
      (write i (moved ctx request) db)

pub transition_status_cases :
    (ctx : Context) (hid i : ℕ) (request : SubmissionStatusTransition) (s : Session)
    → Raises (transition_status ctx hid i request s) s
      ⊎ ((x : Submission) × (row i s ≡ some x)
          × (may_access ctx x ≡ true)
          × (breaks_four_eyes ctx x request.to_status ≡ false)
          × (can_move x.status request.to_status ≡ true)
          × (transition_status ctx hid i request s
              ≡ (ok (moved ctx request x), saved (transitioned ctx hid i request x s.working))))
unfolding transition_status
transition_status_cases ctx hid i request s = elim (get_submission_cases ctx i s) [
  | inl (e, raised) ↦ inl (e, ground arith)
  | inr (x, found, own, got) ↦ elim (Bool-cases (breaks_four_eyes ctx x request.to_status)) [
    | inl broken ↦ inl (Error.four_eyes_violation, ground arith)
    | inr eyes ↦ elim (Bool-cases (can_move x.status request.to_status)) [
      | inl can ↦ inr (x, found, own, eyes, can, ground arith)
      | inr cannot ↦ inl (Error.invalid_transition x.status request.to_status, ground arith)
    ]
  ]
]

pub update_submission_cases :
    (ctx : Context) (i : ℕ) (request : SubmissionUpdate) (s : Session)
    → Raises (update_submission ctx i request s) s
      ⊎ ((x : Submission) × (row i s ≡ some x)
          × (may_access ctx x ≡ true)
          × (x.status ≡ draft)
          × (update_submission ctx i request s
              ≡ (ok (updated request x), saved (write i (updated request) s.working))))
unfolding update_submission
update_submission_cases ctx i request s = elim (get_submission_cases ctx i s) [
  | inl (e, raised) ↦ inl (e, ground arith)
  | inr (x, found, own, got) ↦ elim (Bool-cases (status_eq x.status draft)) [
    | inl is_draft ↦ inr (x, found, own, (status_eq_iff x.status draft).0 is_draft, ground arith)
    | inr later ↦ inl (Error.cannot_update x.status, ground arith)
  ]
]

pub delete_submission_cases :
    (ctx : Context) (i : ℕ) (s : Session)
    → Raises (delete_submission ctx i s) s
      ⊎ ((x : Submission) × (row i s ≡ some x)
          × (may_access ctx x ≡ true)
          × ((x.status ≡ draft) ⊎ (x.status ≡ cancelled))
          × (delete_submission ctx i s ≡ (ok tt, saved (without i s.working))))
unfolding delete_submission
delete_submission_cases ctx i s = elim (get_submission_cases ctx i s) [
  | inl (e, raised) ↦ inl (e, ground arith)
  | inr (x, found, own, got) ↦
      elim (Bool-cases (status_eq x.status draft || status_eq x.status cancelled)) [
        | inl gone ↦ inr (
          x,
          found,
          own,
          ground (arith, status_eq_iff x.status draft, status_eq_iff x.status cancelled),
          ground arith,
        )
        | inr kept ↦ inl (Error.cannot_delete x.status, ground arith)
      ]
]
