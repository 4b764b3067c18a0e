-- ===== src/Submissions/Audit.antt =====
-- The audit trail: the history of a submission is a path through the workflow, from its creation to
-- its present status.
use onboarding_and_verificat.Prelude.{
  ℕ, ◌≡◌, refl, ap, sym, ◌∙◌, subst, Bool, true, false, not, Option, none, some, List, [], ◌∷◌,
  ◌++◌, arith, All, All-append, All-update, All-kept, All-both, find-All, find, find-passes, keep,
  is_iff, is_refl, ◌is◌,
}
use onboarding_and_verificat.Prelude.Json.{end}
use onboarding_and_verificat.Model.Status.{SubmissionStatus, draft}
use onboarding_and_verificat.Model.Submission.{Submission, SubmissionStatusHistory}
use onboarding_and_verificat.Model.Db.{Db}
use onboarding_and_verificat.Answers.{Platform}
use onboarding_and_verificat.Submissions.Access.{Context}
use onboarding_and_verificat.Submissions.Transitions.{
  SubmissionStatusTransition, can_move, moved, moved_keeps,
}
use onboarding_and_verificat.Submissions.Service.{
  at_id, write, add_history, add_submission, history_row, SubmissionUpdate, updated, without,
}
use onboarding_and_verificat.Submissions.Outcomes.{transitioned}
use onboarding_and_verificat.Submissions.Submitting.{marked_db, history-marked}
use onboarding_and_verificat.Submissions.Requests.{
  Request, after, IsNew, IsFresh, Reach, here, next, kept, created, edited, removed, stepped,
  commented, after-Change,
}

-- submission.status_history
abbrev pub history_of : ℕ → List SubmissionStatusHistory → List SubmissionStatusHistory
history_of i hs = keep (λ h. h.submission_id is i) hs

-- A submission begins as a draft, and moves as the workflow allows.
abbrev pub IsLegal : Option SubmissionStatus → SubmissionStatus → Type 0
IsLegal none to = to ≡ draft
IsLegal (some from) to = can_move from to ≡ true

-- The entries lead from one status to another, each from where the one before it ended.
abbrev pub Trail :
    Option SubmissionStatus → List SubmissionStatusHistory → SubmissionStatus → Type 0
Trail from [] to = from ≡ some to
Trail from (h ∷ hs) to =
    (h.from_status ≡ from) × IsLegal from h.to_status × Trail (some h.to_status) hs to

Trail-end :
    (from : Option SubmissionStatus) (hs : List SubmissionStatusHistory) (a b : SubmissionStatus)
    → Trail from hs a
    → Trail from hs b
    → a ≡ b
Trail-end from [] a b p q = cc
Trail-end from (h ∷ hs) a b p q = Trail-end (some h.to_status) hs a b p.2 q.2

Trail-append :
    (from : Option SubmissionStatus) (hs : List SubmissionStatusHistory)
    (h : SubmissionStatusHistory) (a : SubmissionStatus)
    → Trail from hs a
    → h.from_status ≡ some a
    → can_move a h.to_status ≡ true
    → Trail from (hs ++ h ∷ []) h.to_status
Trail-append from [] h a t f m = (f ∙ sym t, rw t m, refl)
Trail-append from (g ∷ hs) h a t f m = (t.0, t.1, Trail-append (some g.to_status) hs h a t.2 f m)

-- The trail of a submission in a history.
abbrev HasTrail : List SubmissionStatusHistory → Submission → Type 0
HasTrail hs s = Trail none (history_of s.id hs) s.status

abbrev pub IsAudited : Db → Type 0
IsAudited db = All (HasTrail db.status_history) db.submissions

is_sym : (a b : ℕ) (t : Bool) → (a is b) ≡ t → (b is a) ≡ t
is_sym a b t h = ground arith

module _ (i : ℕ) (h : SubmissionStatusHistory) where
  -- An entry about another submission changes nothing.
  pub history_of-other :
      (hs : List SubmissionStatusHistory)
      → (h.submission_id is i) ≡ false
      → history_of i (hs ++ h ∷ []) ≡ history_of i hs
  history_of-other [] e = rw e
  history_of-other (g ∷ hs) e = ground (arith, history_of-other hs e)

  pub history_of-own :
      (hs : List SubmissionStatusHistory)
      → (h.submission_id is i) ≡ true
      → history_of i (hs ++ h ∷ []) ≡ history_of i hs ++ h ∷ []
  history_of-own [] e = rw e
  history_of-own (g ∷ hs) e = ground (arith, history_of-own hs e)

pub history_of-new :
    (i : ℕ) (hs : List SubmissionStatusHistory)
    → All (λ h. (h.submission_id is i) ≡ false) hs
    → history_of i hs ≡ []
history_of-new i [] n = refl
history_of-new i (h ∷ hs) n = rw n.0 (history_of-new i hs n.1)

pub history_of-without :
    (i j : ℕ) (hs : List SubmissionStatusHistory)
    → (j is i) ≡ false
    → history_of j (keep (λ h. not (h.submission_id is i)) hs) ≡ history_of j hs
history_of-without i j [] e = refl
history_of-without i j (h ∷ hs) e = ground (arith, history_of-without i j hs e)

-- One step of the workflow, recorded.
module _ (ctx : Context) (hid i : ℕ) (x : Submission) (request : SubmissionStatusTransition) where
  abbrev entry : SubmissionStatusHistory
  entry = history_row ctx hid i (some x.status) request.to_status request.reason request.extra_data

  HasTrail-moved :
      (hs : List SubmissionStatusHistory) (y : Submission)
      → HasTrail hs x
      → (x.id is i) ≡ true
      → can_move x.status request.to_status ≡ true
      → (y.id is i) ≡ true
      → HasTrail hs y
      → HasTrail (hs ++ entry ∷ []) (moved ctx request y)
  unfolding history_row
  HasTrail-moved hs y tx at can own ty =
      let (same_id, new_status, _, _) = moved_keeps ctx request y in
      let to_i = (is_iff y.id i).0 own in
      let tx' = subst (λ j. Trail none (history_of j hs) x.status) ((is_iff x.id i).0 at) tx in
      let t = Trail-append none (history_of i hs) entry x.status tx' refl can in
      let t' : Trail none (history_of i (hs ++ entry ∷ [])) request.to_status =
        rw (history_of-own i entry hs (is_refl i)) t in
      subst (λ j. Trail none (history_of j (hs ++ entry ∷ [])) (moved ctx request y).status)
        (sym (same_id ∙ to_i))
        (subst (Trail none (history_of i (hs ++ entry ∷ []))) (sym new_status) t')

  HasTrail-other :
      (hs : List SubmissionStatusHistory) (y : Submission)
      → (y.id is i) ≡ false
      → HasTrail hs y
      → HasTrail (hs ++ entry ∷ []) y
  unfolding history_row
  HasTrail-other hs y other ty = rw (history_of-other y.id entry hs (is_sym y.id i false other)) ty

HasTrail-marked :
    (validate : Bool) (x : Submission) (db : Db)
    → IsAudited db
    → All (HasTrail db.status_history) (marked_db validate x db).submissions
HasTrail-marked false x db h = h
HasTrail-marked true x db h =
    All-update (HasTrail db.status_history) (HasTrail db.status_history) (at_id x.id) _
      db.submissions (λ y _ t. t) (λ y _ t. t) h

IsAudited-transitioned :
    (ctx : Context) (hid i : ℕ) (request : SubmissionStatusTransition) (validate : Bool)
    (x : Submission) (db : Db)
    → find (at_id i) db.submissions ≡ some x
    → can_move x.status request.to_status ≡ true
    → IsAudited db
    → IsAudited (transitioned ctx hid i request x (marked_db validate x db))
unfolding history_row
IsAudited-transitioned ctx hid i request validate x db found can h =
    rw (history-marked validate x db) (
      All-update (HasTrail db.status_history)
        (HasTrail (transitioned ctx hid i request x db).status_history) (at_id i)
        (moved ctx request) (marked_db validate x db).submissions
        (λ y own t.
          HasTrail-moved ctx hid i x request db.status_history y
            (find-All (HasTrail db.status_history) (at_id i) db.submissions x h found)
            (find-passes (at_id i) db.submissions x found) can own t)
        (λ y other t. HasTrail-other ctx hid i x request db.status_history y other t)
        (HasTrail-marked validate x db h))

IsAudited-created :
    (ctx : Context) (hid : ℕ) (s : Submission) (db : Db)
    → IsNew s.id db
    → s.status ≡ draft
    → IsAudited db
    → IsAudited (
        add_history
          (history_row ctx hid s.id none draft (some "Submission created") end)
          (add_submission s db))
unfolding history_row
IsAudited-created ctx hid s db new is_draft h =
    let h0 = history_row ctx hid s.id none draft (some "Submission created") end in
    let hs = db.status_history in
    All-append (HasTrail (hs ++ h0 ∷ [])) db.submissions (s ∷ [])
      (All-both (HasTrail hs) (λ y. (y.id is s.id) ≡ false) (HasTrail (hs ++ h0 ∷ []))
        db.submissions
        (λ y t other. rw (history_of-other y.id h0 hs (is_sym y.id s.id false other)) t) h new.0)
      (
        rw (history_of-own s.id h0 hs (is_refl s.id))
            (rw (history_of-new s.id hs new.1) (refl, refl, ap some (sym is_draft))),
        tt,
      )

IsAudited-edited :
    (i : ℕ) (u : SubmissionUpdate) (db : Db) → IsAudited db → IsAudited (write i (updated u) db)
unfolding updated
IsAudited-edited i u db h =
    All-update (HasTrail db.status_history) (HasTrail db.status_history) (at_id i) (updated u)
      db.submissions (λ y _ t. t) (λ y _ t. t) h

IsAudited-without : (i : ℕ) (db : Db) → IsAudited db → IsAudited (without i db)
unfolding without
IsAudited-without i db h =
    All-kept (HasTrail db.status_history) (HasTrail (without i db).status_history)
      (λ s. not (at_id i s)) db.submissions
      (λ y other t. rw (history_of-without i y.id db.status_history (ground arith)) t) h

-- Every request keeps the audit trail.
after-IsAudited :
    (p : Platform) (ctx : Context) (r : Request) (db : Db)
    → IsFresh r db
    → IsAudited db
    → IsAudited (after p ctx r db)
after-IsAudited p ctx r db new h = elim (after-Change p ctx r db new) [
  | kept e ↦ rw e h
  | created hid s request same fresh is_draft maker e ↦
      rw e (IsAudited-created ctx hid s db fresh is_draft h)
  | edited i x u found own is_draft e ↦ rw e (IsAudited-edited i u db h)
  | removed i x found own gone e ↦ rw e (IsAudited-without i db h)
  | stepped hid i x request validate found own eyes can e ↦
      rw e (IsAudited-transitioned ctx hid i request validate x db found can h)
  | commented cs e ↦ rw e h
]

-- From a database where this holds, along any sequence of requests by anybody, the history of each
-- submission is a path through the workflow: it begins with the creation as a draft, each later
-- entry starts from the status where the one before it ended and is a transition that the workflow
-- allows, and the last entry ends in the submission's present status.
pub Reach-IsAudited :
    (Allowed : Context → Request → Type 0) (start db : Db)
    → IsAudited start
    → Reach Allowed start db
    → IsAudited db
Reach-IsAudited Allowed start _ h here = h
Reach-IsAudited Allowed start _ h (next {db} p ctx r reach allowed fresh) =
    after-IsAudited p ctx r db fresh (Reach-IsAudited Allowed start db h reach)
