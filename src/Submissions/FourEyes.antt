-- ===== src/Submissions/FourEyes.antt =====
-- The four-eyes rule: nobody but a platform super admin reviews their own submission.
use onboarding_and_verificat.Prelude.{
  ℕ, ◌≡◌, ◌∙◌, ap, ◌≢◌, Bool, true, false, not, none, some, List, [], ◌∷◌, ◌++◌, eq_iff, arith, All,
  All-append, All-map, All-update, All-both, All-kept, All-keep, find, ◌is◌,
}
use onboarding_and_verificat.Prelude.Json.{end}
use onboarding_and_verificat.Model.Status.{SubmissionStatus, draft, status_eq}
use onboarding_and_verificat.Model.Submission.{Submission, SubmissionStatusHistory}
use onboarding_and_verificat.Model.Db.{Db}
use onboarding_and_verificat.Answers.{Platform}
use onboarding_and_verificat.Submissions.Access.{Context}
use onboarding_and_verificat.Submissions.Transitions.{
  SubmissionStatusTransition, is_review, breaks_four_eyes, moved, moved_keeps,
}
use onboarding_and_verificat.Submissions.Service.{
  at_id, write, add_history, add_submission, history_row, SubmissionUpdate, updated, without,
}
use onboarding_and_verificat.Submissions.Outcomes.{transitioned}
use onboarding_and_verificat.Submissions.Submitting.{marked_db, history-marked}
use onboarding_and_verificat.Submissions.Requests.{
  Request, after, IsNew, IsFresh, Reach, here, next, kept, created, edited, removed, stepped,
  commented, after-Change,
}
use onboarding_and_verificat.Submissions.Keys.{AreDistinct, after-AreDistinct, found_only}

-- An entry of a submission's history that reviews it is not by its maker.
abbrev pub ByAnother : Submission → SubmissionStatusHistory → Type 0
ByAnother s h =
    (h.submission_id is s.id) ≡ true → is_review h.to_status ≡ true → h.changed_by ≢ s.created_by

abbrev HasOtherEyes : List SubmissionStatusHistory → Submission → Type 0
HasOtherEyes hs s = All (ByAnother s) hs

abbrev pub KeepsFourEyes : Db → Type 0
KeepsFourEyes db = All (HasOtherEyes db.status_history) db.submissions

abbrev pub IsOrdinary : Context → Request → Type 0
IsOrdinary ctx _ = ctx.super_admin ≡ false

-- A transition that the guard lets through is no review by the maker.
eyes_sound :
    (ctx : Context) (x : Submission) (to : SubmissionStatus)
    → ctx.super_admin ≡ false
    → breaks_four_eyes ctx x to ≡ false
    → is_review to ≡ true
    → ctx.user ≢ x.created_by
unfolding breaks_four_eyes
eyes_sound ctx x to ordinary eyes review same = ground (arith, eq_iff x.created_by ctx.user)

draft_no_review : is_review draft ≡ true → ⊥
unfolding is_review status_eq
draft_no_review h = cc

module _ (ctx : Context) (hid i : ℕ) (x : Submission) (request : SubmissionStatusTransition)
    (ordinary : ctx.super_admin ≡ false)
    (eyes : breaks_four_eyes ctx x request.to_status ≡ false) where
  abbrev entry : SubmissionStatusHistory
  entry = history_row ctx hid i (some x.status) request.to_status request.reason request.extra_data

  HasOtherEyes-moved :
      (hs : List SubmissionStatusHistory) (y : Submission)
      → y.created_by ≡ x.created_by
      → HasOtherEyes hs y
      → HasOtherEyes (hs ++ entry ∷ []) (moved ctx request y)
  unfolding history_row
  HasOtherEyes-moved hs y same t =
      let (same_id, _, same_maker, _) = moved_keeps ctx request y in
      All-append (ByAnother (moved ctx request y)) hs (entry ∷ [])
        (All-map (ByAnother y) (ByAnother (moved ctx request y))
          (λ h b own review e. b ((rw same_id at own)) review (rw same_maker at e)) hs t)
        (
          λ own review e.
              eyes_sound ctx x request.to_status ordinary eyes review (e ∙ same_maker ∙ same),
          tt,
        )

  HasOtherEyes-other :
      (hs : List SubmissionStatusHistory) (y : Submission)
      → (y.id is i) ≡ false
      → HasOtherEyes hs y
      → HasOtherEyes (hs ++ entry ∷ []) y
  unfolding history_row
  HasOtherEyes-other hs y other t =
      All-append (ByAnother y) hs (entry ∷ []) t (λ own. ground arith, tt)

-- What is known of a row when the row with id `i` has been read as `x`.
abbrev Known : List SubmissionStatusHistory → ℕ → Submission → Submission → Type 0
Known hs i x y = HasOtherEyes hs y × (at_id i y ≡ true → y.created_by ≡ x.created_by)

Known-marked :
    (i : ℕ) (validate : Bool) (x : Submission) (db : Db)
    → All (Known db.status_history i x) db.submissions
    → All (Known db.status_history i x) (marked_db validate x db).submissions
Known-marked i false x db h = h
Known-marked i true x db h =
    All-update (Known db.status_history i x) (Known db.status_history i x) (at_id x.id) _
      db.submissions (λ y _ t. t) (λ y _ t. t) h

KeepsFourEyes-edited :
    (i : ℕ) (u : SubmissionUpdate) (db : Db)
    → KeepsFourEyes db
    → KeepsFourEyes (write i (updated u) db)
unfolding updated
KeepsFourEyes-edited i u db h =
    All-update (HasOtherEyes db.status_history) (HasOtherEyes db.status_history) (at_id i)
      (updated u) db.submissions (λ y _ t. t) (λ y _ t. t) h

KeepsFourEyes-without : (i : ℕ) (db : Db) → KeepsFourEyes db → KeepsFourEyes (without i db)
unfolding without
KeepsFourEyes-without i db h =
    All-kept (HasOtherEyes db.status_history) (HasOtherEyes (without i db).status_history)
      (λ s. not (at_id i s)) db.submissions
      (λ y _ t. All-keep (ByAnother y) (λ h. not (h.submission_id is i)) db.status_history t) h

KeepsFourEyes-created :
    (ctx : Context) (hid : ℕ) (s : Submission) (db : Db)
    → IsNew s.id db
    → KeepsFourEyes db
    → KeepsFourEyes (
        add_history
          (history_row ctx hid s.id none draft (some "Submission created") end)
          (add_submission s db))
unfolding history_row
KeepsFourEyes-created ctx hid s db new h =
    let h0 = history_row ctx hid s.id none draft (some "Submission created") end in
    let hs = db.status_history in
    All-append (HasOtherEyes (hs ++ h0 ∷ [])) db.submissions (s ∷ [])
      (All-map (HasOtherEyes hs) (HasOtherEyes (hs ++ h0 ∷ []))
        (λ y t.
          All-append (ByAnother y) hs (h0 ∷ []) t (λ own review e. draft_no_review review, tt))
        db.submissions h)
      (
        All-append (ByAnother s) hs (h0 ∷ [])
            (All-map (λ h. (h.submission_id is s.id) ≡ false) (ByAnother s) (λ h other own. cc) hs
              new.1)
            (λ own review e. draft_no_review review, tt),
        tt,
      )

KeepsFourEyes-transitioned :
    (ctx : Context) (hid i : ℕ) (request : SubmissionStatusTransition) (validate : Bool)
    (x : Submission) (db : Db)
    → ctx.super_admin ≡ false
    → AreDistinct db.submissions
    → find (at_id i) db.submissions ≡ some x
    → breaks_four_eyes ctx x request.to_status ≡ false
    → KeepsFourEyes db
    → KeepsFourEyes (transitioned ctx hid i request x (marked_db validate x db))
unfolding history_row
KeepsFourEyes-transitioned ctx hid i request validate x db ordinary distinct found eyes h =
    let only = found_only i db.submissions x distinct found in
    rw (history-marked validate x db) (
      All-update (Known db.status_history i x)
        (HasOtherEyes (transitioned ctx hid i request x db).status_history) (at_id i)
        (moved ctx request) (marked_db validate x db).submissions
        (λ y own t.
          HasOtherEyes-moved ctx hid i x request ordinary eyes db.status_history y (t.1 own) t.0)
        (λ y other t.
          HasOtherEyes-other ctx hid i x request ordinary eyes db.status_history y other t.0)
        (Known-marked i validate x db (
          All-both (HasOtherEyes db.status_history) (λ y. at_id i y ≡ true → y ≡ x)
            (Known db.status_history i x) db.submissions
            (λ y t o. (t, λ own. ap (λ (z : Submission). z.created_by) (o own))) h only)))

after-KeepsFourEyes :
    (p : Platform) (ctx : Context) (r : Request) (db : Db)
    → ctx.super_admin ≡ false
    → IsFresh r db
    → AreDistinct db.submissions
    → KeepsFourEyes db
    → KeepsFourEyes (after p ctx r db)
after-KeepsFourEyes p ctx r db ordinary new distinct h = elim (after-Change p ctx r db new) [
  | kept e ↦ rw e h
  | created hid s request same fresh is_draft maker e ↦
      rw e (KeepsFourEyes-created ctx hid s db fresh h)
  | edited i x u found own is_draft e ↦ rw e (KeepsFourEyes-edited i u db h)
  | removed i x found own gone e ↦ rw e (KeepsFourEyes-without i db h)
  | stepped hid i x request validate found own eyes can e ↦
      rw e
        (KeepsFourEyes-transitioned ctx hid i request validate x db ordinary distinct found eyes h)
  | commented cs e ↦ rw e h
]

both :
    (start db : Db)
    → AreDistinct start.submissions
    → KeepsFourEyes start
    → Reach IsOrdinary start db
    → AreDistinct db.submissions × KeepsFourEyes db
both start _ d h here = (d, h)
both start _ d h (next {db} p ctx r reach ordinary fresh) =
    let (distinct, eyes) = both start db d h reach in
    (
      after-AreDistinct p ctx r db fresh distinct,
      after-KeepsFourEyes p ctx r db ordinary fresh distinct eyes,
    )

-- From a database with distinct submission ids where this holds, along any sequence of requests
-- without a platform super admin, no entry of the history that puts a submission under review, or
-- approves, rejects or returns it, is by the user who made it.
pub Reach-KeepsFourEyes :
    (start db : Db)
    → AreDistinct start.submissions
    → KeepsFourEyes start
    → Reach IsOrdinary start db
    → KeepsFourEyes db
Reach-KeepsFourEyes start _ d h reach = (both start _ d h reach).1
