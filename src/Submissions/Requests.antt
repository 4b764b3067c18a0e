-- ===== src/Submissions/Requests.antt =====
-- Six of the requests of app/routes/submissions/routes.py that write, any sequence of them, and the
-- change that each makes to what is committed. The other two that write, the start of a verification
-- and the action on one of its steps, are those of Verifications.Requests.
use onboarding_and_verificat.Prelude.{
  ℕ, ◌≡◌, refl, ◌∙◌, ◌⊎◌, inl, inr, Bool, true, false, none, some, List, arith, All, find, ◌is◌,
}
use onboarding_and_verificat.Prelude.Json.{end}
use onboarding_and_verificat.Model.Status.{status_eq, draft, submitted, cancelled}
use onboarding_and_verificat.Model.Submission.{Submission, SubmissionComment}
use onboarding_and_verificat.Model.Db.{Db}
use onboarding_and_verificat.Answers.{Platform}
use onboarding_and_verificat.Session.{Error, ok, err, Session, Action, pure, serve, ◌>>◌}
use onboarding_and_verificat.Submissions.Access.{Context, may_access}
use onboarding_and_verificat.Submissions.Transitions.{
  SubmissionStatusTransition, valid_transitions, is_review, can_move, breaks_four_eyes,
}
use onboarding_and_verificat.Submissions.Service.{
  at_id, write, add_history, add_submission, history_row, SubmissionCreate, create_submission,
  SubmissionUpdate, updated, update_submission, delete_submission, without, transition_status,
  submit_request, submit_submission, SubmissionCommentCreate, add_comment, new_submission,
}
use onboarding_and_verificat.Submissions.Outcomes.{
  saved, transitioned, update_submission_cases, delete_submission_cases, transition_status_cases,
}
use onboarding_and_verificat.Submissions.Submitting.{
  marked, marked_db, submit_submission_cases, create_submission_cases, add_comment_cases,
}

-- A request on a submission (the verification's are not among them), with the ids that its new rows
-- get: the submission's or comment's, the history's.
pub data Request : Type 0 where
  create : ℕ → ℕ → SubmissionCreate → Request
  update : ℕ → SubmissionUpdate → Request
  delete : ℕ → Request
  transition : ℕ → ℕ → SubmissionStatusTransition → Request
  submit : ℕ → ℕ → Bool → Request
  comment : ℕ → ℕ → SubmissionCommentCreate → Request

unfoldable pub handle : Platform → Context → Request → Action (Unit {0})
handle p ctx (create i hid request) = create_submission ctx i hid request >> pure tt
handle p ctx (update i request) = update_submission ctx i request >> pure tt
handle p ctx (delete i) = delete_submission ctx i
handle p ctx (transition hid i request) = transition_status ctx hid i request >> pure tt
handle p ctx (submit hid i validate) = submit_submission p ctx hid i validate >> pure tt
handle p ctx (comment cid i request) = add_comment ctx cid i request >> pure tt

-- What is committed after a request.
unfoldable pub after : Platform → Context → Request → Db → Db
after p ctx r db = (serve (handle p ctx r) db).1

-- A new submission's id is new: no row has it, nor refers to it.
abbrev pub IsNew : ℕ → Db → Type 0
IsNew i db =
    All (λ s. (s.id is i) ≡ false) db.submissions
    × All (λ h. (h.submission_id is i) ≡ false) db.status_history

abbrev pub IsFresh : Request → Db → Type 0
IsFresh (create i hid request) db = IsNew i db
IsFresh _ db = Unit

-- Sequences of requests, each `Allowed` for its context.
pub data Reach (Allowed : Context → Request → Type 0) (start : Db) : Db → Type 0 where
  here : Reach Allowed start start
  next :
      {db : Db} (p : Platform) (ctx : Context) (r : Request)
      → Reach Allowed start db
      → Allowed ctx r
      → IsFresh r db
      → Reach Allowed start (after p ctx r db)

-- The changes that the requests make.
pub data Change (p : Platform) (ctx : Context) (r : Request) (db db' : Db) : Type 0 where
  kept : db' ≡ db → Change p ctx r db db'
  created :
      (hid : ℕ) (s : Submission) (request : SubmissionCreate)
      → r ≡ create s.id hid request
      → IsNew s.id db
      → s.status ≡ draft
      → s.created_by ≡ ctx.user
      → db'
        ≡ add_history
            (history_row ctx hid s.id none draft (some "Submission created") end)
            (add_submission s db)
      → Change p ctx r db db'
  edited :
      (i : ℕ) (x : Submission) (u : SubmissionUpdate)
      → find (at_id i) db.submissions ≡ some x
      → may_access ctx x ≡ true
      → x.status ≡ draft
      → db' ≡ write i (updated u) db
      → Change p ctx r db db'
  removed :
      (i : ℕ) (x : Submission)
      → find (at_id i) db.submissions ≡ some x
      → may_access ctx x ≡ true
      → (x.status ≡ draft) ⊎ (x.status ≡ cancelled)
      → db' ≡ without i db
      → Change p ctx r db db'
  stepped :
      (hid i : ℕ) (x : Submission) (request : SubmissionStatusTransition) (validate : Bool)
      → find (at_id i) db.submissions ≡ some x
      → may_access ctx x ≡ true
      → breaks_four_eyes ctx x request.to_status ≡ false
      → can_move x.status request.to_status ≡ true
      → db' ≡ transitioned ctx hid i request x (marked_db validate x db)
      → Change p ctx r db db'
  commented :
      (cs : List SubmissionComment) → db' ≡ record db { comments = cs } → Change p ctx r db db'

submitted_is_open :
    (ctx : Context) (x : Submission)
    → x.status ≡ draft
    → (breaks_four_eyes ctx x submitted ≡ false) × (can_move x.status submitted ≡ true)
unfolding breaks_four_eyes can_move is_review valid_transitions status_eq
submitted_is_open ctx x e = ground arith

module _ {A : Type 0} (m : Action A) (db : Db) where
  serve-saved :
      (a : A) (db' : Db) → m (saved db) ≡ (ok a, saved db') → (serve (m >> pure tt) db).1 ≡ db'
  serve-saved a db' h = ground arith

  serve_kept :
      (e : Error) (t : Session)
      → m (saved db) ≡ (err e, t)
      → t.committed ≡ db
      → (serve (m >> pure tt) db).1 ≡ db
  serve_kept e t h same = ground arith

transitioned-marked :
    (ctx : Context) (hid i : ℕ) (validate : Bool) (x : Submission) (db : Db)
    → transitioned ctx hid i submit_request (marked validate x) db
      ≡ transitioned ctx hid i submit_request x db
transitioned-marked ctx hid i false x db = refl
transitioned-marked ctx hid i true x db = refl

pub after-Change :
    (p : Platform) (ctx : Context) (r : Request) (db : Db)
    → IsFresh r db
    → Change p ctx r db (after p ctx r db)
unfolding after handle new_submission
after-Change p ctx (create i hid request) db new =
    elim (create_submission_cases ctx i hid request (saved db)) [
      | inl (e, raised) ↦ kept (serve_kept (create_submission ctx i hid request) db e _ raised refl)
      | inr (t, v, at, done) ↦
          created hid (new_submission ctx i request t v) request refl new refl refl
            (serve-saved (create_submission ctx i hid request) db _ _ done)
    ]
after-Change p ctx (update i request) db new =
    elim (update_submission_cases ctx i request (saved db)) [
      | inl (e, raised) ↦ kept (serve_kept (update_submission ctx i request) db e _ raised refl)
      | inr (x, found, own, is_draft, done) ↦
          edited i x request found own is_draft
            (serve-saved (update_submission ctx i request) db _ _ done)
    ]
after-Change p ctx (delete i) db new = elim (delete_submission_cases ctx i (saved db)) [
  | inl (e, raised) ↦ kept (ground arith)
  | inr (x, found, own, gone, done) ↦ removed i x found own gone (ground arith)
]
after-Change p ctx (transition hid i request) db new =
    elim (transition_status_cases ctx hid i request (saved db)) [
      | inl (e, raised) ↦ kept (serve_kept (transition_status ctx hid i request) db e _ raised refl)
      | inr (x, found, own, eyes, can, done) ↦
          stepped hid i x request false found own eyes can
            (serve-saved (transition_status ctx hid i request) db _ _ done)
    ]
after-Change p ctx (submit hid i validate) db new =
    elim (submit_submission_cases p ctx hid i validate (saved db)) [
      | inl (e, t, raised, same) ↦
          kept (serve_kept (submit_submission p ctx hid i validate) db e t raised same)
      | inr (x, found, own, is_draft, clean, done) ↦
          let (eyes, can) = submitted_is_open ctx x is_draft in
          let done' = serve-saved (submit_submission p ctx hid i validate) db _ _ done in
          stepped hid i x submit_request validate found own eyes can
            (done' ∙ transitioned-marked ctx hid i validate x (marked_db validate x db))
    ]
after-Change p ctx (comment cid i request) db new =
    elim (add_comment_cases ctx cid i request (saved db)) [
      | inl (e, raised) ↦ kept (serve_kept (add_comment ctx cid i request) db e _ raised refl)
      | inr (x, found, own, done) ↦
          commented _ (serve-saved (add_comment ctx cid i request) db _ _ done)
    ]
