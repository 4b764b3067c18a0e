-- ===== src/Submissions/Frozen.antt =====
-- A submission that has left `draft` keeps its form.
use onboarding_and_verificat.Prelude.{
  ℕ, ◌≡◌, refl, subst, ◌∙◌, sym, ◌≢◌, Bool, true, false, not, some, List, [], ◌∷◌, arith, All,
  All-append, All-map, All-update, All-kept, find, find-All, find-passes, update, ◌is◌,
}
use onboarding_and_verificat.Model.Status.{SubmissionStatus, draft, status_eq}
use onboarding_and_verificat.Model.Submission.{Submission}
use onboarding_and_verificat.Model.Db.{Db}
use onboarding_and_verificat.Answers.{Platform}
use onboarding_and_verificat.Submissions.Access.{Context}
use onboarding_and_verificat.Submissions.Transitions.{
  SubmissionStatusTransition, valid_transitions, can_move, moved, moved_keeps,
}
use onboarding_and_verificat.Submissions.Service.{
  at_id, SubmissionCreate, SubmissionUpdate, updated, without,
}
use onboarding_and_verificat.Submissions.Submitting.{marked_db}
use onboarding_and_verificat.Submissions.Requests.{
  Request, create, after, IsFresh, Reach, here, next, kept, created, edited, removed, stepped,
  commented, after-Change,
}
use onboarding_and_verificat.Submissions.Keys.{AreDistinct, found_only}

-- The request does not create the submission `i`: ids are not used twice.
abbrev pub IsNotCreating : ℕ → Context → Request → Type 0
IsNotCreating i ctx (create j hid request) = (j is i) ≡ false
IsNotCreating i ctx _ = Unit

-- A row with the id `i` has the form and the maker of `x`, and is no draft.
abbrev Holds : ℕ → Submission → Submission → Type 0
Holds i x y =
    at_id i y ≡ true
    → (y.form_data ≡ x.form_data) × (y.created_by ≡ x.created_by) × (y.status ≢ draft)

no_move_to_draft : (a : SubmissionStatus) → can_move a draft ≡ true → ⊥
unfolding can_move valid_transitions status_eq
no_move_to_draft a h = ground arith

Holds-moved :
    (i : ℕ) (x y : Submission) (ctx : Context) (request : SubmissionStatusTransition)
    (a : SubmissionStatus)
    → can_move a request.to_status ≡ true
    → Holds i x y
    → Holds i x (moved ctx request y)
Holds-moved i x y ctx request a can h own =
    let (same_id, status, maker, form) = moved_keeps ctx request y in
    let before = h (rw same_id at own) in
    (form ∙ before.0, maker ∙ before.1, λ e. no_move_to_draft a (rw (sym status ∙ e) at can))

Holds-marked :
    (i : ℕ) (x : Submission) (validate : Bool) (z : Submission) (db : Db)
    → All (Holds i x) db.submissions
    → All (Holds i x) (marked_db validate z db).submissions
Holds-marked i x false z db h = h
Holds-marked i x true z db h =
    All-update (Holds i x) (Holds i x) (at_id z.id) _ db.submissions (λ y _ t. t) (λ y _ t. t) h

-- Only a draft is edited.
Holds-edited :
    (i j : ℕ) (x z : Submission) (u : SubmissionUpdate) (ss : List Submission)
    → find (at_id j) ss ≡ some z
    → z.status ≡ draft
    → All (Holds i x) ss
    → All (Holds i x) (update (at_id j) (updated u) ss)
unfolding updated
Holds-edited i j x z u ss found is_draft h =
    let held = find-All (Holds i x) (at_id j) ss z h found in
    let at_j = find-passes (at_id j) ss z found in
    All-update (Holds i x) (Holds i x) (at_id j) (updated u) ss
      (λ y hit _ own. absurd ((held (ground arith)).2 is_draft)) (λ y _ t. t) h

not_created :
    (i j hid : ℕ) (ctx : Context) (request : SubmissionCreate) (r : Request)
    → r ≡ create j hid request
    → IsNotCreating i ctx r
    → (j is i) ≡ false
not_created i j hid ctx request r same other = subst (IsNotCreating i ctx) same other

after-Holds :
    (i : ℕ) (x : Submission) (p : Platform) (ctx : Context) (r : Request) (db : Db)
    → IsNotCreating i ctx r
    → IsFresh r db
    → All (Holds i x) db.submissions
    → All (Holds i x) (after p ctx r db).submissions
unfolding without
after-Holds i x p ctx r db other new h = elim (after-Change p ctx r db new) [
  | kept e ↦ rw e h
  | created hid s request same fresh is_draft maker e ↦ rw e (
      All-append (Holds i x) db.submissions (s ∷ []) h
        (λ own. cc (not_created i s.id hid ctx request r same other), tt))
  | edited j z u found own is_draft e ↦
      rw e (Holds-edited i j x z u db.submissions found is_draft h)
  | removed j z found own gone e ↦
      rw e (All-kept (Holds i x) (Holds i x) (λ s. not (at_id j s)) db.submissions (λ y _ t. t) h)
  | stepped hid j z request validate found own eyes can e ↦ rw e (
      All-update (Holds i x) (Holds i x) (at_id j) (moved ctx request)
        (marked_db validate z db).submissions
        (λ y _ t. Holds-moved i x y ctx request z.status can t) (λ y _ t. t)
        (Holds-marked i x validate z db h))
  | commented cs e ↦ rw e h
]

Reach-Holds :
    (i : ℕ) (x : Submission) (start db : Db)
    → All (Holds i x) start.submissions
    → Reach (IsNotCreating i) start db
    → All (Holds i x) db.submissions
Reach-Holds i x start _ h here = h
Reach-Holds i x start _ h (next {db} p ctx r reach other fresh) =
    after-Holds i x p ctx r db other fresh (Reach-Holds i x start db h reach)

-- Once a submission is no draft, no sequence of requests changes its form or its maker, or makes
-- it a draft again, as long as ids are distinct and none creates its id again: one that is
-- returned for corrections goes back to review with the form that it had.
pub form_is_frozen :
    (i : ℕ) (x y : Submission) (start db : Db)
    → AreDistinct start.submissions
    → find (at_id i) start.submissions ≡ some x
    → x.status ≢ draft
    → Reach (IsNotCreating i) start db
    → find (at_id i) db.submissions ≡ some y
    → (y.form_data ≡ x.form_data) × (y.created_by ≡ x.created_by) × (y.status ≢ draft)
form_is_frozen i x y start db distinct found left reach found_y =
    find-All (Holds i x) (at_id i) db.submissions y
      (Reach-Holds i x start db
        (All-map (λ z. at_id i z ≡ true → z ≡ x) (Holds i x)
          (λ z only own. rw (only own) (refl, refl, left)) start.submissions
          (found_only i start.submissions x distinct found))
        reach)
      found_y (find-passes (at_id i) db.submissions y found_y)
