-- ===== src/Submissions/Ownership.antt =====
-- A maker does not change the submission of another.
use onboarding_and_verificat.Prelude.{
  ℕ, ◌≡◌, refl, ◌∙◌, sym, subst, inl, inr, Bool, true, false, some, List, [], ◌∷◌, arith, All, find,
  find-All, find-update_other, find-append, find-keep_other, find-passes, is_iff, ◌is◌, Bool-cases,
}
use onboarding_and_verificat.Model.Submission.{Submission}
use onboarding_and_verificat.Model.Db.{Db}
use onboarding_and_verificat.Answers.{Platform}
use onboarding_and_verificat.Submissions.Access.{Context, may_access}
use onboarding_and_verificat.Submissions.Transitions.{moved, moved_keeps}
use onboarding_and_verificat.Submissions.Service.{at_id, history_row, updated, without}
use onboarding_and_verificat.Submissions.Submitting.{marked_db, history-marked}
use onboarding_and_verificat.Submissions.Requests.{
  Request, after, IsFresh, kept, created, edited, removed, stepped, commented, after-Change,
}
use onboarding_and_verificat.Submissions.Audit.{history_of, history_of-other, history_of-without}

find-marked_other :
    (i : ℕ) (validate : Bool) (z : Submission) (db : Db)
    → (i is z.id) ≡ false
    → find (at_id i) (marked_db validate z db).submissions ≡ find (at_id i) db.submissions
find-marked_other i false z db ne = refl
find-marked_other i true z db ne =
    find-update_other (λ s. s.id) i z.id _ db.submissions ne (λ y. refl)

-- The row that a request works on is another one, if the caller may not access this one.
other_row :
    (ctx : Context) (i j : ℕ) (x z : Submission) (ss : List Submission)
    → find (at_id i) ss ≡ some x
    → may_access ctx x ≡ false
    → find (at_id j) ss ≡ some z
    → may_access ctx z ≡ true
    → ((i is j) ≡ false) × ((i is z.id) ≡ false)
other_row ctx i j x z ss found barred found_z own = elim (Bool-cases (i is j)) [
  | inl e ↦
      let found_z' = subst (λ k. find (at_id k) ss ≡ some z) (sym ((is_iff i j).0 e)) found_z in cc
  | inr e ↦ (e, ground (arith, find-passes (at_id j) ss z found_z))
]

new_id :
    (i j : ℕ) (db : Db) (x : Submission)
    → All (λ s. (s.id is j) ≡ false) db.submissions
    → find (at_id i) db.submissions ≡ some x
    → (j is i) ≡ false
new_id i j db x new found =
    let differs = find-All _ (at_id i) db.submissions x new found in
    ground (arith, find-passes (at_id i) db.submissions x found)

-- The submission `i` and its history are as they were.
abbrev pub IsUntouched : ℕ → Submission → Db → Db → Type 0
IsUntouched i x db db' =
    (find (at_id i) db'.submissions ≡ some x)
    × (history_of i db'.status_history ≡ history_of i db.status_history)

-- A request to create, update, delete, transition, submit or comment a submission, by a user who may
-- not access the submission `i` (a maker without a higher role who did not make it), changes neither
-- `i` nor its history, if the id of a submission that the request creates is new. The requests of the
-- verification, which test no ownership, are not among these.
pub others-IsUntouched :
    (p : Platform) (ctx : Context) (r : Request) (db : Db) (i : ℕ) (x : Submission)
    → IsFresh r db
    → find (at_id i) db.submissions ≡ some x
    → may_access ctx x ≡ false
    → IsUntouched i x db (after p ctx r db)
unfolding without updated history_row
others-IsUntouched p ctx r db i x new found barred = elim (after-Change p ctx r db new) [
  | kept e ↦ rw e (found, refl)
  | created hid s request same fresh is_draft maker e ↦ rw e (
    find-append (λ s. s.id) i db.submissions (s ∷ []) x found,
    history_of-other i _ db.status_history (new_id i s.id db x fresh.0 found),
  )
  | edited j z u found_z own is_draft e ↦
      let ne = other_row ctx i j x z db.submissions found barred found_z own in
      rw e (
        find-update_other (λ s. s.id) i j (updated u) db.submissions ne.0 (λ y. refl) ∙ found,
        refl,
      )
  | removed j z found_z own gone e ↦
      let ne = other_row ctx i j x z db.submissions found barred found_z own in
      rw e (
        find-keep_other (λ s. s.id) i j db.submissions ne.0 ∙ found,
        history_of-without j i db.status_history ne.0,
      )
  | stepped hid j z request validate found_z own eyes can e ↦
      let ne = other_row ctx i j x z db.submissions found barred found_z own in
      rw e (
        find-update_other (λ s. s.id) i j (moved ctx request) (marked_db validate z db).submissions
              ne.0 (λ y. (moved_keeps ctx request y).0)
            ∙ find-marked_other i validate z db ne.1
            ∙ found,
        rw (history-marked validate z db) (history_of-other i _ db.status_history (ground arith)),
      )
  | commented cs e ↦ rw e (found, refl)
]
