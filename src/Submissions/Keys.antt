-- ===== src/Submissions/Keys.antt =====
-- The ids of the submissions stay distinct.
use onboarding_and_verificat.Prelude.{
  ℕ, ◌≡◌, refl, inl, inr, Bool, true, false, not, some, List, [], ◌∷◌, ◌++◌, arith, All, All-append,
  All-map, All-update, All-kept, find, keep, update, is_iff, Bool-cases,
}
use onboarding_and_verificat.Model.Submission.{Submission}
use onboarding_and_verificat.Model.Db.{Db}
use onboarding_and_verificat.Answers.{Platform}
use onboarding_and_verificat.Submissions.Access.{Context}
use onboarding_and_verificat.Submissions.Transitions.{moved, moved_keeps}
use onboarding_and_verificat.Submissions.Service.{at_id, updated, without}
use onboarding_and_verificat.Submissions.Submitting.{marked_db}
use onboarding_and_verificat.Submissions.Requests.{
  Request, after, IsFresh, kept, created, edited, removed, stepped, commented, after-Change,
}

abbrev pub AreDistinct : List Submission → Type 0
AreDistinct [] = Unit
AreDistinct (s ∷ ss) = All (λ y. at_id s.id y ≡ false) ss × AreDistinct ss

-- An update that keeps every id.
module _ (p : Submission → Bool) (f : Submission → Submission)
    (same : (y : Submission) → (f y).id ≡ y.id) where
  All-at_id-update :
      (i : ℕ) (ss : List Submission)
      → All (λ y. at_id i y ≡ false) ss
      → All (λ y. at_id i y ≡ false) (update p f ss)
  All-at_id-update i ss h =
      All-update (λ y. at_id i y ≡ false) (λ y. at_id i y ≡ false) p f ss (λ y _ e. rw (same y) e)
        (λ y _ e. e) h

  AreDistinct-update : (ss : List Submission) → AreDistinct ss → AreDistinct (update p f ss)
  AreDistinct-update [] h = tt
  AreDistinct-update (s ∷ ss) h = elim (Bool-cases (p s)) [
    | inl e ↦ rw e (rw (same s) (All-at_id-update s.id ss h.0), AreDistinct-update ss h.1)
    | inr e ↦ rw e (All-at_id-update s.id ss h.0, AreDistinct-update ss h.1)
  ]

AreDistinct-keep :
    (p : Submission → Bool) (ss : List Submission) → AreDistinct ss → AreDistinct (keep p ss)
AreDistinct-keep p [] h = tt
AreDistinct-keep p (s ∷ ss) h = elim (Bool-cases (p s)) [
  | inl e ↦ rw e (
    All-kept (λ y. at_id s.id y ≡ false) (λ y. at_id s.id y ≡ false) p ss (λ y _ d. d) h.0,
    AreDistinct-keep p ss h.1,
  )
  | inr e ↦ rw e (AreDistinct-keep p ss h.1)
]

AreDistinct-append :
    (ss : List Submission) (s : Submission)
    → AreDistinct ss
    → All (λ y. at_id s.id y ≡ false) ss
    → AreDistinct (ss ++ s ∷ [])
AreDistinct-append [] s h new = (tt, tt)
AreDistinct-append (t ∷ ss) s h new = (
  All-append (λ y. at_id t.id y ≡ false) ss (s ∷ []) h.0 (ground (arith, new.0), tt),
  AreDistinct-append ss s h.1 new.1,
)

AreDistinct-marked :
    (validate : Bool) (x : Submission) (db : Db)
    → AreDistinct db.submissions
    → AreDistinct (marked_db validate x db).submissions
AreDistinct-marked false x db h = h
AreDistinct-marked true x db h = AreDistinct-update (at_id x.id) _ (λ y. refl) db.submissions h

pub after-AreDistinct :
    (p : Platform) (ctx : Context) (r : Request) (db : Db)
    → IsFresh r db
    → AreDistinct db.submissions
    → AreDistinct (after p ctx r db).submissions
unfolding without updated
after-AreDistinct p ctx r db new h = elim (after-Change p ctx r db new) [
  | kept e ↦ rw e h
  | created hid s request same fresh is_draft maker e ↦
      rw e (AreDistinct-append db.submissions s h fresh.0)
  | edited i x u found own is_draft e ↦
      rw e (AreDistinct-update (at_id i) (updated u) (λ y. refl) db.submissions h)
  | removed i x found own gone e ↦ rw e (AreDistinct-keep (λ s. not (at_id i s)) db.submissions h)
  | stepped hid i x request validate found own eyes can e ↦ rw e (
      AreDistinct-update (at_id i) (moved ctx request) (λ y. (moved_keeps ctx request y).0)
        (marked_db validate x db).submissions (AreDistinct-marked validate x db h))
  | commented cs e ↦ rw e h
]

-- Where ids are distinct, the row that is found is the only one with its id.
pub found_only :
    (i : ℕ) (ss : List Submission) (x : Submission)
    → AreDistinct ss
    → find (at_id i) ss ≡ some x
    → All (λ y. at_id i y ≡ true → y ≡ x) ss
found_only i [] x h found = tt
found_only i (s ∷ ss) x h found = elim (Bool-cases (at_id i s)) [
  | inl e ↦
      let first : s ≡ x = ground arith in
      let to_i = (is_iff s.id i).0 e in
      (
        λ _. first,
        All-map (λ y. at_id s.id y ≡ false) (λ y. at_id i y ≡ true → y ≡ x)
            (λ y d own. ground arith) ss h.0,
      )
  | inr e ↦ (λ own. cc, found_only i ss x h.1 (rw e at found))
]
