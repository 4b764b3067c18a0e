-- ===== src/Verifications/Untouched.antt =====
-- What a request of a verification leaves as it was.
use onboarding_and_verificat.Prelude.{
  ℕ, ◌≡◌, refl, ap, ◌∙◌, some, inl, inr, Bool-cases, List, find, find-update, find-update_other,
  ◌is◌, is_iff, subst,
}
use onboarding_and_verificat.Model.Submission.{Submission}
use onboarding_and_verificat.Model.Verification.{VerificationStepRun, VerificationRun}
use onboarding_and_verificat.Model.Db.{Db}
use onboarding_and_verificat.Session.Keeps.{Done, Keeps-serve}
use onboarding_and_verificat.Submissions.Service.{at_id, write}
use onboarding_and_verificat.Verifications.Values.{Python}
use onboarding_and_verificat.Verifications.Decision.{Decision}
use onboarding_and_verificat.Verifications.Advance.{FlowContext, decided_submission}
use onboarding_and_verificat.Verifications.Requests.{
  Reach, here, next, Request, start, act_on, advance, apply, handle, after,
}
use onboarding_and_verificat.Verifications.Service.{
  start_verification, submit_step_action, advance_verification_run, apply_verification_action,
}
use onboarding_and_verificat.Verifications.Aside.{
  start_verification-Keeps, submit_step_action-Keeps, advance_verification_run-Keeps,
  apply_verification_action-Keeps,
}

-- Two rows of a submission differ in the computed data and the results of the validation at most.
abbrev pub SameForm : Submission → Submission → Type 0
SameForm x y =
    y ≡ record x { computed_data = y.computed_data; validation_results = y.validation_results }

-- The submission `i`, which was `x`, differs in those at most, and no table but those of the runs and
-- the submissions differs.
abbrev pub IsAside : ℕ → Submission → Db → Db → Type 0
IsAside i x db db' =
    (db' ≡ record db { verification_runs = db'.verification_runs; submissions = db'.submissions })
    × ((y : Submission) × (find (at_id i) db'.submissions ≡ some y) × SameForm x y)

module _ (py : Python) (now i : ℕ) (x : Submission) (db : Db) where
  runs-IsAside :
      (rs : List VerificationRun) (db' : Db)
      → IsAside i x db db'
      → IsAside i x db (record db' { verification_runs = rs })
  runs-IsAside rs db' (same, row) = (ap (λ (t : Db). record t { verification_runs = rs }) same, row)

  decision-IsAside :
      (ctx : FlowContext) (r : ℕ) (d : Decision) (steps : List VerificationStepRun) (db' : Db)
      → IsAside i x db db'
      → IsAside i x db (write ctx.submission.id (decided_submission py now ctx r d steps) db')
  decision-IsAside ctx r d steps db' (same, (y, found, form)) =
      let decide = decided_submission py now ctx r d steps in
      let written = (write ctx.submission.id decide db').submissions in
      let tables = ap (λ (t : Db). record t { submissions = written }) same in
      elim (Bool-cases (i is ctx.submission.id)) [
        | inl same_id ↦
            let at_i = (is_iff i ctx.submission.id).0 same_id in
            (
              tables,
              (
                decide y,
                subst (λ j. find (at_id i) (write j decide db').submissions ≡ some (decide y)) at_i
                    (find-update (at_id i) decide db'.submissions y (λ z. refl) found),
                ap decide form,
              ),
            )
        | inr elsewhere ↦ (
          tables,
          (
            y,
            find-update_other (λ s. s.id) i ctx.submission.id decide db'.submissions elsewhere
                  (λ z. refl)
                ∙ found,
            form,
          ),
        )
      ]

  after-IsAside :
      (r : Request) (db' : Db) → IsAside i x db db' → IsAside i x db (after py now r db')
  unfolding after handle
  after-IsAside (start dispatch ids j sid request) db' h =
      Keeps-serve (IsAside i x db) Done (start_verification py now dispatch ids j sid request) db'
        (start_verification-Keeps py now (IsAside i x db) runs-IsAside decision-IsAside dispatch ids
          j sid request)
        h
  after-IsAside (act_on dispatch sid key payload) db' h =
      Keeps-serve (IsAside i x db) Done (submit_step_action py now dispatch sid key payload) db'
        (submit_step_action-Keeps py now (IsAside i x db) runs-IsAside decision-IsAside dispatch sid
          key payload)
        h
  after-IsAside (advance j) db' h =
      Keeps-serve (IsAside i x db) Done (advance_verification_run py now j) db'
        (advance_verification_run-Keeps py now (IsAside i x db) runs-IsAside decision-IsAside j) h
  after-IsAside (apply j key payload) db' h =
      Keeps-serve (IsAside i x db) Done (apply_verification_action py now j key payload) db'
        (apply_verification_action-Keeps py now (IsAside i x db) runs-IsAside decision-IsAside j key
          payload)
        h

-- Whatever requests of verifications and calls of their workflows follow one another, whoever makes
-- them: of a submission they change the computed data and the results of the validation at most, so
-- that its status, form, maker and review stay as they were, and of the other tables that of the runs at
-- most, so that every history stays as it was.
pub Reach-IsAside :
    (py : Python) (first db : Db) (i : ℕ) (x : Submission)
    → find (at_id i) first.submissions ≡ some x
    → Reach py first db
    → IsAside i x first db
Reach-IsAside py first _ i x found here = (refl, (x, found, refl))
Reach-IsAside py first _ i x found (next {db} now r before) =
    after-IsAside py now i x first r db (Reach-IsAside py first db i x found before)
