-- ===== src/Verifications/Requests.antt =====
-- The requests that write a run, with those of its Temporal workflow, and any sequence of them.
use onboarding_and_verificat.Prelude.{ℕ, String}
use onboarding_and_verificat.Prelude.Json.{Fields}
use onboarding_and_verificat.Model.Db.{Db}
use onboarding_and_verificat.Session.{Action, serve}
use onboarding_and_verificat.Session.Keeps.{Done, Keeps-serve}
use onboarding_and_verificat.Verifications.Values.{Python}
use onboarding_and_verificat.Verifications.Service.{
  VerificationStartRequest, Dispatch, start_verification, submit_step_action,
  advance_verification_run, apply_verification_action,
}
use onboarding_and_verificat.Verifications.Bounded.{AllWithin}
use onboarding_and_verificat.Verifications.Kept.{
  start_verification-Keeps, submit_step_action-Keeps, advance_verification_run-Keeps,
  apply_verification_action-Keeps,
}

-- A request, with the ids that its new rows get.
pub data Request : Type 0 where
  start : Dispatch → (ℕ → ℕ) → ℕ → ℕ → VerificationStartRequest → Request
  act_on : Dispatch → ℕ → String → Fields → Request
  advance : ℕ → Request
  apply : ℕ → String → Fields → Request

unfoldable pub handle : Python → ℕ → Request → Action (Unit {0})
handle py now (start dispatch ids i sid request) =
    start_verification py now dispatch ids i sid request
handle py now (act_on dispatch sid key payload) = submit_step_action py now dispatch sid key payload
handle py now (advance i) = advance_verification_run py now i
handle py now (apply i key payload) = apply_verification_action py now i key payload

-- What is committed after a request.
unfoldable pub after : Python → ℕ → Request → Db → Db
after py now r db = (serve (handle py now r) db).1

-- Sequences of requests.
pub data Reach (py : Python) (first : Db) : Db → Type 0 where
  here : Reach py first first
  next : {db : Db} (now : ℕ) (r : Request) → Reach py first db → Reach py first (after py now r db)

module _ (py : Python) where
  after-AllWithin :
      (now : ℕ) (r : Request) (db : Db) → AllWithin py db → AllWithin py (after py now r db)
  unfolding after handle
  after-AllWithin now (start dispatch ids i sid request) db h =
      Keeps-serve (AllWithin py) Done (start_verification py now dispatch ids i sid request) db
        (start_verification-Keeps py now dispatch ids i sid request) h
  after-AllWithin now (act_on dispatch sid key payload) db h =
      Keeps-serve (AllWithin py) Done (submit_step_action py now dispatch sid key payload) db
        (submit_step_action-Keeps py now dispatch sid key payload) h
  after-AllWithin now (advance i) db h =
      Keeps-serve (AllWithin py) Done (advance_verification_run py now i) db
        (advance_verification_run-Keeps py now i) h
  after-AllWithin now (apply i key payload) db h =
      Keeps-serve (AllWithin py) Done (apply_verification_action py now i key payload) db
        (apply_verification_action-Keeps py now i key payload) h

  -- From a database where this holds: whatever requests and workflow calls follow one another, no step
  -- counts more attempts than its configuration allows (at least one), and a step that is not done
  -- counts fewer.
  pub Reach-AllWithin : (first db : Db) → AllWithin py first → Reach py first db → AllWithin py db
  Reach-AllWithin first db h here = h
  Reach-AllWithin first db h (next {db = db'} now r before) =
      after-AllWithin now r db' (Reach-AllWithin first db' h before)
