-- ===== src/Verifications/Created.antt =====
-- The steps of a new run are within their attempts.
use onboarding_and_verificat.Prelude.{
  ℕ, zero, suc, ◌<◌, String, Option, none, some, List, [], ◌∷◌, inl, inr, Bool-cases, arith, find,
  strip, ◌==◌,
}
use onboarding_and_verificat.Prelude.Int.{ℤ, pos, negsuc}
use onboarding_and_verificat.Prelude.Json.{Json, Fields, dict, str, get, lookup}
use onboarding_and_verificat.Model.Verification.{VerificationStepRun}
use onboarding_and_verificat.Model.Db.{Db}
use onboarding_and_verificat.Session.{Error, Action, pure, gets, guard, modify, commit, ◌>>=◌, ◌>>◌}
use onboarding_and_verificat.Session.Keeps.{
  Done, Keeps, Keeps-pure, Keeps-raise, Keeps-gets, Keeps-guard, Keeps-bind,
}
use onboarding_and_verificat.Verifications.Values.{Python, or_else, str_of, texts_under}
use onboarding_and_verificat.Verifications.Actions.{max_attempts}
use onboarding_and_verificat.Verifications.Advance.{at_run, write_run, with_steps, steps_of}
use onboarding_and_verificat.Verifications.Flow.{
  Row, no_row, no_key, broken, row, shown_name, row_of, step_row, rows_on, step_rows, listed_steps,
  keys_distinct, create_steps, unless_any, initialize_steps,
}
use onboarding_and_verificat.Verifications.Attempts.{allowed, IsWithin}
use onboarding_and_verificat.Verifications.Bounded.{StepsWithin, AllWithin, commit_run-Keeps}

pub zero-allowed : (limit : Option ℤ) → 0 < allowed limit
zero-allowed none = omega arith
zero-allowed (some (pos zero)) = omega arith
zero-allowed (some (pos (suc n))) = omega arith
zero-allowed (some (negsuc n)) = omega arith

module _ (py : Python) where
  abbrev RowWithin : Row → Type 0
  RowWithin (row s) = IsWithin py s
  RowWithin _ = Unit

  row_of-Within :
      (id sid : ℕ) (config : Fields) (key : String) (name : Option String)
      (deps : Option (List String))
      → RowWithin (row_of py id sid config key name deps)
  row_of-Within id sid config key (some name) (some deps) =
      let lt = zero-allowed (max_attempts py config) in (omega (arith, lt), λ e. lt)
  row_of-Within id sid config key (some name) none = tt
  row_of-Within id sid config key none deps = tt

  step_row-Within : (id sid : ℕ) (j : Json) → RowWithin (step_row py id sid j)
  unfolding step_row
  step_row-Within id sid (dict config) =
      let key = strip (str_of py (or_else py (get config "key") (str ""))) in
      elim (Bool-cases (key == "")) [
        | inl blank ↦ rw blank tt
        | inr filled_key ↦ rw filled_key (
            row_of-Within id sid config key (shown_name (or_else py (get config "name") (str key)))
              (texts_under (lookup "depends_on" config)))
      ]
  step_row-Within id sid _ = tt

  rows_on-Keeps :
      (skip next : Action (List VerificationStepRun)) (v : Row)
      → RowWithin v
      → Keeps (AllWithin py) (StepsWithin py) skip
      → Keeps (AllWithin py) (StepsWithin py) next
      → Keeps (AllWithin py) (StepsWithin py) (rows_on skip next v)
  rows_on-Keeps skip next no_row within hs hn = hs
  rows_on-Keeps skip next no_key within hs hn =
      Keeps-raise (AllWithin py) (StepsWithin py) Error.verification_flow_invalid
  rows_on-Keeps skip next broken within hs hn =
      Keeps-raise (AllWithin py) (StepsWithin py) Error.unhandled
  rows_on-Keeps skip next (row s) within hs hn =
      Keeps-bind (AllWithin py) (StepsWithin py) (StepsWithin py) next (λ rest. pure (s ∷ rest)) hn
        (λ rest h. Keeps-pure (AllWithin py) (StepsWithin py) (s ∷ rest) (within, h))

  step_rows-Keeps :
      (ids : ℕ → ℕ) (n sid : ℕ) (js : List Json)
      → Keeps (AllWithin py) (StepsWithin py) (step_rows py ids n sid js)
  unfolding step_rows
  step_rows-Keeps ids n sid [] = Keeps-pure (AllWithin py) (StepsWithin py) [] tt
  step_rows-Keeps ids n sid (j ∷ js) =
      rows_on-Keeps (step_rows py ids n sid js) (step_rows py ids (suc n) sid js)
        (step_row py (ids n) sid j) (step_row-Within (ids n) sid j) (step_rows-Keeps ids n sid js)
        (step_rows-Keeps ids (suc n) sid js)

  create_steps-Keeps :
      (ids : ℕ → ℕ) (i sid : ℕ) (flow : Fields)
      → Keeps (AllWithin py) Done (create_steps py ids i sid flow)
  unfolding create_steps
  create_steps-Keeps ids i sid flow =
      Keeps-bind (AllWithin py) Done (StepsWithin py)
        (step_rows py ids 0 sid (listed_steps py (get flow "steps")))
        (λ steps. guard (keys_distinct steps) Error.unhandled >>= λ _.
          modify (write_run i (with_steps steps)) >> commit)
        (step_rows-Keeps ids 0 sid (listed_steps py (get flow "steps")))
        (λ steps within.
          Keeps-bind (AllWithin py) Done Done (guard (keys_distinct steps) Error.unhandled)
            (λ _. modify (write_run i (with_steps steps)) >> commit)
            (Keeps-guard (AllWithin py) (keys_distinct steps) Error.unhandled)
            (λ _ _. commit_run-Keeps py i (with_steps steps) (λ r _. within)))

  unless_any-Keeps :
      (steps : List VerificationStepRun) (m : Action (Unit {0}))
      → Keeps (AllWithin py) Done m
      → Keeps (AllWithin py) Done (unless_any steps m)
  unless_any-Keeps [] m h = h
  unless_any-Keeps (s ∷ steps) m h = Keeps-pure (AllWithin py) Done tt tt

  pub initialize_steps-Keeps :
      (ids : ℕ → ℕ) (i sid : ℕ) (flow : Fields)
      → Keeps (AllWithin py) Done (initialize_steps py ids i sid flow)
  unfolding initialize_steps
  initialize_steps-Keeps ids i sid flow =
      let existing = λ (db : Db). steps_of (find (at_run i) db.verification_runs) in
      Keeps-bind (AllWithin py) Done (λ _. Unit {0}) (gets existing)
        (λ steps. unless_any steps (create_steps py ids i sid flow))
        (Keeps-gets (AllWithin py) (λ _. Unit {0}) existing (λ db h. tt))
        (λ steps _.
          unless_any-Keeps steps (create_steps py ids i sid flow)
            (create_steps-Keeps ids i sid flow))
