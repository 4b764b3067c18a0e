-- ===== src/Verifications/Steps.antt =====
-- What the engine does with one step: a challenge is sent to the user, a comparison is computed.
use Prim.Native.String.{◌++◌ as concat}
use onboarding_and_verificat.Prelude.{
  ℕ, String, Bool, true, false, ◌&&◌, ◌||◌, if◌then◌else◌, Option, none, some, List, [], ◌∷◌, ◌++◌,
  ◌==◌, map, length, strip,
}
use onboarding_and_verificat.Prelude.Json.{
  Json, Fields, bool, str, float, list, dict, nil, cons, end, field, get, lookup, of_list,
  dict_or_empty, items,
}
use onboarding_and_verificat.Model.Submission.{Submission}
use onboarding_and_verificat.Model.Verification.{
  StepStatus, pending, waiting_user_action, completed, failed, skipped, expired, StepOutcome, pass,
  fail, review, VerificationStepRun,
}
use onboarding_and_verificat.Verifications.Values.{
  Python, or_else, str_of, by_key, resolve_ref, resolve_input_map, string_similarity,
}

-- STEP_TERMINAL_STATUSES
abbrev pub is_terminal : StepStatus → Bool
is_terminal pending = false
is_terminal waiting_user_action = false
is_terminal completed = true
is_terminal failed = true
is_terminal skipped = true
is_terminal expired = true

abbrev pub is_waiting : StepStatus → Bool
is_waiting waiting_user_action = true
is_waiting _ = false

-- The loop passes over a step that is done or waits for the user.
abbrev pub is_idle : VerificationStepRun → Bool
is_idle s = is_terminal s.status || is_waiting s.status

-- One dependency: the step of that key is there and done.
abbrev pub dep_done : Option VerificationStepRun → Bool
dep_done none = false
dep_done (some t) = is_terminal t.status

abbrev pub all_done : List VerificationStepRun → List String → Bool
all_done steps [] = true
all_done steps (dep ∷ deps) = dep_done (by_key steps dep) && all_done steps deps

-- _deps_satisfied
abbrev pub deps_satisfied : VerificationStepRun → List VerificationStepRun → Bool
deps_satisfied s steps = all_done steps s.depends_on

abbrev pub note : String → String → Fields
note code message = field "code" (str code) (field "message" (str message) end)

abbrev pub fail_step : Fields → VerificationStepRun → VerificationStepRun
fail_step details s = record s { status = failed; outcome = some fail; error_details = details }

abbrev pub first_start : Option ℕ → ℕ → Option ℕ
first_start none now = some now
first_start (some t) now = some t

-- The text, unless it is blank or no text.
abbrev pub filled : Json → Option String
filled (str s) = if strip s == "" then none else some s
filled _ = none

abbrev otp_field : Json
otp_field = list (
    cons
      (dict (
        field "name" (str "otp_code")
          (field "type" (str "string") (field "required" (bool true) end))))
      nil)

abbrev await_code : String → Fields → Fields → VerificationStepRun → VerificationStepRun
await_code correlation delivery output s = record s {
  status = waiting_user_action;
  waiting_for = some "otp_code";
  correlation_id = some (concat correlation s.step_key);
  action_schema =
      field "action" (str "submit_code")
        (field "fields" otp_field (field "delivery" (dict delivery) end));
  output_snapshot = output;
  result_snapshot = field "phase" (str "challenge_sent") end;
}

-- _demo_registry
unfoldable pub demo_registry : Fields → Fields → Fields
demo_registry flow cfg = elim (get flow "demo_registry") [
  | dict registry ↦ registry
  | _ ↦ dict_or_empty (get cfg "demo_registry")
]

abbrev pub outcome_text : StepOutcome → String
outcome_text pass = "pass"
outcome_text fail = "fail"
outcome_text review = "review"
outcome_text StepOutcome.pending = "pending"

-- cfg.get(key, default), of a float
abbrev default_to : Option Json → String → Json
default_to none repr = float repr
default_to (some j) repr = j

module _ (py : Python) where
  -- str(cfg.get("demo_code") or default)
  abbrev pub demo_code : Fields → String → String
  demo_code cfg default = str_of py (or_else py (get cfg "demo_code") (str default))

  abbrev pub phone_challenge : Option String → VerificationStepRun → VerificationStepRun
  phone_challenge none s =
      fail_step (note "missing_phone_number" "Phone number is required for demo_phone_otp.") s
  phone_challenge (some phone) s =
      await_code (concat "phone-otp:" (concat (py.uuid s.submission_id) ":"))
        (field "channel" (str "sms") (
          field "target" (str phone)
            (field "demo_code" (str (demo_code s.config_snapshot "111111")) end)))
        (field "channel" (str "sms") (field "target" (str phone) end)) s

  -- str(profile.get("otp_code") or cfg.get("demo_code") or "222222")
  abbrev pub fayda_code : Fields → Fields → String
  fayda_code profile cfg =
      str_of py
        (or_else py (get profile "otp_code") (or_else py (get cfg "demo_code") (str "222222")))

  abbrev registered_phone : Fields → String
  registered_phone profile = str_of py (or_else py (get profile "registered_phone") (str ""))

  abbrev pub fayda_profile : String → Json → VerificationStepRun → VerificationStepRun
  fayda_profile national_id (dict profile) s =
      await_code (concat "fayda-otp:" (concat (py.uuid s.submission_id) ":"))
        (field "channel" (str "fayda_registered_phone") (
          field "target" (str (registered_phone profile)) (
            field "demo_code" (str (fayda_code profile s.config_snapshot))
              (field "national_id" (str national_id) end))))
        (field "registered_phone" (str (registered_phone profile))
          (field "national_id" (str national_id) end))
        s
  fayda_profile national_id _ s =
      fail_step
        (note "fayda_profile_not_found" "No Fayda demo profile found for the given national ID.") s

  abbrev pub fayda_challenge : Fields → Option String → VerificationStepRun → VerificationStepRun
  fayda_challenge flow none s =
      fail_step (note "missing_national_id" "National ID is required for demo_fayda_otp.") s
  fayda_challenge flow (some national_id) s =
      fayda_profile national_id (get (demo_registry flow s.config_snapshot) national_id) s

  -- _start_challenge_step
  unfoldable pub start_challenge_step :
      ℕ → Fields → Submission → List VerificationStepRun → VerificationStepRun → VerificationStepRun
  start_challenge_step now flow x steps s =
      let input = resolve_input_map py x steps (get s.config_snapshot "input") in
      let begun = record s { input_snapshot = input; started_at = first_start s.started_at now } in
      if s.adapter_key == "demo_phone_otp"
      then phone_challenge (filled (get input "phone_number")) begun
      else if s.adapter_key == "demo_fayda_otp"
      then fayda_challenge flow (filled (get input "national_id")) begun
      else fail_step
          (note "unsupported_adapter"
            (concat "Unsupported challenge adapter '" (concat s.adapter_key "'.")))
          begun

  pub record Comparison : Type 0 where
    pub label : Json
    pub left : Json
    pub right : Json
    pub score : String

  -- pair.get("label") or f"{pair.get('left')} vs {pair.get('right')}"
  abbrev label_of : Fields → Json
  label_of pair =
      or_else py (get pair "label")
        (str (concat (str_of py (get pair "left")) (concat " vs " (str_of py (get pair "right")))))

  abbrev compared : Submission → List VerificationStepRun → Fields → Comparison
  compared x steps pair =
      let left = resolve_ref py x steps (get pair "left") in
      let right = resolve_ref py x steps (get pair "right") in
      record {
        label = label_of pair;
        left = left;
        right = right;
        score = string_similarity py left right;
      }

  abbrev only_dict : Submission → List VerificationStepRun → Json → List Comparison
  only_dict x steps (dict pair) = compared x steps pair ∷ []
  only_dict x steps _ = []

  -- The loop over the pairs; what is no dict is passed over.
  unfoldable pub comparisons : Submission → List VerificationStepRun → List Json → List Comparison
  comparisons x steps [] = []
  comparisons x steps (pair ∷ pairs) = only_dict x steps pair ++ comparisons x steps pairs

  unfoldable pub total_score : String → List Comparison → String
  total_score total [] = total
  total_score total (c ∷ cs) = total_score (py.add total c.score) cs

  -- The outcome of a mean score; `none` where a threshold is no number.
  unfoldable pub judged : Fields → String → Option StepOutcome
  judged cfg score = elim (py.to_float (default_to (lookup "pass_score_gte" cfg) "0.9")) [
    | none ↦ none
    | some pass_score ↦ elim (py.to_float (default_to (lookup "review_score_gte" cfg) "0.75")) [
      | none ↦ none
      | some review_score ↦ some (
          if py.ge score pass_score
          then pass
          else if py.ge score review_score
          then review
          else fail)
    ]
  ]

  abbrev comparison_json : Comparison → Json
  comparison_json c = dict (
      field "label" c.label
        (field "left" c.left (field "right" c.right (field "score" (float c.score) end))))

  abbrev pub compared_step :
      ℕ → List Comparison → String → StepOutcome → VerificationStepRun → VerificationStepRun
  compared_step now cs score outcome s =
      let shown = list (of_list (map comparison_json cs)) in
      record s {
        started_at = first_start s.started_at now;
        completed_at = some now;
        status = completed;
        outcome = some outcome;
        input_snapshot = field "pairs" shown end;
        output_snapshot = field "score" (float score) (field "comparisons" shown end);
        result_snapshot =
            field "outcome" (str (outcome_text outcome))
              (field "score" (float score) (field "comparisons" shown end));
        action_schema = end;
        error_details = end;
      }

  abbrev pub finish_comparison :
      ℕ → List Comparison → VerificationStepRun → Option VerificationStepRun
  finish_comparison now [] s =
      some
        (fail_step (note "comparison_pairs_invalid" "No valid comparison pairs were produced.") s)
  finish_comparison now (c ∷ cs) s =
      let score = py.mean (total_score "0.0" (c ∷ cs)) (length (c ∷ cs)) in
      elim (judged s.config_snapshot score) [
        | none ↦ none
        | some outcome ↦ some (compared_step now (c ∷ cs) score outcome s)
      ]

  abbrev pub compare_pairs :
      ℕ
      → Submission
      → List VerificationStepRun
      → Json
      → VerificationStepRun
      → Option VerificationStepRun
  compare_pairs now x steps (list (cons j js)) s =
      finish_comparison now (comparisons x steps (j ∷ items js)) s
  compare_pairs now x steps _ s = some (
      fail_step (note "comparison_pairs_missing" "Comparison steps require a non-empty pairs list.")
        s)

  -- _run_comparison_step; `none` where it raises
  unfoldable pub run_comparison_step :
      ℕ → Submission → List VerificationStepRun → VerificationStepRun → Option VerificationStepRun
  run_comparison_step now x steps s = compare_pairs now x steps (get s.config_snapshot "pairs") s

  -- The branches of the loop of `_advance_run` on the type of a step.
  unfoldable pub run_step :
      ℕ
      → Fields
      → Submission
      → List VerificationStepRun
      → VerificationStepRun
      → Option VerificationStepRun
  run_step now flow x steps s =
      if s.step_type == "challenge_response"
      then some (start_challenge_step now flow x steps s)
      else if s.step_type == "comparison"
      then run_comparison_step now x steps s
      else some (
          fail_step
            (note "unsupported_step_type"
              (concat "Unsupported step type '" (concat s.step_type "'.")))
            s)
