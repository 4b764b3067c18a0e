-- ===== src/Verifications/Tests.antt =====
-- Runs of flows from their start to their decision, and the theorems on a run.
use onboarding_and_verificat.Prelude.{
  ℕ, String, ◌≡◌, refl, ◌==◌, if◌then◌else◌, none, some, [], ◌∷◌, arith, strip, split, join,
  after_prefix, prefix, chars,
}
use onboarding_and_verificat.Prelude.Int.{str_ℤ}
use onboarding_and_verificat.Prelude.Json.{Fields, str, list, dict, nil, cons, end, field}
use onboarding_and_verificat.Model.Verification.{
  StepStatus, RunStatus, VerificationStepRun, VerificationRun,
}
use onboarding_and_verificat.Model.Db.{Db}
use onboarding_and_verificat.Session.{serve}
use onboarding_and_verificat.Answers.Samples.{version}
use onboarding_and_verificat.Verifications.Values.{
  texts_under, string_similarity, str_of, truthy, resolve_input_map, resolve_ref, resolve_text,
  by_key, lookup_mapping, walk,
}
use onboarding_and_verificat.Verifications.Advance.{
  FlowContext, advance_run, rounds, sweep, visit, finalize_run, decide_run,
}
use onboarding_and_verificat.Verifications.Service.{
  new_run, start_verification, submit_step_action, open_run, get_latest_run, waiting_step,
}
use onboarding_and_verificat.Verifications.Outcome.{Ends, advance_run-Ends}
use onboarding_and_verificat.Verifications.Unstuck.{Moves, advance_run-Moves}
use onboarding_and_verificat.Verifications.Bounded.{AllWithin}
use onboarding_and_verificat.Verifications.Requests.{
  after, Reach, here, next, Reach-AllWithin, handle,
}
use onboarding_and_verificat.Verifications.Flow.{
  new_step, load_flow_context, flow_from, initialize_steps, create_steps, step_rows, step_row,
  keys_distinct,
}
use onboarding_and_verificat.Verifications.Actions.{apply_user_action, mark_retry_or_fail}
use onboarding_and_verificat.Verifications.Steps.{
  demo_registry, run_step, start_challenge_step, run_comparison_step, comparisons, total_score,
  judged, filled,
}
use onboarding_and_verificat.Verifications.Decision.{
  build_facts, evaluate_demo_decision, first_match, rule_matches, condition_matches, decided,
}
use onboarding_and_verificat.Templates.Config.{merged_rules_config, deep_merge}
use onboarding_and_verificat.Verifications.Matching.{Picks, evaluate_demo_decision-Picks}
use onboarding_and_verificat.Verifications.Answered.{
  expected_code, IsChecked, apply_user_action-Checked,
}
use onboarding_and_verificat.Verifications.Samples.{
  python, phone_config, match_config, approval, flow, submission, first, begin, answer_with,
  decided_db, statuses,
}
use onboarding_and_verificat.Verifications.Untouched.{IsAside, Reach-IsAside}

-- A wrong code, then the right one: the second step runs, and its outcome decides the run.
verified_run :
    statuses decided_db
    ≡ (RunStatus.completed, (none, (StepStatus.completed, 2) ∷ (StepStatus.completed, 0) ∷ [])) ∷ []
unfolding after handle start_verification submit_step_action load_flow_context flow_from
    merged_rules_config deep_merge open_run initialize_steps create_steps step_rows step_row
    texts_under keys_distinct get_latest_run waiting_step apply_user_action mark_retry_or_fail
    demo_registry advance_run rounds sweep visit finalize_run decide_run run_step
    start_challenge_step run_comparison_step comparisons total_score judged string_similarity str_of
    truthy resolve_input_map resolve_ref resolve_text by_key lookup_mapping walk build_facts
    evaluate_demo_decision first_match rule_matches condition_matches decided strip split join
    after_prefix prefix chars str_ℤ
verified_run = refl

abbrev context : FlowContext
context = record { submission = submission; flow_key = "default"; flow_config = flow }

abbrev phone_step : VerificationStepRun
phone_step = new_step 50 7 "phone" "phone" [] "challenge_response" "demo_phone_otp" phone_config

abbrev match_step : VerificationStepRun
match_step = new_step 51 7 "match" "match" ("phone" ∷ []) "comparison" "comparison" match_config

abbrev run : VerificationRun
run = record (new_run python 1 5 context "self_service_online") {
  steps = phone_step ∷ match_step ∷ [];
}

abbrev started_db : Db
started_db = record first { verification_runs = run ∷ [] }

advance_run-Ends_example :
    Ends python 1 context 5 run (serve (advance_run python 1 context 5) started_db)
advance_run-Ends_example = advance_run-Ends python 1 context 5 run started_db refl

-- The comparison comes after the phone.
abbrev rank : String → ℕ
rank key = if key == "match" then 1 else 0

advance_run-Moves_example :
    Moves rank python 1 context 5 (serve (advance_run python 1 context 5) started_db)
advance_run-Moves_example =
    advance_run-Moves rank python 1 context 5 run started_db refl
      (tt, (((refl, omega arith), tt), tt))

answered :
    Reach python started_db
      (after python 3 (answer_with "111111") (after python 2 begin started_db))
answered = next 3 (answer_with "111111") (next 2 begin here)

Reach-AllWithin_example :
    AllWithin python (after python 3 (answer_with "111111") (after python 2 begin started_db))
Reach-AllWithin_example =
    Reach-AllWithin python started_db
      (after python 3 (answer_with "111111") (after python 2 begin started_db))
      (((omega arith, λ e. omega arith), ((omega arith, λ e. omega arith), tt)), tt) answered

Reach-IsAside_example :
    IsAside 7 submission started_db
      (after python 3 (answer_with "111111") (after python 2 begin started_db))
Reach-IsAside_example =
    Reach-IsAside python started_db
      (after python 3 (answer_with "111111") (after python 2 begin started_db)) 7 submission refl
      answered

abbrev facts : Fields
facts = field "steps" (dict (field "match" (dict (field "outcome" (str "pass") end)) end)) end

abbrev policy : Fields
policy = field "rules" (list (cons (str "no rule") (cons (dict approval) nil))) end

evaluate_demo_decision-Picks_example :
    Picks python facts policy
      (evaluate_demo_decision python (field "decision" (dict policy) end) facts)
evaluate_demo_decision-Picks_example =
    evaluate_demo_decision-Picks python facts (field "decision" (dict policy) end) policy refl

abbrev waiting_phone : VerificationStepRun
waiting_phone = record phone_step { status = StepStatus.waiting_user_action }

expected_phone : expected_code python 3 flow waiting_phone ≡ some "111111"
unfolding expected_code str_of truthy
expected_phone = refl

given_code : filled (str " 111111 ") ≡ some " 111111 "
unfolding strip
given_code = refl

apply_user_action-Checked_example :
    IsChecked python 3 " 111111 " "111111" waiting_phone
      (apply_user_action python 3 flow
        (field "otp_code" (str " 111111 ") end)
        waiting_phone
        (record { committed = started_db; working = started_db })).0
apply_user_action-Checked_example =
    apply_user_action-Checked python 3 flow (field "otp_code" (str " 111111 ") end) waiting_phone
      (record { committed = started_db; working = started_db }) " 111111 " "111111" given_code
      expected_phone

abbrev keyless_flow : Fields
keyless_flow = field "steps" (list (cons (dict (field "type" (str "comparison") end)) nil)) (
    field "decision" (dict (field "fallback" (dict (field "decision" (str "approved") end)) end))
      end)

abbrev keyless : Db
keyless = record first {
  definitions =
      record version { rules_config = field "verification_flow" (dict keyless_flow) end } ∷ [];
}

-- A start that fails on a step without a key leaves an active run without steps; the next start
-- decides that run, though no step has run.
keyless_run :
    (statuses (after python 1 begin keyless) ≡ (RunStatus.pending, (none, [])) ∷ [])
    × (statuses (after python 2 begin (after python 1 begin keyless))
        ≡ (RunStatus.completed, (none, [])) ∷ [])
unfolding after handle start_verification load_flow_context flow_from merged_rules_config deep_merge
    open_run initialize_steps create_steps step_rows step_row get_latest_run advance_run rounds
    sweep finalize_run decide_run str_of truthy build_facts evaluate_demo_decision first_match
    decided texts_under strip
keyless_run = (refl, refl)

abbrev stuck_flow : Fields
stuck_flow =
    field "steps"
      (list (
        cons
          (dict (field "key" (str "match") (field "depends_on" (list (cons (str "phon") nil)) end)))
          nil))
      end

abbrev stuck : Db
stuck = record first {
  definitions =
      record version { rules_config = field "verification_flow" (dict stuck_flow) end } ∷ [];
}

-- A dependency on a key that no step has leaves the run in progress, whatever is resumed.
stuck_run :
    statuses (after python 2 begin (after python 1 begin stuck))
    ≡ (RunStatus.in_progress, (none, (StepStatus.pending, 0) ∷ [])) ∷ []
unfolding after handle start_verification load_flow_context flow_from merged_rules_config deep_merge
    open_run initialize_steps create_steps step_rows step_row get_latest_run advance_run rounds
    sweep visit by_key finalize_run keys_distinct str_of truthy texts_under strip prefix
stuck_run = refl
