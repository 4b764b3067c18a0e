-- ===== src/Verifications/Samples.antt =====
-- A flow of a code sent to a phone and a comparison of names, a submission, and requests on it.
use onboarding_and_verificat.Prelude.{
  ℕ, String, ◌==◌, ◌||◌, Bool, false, Option, none, some, List, [], ◌∷◌, ◌+◌, map,
}
use onboarding_and_verificat.Prelude.Int.{ℤ, pos, str_ℤ}
use onboarding_and_verificat.Prelude.Json.{
  Json, Fields, null, int, float, str, list, dict, nil, cons, end, field,
}
use onboarding_and_verificat.Model.Status
use onboarding_and_verificat.Model.Submission.{Submission}
use onboarding_and_verificat.Model.Verification.{StepStatus, RunStatus, VerificationRun}
use onboarding_and_verificat.Model.Db.{Db}
use onboarding_and_verificat.Answers.Samples.{version}
use onboarding_and_verificat.Verifications.Values.{Python}
use onboarding_and_verificat.Verifications.Service.{Dispatch}
use onboarding_and_verificat.Verifications.Requests.{Request, start, act_on, after}

abbrev pub float_of : Json → Option String
float_of (float repr) = some repr
float_of (int n) = some (str_ℤ n)
float_of _ = none

abbrev pub int_of : Json → Option ℤ
int_of (int n) = some n
int_of _ = none

abbrev pub same_text : Json → Json → Bool
same_text (str s) (str t) = s == t
same_text _ _ = false

abbrev pub python : Python
python = record {
  ratio = λ a b. "0.5";
  lower = λ s. s;
  add = λ a b. b;
  mean = λ total n. total;
  ge = λ a b. (a == b) || (a == "1.0");
  to_float = float_of;
  to_int = int_of;
  equal = same_text;
  is_zero = λ repr. repr == "0.0";
  str_container = λ j. "[]";
  uuid = λ n. str_ℤ (pos n);
  attribute = λ x path. null;
}

abbrev pub phone_config : Fields
phone_config = field "key" (str "phone") (
    field "adapter" (str "demo_phone_otp") (
      field "input" (dict (field "phone_number" (str "answers.phone") end))
        (field "max_attempts" (int (pos 2)) end)))

abbrev pub match_config : Fields
match_config = field "key" (str "match") (
    field "type" (str "comparison") (
      field "depends_on" (list (cons (str "phone") nil)) (
        field "pairs"
          (list (
            cons
              (dict
                (field "left" (str "answers.name") (field "right" (str "answers.full_name") end)))
              nil))
          end)))

abbrev pub approval : Fields
approval =
    field "all"
      (list (
        cons (dict (field "fact" (str "steps.match.outcome") (field "equals" (str "pass") end)))
          nil))
      (field "decision" (str "approved") (field "kyc_level" (str "full") end))

abbrev pub flow : Fields
flow =
    field "steps" (list (cons (dict phone_config) (cons (dict match_config) nil)))
      (field "decision" (dict (field "rules" (list (cons (dict approval) nil)) end)) end)

abbrev pub submission : Submission
submission = record {
  id = 7;
  template_id = 1;
  template_version_id = 10;
  baseline_version_id = none;
  form_data =
      field "name" (str "Ada") (field "full_name" (str "Ada") (field "phone" (str "0911") end));
  computed_data = end;
  validation_results = end;
  attachments = end;
  status = Status.submitted;
  submitter_id = none;
  submitted_at = none;
  reviewed_at = none;
  completed_at = none;
  reviewed_by = none;
  review_notes = none;
  external_ref = none;
  product_id = none;
  created_by = "ann";
  created_at = 0;
}

abbrev pub first : Db
first = record {
  templates = [];
  definitions = record version { rules_config = field "verification_flow" (dict flow) end } ∷ [];
  reviews = [];
  products = [];
  submissions = submission ∷ [];
  status_history = [];
  comments = [];
  answers = [];
  rule_sets = [];
  verification_runs = [];
  baseline_templates = [];
  baseline_definitions = [];
  authz_policies = [];
}

abbrev pub begin : Request
begin =
    start Dispatch.unavailable (λ n. 50 + n) 5 7
      (record { journey = "self_service_online"; deferred = false; flow_key = "default" })

abbrev pub answer_with : String → Request
answer_with code = act_on Dispatch.unavailable 7 "phone" (field "otp_code" (str code) end)

abbrev pub challenged : Db
challenged = after python 1 begin first

abbrev pub mistaken : Db
mistaken = after python 2 (answer_with "000000") challenged

abbrev pub decided_db : Db
decided_db = after python 3 (answer_with " 111111 ") mistaken

abbrev pub status_of : VerificationRun → RunStatus × (Option String × List (StepStatus × ℕ))
status_of r = (r.status, (r.current_step_key, map (λ s. (s.status, s.attempt_count)) r.steps))

abbrev pub statuses : Db → List (RunStatus × (Option String × List (StepStatus × ℕ)))
statuses db = map status_of db.verification_runs
