-- ===== src/Transforms/Tests.antt =====
-- The theorems on rule sets at one rule set of one rule.
use onboarding_and_verificat.Prelude.{false, not, none, some, [], ◌∷◌, ◌+◌}
use onboarding_and_verificat.Prelude.Int.{pos}
use onboarding_and_verificat.Prelude.Json.{end}
use onboarding_and_verificat.Model.Status.{TransformOperation, RuleSetStatus}
use onboarding_and_verificat.Model.Transform.{TransformRuleSet}
use onboarding_and_verificat.Model.Db.{Db}
use onboarding_and_verificat.Transforms.Service.{
  Sandbox, has_no_rules, TransformRuleCreate, TransformRuleSetCreate,
}
use onboarding_and_verificat.Transforms.Requests.{
  create, update, publish, archive, add_rule_to, after, Reach, here, next,
}
use onboarding_and_verificat.Transforms.Contents.{HaveRules, Reach-HaveRules}
use onboarding_and_verificat.Transforms.Pairs.{AreUnique, Reach-AreUnique}

-- A sandbox that accepts every expression, and every set that has rules.
abbrev sandbox : Sandbox
sandbox = record {
  compute_errors = λ expr sources. [];
  valid = λ rules source target. not (has_no_rules rules);
}

abbrev empty : Db
empty = record {
  templates = [];
  definitions = [];
  reviews = [];
  products = [];
  submissions = [];
  status_history = [];
  comments = [];
  answers = [];
  rule_sets = [];
  verification_runs = [];
  baseline_templates = [];
  baseline_definitions = [];
  authz_policies = [];
}

abbrev rule_request : TransformRuleCreate
rule_request = record {
  source_unique_key = some "name";
  target_unique_key = "full_name";
  operation = TransformOperation.rename;
  params = end;
  display_order = 0;
  is_required = false;
}

abbrev set_request : TransformRuleSetCreate
set_request = record {
  source_version_id = 1;
  target_version_id = 2;
  changelog = none;
  rules = rule_request ∷ [];
}

abbrev created : Db
created = after sandbox (create 5 (λ n. 50 + n) 1 set_request) empty

abbrev live : Db
live = after sandbox (publish 5) created

-- An update and a new rule are tried on the published set, and it is archived.
abbrev changed : Db
changed = after sandbox (update 5 (some (some "late"))) live

abbrev extended : Db
extended = after sandbox (add_rule_to 60 5 rule_request) changed

abbrev retired : Db
retired = after sandbox (archive 5) extended

abbrev published_set : TransformRuleSet
published_set = record {
  id = 5;
  template_id = 1;
  source_version_id = 1;
  target_version_id = 2;
  status = RuleSetStatus.published;
  auto_generated = false;
  changelog = none;
  rules =
      record {
        id = 50;
        source_unique_key = some "name";
        target_unique_key = "full_name";
        operation = TransformOperation.rename;
        params = end;
        display_order = pos 0;
        is_required = false;
      }
      ∷ [];
}

whole : Reach empty retired
whole = next sandbox (archive 5) (
    next sandbox (add_rule_to 60 5 rule_request) (
      next sandbox (update 5 (some (some "late")))
        (next sandbox (publish 5) (next sandbox (create 5 (λ n. 50 + n) 1 set_request) here))))

Reach-HaveRules_example : HaveRules retired
Reach-HaveRules_example = Reach-HaveRules empty retired (λ i x found. cc) whole

Reach-AreUnique_example : AreUnique retired.rule_sets
Reach-AreUnique_example = Reach-AreUnique empty retired tt whole
