-- ===== src/Templates/Tests.antt =====
-- The theorems on versions at one draft that is submitted, approved, published and edited.
use onboarding_and_verificat.Prelude.{
  ◌≡◌, refl, true, false, none, some, [], ◌∷◌, find, Found-append, if◌then◌else◌,
}
use onboarding_and_verificat.Prelude.Int.{pos}
use onboarding_and_verificat.Model.Status
use onboarding_and_verificat.Model.Template.{TenantTemplate, TenantTemplateDefinition}
use onboarding_and_verificat.Model.Db.{Db}
use onboarding_and_verificat.Answers.Samples.{version}
use onboarding_and_verificat.Submissions.Access.{Context}
use onboarding_and_verificat.Templates.Service.{
  at_version, get_definition, get_tenant_template, submit_for_review, approve,
}
use onboarding_and_verificat.Templates.Publish.{publish_definition, collision}
use onboarding_and_verificat.Templates.Requests.{
  Request, update, delete, submit, accept, publish, handle, after, Reach, here, next,
}
use onboarding_and_verificat.Templates.Review.{WasReviewed, WereReviewed, Reach-WereReviewed}
use onboarding_and_verificat.Templates.Published.{published_is_frozen}
use onboarding_and_verificat.Prelude.Json.{Fields, dict, str, end, field}
use onboarding_and_verificat.Templates.Config.{deep_merge}
use onboarding_and_verificat.Templates.Merge.{leaf_at, decides, leaf_at-deep_merge}

abbrev template : TenantTemplate
template = record {
  id = 1;
  name = "onboarding";
  description = none;
  template_type = Status.kyc;
  baseline_level = pos 1;
  is_active = true;
  active_version_id = none;
}

abbrev draft_version : TenantTemplateDefinition
draft_version = record version {
  is_draft = true;
  review_status = Status.DefinitionReviewStatus.draft;
}

abbrev start : Db
start = record {
  templates = template ∷ [];
  definitions = draft_version ∷ [];
  reviews = [];
  products = [];
  submissions = [];
  status_history = [];
  comments = [];
  answers = [];
  rule_sets = [];
  verification_runs = [];
  baseline_templates = [];
  baseline_definitions = [];
  authz_policies = [];
}

abbrev ann : Context
ann = record { user = "ann"; roles = []; super_admin = false; now = 1 }

abbrev bob : Context
bob = record { user = "bob"; roles = []; super_admin = true; now = 2 }

abbrev released : Db
released =
    after ann (publish 1 10 true)
      (after bob (accept 81 1 10 none) (after ann (submit 80 1 10 none) start))

abbrev edit : Request
edit = update 1 10 (record { version_tag = some "v2"; rules_config = none; changelog = none })

abbrev later : Db
later = after ann (delete 1 10) (after ann edit released)

abbrev released_version : TenantTemplateDefinition
released_version = record draft_version {
  is_draft = false;
  review_status = Status.DefinitionReviewStatus.approved;
  submitted_for_review_at = some 1;
  submitted_for_review_by = some "ann";
  reviewed_at = some 2;
  reviewed_by = some "bob";
}

released_run : released.definitions ≡ released_version ∷ []
unfolding after handle submit_for_review approve publish_definition collision get_definition
    get_tenant_template
released_run = refl

from_released : Reach released later
from_released = next ann (delete 1 10) (next ann edit here)

whole : Reach start later
whole = next ann (delete 1 10) (
    next ann edit (
      next ann (publish 1 10 true)
        (next bob (accept 81 1 10 none) (next ann (submit 80 1 10 none) here))))

Reach-WereReviewed_example : WereReviewed later
Reach-WereReviewed_example =
    Reach-WereReviewed start later
      (Found-append (λ v. v.id) WasReviewed [] draft_version (λ p. cc, λ a. cc, λ closed. cc)
        (λ i x found. cc))
      whole

published_is_frozen_example : find (at_version 10) later.definitions ≡ some released_version
published_is_frozen_example =
    published_is_frozen 10 released_version released later refl (rw released_run refl) from_released

abbrev base_rules : Fields
base_rules =
    field "kyc" (dict (field "level" (str "low") (field "mode" (str "auto") end)))
      (field "sla" (str "2d") end)

abbrev own_rules : Fields
own_rules = field "kyc" (dict (field "level" (str "high") end)) end

leaf_at-deep_merge_example :
    leaf_at ("kyc" ∷ "mode" ∷ []) (dict (deep_merge base_rules own_rules)) ≡ (
      if decides ("kyc" ∷ "mode" ∷ []) (dict own_rules)
      then leaf_at ("kyc" ∷ "mode" ∷ []) (dict own_rules)
      else leaf_at ("kyc" ∷ "mode" ∷ []) (dict base_rules))
leaf_at-deep_merge_example =
    leaf_at-deep_merge ("kyc" ∷ "mode" ∷ []) base_rules own_rules (refl, (refl, tt, tt), tt)

-- The nested dict is merged, and the base's other key is kept.
merged_run :
    deep_merge base_rules own_rules
    ≡ field "kyc"
        (dict (field "level" (str "high") (field "mode" (str "auto") end)))
        (field "sla" (str "2d") end)
unfolding deep_merge
merged_run = refl
