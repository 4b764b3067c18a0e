-- ===== src/Transforms/Service.antt =====
-- The operations on rule sets. The ids of new rows (uuid7) are arguments. A rule set holds its rules,
-- so a rule and its `rule_set_id` are found together; the order of the rules is that of `display_order`,
-- by which the readers sort.
use onboarding_and_verificat.Prelude.{
  ℕ, suc, String, Bool, true, false, not, ◌&&◌, if◌then◌else◌, Option, none, some, List, [], ◌∷◌,
  ◌++◌, ◌is◌, ◌==◌, any, find, keep, update, put,
}
use onboarding_and_verificat.Prelude.Int.{ℤ, pos}
use onboarding_and_verificat.Prelude.Json.{Json, Fields, str, list, nil, cons, lookup}
use onboarding_and_verificat.Model.Status.{
  TransformOperation, RuleSetStatus, draft, published, archived,
}
use onboarding_and_verificat.Model.Template.{QuestionGroup, Question, TenantTemplateDefinition}
use onboarding_and_verificat.Model.Transform.{TransformRule, TransformRuleSet}
use onboarding_and_verificat.Model.Db.{Db}
use onboarding_and_verificat.Session.{
  Error, Action, pure, raise, gets, or_raise, guard, modify, commit, ◌>>=◌, ◌>>◌,
}

-- The verdicts of app/services/transforms/sandbox.py, which evaluates expressions with the package
-- simpleeval: the errors of validate_compute_expression for an expression and its sources, and
-- whether sandbox_validate_rules finds a set of rules valid for two maps of questions.
pub record Sandbox : Type 0 where
  pub compute_errors : Json → Json → List String
  pub valid : List TransformRule → List (String × Question) → List (String × Question) → Bool

abbrev pub in_draft : RuleSetStatus → Bool
in_draft draft = true
in_draft published = false
in_draft archived = false

abbrev pub at_set : ℕ → TransformRuleSet → Bool
at_set i rs = rs.id is i

-- setattr on the loaded rule set.
abbrev pub write_set : ℕ → (TransformRuleSet → TransformRuleSet) → Db → Db
write_set i f db = record db { rule_sets = update (at_set i) f db.rule_sets }

-- _get_rule_set
unfoldable pub get_rule_set : ℕ → Action TransformRuleSet
get_rule_set i = do
  found ← gets (λ db. find (at_set i) db.rule_sets)
  or_raise found Error.rule_set_not_found

-- _assert_draft
abbrev pub assert_draft : TransformRuleSet → Action (Unit {0})
assert_draft rs = guard (in_draft rs.status) Error.rule_set_not_draft

abbrev or_value : Option Json → Json → Json
or_value none default = default
or_value (some v) default = v

-- [source_unique_key] if source_unique_key else []
abbrev own_source : Option String → Json
own_source none = list nil
own_source (some key) = if key == "" then list nil else list (cons (str key) nil)

abbrev pub raise_errors : List String → Action (Unit {0})
raise_errors [] = pure tt
raise_errors (e ∷ es) = raise (Error.compute_invalid (e ∷ es))

-- _validate_compute_rule
unfoldable pub validate_compute_rule :
    Sandbox → TransformOperation → Fields → Option String → Action (Unit {0})
validate_compute_rule sb TransformOperation.compute params source = raise_errors (
    sb.compute_errors (or_value (lookup "expr" params) (str ""))
      (or_value (lookup "sources" params) (own_source source)))
validate_compute_rule sb _ params source = pure tt

-- class TransformRuleCreate
pub record TransformRuleCreate : Type 0 where
  pub source_unique_key : Option String
  pub target_unique_key : String
  pub operation : TransformOperation
  pub params : Fields
  pub display_order : ℕ
  pub is_required : Bool

-- class TransformRuleSetCreate
pub record TransformRuleSetCreate : Type 0 where
  pub source_version_id : ℕ
  pub target_version_id : ℕ
  pub changelog : Option String
  pub rules : List TransformRuleCreate

-- A row for a rule; a `display_order` of 0 gives way to the default.
unfoldable pub new_rule : ℕ → ℤ → TransformRuleCreate → TransformRule
new_rule rid default request = record {
  id = rid;
  source_unique_key = request.source_unique_key;
  target_unique_key = request.target_unique_key;
  operation = request.operation;
  params = request.params;
  display_order = if request.display_order is 0 then default else pos request.display_order;
  is_required = request.is_required;
}

-- The rows for the rules of a new set, from the position `n` on.
unfoldable pub new_rules : (ℕ → ℕ) → ℕ → List TransformRuleCreate → List TransformRule
new_rules rids n [] = []
new_rules rids n (r ∷ rs) = new_rule (rids n) (pos n) r ∷ new_rules rids (suc n) rs

unfoldable pub validate_all : Sandbox → List TransformRuleCreate → Action (Unit {0})
validate_all sb [] = pure tt
validate_all sb (r ∷ rs) =
    validate_compute_rule sb r.operation r.params r.source_unique_key >> validate_all sb rs

-- A rule set from the source version to the target version.
abbrev pub is_pair : ℕ → ℕ → TransformRuleSet → Bool
is_pair source target rs = (rs.source_version_id is source) && (rs.target_version_id is target)

unfoldable pub new_rule_set : ℕ → (ℕ → ℕ) → ℕ → TransformRuleSetCreate → TransformRuleSet
new_rule_set i rids template_id request = record {
  id = i;
  template_id = template_id;
  source_version_id = request.source_version_id;
  target_version_id = request.target_version_id;
  status = draft;
  auto_generated = false;
  changelog = request.changelog;
  rules = new_rules rids 0 request.rules;
}

abbrev pub add_set : TransformRuleSet → Db → Db
add_set rs db = record db { rule_sets = db.rule_sets ++ rs ∷ [] }

unfoldable pub create_rule_set :
    Sandbox → ℕ → (ℕ → ℕ) → ℕ → TransformRuleSetCreate → Action TransformRuleSet
create_rule_set sb i rids template_id request = do
  taken ←
      gets (λ db. any (is_pair request.source_version_id request.target_version_id) db.rule_sets)
  guard (not taken) Error.pair_exists
  validate_all sb request.rules
  let rs = new_rule_set i rids template_id request
  modify (add_set rs)
  commit
  pure rs

-- class TransformRuleSetUpdate: `none` is a field that the request did not set.
abbrev pub changelog_set : Option (Option String) → TransformRuleSet → TransformRuleSet
changelog_set none rs = rs
changelog_set (some changelog) rs = record rs { changelog = changelog }

unfoldable pub update_rule_set : ℕ → Option (Option String) → Action TransformRuleSet
update_rule_set i changelog = do
  rs ← get_rule_set i
  assert_draft rs
  modify (write_set i (changelog_set changelog))
  commit
  pure (changelog_set changelog rs)

abbrev pub has_no_rules : List TransformRule → Bool
has_no_rules [] = true
has_no_rules (r ∷ rs) = false

-- The questions of groups and of no group, under their unique keys: a later one replaces an earlier one.
abbrev put_questions : List Question → List (String × Question) → List (String × Question)
put_questions [] d = d
put_questions (q ∷ qs) d = put_questions qs (put ◌==◌ q.unique_key q d)

abbrev put_groups : List QuestionGroup → List (String × Question) → List (String × Question)
put_groups [] d = d
put_groups (g ∷ gs) d = put_groups gs (put_questions g.questions d)

abbrev version_questions : Option TenantTemplateDefinition → List (String × Question)
version_questions none = []
version_questions (some version) =
    put_questions version.ungrouped_questions (put_groups version.question_groups [])

-- _load_version_question_map
unfoldable pub load_version_question_map : ℕ → Db → List (String × Question)
load_version_question_map version_id db =
    version_questions (find (λ version. version.id is version_id) db.definitions)

abbrev pub with_status : RuleSetStatus → TransformRuleSet → TransformRuleSet
with_status status rs = record rs { status = status }

unfoldable pub publish_rule_set : Sandbox → ℕ → Action TransformRuleSet
publish_rule_set sb i = do
  rs ← get_rule_set i
  assert_draft rs
  guard (not (has_no_rules rs.rules)) Error.rule_set_empty
  source ← gets (load_version_question_map rs.source_version_id)
  target ← gets (load_version_question_map rs.target_version_id)
  guard (sb.valid rs.rules source target) Error.sandbox_failed
  modify (write_set i (with_status published))
  commit
  pure (with_status published rs)

unfoldable pub archive_rule_set : ℕ → Action TransformRuleSet
archive_rule_set i = do
  rs ← get_rule_set i
  guard (not (in_draft rs.status)) Error.not_archivable
  modify (write_set i (with_status archived))
  commit
  pure (with_status archived rs)

-- The deletion of a rule set with its rules (cascade).
abbrev pub without_set : ℕ → Db → Db
without_set i db = record db { rule_sets = keep (λ rs. not (at_set i rs)) db.rule_sets }

unfoldable pub delete_rule_set : ℕ → Action (Unit {0})
delete_rule_set i = do rs ← get_rule_set i; assert_draft rs; modify (without_set i); commit
