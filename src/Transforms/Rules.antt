-- ===== src/Transforms/Rules.antt =====
-- The operations on the rules of a rule set: add_rule, update_rule, delete_rule.
use onboarding_and_verificat.Prelude.{
  ℕ, String, Bool, not, Option, none, some, List, [], ◌∷◌, ◌++◌, ◌is◌, if◌then◌else◌, find, keep,
  update,
}
use onboarding_and_verificat.Prelude.Int.{ℤ, pos, negsuc, leb_ℤ, next_ℤ}
use onboarding_and_verificat.Prelude.Json.{Fields}
use onboarding_and_verificat.Model.Status.{TransformOperation}
use onboarding_and_verificat.Model.Transform.{TransformRule, TransformRuleSet}
use onboarding_and_verificat.Session.{
  Error, Action, pure, gets, or_raise, modify, commit, ◌>>=◌, ◌>>◌,
}
use onboarding_and_verificat.Transforms.Service.{
  Sandbox, get_rule_set, assert_draft, write_set, validate_compute_rule, TransformRuleCreate,
  new_rule,
}

abbrev max_ℤ : ℤ → ℤ → ℤ
max_ℤ a b = if leb_ℤ a b then b else a

-- max((r.display_order for r in rules), default=-1)
abbrev pub last_order : List TransformRule → ℤ
last_order [] = negsuc 0
last_order (r ∷ []) = r.display_order
last_order (r ∷ s ∷ rs) = max_ℤ r.display_order (last_order (s ∷ rs))

abbrev pub with_rule : TransformRule → TransformRuleSet → TransformRuleSet
with_rule r rs = record rs { rules = rs.rules ++ r ∷ [] }

unfoldable pub add_rule : Sandbox → ℕ → ℕ → TransformRuleCreate → Action TransformRule
add_rule sb rid i request = do
  rs ← get_rule_set i
  assert_draft rs
  validate_compute_rule sb request.operation request.params request.source_unique_key
  let r = new_rule rid (next_ℤ (last_order rs.rules)) request
  modify (write_set i (with_rule r))
  commit
  pure r

abbrev pub at_rule : ℕ → TransformRule → Bool
at_rule i r = r.id is i

abbrev here_or_later :
    ℕ → Option TransformRule → Option (ℕ × TransformRule) → Option (ℕ × TransformRule)
here_or_later i none later = later
here_or_later i (some r) later = some (i, r)

-- The row of a rule, with its `rule_set_id`.
unfoldable pub find_rule : ℕ → List TransformRuleSet → Option (ℕ × TransformRule)
find_rule rid [] = none
find_rule rid (rs ∷ sets) = here_or_later rs.id (find (at_rule rid) rs.rules) (find_rule rid sets)

-- class TransformRuleUpdate: `none` is a field that the request did not set.
pub record TransformRuleUpdate : Type 0 where
  pub source_unique_key : Option (Option String)
  pub target_unique_key : Option String
  pub operation : Option TransformOperation
  pub params : Option Fields
  pub display_order : Option ℕ
  pub is_required : Option Bool

abbrev set_or {ℓ} : {A : Type ℓ} → Option A → A → A
set_or none old = old
set_or (some new) old = new

abbrev order_or : Option ℕ → ℤ → ℤ
order_or none old = old
order_or (some n) old = pos n

-- The loop of `setattr` over the fields that are set.
unfoldable pub patched : TransformRuleUpdate → TransformRule → TransformRule
patched u r = record r {
  source_unique_key = set_or u.source_unique_key r.source_unique_key;
  target_unique_key = set_or u.target_unique_key r.target_unique_key;
  operation = set_or u.operation r.operation;
  params = set_or u.params r.params;
  display_order = order_or u.display_order r.display_order;
  is_required = set_or u.is_required r.is_required;
}

abbrev pub with_patch : ℕ → TransformRuleUpdate → TransformRuleSet → TransformRuleSet
with_patch rid u rs = record rs { rules = update (at_rule rid) (patched u) rs.rules }

unfoldable pub update_rule : Sandbox → ℕ → TransformRuleUpdate → Action TransformRule
update_rule sb rid u = do
  found ← gets (λ db. find_rule rid db.rule_sets)
  located ← or_raise found Error.rule_not_found
  rs ← get_rule_set located.0
  assert_draft rs
  let r = patched u located.1
  validate_compute_rule sb r.operation r.params r.source_unique_key
  modify (write_set located.0 (with_patch rid u))
  commit
  pure r

abbrev pub minus_rule : ℕ → TransformRuleSet → TransformRuleSet
minus_rule rid rs = record rs { rules = keep (λ r. not (at_rule rid r)) rs.rules }

unfoldable pub delete_rule : ℕ → Action (Unit {0})
delete_rule rid = do
  found ← gets (λ db. find_rule rid db.rule_sets)
  located ← or_raise found Error.rule_not_found
  rs ← get_rule_set located.0
  assert_draft rs
  modify (write_set located.0 (minus_rule rid))
  commit
