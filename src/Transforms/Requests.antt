-- ===== src/Transforms/Requests.antt =====
-- The requests of app/routes/transforms/routes.py that write rule sets, any sequence of them, and the
-- change that each makes to what is committed.
use onboarding_and_verificat.Prelude.{ℕ, String, ◌≡◌, true, false, Option, some, any, find}
use onboarding_and_verificat.Model.Status.{RuleSetStatus, draft}
use onboarding_and_verificat.Model.Transform.{TransformRuleSet}
use onboarding_and_verificat.Model.Db.{Db}
use onboarding_and_verificat.Session.{Action, pure, serve, ◌>>◌}
use onboarding_and_verificat.Transforms.Service.{
  Sandbox, in_draft, at_set, write_set, add_set, without_set, is_pair, has_no_rules, with_status,
  TransformRuleCreate, TransformRuleSetCreate, create_rule_set, update_rule_set, publish_rule_set,
  archive_rule_set, delete_rule_set,
}
use onboarding_and_verificat.Transforms.Rules.{
  add_rule, TransformRuleUpdate, update_rule, delete_rule,
}

-- A request, with the ids that its new rows get.
pub data Request : Type 0 where
  create : ℕ → (ℕ → ℕ) → ℕ → TransformRuleSetCreate → Request
  update : ℕ → Option (Option String) → Request
  publish archive delete : ℕ → Request
  add_rule_to : ℕ → ℕ → TransformRuleCreate → Request
  change_rule : ℕ → TransformRuleUpdate → Request
  drop_rule : ℕ → Request

unfoldable pub handle : Sandbox → Request → Action (Unit {0})
handle sb (create i rids template_id request) =
    create_rule_set sb i rids template_id request >> pure tt
handle sb (update i changelog) = update_rule_set i changelog >> pure tt
handle sb (publish i) = publish_rule_set sb i >> pure tt
handle sb (archive i) = archive_rule_set i >> pure tt
handle sb (delete i) = delete_rule_set i
handle sb (add_rule_to rid i request) = add_rule sb rid i request >> pure tt
handle sb (change_rule rid u) = update_rule sb rid u >> pure tt
handle sb (drop_rule rid) = delete_rule rid

-- What is committed after a request.
unfoldable pub after : Sandbox → Request → Db → Db
after sb r db = (serve (handle sb r) db).1

pub data Reach (start : Db) : Db → Type 0 where
  here : Reach start start
  next : {db : Db} (sb : Sandbox) (r : Request) → Reach start db → Reach start (after sb r db)

-- An edit leaves the identity of a rule set alone.
abbrev pub IsEdit : (TransformRuleSet → TransformRuleSet) → Type 0
IsEdit f =
    (rs : TransformRuleSet)
    → ((f rs).id ≡ rs.id)
      × ((f rs).status ≡ rs.status)
      × ((f rs).source_version_id ≡ rs.source_version_id)
      × ((f rs).target_version_id ≡ rs.target_version_id)

-- The changes that the requests make.
pub data Change (db db' : Db) : Type 0 where
  kept : db' ≡ db → Change db db'
  added :
      (rs : TransformRuleSet)
      → rs.status ≡ draft
      → any (is_pair rs.source_version_id rs.target_version_id) db.rule_sets ≡ false
      → db' ≡ add_set rs db
      → Change db db'
  edited :
      (i : ℕ) (x : TransformRuleSet) (f : TransformRuleSet → TransformRuleSet)
      → find (at_set i) db.rule_sets ≡ some x
      → in_draft x.status ≡ true
      → IsEdit f
      → db' ≡ write_set i f db
      → Change db db'
  published :
      (i : ℕ) (x : TransformRuleSet)
      → find (at_set i) db.rule_sets ≡ some x
      → in_draft x.status ≡ true
      → has_no_rules x.rules ≡ false
      → db' ≡ write_set i (with_status RuleSetStatus.published) db
      → Change db db'
  archived :
      (i : ℕ) (x : TransformRuleSet)
      → find (at_set i) db.rule_sets ≡ some x
      → in_draft x.status ≡ false
      → db' ≡ write_set i (with_status RuleSetStatus.archived) db
      → Change db db'
  removed :
      (i : ℕ) (x : TransformRuleSet)
      → find (at_set i) db.rule_sets ≡ some x
      → in_draft x.status ≡ true
      → db' ≡ without_set i db
      → Change db db'
