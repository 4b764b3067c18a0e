-- ===== src/Transforms/Contents.antt =====
-- What a published rule set holds.
use onboarding_and_verificat.Prelude.{
  ℕ, ◌≡◌, refl, false, some, arith, find, Found-append, Found-update, Found-keep,
}
use onboarding_and_verificat.Model.Status.{RuleSetStatus}
use onboarding_and_verificat.Model.Transform.{TransformRuleSet}
use onboarding_and_verificat.Model.Db.{Db}
use onboarding_and_verificat.Transforms.Service.{
  Sandbox, in_draft, at_set, has_no_rules, with_status,
}
use onboarding_and_verificat.Transforms.Requests.{
  Request, after, Reach, here, next, kept, added, edited, published, archived, removed,
}
use onboarding_and_verificat.Transforms.Changes.{after-Change}

-- A rule set that is no draft has rules.
abbrev pub HasRules : TransformRuleSet → Type 0
HasRules rs = in_draft rs.status ≡ false → has_no_rules rs.rules ≡ false

abbrev pub HaveRules : Db → Type 0
HaveRules db = (i : ℕ) (x : TransformRuleSet) → find (at_set i) db.rule_sets ≡ some x → HasRules x

after-HaveRules : (sb : Sandbox) (r : Request) (db : Db) → HaveRules db → HaveRules (after sb r db)
after-HaveRules sb r db h = elim (after-Change sb r db) [
  | kept e ↦ rw e h
  | added rs is_new free e ↦
      rw e (Found-append (λ s. s.id) HasRules db.rule_sets rs (λ closed. absurd (ground arith)) h)
  | edited j z f at is_open keeps e ↦ rw e (
      Found-update (λ s. s.id) HasRules db.rule_sets j f z at (λ y. (keeps y).0)
        (λ closed. absurd (ground (arith, (keeps z).1))) h)
  | published j z at is_open has e ↦ rw e (
      Found-update (λ s. s.id) HasRules db.rule_sets j (with_status RuleSetStatus.published) z at
        (λ y. refl) (λ closed. has) h)
  | archived j z at closed e ↦ rw e (
      Found-update (λ s. s.id) HasRules db.rule_sets j (with_status RuleSetStatus.archived) z at
        (λ y. refl) (λ _. h j z at closed) h)
  | removed j z at is_open e ↦ rw e (Found-keep (λ s. s.id) HasRules db.rule_sets j h)
]

-- From a database where this holds, along any sequence of requests, a rule set that is published
-- or archived has at least one rule.
pub Reach-HaveRules : (start db : Db) → HaveRules start → Reach start db → HaveRules db
Reach-HaveRules start _ h here = h
Reach-HaveRules start _ h (next {db} sb r reach) =
    after-HaveRules sb r db (Reach-HaveRules start db h reach)
