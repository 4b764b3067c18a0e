-- ===== src/Transforms/Life.antt =====
-- The life of a rule set: once published, it stays as it is.
use onboarding_and_verificat.Prelude.{ℕ, ◌≡◌, false, some, find}
use onboarding_and_verificat.Model.Transform.{TransformRuleSet}
use onboarding_and_verificat.Model.Db.{Db}
use onboarding_and_verificat.Transforms.Service.{in_draft, at_set}

-- The rule set `i` is there with the content of `x`, and is no draft.
abbrev pub IsFrozen : ℕ → TransformRuleSet → Db → Type 0
IsFrozen i x db =
    (y : TransformRuleSet) × (find (at_set i) db.rule_sets ≡ some y)
    × (y.rules ≡ x.rules)
    × (y.source_version_id ≡ x.source_version_id)
    × (y.target_version_id ≡ x.target_version_id)
    × (y.changelog ≡ x.changelog)
    × (in_draft y.status ≡ false)
