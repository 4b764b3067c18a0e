-- ===== src/Model/Status.antt =====
-- The enumerations of app/models/enums.py and app/models/tenant/submission.py.
use onboarding_and_verificat.Prelude.{ℕ, Bool, true, ◌≡◌, ◌↔◌, arith, ◌is◌}

-- class SubmissionStatus
pub data SubmissionStatus : Type 0 where
  draft submitted under_review approved rejected returned completed cancelled : SubmissionStatus

abbrev rank : SubmissionStatus → ℕ
rank draft = 0
rank submitted = 1
rank under_review = 2
rank approved = 3
rank rejected = 4
rank returned = 5
rank completed = 6
rank cancelled = 7

-- Equality of two members of the enumeration.
unfoldable pub status_eq : SubmissionStatus → SubmissionStatus → Bool
status_eq a b = rank a is rank b

pub status_eq_iff : (a b : SubmissionStatus) → (status_eq a b ≡ true) ↔ (a ≡ b)
unfolding status_eq
status_eq_iff a b = ground arith

-- class RuleSetStatus
pub data RuleSetStatus : Type 0 where
  draft published archived : RuleSetStatus

-- class TransformOperation
pub data TransformOperation : Type 0 where
  identity rename map_values coerce_type split merge default_value compute drop : TransformOperation

-- class TemplateType
pub data TemplateType : Type 0 where
  kyc kyb : TemplateType

-- class DefinitionReviewStatus
pub data DefinitionReviewStatus : Type 0 where
  draft pending_review approved changes_requested : DefinitionReviewStatus

-- class DefinitionReviewAction
pub data DefinitionReviewAction : Type 0 where
  submitted approved changes_requested : DefinitionReviewAction
