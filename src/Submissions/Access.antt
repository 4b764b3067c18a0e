-- ===== src/Submissions/Access.antt =====
-- The request's user and roles, and the rule that a maker sees only their own submissions.
use onboarding_and_verificat.Prelude.{ℕ, String, Bool, not, ◌&&◌, ◌||◌, List, ◌==◌, any}
use onboarding_and_verificat.Model.Submission.{Submission}
use onboarding_and_verificat.Session.{Action, Error, guard}

-- The context variables of a request (app/core/context.py), and its time.
pub record Context : Type 0 where
  pub user : String
  pub roles : List String
  pub super_admin : Bool
  pub now : ℕ

abbrev pub has_role : Context → String → Bool
has_role ctx role = any (λ r. r == role) ctx.roles

-- roles & _ELEVATED_ROLES
abbrev is_elevated : Context → Bool
is_elevated ctx =
    has_role ctx "checker" || (has_role ctx "platform_admin" || has_role ctx "tenant_admin")

unfoldable pub is_maker_only : Context → Bool
is_maker_only ctx = has_role ctx "maker" && not (is_elevated ctx)

-- Whether the submission passes `_enforce_maker_ownership`.
unfoldable pub may_access : Context → Submission → Bool
may_access ctx s = ctx.super_admin || not (is_maker_only ctx && not (s.created_by == ctx.user))

-- _enforce_maker_ownership
abbrev pub enforce_maker_ownership : Context → Submission → Action (Unit {0})
enforce_maker_ownership ctx s = guard (may_access ctx s) Error.forbidden
