-- ===== src/Authz/Masked.antt =====
-- The columns that are denied by default stay denied, unless a policy replaces them.
use onboarding_and_verificat.Prelude.{String, List, [], ◌∷◌}
use onboarding_and_verificat.Prelude.Json.{Json}
use onboarding_and_verificat.Model.Submission.{Submission}

abbrev pub review_columns : List String
review_columns = "review_notes" ∷ "reviewed_by" ∷ "reviewed_at" ∷ []
