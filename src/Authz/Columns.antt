-- ===== src/Authz/Columns.antt =====
-- The columns that a permission allows and denies to roles, by default and by the policies.
use onboarding_and_verificat.Prelude.{
  String, Bool, true, false, not, ◌&&◌, ◌||◌, if◌then◌else◌, List, [], ◌∷◌, ◌++◌, ◌==◌, keep, any,
  Option, none,
}
use onboarding_and_verificat.Prelude.Json.{Json, Fields, end, field, list, dict, get, items, texts}
use onboarding_and_verificat.Model.Submission.{Submission}
use onboarding_and_verificat.Authz.Permissions.{has, normalize_permission}
use onboarding_and_verificat.Authz.Service.{is_replace, merge_role_permissions}

-- The entry of one permission.
pub record ColumnRules : Type 0 where
  pub allow : List String
  pub deny : List String

abbrev pub no_rules : ColumnRules
no_rules = record { allow = []; deny = [] }

abbrev listed_columns : Json → List String
listed_columns (list js) = keep (λ c. not (c == "")) (texts (items js))
listed_columns _ = []

abbrev pub add_spec : Json → ColumnRules → ColumnRules
add_spec (dict spec) r = record {
  allow = r.allow ++ listed_columns (get spec "allow");
  deny = r.deny ++ listed_columns (get spec "deny");
}
add_spec _ r = r

module _ (perm : String) where
  abbrev pub is_for : String → Bool
  is_for key = not (key == "") && (normalize_permission key == perm)

  -- _apply_role_rules, for the one permission
  unfoldable pub apply_entries : Fields → ColumnRules → ColumnRules
  apply_entries end r = r
  apply_entries (field key spec rest) r =
      apply_entries rest (if is_for key then add_spec spec r else r)

  abbrev pub apply_role_rules : Json → ColumnRules → ColumnRules
  apply_role_rules (dict rules) r = apply_entries rules r
  apply_role_rules _ r = r

  unfoldable pub apply_roles : Fields → List String → ColumnRules → ColumnRules
  apply_roles cols [] r = r
  apply_roles cols (role ∷ roles) r = apply_roles cols roles (apply_role_rules (get cols role) r)

  -- DEFAULT_ROLE_COLUMN_RULES
  abbrev pub default_rules : String → ColumnRules → ColumnRules
  default_rules role r =
      if (role == "maker") && (perm == "submissions.read")
      then record r { deny = r.deny ++ "review_notes" ∷ "reviewed_by" ∷ "reviewed_at" ∷ [] }
      else r

  unfoldable pub default_columns : List String → ColumnRules → ColumnRules
  default_columns [] r = r
  default_columns (role ∷ roles) r = default_columns roles (default_rules role r)

  abbrev pub overlay_columns : Json → Bool → List String → ColumnRules → ColumnRules
  overlay_columns (dict cols) true roles r = apply_roles cols roles no_rules
  overlay_columns (dict cols) false roles r = apply_roles cols roles r
  overlay_columns _ replaces roles r = r

  abbrev pub columns_by : Fields → List String → ColumnRules → ColumnRules
  columns_by doc roles r = overlay_columns (get doc "columns") (is_replace (get doc "mode")) roles r

  -- _merge_role_columns, its entry of the permission; a policy that is not there is an empty dict
  unfoldable pub merge_role_columns : List String → Fields → Fields → Fields → ColumnRules
  merge_role_columns roles global_doc realm_doc tenant_doc =
      columns_by tenant_doc roles
        (columns_by realm_doc roles (columns_by global_doc roles (default_columns roles no_rules)))

-- The fields that `enforce_write_columns` refuses.
unfoldable pub refused_fields : ColumnRules → List String → List String
refused_fields r incoming =
    keep (λ f. (any (λ c. true) r.allow && not (has r.allow f)) || has r.deny f) incoming

-- The permission whose entry the routes of submissions mask by.
abbrev pub read_key : List String → String
read_key perms =
    if has perms "submissions.read_all" then "submissions.read_all" else "submissions.read"

-- A column after _mask_fields, `setattr` to None where it is denied.
abbrev pub masked {ℓ} : {A : Type ℓ} → List String → String → Option A → Option A
masked deny column value = if has deny column then none else value

-- _mask_fields on a submission, in its columns that may be None.
unfoldable pub mask_fields : List String → Submission → Submission
mask_fields deny x = record x {
  baseline_version_id = masked deny "baseline_version_id" x.baseline_version_id;
  submitter_id = masked deny "submitter_id" x.submitter_id;
  submitted_at = masked deny "submitted_at" x.submitted_at;
  reviewed_at = masked deny "reviewed_at" x.reviewed_at;
  completed_at = masked deny "completed_at" x.completed_at;
  reviewed_by = masked deny "reviewed_by" x.reviewed_by;
  review_notes = masked deny "review_notes" x.review_notes;
  external_ref = masked deny "external_ref" x.external_ref;
  product_id = masked deny "product_id" x.product_id;
}

-- What get_submission, list_submissions and search_submissions show of a row, to a user who is no
-- platform super admin.
unfoldable pub shown_submission : List String → Fields → Fields → Fields → Submission → Submission
shown_submission roles global_doc realm_doc tenant_doc =
    let perms = merge_role_permissions roles global_doc realm_doc tenant_doc in
    let rules = merge_role_columns (read_key perms) roles global_doc realm_doc tenant_doc in
    mask_fields rules.deny
