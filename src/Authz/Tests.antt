-- ===== src/Authz/Tests.antt =====
-- Policies stored one after another, and the theorems on what they give.
use onboarding_and_verificat.Prelude.{
  String, ◌≡◌, refl, ◌↔◌, true, false, none, some, List, [], ◌∷◌, inl, strip,
}
use onboarding_and_verificat.Prelude.Json.{Fields, str, list, dict, nil, cons, end, field}
use onboarding_and_verificat.Model.Db.{Db}
use onboarding_and_verificat.Model.Submission.{Submission}
use onboarding_and_verificat.Authz.Permissions.{
  has, normalize_permission, implied, visit_all, permission_closure, role_permissions_valid,
}
use onboarding_and_verificat.Authz.Closure.{Implies, permission_closure-Implies}
use onboarding_and_verificat.Authz.Service.{
  default_permissions, added_by, replaced_by, defaults_of, merge_role_permissions, load_policy,
  user_permissions, permitted, policy_valid, put_policy, upsert_global_policy, upsert_realm_policy,
  upsert_tenant_policy,
}
use onboarding_and_verificat.Authz.Requests.{
  global_policy, realm_policy, tenant_policy_of, handle, after, here, next, Reach-Separates,
}
use onboarding_and_verificat.Authz.Columns.{
  merge_role_columns, default_columns, apply_roles, apply_entries, refused_fields,
}
use onboarding_and_verificat.Model.Status.{returned}

abbrev start : Db
start = record {
  templates = [];
  definitions = [];
  reviews = [];
  products = [];
  submissions = [];
  status_history = [];
  comments = [];
  answers = [];
  rule_sets = [];
  verification_runs = [];
  baseline_templates = [];
  baseline_definitions = [];
  authz_policies = [];
}

abbrev policy_for : String → String → Fields
policy_for role permission =
    field "mode" (str "merge")
      (field "roles" (dict (field role (list (cons (str permission) nil)) end)) end)

abbrev granting : Db
granting =
    after (tenant_policy_of 3 (policy_for "maker" "products.create"))
      (after (realm_policy "acme" (policy_for "maker" "submissions.transition")) start)

-- The policy that would let a maker review is refused; the other is stored and gives the permission.
stored_run :
    (has (user_permissions ("maker" ∷ []) "acme" (some 3) granting) "submissions.transition"
      ≡ false)
    × (has (user_permissions ("maker" ∷ []) "acme" (some 3) granting) "products.create" ≡ true)
unfolding after handle upsert_realm_policy upsert_tenant_policy policy_valid role_permissions_valid
    permission_closure visit_all implied normalize_permission strip put_policy user_permissions
    merge_role_permissions load_policy default_permissions defaults_of added_by replaced_by
stored_run = (refl, refl)

-- A policy that gives a maker "*" is accepted, and permits the review.
wildcard_run :
    permitted ("submissions.transition" ∷ []) (
      user_permissions
        ("maker" ∷ [])
        "acme"
        none
        (after (global_policy (policy_for "maker" "*")) start))
    ≡ true
unfolding after handle upsert_global_policy policy_valid role_permissions_valid permission_closure
    visit_all implied normalize_permission strip put_policy user_permissions merge_role_permissions
    load_policy default_permissions defaults_of added_by replaced_by permitted
wildcard_run = refl

Reach-Separates_example :
    has (user_permissions ("maker" ∷ []) "acme" (some 3) granting) "submissions.transition" ≡ false
Reach-Separates_example =
    Reach-Separates start granting "maker" "submissions.transition" "acme" (some 3) tt
      (next (tenant_policy_of 3 (policy_for "maker" "products.create"))
        (next (realm_policy "acme" (policy_for "maker" "submissions.transition")) here))
      (inl refl) refl

permission_closure-Implies_example :
    (result : List String) × (permission_closure ("submissions.transition" ∷ []) ≡ some result)
    × ((q : String)
        → (has result q ≡ true)
          ↔ ((p : String) × (has ("submissions.transition" ∷ []) p ≡ true) × Implies p q))
permission_closure-Implies_example = permission_closure-Implies ("submissions.transition" ∷ [])

abbrev shown : Fields
shown =
    field "columns"
      (dict (
        field "maker"
          (dict (
            field "submissions.read" (dict (field "allow" (list (cons (str "form_data") nil)) end))
              end))
          end))
      end

abbrev returned_form : Submission
returned_form = record {
  id = 7;
  template_id = 1;
  template_version_id = 10;
  baseline_version_id = none;
  form_data = end;
  computed_data = end;
  validation_results = end;
  attachments = end;
  status = returned;
  submitter_id = none;
  submitted_at = some 1;
  reviewed_at = some 2;
  completed_at = none;
  reviewed_by = some "bob";
  review_notes = some "blurred";
  external_ref = none;
  product_id = none;
  created_by = "ann";
  created_at = 0;
}

-- A field that is not among those allowed is refused, and so is one that is denied.
refused_run :
    refused_fields
      (merge_role_columns "submissions.read" ("maker" ∷ []) shown end end)
      ("form_data" ∷ "external_ref" ∷ "review_notes" ∷ [])
    ≡ "external_ref" ∷ "review_notes" ∷ []
unfolding merge_role_columns default_columns apply_roles apply_entries normalize_permission
    refused_fields
refused_run = refl
