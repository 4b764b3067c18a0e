-- ===== src/Transforms/Changes.antt =====
-- Each request makes one of the changes of Requests.
use onboarding_and_verificat.Prelude.{
  ℕ, String, ◌≡◌, refl, ◌⊎◌, inl, inr, Option, none, some, List, [], ◌∷◌, arith, any, find,
  Bool-cases, Option-cases,
}
use onboarding_and_verificat.Prelude.Int.{next_ℤ}
use onboarding_and_verificat.Prelude.Json.{Fields}
use onboarding_and_verificat.Model.Status.{TransformOperation}
use onboarding_and_verificat.Model.Transform.{TransformRule}
use onboarding_and_verificat.Model.Db.{Db}
use onboarding_and_verificat.Session.{Error, ok, err, Session, Action, pure, serve, ◌>>◌}
use onboarding_and_verificat.Transforms.Service.{
  Sandbox, in_draft, at_set, is_pair, has_no_rules, changelog_set, get_rule_set, raise_errors,
  validate_compute_rule, validate_all, load_version_question_map, TransformRuleCreate,
  TransformRuleSetCreate, new_rule, new_rule_set, create_rule_set, update_rule_set,
  publish_rule_set, archive_rule_set, delete_rule_set,
}
use onboarding_and_verificat.Transforms.Rules.{
  last_order, add_rule, patched, find_rule, TransformRuleUpdate, update_rule, delete_rule,
  with_rule, with_patch, minus_rule,
}
use onboarding_and_verificat.Transforms.Requests.{
  Request, create, update, publish, archive, delete, add_rule_to, change_rule, drop_rule, handle,
  after, IsEdit, Change, kept, added, edited, published, archived, removed,
}

-- The checks of expressions write nothing.
abbrev IsPassive : Action (Unit {0}) → Session → Type 0
IsPassive m s = (m s ≡ (ok tt, s)) ⊎ ((e : Error) × (m s ≡ (err e, s)))

raise_errors-IsPassive : (es : List String) (s : Session) → IsPassive (raise_errors es) s
raise_errors-IsPassive [] s = inl refl
raise_errors-IsPassive (e ∷ es) s = inr (_, refl)

validate_compute_rule-IsPassive :
    (sb : Sandbox) (op : TransformOperation) (params : Fields) (source : Option String)
    (s : Session)
    → IsPassive (validate_compute_rule sb op params source) s
unfolding validate_compute_rule
validate_compute_rule-IsPassive sb TransformOperation.compute params source s =
    raise_errors-IsPassive _ s
validate_compute_rule-IsPassive sb _ params source s = inl refl

validate_all-IsPassive :
    (sb : Sandbox) (rs : List TransformRuleCreate) (s : Session) → IsPassive (validate_all sb rs) s
unfolding validate_all
validate_all-IsPassive sb [] s = inl refl
validate_all-IsPassive sb (r ∷ rs) s =
    elim (validate_compute_rule-IsPassive sb r.operation r.params r.source_unique_key s) [
      | inl e ↦ elim (validate_all-IsPassive sb rs s) [
        | inl f ↦ inl (ground arith)
        | inr (x, f) ↦ inr (x, ground arith)
      ]
      | inr (x, e) ↦ inr (x, ground arith)
    ]

changelog_set-IsEdit : (changelog : Option (Option String)) → IsEdit (changelog_set changelog)
changelog_set-IsEdit none rs = (refl, refl, refl, refl)
changelog_set-IsEdit (some c) rs = (refl, refl, refl, refl)

-- The operations on a rule set of a given id.
module _ (i : ℕ) (db : Db) where
  update_rule_set-Change :
      (changelog : Option (Option String))
      → Change db ((serve (update_rule_set i changelog >> pure tt) db).1)
  unfolding update_rule_set get_rule_set
  update_rule_set-Change changelog = elim (Option-cases (find (at_set i) db.rule_sets)) [
    | inl e ↦ kept (ground arith)
    | inr (x, e) ↦ elim (Bool-cases (in_draft x.status)) [
      | inl d ↦
          edited i x (changelog_set changelog) e d (changelog_set-IsEdit changelog) (ground arith)
      | inr d ↦ kept (ground arith)
    ]
  ]

  archive_rule_set-Change : Change db ((serve (archive_rule_set i >> pure tt) db).1)
  unfolding archive_rule_set get_rule_set
  archive_rule_set-Change = elim (Option-cases (find (at_set i) db.rule_sets)) [
    | inl e ↦ kept (ground arith)
    | inr (x, e) ↦ elim (Bool-cases (in_draft x.status)) [
      | inl d ↦ kept (ground arith)
      | inr d ↦ archived i x e d (ground arith)
    ]
  ]

  delete_rule_set-Change : Change db ((serve (delete_rule_set i) db).1)
  unfolding delete_rule_set get_rule_set
  delete_rule_set-Change = elim (Option-cases (find (at_set i) db.rule_sets)) [
    | inl e ↦ kept (ground arith)
    | inr (x, e) ↦ elim (Bool-cases (in_draft x.status)) [
      | inl d ↦ removed i x e d (ground arith)
      | inr d ↦ kept (ground arith)
    ]
  ]

  publish_rule_set-Change :
      (sb : Sandbox) → Change db ((serve (publish_rule_set sb i >> pure tt) db).1)
  unfolding publish_rule_set get_rule_set
  publish_rule_set-Change sb = elim (Option-cases (find (at_set i) db.rule_sets)) [
    | inl e ↦ kept (ground arith)
    | inr (x, e) ↦ elim (Bool-cases (in_draft x.status)) [
      | inl d ↦ elim (Bool-cases (has_no_rules x.rules)) [
        | inl none_there ↦ kept (ground arith)
        | inr some_there ↦
            elim (Bool-cases (
              sb.valid x.rules (load_version_question_map x.source_version_id db)
                (load_version_question_map x.target_version_id db))) [
                  | inl v ↦ published i x e d some_there (ground arith)
                  | inr v ↦ kept (ground arith)
                ]
      ]
      | inr d ↦ kept (ground arith)
    ]
  ]

  add_rule-Change :
      (sb : Sandbox) (rid : ℕ) (request : TransformRuleCreate)
      → Change db ((serve (add_rule sb rid i request >> pure tt) db).1)
  unfolding add_rule get_rule_set
  add_rule-Change sb rid request = elim (Option-cases (find (at_set i) db.rule_sets)) [
    | inl e ↦ kept (ground arith)
    | inr (x, e) ↦ elim (Bool-cases (in_draft x.status)) [
      | inl d ↦
          elim (validate_compute_rule-IsPassive sb request.operation request.params
            request.source_unique_key (record { committed = db; working = db })) [
              | inl fine ↦
                  edited i x (with_rule (new_rule rid (next_ℤ (last_order x.rules)) request)) e d
                    (λ rs. (refl, refl, refl, refl)) (ground arith)
              | inr (x', bad) ↦ kept (ground arith)
            ]
      | inr d ↦ kept (ground arith)
    ]
  ]

-- The operations on a rule that was found in the set `i`.
module _ (rid i : ℕ) (r : TransformRule) (db : Db) where
  update_rule-Change :
      (sb : Sandbox) (u : TransformRuleUpdate)
      → find_rule rid db.rule_sets ≡ some (i, r)
      → Change db ((serve (update_rule sb rid u >> pure tt) db).1)
  unfolding update_rule get_rule_set
  update_rule-Change sb u at = elim (Option-cases (find (at_set i) db.rule_sets)) [
    | inl e ↦ kept (ground arith)
    | inr (x, e) ↦ elim (Bool-cases (in_draft x.status)) [
      | inl d ↦
          elim (validate_compute_rule-IsPassive sb (patched u r).operation (patched u r).params
            (patched u r).source_unique_key (record { committed = db; working = db })) [
              | inl fine ↦
                  edited i x (with_patch rid u) e d (λ rs. (refl, refl, refl, refl)) (ground arith)
              | inr (x', bad) ↦ kept (ground arith)
            ]
      | inr d ↦ kept (ground arith)
    ]
  ]

  delete_rule-Change :
      find_rule rid db.rule_sets ≡ some (i, r) → Change db ((serve (delete_rule rid) db).1)
  unfolding delete_rule get_rule_set
  delete_rule-Change at = elim (Option-cases (find (at_set i) db.rule_sets)) [
    | inl e ↦ kept (ground arith)
    | inr (x, e) ↦ elim (Bool-cases (in_draft x.status)) [
      | inl d ↦ edited i x (minus_rule rid) e d (λ rs. (refl, refl, refl, refl)) (ground arith)
      | inr d ↦ kept (ground arith)
    ]
  ]

create_rule_set-Change :
    (sb : Sandbox) (i : ℕ) (rids : ℕ → ℕ) (template_id : ℕ) (request : TransformRuleSetCreate)
    (db : Db)
    → Change db ((serve (create_rule_set sb i rids template_id request >> pure tt) db).1)
unfolding create_rule_set new_rule_set
create_rule_set-Change sb i rids template_id request db =
    elim (Bool-cases
      (any (is_pair request.source_version_id request.target_version_id) db.rule_sets)) [
        | inl taken ↦ kept (ground arith)
        | inr free ↦
            elim (validate_all-IsPassive sb request.rules
              (record { committed = db; working = db })) [
                | inl fine ↦
                    added (new_rule_set i rids template_id request) refl free (ground arith)
                | inr (x, bad) ↦ kept (ground arith)
              ]
      ]

pub after-Change : (sb : Sandbox) (r : Request) (db : Db) → Change db (after sb r db)
unfolding after handle update_rule delete_rule
after-Change sb (create i rids template_id request) db =
    create_rule_set-Change sb i rids template_id request db
after-Change sb (update i changelog) db = update_rule_set-Change i db changelog
after-Change sb (publish i) db = publish_rule_set-Change i db sb
after-Change sb (archive i) db = archive_rule_set-Change i db
after-Change sb (delete i) db = delete_rule_set-Change i db
after-Change sb (add_rule_to rid i request) db = add_rule-Change i db sb rid request
after-Change sb (change_rule rid u) db = elim (Option-cases (find_rule rid db.rule_sets)) [
  | inl e ↦ kept (ground arith)
  | inr ((i, r), e) ↦ update_rule-Change rid i r db sb u e
]
after-Change sb (drop_rule rid) db = elim (Option-cases (find_rule rid db.rule_sets)) [
  | inl e ↦ kept (ground arith)
  | inr ((i, r), e) ↦ delete_rule-Change rid i r db e
]
