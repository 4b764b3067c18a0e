-- ===== src/Submissions/Submitting.antt =====
-- How `submit_submission`, `create_submission` and `add_comment` end.
use onboarding_and_verificat.Prelude.{
  ℕ, ◌≡◌, refl, sym, ap, ◌⊎◌, inl, inr, Bool, true, false, none, some, List, [], ◌∷◌, ◌++◌, ◌is◌,
  arith, find, find-update, update, is_iff, find-passes, Bool-cases, Option-cases, subst,
}
use onboarding_and_verificat.Prelude.Json.{end}
use onboarding_and_verificat.Model.Status.{status_eq, status_eq_iff, draft}
use onboarding_and_verificat.Model.Submission.{Submission}
use onboarding_and_verificat.Model.Template.{TenantTemplate, TenantTemplateDefinition}
use onboarding_and_verificat.Model.Db.{Db}
use onboarding_and_verificat.Answers.{Platform}
use onboarding_and_verificat.Answers.Validate.{AnswerError, validate_form_data}
use onboarding_and_verificat.Session.{Error, Result, ok, err, Session}
use onboarding_and_verificat.Submissions.Access.{Context, may_access}
use onboarding_and_verificat.Submissions.Transitions.{moved}
use onboarding_and_verificat.Submissions.Service.{
  at_id, write, add_history, add_submission, history_row, submit_request, clean_results, validated,
  submit_submission, create_submission, SubmissionCreate, new_submission,
  get_template_with_active_version, product_known, parent_known, add_comment,
  SubmissionCommentCreate, new_comment,
}
use onboarding_and_verificat.Submissions.Outcomes.{
  Raises, row, saved, transitioned, get_submission_cases, transition_status_cases,
}

abbrev mark : Submission → Submission
mark s = record s { validation_results = clean_results }

-- What the validation leaves behind: the submission's row, and the database with it.
abbrev pub marked : Bool → Submission → Submission
marked false x = x
marked true x = mark x

abbrev pub marked_db : Bool → Submission → Db → Db
marked_db false x db = db
marked_db true x db = write x.id mark db

pub history-marked :
    (validate : Bool) (x : Submission) (db : Db)
    → (marked_db validate x db).status_history ≡ db.status_history
history-marked false x db = refl
history-marked true x db = refl

abbrev pub form_errors : Platform → Submission → Db → List AnswerError
form_errors p x db = validate_form_data p db.definitions x.template_version_id x.form_data

pub List-cases {ℓ} :
    {A : Type ℓ} (xs : List A) → (xs ≡ []) ⊎ ((y : A) × (ys : List A) × (xs ≡ y ∷ ys))
List-cases [] = inl refl
List-cases (y ∷ ys) = inr (y, ys, refl)

validated_cases :
    (p : Platform) (x : Submission) (validate : Bool) (s : Session)
    → Raises (validated p x validate s) s
      ⊎ ((validate ≡ true → form_errors p x s.working ≡ [])
          × (validated p x validate s
              ≡ (ok tt, record s { working = marked_db validate x s.working })))
unfolding validated
validated_cases p x false s = inr (λ h. cc, refl)
validated_cases p x true s = elim (List-cases (form_errors p x s.working)) [
  | inl clean ↦ inr (λ _. clean, rw clean)
  | inr (e, es, bad) ↦ inl (Error.validation_error (e ∷ es), rw bad)
]

pub row-marked :
    (i : ℕ) (validate : Bool) (x : Submission) (s : Session)
    → row i s ≡ some x
    → row i (record s { working = marked_db validate x s.working }) ≡ some (marked validate x)
row-marked i false x s h = h
row-marked i true x s h =
    let same : x.id ≡ i = (is_iff x.id i).0 (find-passes (at_id i) s.working.submissions x h) in
    subst (λ j. find (at_id i) (update (at_id j) mark s.working.submissions) ≡ some (mark x))
      (sym same) (find-update (at_id i) mark s.working.submissions x (λ y. refl) h)

-- A submission ends with an error, and what was committed stands, or it commits the transition.
abbrev pub SubmitOutcome : Platform → Context → ℕ → ℕ → Bool → Session → Type 0
SubmitOutcome p ctx hid i validate s =
    ((e : Error) × (t : Session) × (submit_submission p ctx hid i validate s ≡ (err e, t))
      × (t.committed ≡ s.committed))
    ⊎ ((x : Submission) × (row i s ≡ some x)
        × (may_access ctx x ≡ true)
        × (x.status ≡ draft)
        × (validate ≡ true → form_errors p x s.working ≡ [])
        × (submit_submission p ctx hid i validate s ≡ (
          ok (moved ctx submit_request (marked validate x)),
          saved (
              transitioned ctx hid i submit_request (marked validate x)
                (marked_db validate x s.working)),
        )))

pub submit_submission_cases :
    (p : Platform) (ctx : Context) (hid i : ℕ) (validate : Bool) (s : Session)
    → SubmitOutcome p ctx hid i validate s
unfolding submit_submission
submit_submission_cases p ctx hid i validate s = elim (get_submission_cases ctx i s) [
  | inl (e, raised) ↦ inl (e, s, ground arith, refl)
  | inr (x, found, own, got) ↦ elim (Bool-cases (status_eq x.status draft)) [
    | inr later ↦ inl (Error.not_submittable, s, ground arith, refl)
    | inl is_draft ↦ elim (validated_cases p x validate s) [
      | inl (e, bad) ↦ inl (e, s, ground arith, refl)
      | inr (clean, wrote) ↦
          elim (transition_status_cases ctx hid i submit_request
            (record s { working = marked_db validate x s.working })) [
              | inl (e, raised) ↦
                  inl (e, record s { working = marked_db validate x s.working }, ground arith, refl)
              | inr (y, found_y, _, _, _, done) ↦
                  let same : marked validate x ≡ y = cc (row-marked i validate x s found) in
                  inr (
                    x,
                    found,
                    own,
                    (status_eq_iff x.status draft).0 is_draft,
                    clean,
                    (let done' = rw (← same) at done in ground arith),
                  )
            ]
    ]
  ]
]

-- The template and the version that a new submission is locked to.
abbrev Located : ℕ → Db → TenantTemplate → TenantTemplateDefinition → Type 0
Located template_id db t v =
    (find (λ t. t.id is template_id) db.templates ≡ some t)
    × (t.active_version_id ≡ some v.id)
    × (find (λ d. d.id is v.id) db.definitions ≡ some v)

Located-cases :
    (template_id : ℕ) (s : Session)
    → Raises (get_template_with_active_version template_id s) s
      ⊎ ((t : TenantTemplate) × (v : TenantTemplateDefinition) × Located template_id s.working t v
          × (get_template_with_active_version template_id s ≡ (ok (t, v), s)))
unfolding get_template_with_active_version
Located-cases template_id s =
    elim (Option-cases (find (λ t. t.id is template_id) s.working.templates)) [
      | inl absent ↦ inl (Error.template_not_found, ground arith)
      | inr (t, e) ↦ elim (Option-cases t.active_version_id) [
        | inl inactive ↦ inl (Error.no_active_version, ground arith)
        | inr (j, a) ↦ elim (Option-cases (find (λ d. d.id is j) s.working.definitions)) [
          | inl lost ↦ inl (Error.active_version_not_found, ground arith)
          | inr (v, f) ↦
              let same : v.id ≡ j = (is_iff v.id j).0 (find-passes _ s.working.definitions v f) in
              inr (
                t,
                v,
                (
                  e,
                  rw same a,
                  subst (λ k. find (λ d. d.id is k) s.working.definitions ≡ some v) (sym same) f,
                ),
                ground arith,
              )
        ]
      ]
    ]

pub create_submission_cases :
    (ctx : Context) (i hid : ℕ) (request : SubmissionCreate) (s : Session)
    → Raises (create_submission ctx i hid request s) s
      ⊎ ((t : TenantTemplate) × (v : TenantTemplateDefinition) × Located request.template_id
            s.working t v
          × (create_submission ctx i hid request s ≡ (
            ok (new_submission ctx i request t v),
            saved (
                add_history
                  (history_row ctx hid i none draft (some "Submission created") end)
                  (add_submission (new_submission ctx i request t v) s.working)),
          )))
unfolding create_submission new_submission
create_submission_cases ctx i hid request s = elim (Located-cases request.template_id s) [
  | inl (e, raised) ↦ inl (e, ground arith)
  | inr (t, v, at, got) ↦
      let same =
        ap
          (λ (o : Result (TenantTemplate × TenantTemplateDefinition) × Session).
            product_known request.product_id o.1.working)
          got in
      elim (Bool-cases (product_known request.product_id s.working)) [
        | inl known ↦ inr (t, v, at, ground arith)
        | inr unknown ↦ inl (Error.product_not_found, ground arith)
      ]
]

pub add_comment_cases :
    (ctx : Context) (cid i : ℕ) (request : SubmissionCommentCreate) (s : Session)
    → Raises (add_comment ctx cid i request s) s
      ⊎ ((x : Submission) × (row i s ≡ some x)
          × (may_access ctx x ≡ true)
          × (add_comment ctx cid i request s ≡ (
            ok (new_comment ctx cid i request),
            saved (record s.working {
              comments = s.working.comments ++ new_comment ctx cid i request ∷ [];
            }),
          )))
unfolding add_comment
add_comment_cases ctx cid i request s = elim (get_submission_cases ctx i s) [
  | inl (e, raised) ↦ inl (e, ground arith)
  | inr (x, found, own, got) ↦ elim (Bool-cases (parent_known i request.parent_id s.working)) [
    | inl known ↦ inr (x, found, own, ground arith)
    | inr unknown ↦ inl (Error.parent_comment_not_found, ground arith)
  ]
]
