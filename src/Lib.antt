-- ===== src/Lib.antt =====
-- Verification library for the onboarding and verification services: the submissions of onboarding
-- forms, their workflow, the validation of their answers and their verification; the versions of
-- templates, the products and the transform rule sets around them.
--
-- The program. A tenant has templates; a template has versions (definitions), one of which is active;
-- a version has questions, in groups or not. A maker creates a submission, which is locked to the
-- active version, fills in its form and submits it; a checker reviews it. Each request runs in a
-- database session of its own, and raises an HTTPException when it is refused.
--
-- The parts, and the code they are about:
--   Prelude      shared names: tests on numbers, lists, texts (str.strip, str.split), integers and
--                their decimal digits, JSON values, dicts as association lists.
--   Model        app/models/enums.py and app/models/tenant/{submission,answer,template,transform,
--                product,verification}.py and app/models/public/baseline_template.py: the tables as
--                records, and Db, the tables together. Ids (UUIDs) and times are numbers; the step runs
--                of a verification are in its run. Limits on the length of a text column are left out.
--   Answers      app/services/submissions/answer_validator.py. Questions: _load_questions and
--                _is_visible. Checks: _validate_question. Validate: _coerce_answer_value,
--                validate_form_data, validate_answers. Meaning and Report say what an acceptable
--                answer and a settled question are, independently of the checks. Listed does so for a list
--                of answers: the last answer to a question counts.
--   Session      app/db/session.py (get_tenant_session) and the errors: an Action takes a session and
--                returns a result and the session; `commit` makes its writes durable, and what is
--                not committed when the request ends is lost. Keeps: invariants that the steps of a
--                handler keep.
--   Submissions  app/services/submissions/service.py, app/schemas/submissions/submission.py,
--                app/core/context.py and the writing handlers of app/routes/submissions/routes.py, but for
--                the two of the verification, which are in Verifications.Requests.
--                Access: the request's context, _is_maker_only, _enforce_maker_ownership.
--                Transitions: VALID_TRANSITIONS, the four-eyes rule and the effect of a transition.
--                Service: the operations, under the names of the code. Requests: one request of
--                any kind (handle), what is committed after it (after), the changes that it can
--                make (Change), and any sequence of requests (Reach). Outcomes and Submitting tell how
--                each operation ends.
--   Transforms   app/services/transforms/rule_service.py, app/schemas/transforms/rule.py and the
--                handlers of app/routes/transforms/routes.py that write rule sets: the rules that map
--                the answers of one version to another. Service: the operations on sets. Rules: the
--                operations on the rules of a set. Requests: one request of any kind, the changes
--                that it can make, and any sequence of requests; Changes proves that these are all.
--   Products     app/services/products/service.py, app/models/tenant/product.py,
--                app/schemas/products/product.py and the writing handlers of
--                app/routes/products/routes.py: the products of a tenant and their life cycle.
--   Templates    app/services/tenant_templates/service.py, app/schemas/tenant_templates/template.py and
--                the handlers of app/routes/tenant_templates/routes.py that update, review, publish
--                and delete a version (definition) of a template. Publish: the publication, without
--                the rule set that is generated after its commit. The setting AUTH_ENABLED is on.
--                Config: get_tenant_template_definition_with_config, its rules merged over the baseline's.
--   Verifications  app/services/verifications/service.py, app/models/tenant/verification.py and the
--                activities of app/temporal/activities/verification.py: a run of configured steps that
--                depend on one another, and the decision on their outcomes. Values: references to
--                answers and to other steps. Steps: the challenges and the comparison. Decision: the
--                facts and the rules. Advance: the loop of _advance_run, by passes (sweep) that are
--                repeated (rounds), and _finalize_run. Actions: _apply_user_action. Flow:
--                _load_flow_context and _initialize_steps. Service: start, action, and the two calls of the
--                workflow. Requests: any sequence of them. Whether a request is handed to a Temporal
--                workflow, whose calls are requests of their own, is an argument (Dispatch).
--   Authz        app/core/authz.py, app/services/authz/policy.py, app/models/public/authz_policy.py and
--                the writing handlers of app/routes/authz/policy.py. Permissions: the implications,
--                their closure and the check of a role. Service: the defaults, _merge_role_permissions and
--                the updates of policies. Columns: _merge_role_columns, one permission at a time,
--                enforce_write_columns, and what the routes of submissions that read, list and search
--                mask of a row (_mask_fields). A set is a list. Requests: any sequence of updates.
--
-- Parameters. Python's re.fullmatch, date.fromisoformat and the str of a container are the fields of
-- the record Platform: any functions. The verdicts of app/services/transforms/sandbox.py, which
-- evaluates expressions with the package simpleeval, are the fields of the record Sandbox: any
-- functions. Python's float arithmetic, float() and int(), equality of JSON values,
-- SequenceMatcher.ratio, str.lower and getattr along a path are the fields of the record Python: any
-- functions. The ids that the database makes (uuid7) are arguments; that a new submission's id is
-- new is the hypothesis IsFresh.
--
-- Bounds. The decimal digits of an integer have the number itself as fuel. The rounds of _advance_run
-- have one more than the number of steps: each round but the last leaves one step fewer to move, so
-- they end before it runs out. The loop of _permission_closure has three for each permission given,
-- and one, since none implies more than two others in a row. All other recursion is structural.
--
-- Not modelled: listing and searching of submissions, the merged template but for its rules,
-- authentication, the cache of policies, the serialised views of a verification, the generation of rule sets from
-- two versions, their application to submissions, the creation of templates and versions, their
-- groups and questions, baseline templates and tenants, the database's own constraints other than
-- the unique index on product codes (alembic/versions/002_tenant_schema_tables.py), which code_taken
-- states, and the unique step keys of a run, what a deletion does to the logs of transformations, which
-- are no table of the model, the links of a submission that are set to null when a product or a version
-- is deleted, an explicit null for `form_data` in an update, which a column refuses, and interleavings of
-- requests inside one transaction: requests run one after the other.
pub mod Prelude
pub mod Model
pub mod Answers
pub mod Session
pub mod Submissions
pub mod Transforms
pub mod Products
pub mod Templates
pub mod Verifications
pub mod Authz
