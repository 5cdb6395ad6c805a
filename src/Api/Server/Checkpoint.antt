-- ===== src/Api/Server/Checkpoint.antt =====
-- internal/api/server/authz.go: what the checkpoint lets through, over all the operations.
use mathlib.Core.Path.{◌≡◌, refl, ap, ◌∙◌}
use keleustes.Base.{Bool-cases, Bool, true, false, none, some, Str, str, ◌==◌, if◌then◌else◌, []}
use mathlib.Core.Logic.{inl, inr}
use keleustes.Base.Result.{Result, err}
use keleustes.Api.Port.{ReadModel}
use keleustes.Api.Auth.{Authorizer}
use keleustes.Api.Server.Errors.{
  ServerError, not_implemented_text, forbidden_error, str_ptr_if_set, classify, is_not_implemented,
  is_not_found, is_param_error, as_forbidden, problem, on_error, forbidden_problem,
}
use keleustes.Api.Server.Authz.{authz_for_operation}
use keleustes.Api.Server.Handlers.{
  Operation, get_applications, get_applications_name, get_applications_name_matrix,
  get_applications_name_promotions, get_applications_name_releases, get_audit, get_diff,
  get_environments, get_promotions, get_promotions_id, get_releases, get_targets,
  get_targets_name_drift, get_targets_name_health, post_promotions, post_promotions_id_approve,
  post_promotions_id_cancel, post_promotions_id_retry, operation_id, dispatch, Reply, failure,
  serve, reply_of,
}

-- The permission that each operation asks for.
abbrev pub permission : Operation → Str × Str
permission (get_applications _ _ _ _) = (str "read", str "applications")
permission (get_applications_name _) = (str "read", str "applications")
permission (get_applications_name_matrix _) = (str "read", str "applications")
permission (get_applications_name_promotions _) = (str "read", str "applications")
permission (get_applications_name_releases _) = (str "read", str "applications")
permission (get_audit _ _ _ _ _ _) = (str "read", str "audit")
permission (get_diff _ _ _) = (str "read", str "diff")
permission get_environments = (str "read", str "environments")
permission (get_promotions _) = (str "read", str "promotions")
permission (get_promotions_id _) = (str "read", str "promotions")
permission (get_releases _) = (str "read", str "releases")
permission get_targets = (str "read", str "targets")
permission (get_targets_name_drift _) = (str "read", str "targets")
permission (get_targets_name_health _) = (str "read", str "targets")
permission post_promotions = (str "promote", str "promotions")
permission (post_promotions_id_approve _) = (str "approve", str "promotions")
permission (post_promotions_id_cancel _) = (str "cancel", str "promotions")
permission (post_promotions_id_retry _) = (str "retry", str "promotions")

authz_for_operation-operation_id :
    (op : Operation) → authz_for_operation (operation_id op) ≡ permission op
unfolding authz_for_operation operation_id
authz_for_operation-operation_id (get_applications _ _ _ _) = refl
authz_for_operation-operation_id (get_applications_name _) = refl
authz_for_operation-operation_id (get_applications_name_matrix _) = refl
authz_for_operation-operation_id (get_applications_name_promotions _) = refl
authz_for_operation-operation_id (get_applications_name_releases _) = refl
authz_for_operation-operation_id (get_audit _ _ _ _ _ _) = refl
authz_for_operation-operation_id (get_diff _ _ _) = refl
authz_for_operation-operation_id get_environments = refl
authz_for_operation-operation_id (get_promotions _) = refl
authz_for_operation-operation_id (get_promotions_id _) = refl
authz_for_operation-operation_id (get_releases _) = refl
authz_for_operation-operation_id get_targets = refl
authz_for_operation-operation_id (get_targets_name_drift _) = refl
authz_for_operation-operation_id (get_targets_name_health _) = refl
authz_for_operation-operation_id post_promotions = refl
authz_for_operation-operation_id (post_promotions_id_approve _) = refl
authz_for_operation-operation_id (post_promotions_id_cancel _) = refl
authz_for_operation-operation_id (post_promotions_id_retry _) = refl

-- The reply to a request whose permission the authorizer denies.
abbrev pub denied : Str → Str × Str → Reply
denied path (verb, resource) = failure (
  record forbidden_problem {
    verb = some verb;
    resource = some resource;
    instance_path = some path;
  },
  false,
)

abbrev by_permission :
    {A : Type 0} → Authorizer → Result ServerError A → Str × Str → Result ServerError A
by_permission can f p = if can p.0 p.1 [] then f else err (forbidden_error p.0 p.1)

at_checkpoint :
    (can : Authorizer) (rm : ReadModel) (path : Str) (op : Operation) (b : Bool)
    → can (permission op).0 (permission op).1 [] ≡ b
    → serve can rm path op
      ≡ reply_of path
          (if b then dispatch rm op else err (forbidden_error (permission op).0 (permission op).1))
unfolding serve authz_for_operation operation_id dispatch on_error
at_checkpoint can rm path op b h =
    ap (λ p. reply_of path (by_permission can (dispatch rm op) p))
      (authz_for_operation-operation_id op)
    ∙ ap
        (λ b.
          reply_of path (
            if b
            then dispatch rm op
            else err (forbidden_error (permission op).0 (permission op).1)))
        h

on_error-denied :
    (path : Str) (op : Operation)
    → failure (on_error path (forbidden_error (permission op).0 (permission op).1))
      ≡ denied path (permission op)
unfolding on_error str_ptr_if_set classify is_not_implemented is_not_found is_param_error
    as_forbidden ◌==◌
on_error-denied path (get_applications _ _ _ _) = refl
on_error-denied path (get_applications_name _) = refl
on_error-denied path (get_applications_name_matrix _) = refl
on_error-denied path (get_applications_name_promotions _) = refl
on_error-denied path (get_applications_name_releases _) = refl
on_error-denied path (get_audit _ _ _ _ _ _) = refl
on_error-denied path (get_diff _ _ _) = refl
on_error-denied path get_environments = refl
on_error-denied path (get_promotions _) = refl
on_error-denied path (get_promotions_id _) = refl
on_error-denied path (get_releases _) = refl
on_error-denied path get_targets = refl
on_error-denied path (get_targets_name_drift _) = refl
on_error-denied path (get_targets_name_health _) = refl
on_error-denied path post_promotions = refl
on_error-denied path (post_promotions_id_approve _) = refl
on_error-denied path (post_promotions_id_cancel _) = refl
on_error-denied path (post_promotions_id_retry _) = refl

-- An operation whose permission the authorizer denies is answered with status 403, a problem that
-- names the verb and the resource, and nothing for the log, whatever the read model holds.
pub serve-denied :
    (can : Authorizer) (rm : ReadModel) (path : Str) (op : Operation)
    → can (permission op).0 (permission op).1 [] ≡ false
    → serve can rm path op ≡ denied path (permission op)
unfolding on_error
serve-denied can rm path op h = at_checkpoint can rm path op false h ∙ on_error-denied path op

-- An operation whose permission is granted is answered by its handler: with the body, or with the
-- problem of its error.
pub serve_granted :
    (can : Authorizer) (rm : ReadModel) (path : Str) (op : Operation)
    → can (permission op).0 (permission op).1 [] ≡ true
    → serve can rm path op ≡ reply_of path (dispatch rm op)
serve_granted can rm path op h = at_checkpoint can rm path op true h

-- A reply that nothing of a read model has gone into.
abbrev pub not_written : Str → Reply
not_written path = failure (
  record {
    detail = some not_implemented_text;
    instance_path = some path;
    resource = none;
    status = 501;
    title = str "Not implemented";
    problem_type = str "https://keleustes.skaphos.io/errors/not_implemented";
    verb = none;
  },
  false,
)

abbrev pub is_post : Operation → Bool
is_post post_promotions = true
is_post (post_promotions_id_approve _) = true
is_post (post_promotions_id_cancel _) = true
is_post (post_promotions_id_retry _) = true
is_post _ = false

dispatch_post :
    (rm : ReadModel) (path : Str) (op : Operation)
    → is_post op ≡ true
    → reply_of path (dispatch rm op) ≡ not_written path
unfolding dispatch on_error problem
dispatch_post rm path post_promotions h = refl
dispatch_post rm path (post_promotions_id_approve _) h = refl
dispatch_post rm path (post_promotions_id_cancel _) h = refl
dispatch_post rm path (post_promotions_id_retry _) h = refl
dispatch_post rm path _ h = absurd (no h)
  where
    no : false ≡ true → ⊥
    no e = cc

-- A write, whoever asks and whatever the read model holds, is never answered with a body: the reply
-- is the 403 problem with the operation's permission where the authorizer denies that, and the 501
-- problem of the missing write path where it is granted.
pub serve_write :
    (can : Authorizer) (rm : ReadModel) (path : Str) (op : Operation)
    → is_post op ≡ true
    → serve can rm path op ≡ (
        if can (permission op).0 (permission op).1 []
        then not_written path
        else denied path (permission op))
serve_write can rm path op w = elim (Bool-cases (can (permission op).0 (permission op).1 [])) [
  | inl granted ↦ rw granted (serve_granted can rm path op granted ∙ dispatch_post rm path op w)
  | inr refused ↦ rw refused (serve-denied can rm path op refused)
]
