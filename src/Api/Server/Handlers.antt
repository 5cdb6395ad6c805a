-- ===== src/Api/Server/Handlers.antt =====
-- internal/api/server/handlers_read.go, handlers_write.go and server.go: the operations of the
-- contract over a read model. A result with an error is a response that was not made.
use keleustes.Base.{ℕ, Bool, Option, none, some, Str, str, ◌==◌, if◌then◌else◌, List, []}
use keleustes.Base.Int.{ℤ, pos}
use keleustes.Base.Result.{Result, ok, err}
use keleustes.Api.Port.{ReadError, ReadModel, ApplicationsPage}
use keleustes.Api.Wire.{
  Application, Matrix, Release, Promotion, DeploymentTarget, HealthCheck, Diff, Environment,
  AuditEvent, Problem,
}
use keleustes.Api.Auth.{Authorizer, allow_all}
use keleustes.Api.Server.Errors.{ServerError, not_implemented, read_error, on_error}
use keleustes.Api.Server.Authz.{authz_middleware}

-- The request objects of the generated router; an optional parameter is an option.
pub data Operation : Type 0 where
  get_applications : (project env region q : Option Str) → Operation
  get_applications_name : Str → Operation
  get_applications_name_matrix : Str → Operation
  get_applications_name_promotions : Str → Operation
  get_applications_name_releases : Str → Operation
  get_audit : (resource actor verb : Option Str) (from to : Option ℕ) (limit : Option ℤ) → Operation
  get_diff : (mode : Str) (left right : Option Str) → Operation
  get_environments : Operation
  get_promotions : Option Str → Operation
  get_promotions_id : Str → Operation
  get_releases : Option Str → Operation
  get_targets : Operation
  get_targets_name_drift : Str → Operation
  get_targets_name_health : Str → Operation
  post_promotions : Operation
  post_promotions_id_approve : Str → Operation
  post_promotions_id_cancel : Str → Operation
  post_promotions_id_retry : Str → Operation

-- The bodies of the answers with status 200.
pub data Response : Type 0 where
  applications_page : ApplicationsPage → Response
  application_body : Application → Response
  matrix_body : Matrix → Response
  promotions_body : List Promotion → Response
  promotion_body : Promotion → Response
  releases_body : List Release → Response
  audit_body : List AuditEvent → (next_cursor : Option Str) → Response
  diff_body : Diff → Response
  environments_body : List Environment → Response
  targets_body : List DeploymentTarget → Response
  health_body : List HealthCheck → Response

-- The operation ids, as the router passes them to its middlewares.
unfoldable pub operation_id : Operation → Str
operation_id (get_applications _ _ _ _) = str "GetApplications"
operation_id (get_applications_name _) = str "GetApplicationsName"
operation_id (get_applications_name_matrix _) = str "GetApplicationsNameMatrix"
operation_id (get_applications_name_promotions _) = str "GetApplicationsNamePromotions"
operation_id (get_applications_name_releases _) = str "GetApplicationsNameReleases"
operation_id (get_audit _ _ _ _ _ _) = str "GetAudit"
operation_id (get_diff _ _ _) = str "GetDiff"
operation_id get_environments = str "GetEnvironments"
operation_id (get_promotions _) = str "GetPromotions"
operation_id (get_promotions_id _) = str "GetPromotionsID"
operation_id (get_releases _) = str "GetReleases"
operation_id get_targets = str "GetTargets"
operation_id (get_targets_name_drift _) = str "GetTargetsNameDrift"
operation_id (get_targets_name_health _) = str "GetTargetsNameHealth"
operation_id post_promotions = str "PostPromotions"
operation_id (post_promotions_id_approve _) = str "PostPromotionsIDApprove"
operation_id (post_promotions_id_cancel _) = str "PostPromotionsIDCancel"
operation_id (post_promotions_id_retry _) = str "PostPromotionsIDRetry"

-- `if v := request.Params.X; v != nil { q.X = *v }` over the zero value.
abbrev or_empty : Option Str → Str
or_empty none = []
or_empty (some s) = s

abbrev or_zero : Option ℤ → ℤ
or_zero none = pos 0
or_zero (some n) = n

abbrev pub cursor_of : Str → Option Str
unfolding ◌==◌
cursor_of c = if c == [] then none else some c

-- `if err != nil { return nil, err }`, and the body otherwise.
abbrev pub respond :
    {A : Type 0} → (A → Response) → Result ReadError A → Result ServerError Response
respond f (ok a) = ok (f a)
respond f (err e) = err (read_error e)

-- The body of each of the four writes.
abbrev pub write_refused : Result ServerError Response
write_refused = err not_implemented

-- The handlers.
unfoldable pub dispatch : ReadModel → Operation → Result ServerError Response
dispatch rm (get_applications project env region q) = respond applications_page (
    rm.list_applications (record {
      project = or_empty project;
      env = or_empty env;
      region = or_empty region;
      q = or_empty q;
    }))
dispatch rm (get_applications_name name) = respond application_body (rm.get_application name)
dispatch rm (get_applications_name_matrix name) = respond matrix_body (rm.get_matrix name)
dispatch rm (get_applications_name_promotions name) =
    respond promotions_body (rm.list_application_promotions name)
dispatch rm (get_applications_name_releases name) =
    respond releases_body (rm.list_application_releases name)
dispatch rm (get_audit resource actor verb from to limit) =
    respond (λ page. audit_body page.items (cursor_of page.next_cursor))
      (rm.query_audit (record {
        resource = or_empty resource;
        actor = or_empty actor;
        verb = or_empty verb;
        from = from;
        to = to;
        limit = or_zero limit;
      }))
dispatch rm (get_diff mode left right) =
    respond diff_body
      (rm.get_diff (record { mode = mode; left = or_empty left; right = or_empty right }))
dispatch rm get_environments = respond environments_body rm.list_environments
dispatch rm (get_promotions state) = respond promotions_body (rm.list_promotions (or_empty state))
dispatch rm (get_promotions_id id) = respond promotion_body (rm.get_promotion id)
dispatch rm (get_releases project) = respond releases_body (rm.list_releases (or_empty project))
dispatch rm get_targets = respond targets_body rm.list_targets
dispatch rm (get_targets_name_drift name) = respond diff_body (rm.get_target_drift name)
dispatch rm (get_targets_name_health name) = respond health_body (rm.get_target_health name)
dispatch rm post_promotions = write_refused
dispatch rm (post_promotions_id_approve _) = write_refused
dispatch rm (post_promotions_id_cancel _) = write_refused
dispatch rm (post_promotions_id_retry _) = write_refused

-- `New`: the default of the authorizer.
unfoldable pub authorizer_of : Option Authorizer → Authorizer
unfolding allow_all
authorizer_of none = allow_all
authorizer_of (some can) = can

-- What a request gets: a body with status 200, or a problem and whether its cause was logged.
pub data Reply : Type 0 where
  success : Response → Reply
  failure : Problem × Bool → Reply

abbrev pub reply_of : Str → Result ServerError Response → Reply
unfolding on_error
reply_of path (ok body) = success body
reply_of path (err e) = failure (on_error path e)

-- A request with the parameters of an operation on a path, through the checkpoint to its handler.
unfoldable pub serve : Authorizer → ReadModel → Str → Operation → Reply
unfolding operation_id dispatch on_error
serve can rm path op = reply_of path (authz_middleware can (dispatch rm op) (operation_id op))
