-- ===== src/Api/Server/Authz.antt =====
-- internal/api/server/authz.go: the verb and the resource of an operation, and the checkpoint.
use keleustes.Base.{Str, str, ◌==◌, starts_with, trim_prefix, to_lower, if◌then◌else◌, []}
use keleustes.Base.Result.{Result, err}
use keleustes.Api.Auth.{Authorizer}
use keleustes.Api.Server.Errors.{ServerError, forbidden_error}

-- The switch of `resourceOf`, on the name without its verb.
unfoldable pub resource_of_name : Str → Str
unfolding starts_with to_lower
resource_of_name name =
    if starts_with (str "Applications") name
    then str "applications"
    else if starts_with (str "Promotions") name
    then str "promotions"
    else if starts_with (str "Releases") name
    then str "releases"
    else if starts_with (str "Targets") name
    then str "targets"
    else if starts_with (str "Environments") name
    then str "environments"
    else if starts_with (str "Diff") name
    then str "diff"
    else if starts_with (str "Audit") name
    then str "audit"
    else to_lower name

unfoldable pub resource_of : Str → Str
unfolding resource_of_name trim_prefix
resource_of operation_id = resource_of_name (trim_prefix (str "Get") operation_id)

-- A pair (verb, resource).
unfoldable pub authz_for_operation : Str → Str × Str
unfolding ◌==◌ resource_of
authz_for_operation operation_id =
    if operation_id == str "PostPromotions"
    then (str "promote", str "promotions")
    else if operation_id == str "PostPromotionsIDApprove"
    then (str "approve", str "promotions")
    else if operation_id == str "PostPromotionsIDCancel"
    then (str "cancel", str "promotions")
    else if operation_id == str "PostPromotionsIDRetry"
    then (str "retry", str "promotions")
    else (str "read", resource_of operation_id)

-- `authzMiddleware`: the handler runs where the authorizer allows the verb on the resource, with an
-- empty scope.
abbrev pub authz_middleware :
    {A : Type 0} → Authorizer → Result ServerError A → Str → Result ServerError A
unfolding authz_for_operation
authz_middleware can f operation_id =
    let required = authz_for_operation operation_id in
    if can required.0 required.1 [] then f else err (forbidden_error required.0 required.1)
