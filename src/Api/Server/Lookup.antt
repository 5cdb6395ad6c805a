-- ===== src/Api/Server/Lookup.antt =====
-- internal/api/server over internal/api/readmodel/crdsource: a request for one application.
use mathlib.Core.Path.{◌≡◌, refl, sym, ap, ◌∙◌}
use mathlib.Core.Logic.{◌↔◌}
use keleustes.Base.{ℕ, eqb, ◌≢◌, true, false, some, none, Str, str, In, []}
use keleustes.Base.Result.{Result, ok, err}
use keleustes.Api.Wire
use keleustes.Api.Wire.{Problem}
use keleustes.Api.Port.{ApplicationsPage, ReadError, not_found, forbidden, other}
use keleustes.Api.CrdSource.Reads.{Source, list_applications, get_application, read_model}
use keleustes.Api.CrdSource.Lookups.{no_filter, get_application_missing}
use keleustes.Api.Auth.{Authorizer}
use keleustes.Api.Server.Errors.{
  read_error, on_error, problem, classify, is_not_implemented, is_not_found, is_param_error,
  is_forbidden, as_forbidden,
}
use keleustes.Api.Server.Handlers.{
  get_applications_name, dispatch, respond, reply_of, Reply, success, failure, application_body,
  serve,
}
use keleustes.Api.Server.Checkpoint.{serve_granted}

abbrev pub missing_problem : Str → Problem
missing_problem path = record {
  detail = some (str "the requested resource does not exist");
  instance_path = some path;
  resource = none;
  status = 404;
  title = str "Not found";
  problem_type = str "https://keleustes.skaphos.io/errors/not_found";
  verb = none;
}

dispatch_read :
    (s : Source) (name path : Str)
    → get_application s name ≡ err not_found
    → reply_of path (dispatch (read_model s) (get_applications_name name))
      ≡ failure (missing_problem path, false)
unfolding dispatch on_error classify problem is_not_implemented is_not_found
dispatch_read s name path h = rw h refl

-- The status of a reply that is a problem, and 200 otherwise.
abbrev reply_status : Reply → ℕ
reply_status (success _) = 200
reply_status (failure (p, _)) = p.status

-- Of the errors of a read only `not_found` has the status 404.
read_status :
    (path : Str) (e : ReadError)
    → eqb (on_error path (read_error e)).0.status 404 ≡ true
    → e ≡ not_found
unfolding on_error classify problem is_not_implemented is_not_found is_param_error is_forbidden
    as_forbidden
read_status path not_found h = refl
read_status path forbidden h = cc
read_status path (other _) h = cc

replied_missing :
    (path : Str) (r : Result ReadError Wire.Application)
    → reply_of path (respond application_body r) ≡ failure (missing_problem path, false)
    → r ≡ err not_found
unfolding on_error
replied_missing path (ok app) h = cc
replied_missing path (err e) h =
    ap (λ e. err e) (read_status path e (ap (λ r. eqb (reply_status r) 404) h))

-- Over the custom resources, with the read granted and the listing readable: a request for an
-- application is answered with the 404 problem, and nothing for the log, exactly if no application
-- of the listing without a filter has the name.
pub serve_application :
    (can : Authorizer) (s : Source) (path name : Str) (page : ApplicationsPage)
    → can (str "read") (str "applications") [] ≡ true
    → list_applications s no_filter ≡ ok page
    → (serve can (read_model s) path (get_applications_name name)
        ≡ failure (missing_problem path, false))
      ↔ ((app : Wire.Application) → In app page.items → app.name ≢ name)
unfolding dispatch
serve_application can s path name page g h =
    let served = serve_granted can (read_model s) path (get_applications_name name) g in
    let missing' = get_application_missing s name page h in
    (
      (λ r. missing'.0 (replied_missing path (get_application s name) (sym served ∙ r))),
      (λ n. served ∙ dispatch_read s name path (missing'.1 n)),
    )
