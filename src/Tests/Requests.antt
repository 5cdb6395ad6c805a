-- ===== src/Tests/Requests.antt =====
-- Runs of internal/api/server.
use keleustes.Base.{
  ◌≡◌, ◌≢◌, ◌↔◌, refl, true, false, none, some, Str, str, ◌==◌, if◌then◌else◌, In, List, [], ◌∷◌,
}
use keleustes.Api.Wire
use keleustes.Api.Wire.{Problem}
use keleustes.Api.Port.{ApplicationsPage, other}
use keleustes.Api.CrdSource.Reads.{list_applications, read_model}
use keleustes.Api.CrdSource.Lookups.{no_filter}
use keleustes.Api.Auth.{Authorizer, Identity, allow_all, bearer_token, unauthenticated}
use keleustes.Api.Server.Errors.{ServerError, read_error, wrapped, on_error, degraded_problem}
use keleustes.Api.Server.Problems.{on_error_hides}
use keleustes.Api.Server.Handlers.{get_applications_name, post_promotions, failure, serve}
use keleustes.Api.Server.Checkpoint.{denied, serve-denied, not_written, serve_write}
use keleustes.Api.Server.Lookup.{missing_problem, serve_application}
use keleustes.Api.Server.Middleware.{
  Call, set_header, write_header, write, Writer, wire_status, fresh_recorder, record_calls, Request,
  Outcome, handle_http,
}
use keleustes.Api.Server.Recording.{perform_calls, recorder_transparent, unauthenticated_request}
use keleustes.Base.Result.{ok}
use keleustes.Api.CrdSource.Mapping.{application_to_api}
use keleustes.Tests.Fleet.{fleet, shop, find_condition}

abbrev store_error : ServerError
store_error = wrapped (str "list") (read_error (other (str "dial tcp 10.0.0.1")))

store_error_logged : (on_error (str "/api/v1/targets") store_error).1 ≡ true
unfolding on_error
store_error_logged = refl

on_error_hides_example :
    (on_error (str "/api/v1/targets") store_error).0
    ≡ record degraded_problem { instance_path = some (str "/api/v1/targets") }
on_error_hides_example = on_error_hides (str "/api/v1/targets") store_error store_error_logged

abbrev only_audit : Authorizer
only_audit verb resource scope = resource == str "audit"

promote_refused : only_audit (str "promote") (str "promotions") [] ≡ false
unfolding ◌==◌
promote_refused = refl

serve-denied_example :
    serve only_audit (read_model fleet) (str "/p") post_promotions
    ≡ denied (str "/p") (str "promote", str "promotions")
serve-denied_example =
    serve-denied only_audit (read_model fleet) (str "/p") post_promotions promote_refused

serve_write_example : serve allow_all (read_model fleet) (str "/p") post_promotions ≡ (
    if allow_all (str "promote") (str "promotions") []
    then not_written (str "/p")
    else denied (str "/p") (str "promote", str "promotions"))
serve_write_example = serve_write allow_all (read_model fleet) (str "/p") post_promotions refl

read_granted : allow_all (str "read") (str "applications") [] ≡ true
unfolding allow_all
read_granted = refl

abbrev fleet_page : ApplicationsPage
fleet_page = record { items = application_to_api find_condition shop ∷ []; as_of = 11 }

fleet_listed : list_applications fleet no_filter ≡ ok fleet_page
unfolding list_applications ◌==◌
fleet_listed = refl

serve_application_example :
    (serve allow_all (read_model fleet) (str "/a") (get_applications_name (str "cart"))
      ≡ failure (missing_problem (str "/a"), false))
    ↔ ((app : Wire.Application) → In app fleet_page.items → app.name ≢ str "cart")
serve_application_example =
    serve_application allow_all fleet (str "/a") (str "cart") fleet_page read_granted fleet_listed

abbrev new_writer : Writer
new_writer = record { headers = []; sent = none; body = [] }

abbrev some_calls : List Call
some_calls =
    set_header (str "A") (str "b") ∷ write_header 404 ∷ write (str "x") ∷ write_header 500 ∷ []

recorder_transparent_example :
    ((record_calls some_calls (fresh_recorder new_writer)).writer
      ≡ perform_calls some_calls new_writer)
    × ((record_calls some_calls (fresh_recorder new_writer)).status
        ≡ wire_status (perform_calls some_calls new_writer).sent)
recorder_transparent_example = recorder_transparent some_calls new_writer refl refl

abbrev encode_status : Problem → Str
encode_status p = p.status ∷ []

abbrev panicking : Request → Identity → Str → Outcome
panicking req i id = record { calls = []; panics = true }

abbrev get_request : Request
get_request = record { method = str "GET"; path = str "/a"; request_id = []; authorization = [] }

no_bearer : bearer_token [] ≡ none
unfolding bearer_token
no_bearer = refl

unauthenticated_request_example :
    ((handle_http encode_status true panicking (str "r1") get_request).0.sent ≡ some 401)
    × ((handle_http encode_status true panicking (str "r1") get_request).0.body
        ≡ encode_status unauthenticated ∷ [])
    × ((handle_http encode_status true panicking (str "r1") get_request).1.status ≡ 401)
unauthenticated_request_example =
    unauthenticated_request encode_status panicking (str "r1") get_request no_bearer
