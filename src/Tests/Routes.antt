-- ===== src/Tests/Routes.antt =====
-- Runs of internal/api/server/server.go over HTTP.
use keleustes.Base.{◌≡◌, refl, true, false, Str, str, ◌==◌, if◌then◌else◌, ℕ, List, [], ◌∷◌}
use keleustes.Base.Result.{Result, ok, err}
use keleustes.Api.CrdSource.Reads.{read_model}
use keleustes.Api.Port.{ReadModel}
use keleustes.Api.Auth.{admit, allow_all}
use keleustes.Api.Server.Handlers.{post_promotions, serve}
use keleustes.Api.Server.Middleware.{Call, Request, request_id_of}
use keleustes.Api.Server.Routes.{
  Codec, Routed, to_operation, unrouted, is_probe, is_spec, new_request_id, hex, handler,
  probe_handler, build_read_model,
}
use keleustes.Api.Server.Delivery.{exchange, ok_text, calls_of, for_admitted, reply_answer}
use keleustes.Api.Server.Answers.{handler_answers, handler_probe}
use keleustes.Tests.Fleet.{fleet}

abbrev codec : Codec
codec = record {
  Spec = Str;
  encode_problem = λ p. p.status ∷ [];
  encode_body = λ body. ok (str "{}");
  get_spec = ok (str "openapi: 3");
  marshal = λ spec. ok spec;
}

abbrev promote_request : Request
promote_request = record {
  method = str "POST";
  path = str "/api/v1/promotions";
  request_id = str "r7";
  authorization = str "Bearer t";
}

abbrev promote_only : Request → Routed
unfolding ◌==◌
promote_only req =
    if req.path == str "/api/v1/promotions" then to_operation post_promotions else unrouted []

abbrev kubelet_request : Request
kubelet_request = record {
  method = str "GET";
  path = str "/healthz";
  request_id = [];
  authorization = [];
}

abbrev entropy : Result Str (List ℕ)
entropy = ok (255 ∷ 10 ∷ [])

minted_id : new_request_id entropy ≡ str "ff0a"
unfolding new_request_id hex
minted_id = refl

not_a_probe : is_probe promote_request ≡ false
unfolding ◌==◌
not_a_probe = refl

not_the_spec : is_spec promote_request ≡ false
unfolding ◌==◌
not_the_spec = refl

promotes : promote_only promote_request ≡ to_operation post_promotions
unfolding ◌==◌
promotes = refl

a_probe : is_probe kubelet_request ≡ true
unfolding ◌==◌
a_probe = refl

handler_answers_example :
    handler codec allow_all (read_model fleet) promote_only true entropy promote_request
    ≡ exchange promote_request (request_id_of (new_request_id entropy) (str "r7")) (
        for_admitted codec (admit true (str "Bearer t")) (
          reply_answer codec
            (str "/api/v1/promotions")
            (serve allow_all (read_model fleet) (str "/api/v1/promotions") post_promotions)))
handler_answers_example =
    handler_answers codec allow_all (read_model fleet) promote_only true entropy promote_request
      post_promotions not_a_probe not_the_spec promotes

abbrev no_calls : Request → List Call
no_calls req = []

handler_probe_example :
    (handler codec allow_all (read_model fleet) promote_only true entropy kubelet_request
      ≡ exchange kubelet_request
          (request_id_of (new_request_id entropy) [])
          (for_admitted codec (admit true []) ok_text))
    × (probe_handler no_calls kubelet_request ≡ calls_of ok_text)
handler_probe_example =
    handler_probe codec allow_all (read_model fleet) promote_only true entropy kubelet_request
      no_calls a_probe

unknown_backend :
    build_read_model
      (λ s. s)
      (read_model fleet)
      (λ (m : ReadModel). m)
      (ok (read_model fleet))
      (str "etcd")
    ≡ err (str "unknown --read-model etcd: want fixtures or crd")
unfolding build_read_model ◌==◌
unknown_backend = refl
