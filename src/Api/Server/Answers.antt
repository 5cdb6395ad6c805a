-- ===== src/Api/Server/Answers.antt =====
-- internal/api/server: what goes over the wire and to the access log for a request.
use mathlib.Core.Path.{◌≡◌, refl, ap}
use keleustes.Base.{ℕ, Bool, true, false, Str, List}
use keleustes.Base.Result.{Result}
use keleustes.Api.Port.{ReadModel}
use keleustes.Api.Auth.{Authorizer, Identity, admit}
use keleustes.Api.Server.Handlers.{Operation, serve, dispatch, operation_id}
use keleustes.Api.Server.Authz.{authz_middleware}
use keleustes.Api.Server.Middleware.{Call, Request, request_id_of}
use keleustes.Api.Server.Routes.{
  Codec, Routed, to_operation, is_probe, is_spec, handle_ok, probe_handler, contract_calls, mux,
  new_request_id, handler,
}
use keleustes.Api.Server.Delivery.{
  exchange, ok_text, calls_of, returned, for_admitted, reply_answer, reply-IsFinal, visit-calls,
  through_chain,
}

module _ (codec : Codec) (can : Authorizer) (rm : ReadModel) (route : Request → Routed) where
  mux-operation :
      (req : Request) (op : Operation) (who : Identity) (id : Str)
      → is_probe req ≡ false
      → is_spec req ≡ false
      → route req ≡ to_operation op
      → mux codec can rm route req who id
        ≡ returned (calls_of (reply_answer codec req.path (serve can rm req.path op)))
  unfolding mux contract_calls
  mux-operation req op who id p s r =
      rw (p, s, r) (ap returned (visit-calls codec req.path (serve can rm req.path op)))

  -- A request that the generated router takes for an operation, at none of the static routes, is
  -- answered over the wire by what the operation's reply says: a body that encodes with status
  -- 200, the 500 problem in the place of one that does not, or the problem with its own status.
  -- One who is not admitted gets the 401 problem. The response carries the request's id, and the
  -- access log has that id and the status that went out.
  pub handler_answers :
      (required : Bool) (entropy : Result Str (List ℕ)) (req : Request) (op : Operation)
      → is_probe req ≡ false
      → is_spec req ≡ false
      → route req ≡ to_operation op
      → handler codec can rm route required entropy req
        ≡ exchange req (request_id_of (new_request_id entropy) req.request_id) (
            for_admitted codec
              (admit required req.authorization)
              (reply_answer codec req.path (serve can rm req.path op)))
  unfolding handler serve
  handler_answers required entropy req op p s r =
      through_chain codec required (mux codec can rm route) (new_request_id entropy) req
        (reply_answer codec req.path (serve can rm req.path op))
        (reply-IsFinal codec req.path (authz_middleware can (dispatch rm op) (operation_id op)))
        (λ who id. mux-operation req op who id p s r)

  mux_probe :
      (req : Request) (who : Identity) (id : Str)
      → is_probe req ≡ true
      → mux codec can rm route req who id ≡ returned (calls_of ok_text)
  unfolding mux handle_ok
  mux_probe req who id p = rw p refl

  -- A probe of the API listener passes the same chain as any request, so where a token is
  -- required and it has none, it gets the 401 problem, and the fixed text with status 200
  -- otherwise; on the probe listener it gets that text whatever its headers are.
  pub handler_probe :
      (required : Bool) (entropy : Result Str (List ℕ)) (req : Request)
      (unmatched : Request → List Call)
      → is_probe req ≡ true
      → (handler codec can rm route required entropy req
          ≡ exchange req
              (request_id_of (new_request_id entropy) req.request_id)
              (for_admitted codec (admit required req.authorization) ok_text))
        × (probe_handler unmatched req ≡ calls_of ok_text)
  unfolding handler probe_handler handle_ok
  handler_probe required entropy req unmatched p = (
    through_chain codec required (mux codec can rm route) (new_request_id entropy) req ok_text refl
        (λ who id. mux_probe req who id p),
    rw p refl,
  )
