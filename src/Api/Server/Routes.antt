-- ===== src/Api/Server/Routes.antt =====
-- internal/api/server/server.go, middleware.go and cmd/apiserver/main.go: the routes behind the
-- middleware chain, the probe listener and the choice of the backend. The generated router is a
-- parameter, which says what it makes of a request; `http.ServeMux` matches a pattern with GET for
-- GET and HEAD. The body of a HEAD response, which net/http drops, is still written here, and a
-- write to the client does not fail.
use mathlib.Core.Bool.{◌&&◌}
use keleustes.Base.{
  ℕ, Bool, ◌||◌, false, Str, str, ◌==◌, if◌then◌else◌, List, [], ◌∷◌, ◌++◌, ltb, ◌+◌, ◌/◌, ◌%◌,
}
use keleustes.Base.Result.{Result, ok, err, ◌>>=◌}
use keleustes.Api.Port.{ReadModel, other}
use keleustes.Api.Wire.{Problem}
use keleustes.Api.Auth.{Authorizer, Identity}
use keleustes.Api.Server.Errors.{ParamFault, read_error, param_error, on_error, degraded_problem}
use keleustes.Api.Server.Handlers.{Operation, Response, Reply, success, failure, serve}
use keleustes.Api.Server.Middleware.{
  Call, set_header, write_header, write, Writer, Request, Outcome, AccessEntry, write_problem,
  handle_http,
}

abbrev pub base_url : Str
base_url = str "/api/v1"

-- What the generated router makes of a request: an operation with its parameters, a fault of a
-- parameter with its text, or the answer of the mux where no pattern matches.
pub data Routed : Type 0 where
  to_operation : Operation → Routed
  bad_param : ParamFault → Str → Routed
  unrouted : List Call → Routed

-- `hex.EncodeToString`.
abbrev hex_digit : ℕ → ℕ
hex_digit n = if ltb n 10 then b'0' + n else b'W' + n

unfoldable pub hex : List ℕ → Str
hex [] = []
hex (b ∷ bs) = hex_digit (b / 16) ∷ hex_digit (b % 16) ∷ hex bs

-- `newRequestID` on what the source of entropy gives.
unfoldable pub new_request_id : Result Str (List ℕ) → Str
unfolding hex
new_request_id (ok bytes) = hex bytes
new_request_id (err _) = str "unknown"

-- `handleOK`, and the handler of the probe listener.
unfoldable pub handle_ok : List Call
handle_ok =
    set_header (str "Content-Type") (str "text/plain; charset=utf-8")
    ∷ write_header 200
    ∷ write (str "ok")
    ∷ []

-- Whether a request is for the pattern `GET path`.
abbrev pub is_get : Str → Request → Bool
unfolding ◌==◌
is_get path req = (req.method == str "GET" || req.method == str "HEAD") && req.path == path

abbrev pub is_probe : Request → Bool
is_probe req = is_get (str "/healthz") req || is_get (str "/readyz") req

abbrev pub is_spec : Request → Bool
is_spec req = is_get (base_url ++ str "/openapi.yaml") req

-- `probeHandler`; `unmatched` is the mux's answer to any other request.
unfoldable pub probe_handler : (Request → List Call) → Request → List Call
unfolding handle_ok
probe_handler unmatched req = if is_probe req then handle_ok else unmatched req

-- `json.Encoder.Encode` of a problem and of a body, `openapi.GetSpec`, and `yaml.Marshal` of what
-- it gives.
pub record Codec : Type 1 where
  pub Spec : Type 0
  pub encode_problem : Problem → Str
  pub encode_body : Response → Result Str Str
  pub get_spec : Result Str Spec
  pub marshal : Spec → Result Str Str

module _ (codec : Codec) where
  abbrev pub write_body : Str → Result Str Str → List Call
  unfolding on_error write_problem
  write_body path (ok text) =
      set_header (str "Content-Type") (str "application/json") ∷ write_header 200 ∷ write text ∷ []
  write_body path (err e) =
      write_problem codec.encode_problem (on_error path (read_error (other e))).0

  -- The end of an operation's generated handler: the body is written where it encodes, and
  -- `onError` gets the error of the handler or of the encoding otherwise.
  unfoldable pub visit : Str → Reply → List Call
  unfolding write_problem
  visit path (success body) = write_body path (codec.encode_body body)
  visit path (failure p) = write_problem codec.encode_problem p.0

  abbrev pub spec_calls : Result Str Str → List Call
  unfolding write_problem
  spec_calls (ok out) =
      set_header (str "Content-Type") (str "application/yaml") ∷ write_header 200 ∷ write out ∷ []
  spec_calls (err _) = write_problem codec.encode_problem degraded_problem

  -- `handleSpec`.
  unfoldable pub handle_spec : List Call
  handle_spec = spec_calls (codec.get_spec >>= codec.marshal)

  module _ (can : Authorizer) (rm : ReadModel) (route : Request → Routed) where
    -- The contract's routes.
    unfoldable pub contract_calls : Request → Routed → List Call
    unfolding visit serve on_error write_problem
    contract_calls req (to_operation op) = visit req.path (serve can rm req.path op)
    contract_calls req (bad_param fault text) =
        write_problem codec.encode_problem (on_error req.path (param_error fault text)).0
    contract_calls req (unrouted calls) = calls

    -- The mux: the contract, the spec and the probes.
    unfoldable pub mux : Request → Identity → Str → Outcome
    unfolding contract_calls handle_spec handle_ok
    mux req who id = record {
      calls =
          if is_probe req
          then handle_ok
          else if is_spec req
          then handle_spec
          else contract_calls req (route req);
      panics = false;
    }

    -- `Handler`, with what the source of entropy gives to a request without an id.
    unfoldable pub handler : Bool → Result Str (List ℕ) → Request → Writer × AccessEntry
    unfolding handle_http mux new_request_id
    handler required entropy req =
        handle_http codec.encode_problem required mux (new_request_id entropy) req

-- `buildReadModel`: the backend of the flag --read-model; `fixtures` is the one over the embedded
-- corpus, and `connect` makes a client for the cluster; `quote` is the verb %q.
unfoldable pub build_read_model :
    {Client : Type 0}
    → (quote : Str → Str) → (fixtures : ReadModel) → (crd : Client → ReadModel)
    → (connect : Result Str Client) → Str
    → Result Str ReadModel
unfolding ◌==◌
build_read_model quote fixtures crd connect backend =
    if backend == str "fixtures"
    then ok fixtures
    else if backend == str "crd"
    then (connect >>= λ c. ok (crd c))
    else err (str "unknown --read-model " ++ (quote backend ++ str ": want fixtures or crd"))
