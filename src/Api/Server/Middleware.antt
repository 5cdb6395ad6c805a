-- ===== src/Api/Server/Middleware.antt =====
-- internal/api/server/middleware.go and server.go: the chain around the router, which is a
-- parameter, on the standard library's response writer. `encode` is `json.Encoder.Encode`.
use keleustes.Base.{
  ℕ, ltb, Bool, true, false, Option, none, some, Str, str, ◌==◌, if◌then◌else◌, List, [], ◌∷◌, ◌++◌,
}
use keleustes.Api.Wire.{Problem}
use keleustes.Api.Auth.{Identity, admit, Admission, rejected, admitted}
use keleustes.Api.Server.Errors.{degraded_problem}

-- What a handler does to its `http.ResponseWriter`.
pub data Call : Type 0 where
  set_header : (name value : Str) → Call
  write_header : ℕ → Call
  write : Str → Call

-- The standard library's writer: the headers and the status that have gone out, and the body. Only
-- the first final status is sent; an informational one (below 200) is sent at once and does not
-- count; a write sends 200 where nothing was sent.
pub record Writer : Type 0 where
  pub headers : List (Str × Str)
  pub sent : Option ℕ
  pub body : List Str

abbrev pub send : Option ℕ → ℕ → Option ℕ
send none code = if ltb code 200 then none else some code
send (some c) _ = some c

abbrev set_unsent : Option ℕ → Str × Str → List (Str × Str) → List (Str × Str)
set_unsent none h hs = h ∷ hs
set_unsent (some _) h hs = hs

unfoldable pub perform : Call → Writer → Writer
perform (set_header name value) w = record w { headers = set_unsent w.sent (name, value) w.headers }
perform (write_header code) w = record w { sent = send w.sent code }
perform (write b) w = record w { sent = send w.sent 200; body = w.body ++ (b ∷ []) }

-- The status that the client gets once the handler has returned.
abbrev pub wire_status : Option ℕ → ℕ
wire_status none = 200
wire_status (some c) = c

pub record StatusRecorder : Type 0 where
  pub writer : Writer
  pub status : ℕ
  pub wrote_header : Bool

-- `WriteHeader` and `Write` of the recorder; `Header` is the embedded writer's.
unfoldable pub record_call : Call → StatusRecorder → StatusRecorder
unfolding perform
record_call (set_header name value) r = record r {
  writer = perform (set_header name value) r.writer;
}
record_call (write_header code) r = if r.wrote_header then r else record {
  writer = perform (write_header code) r.writer;
  status = code;
  wrote_header = true;
}
record_call (write b) r = record r { writer = perform (write b) r.writer; wrote_header = true }

unfoldable pub record_calls : List Call → StatusRecorder → StatusRecorder
unfolding record_call
record_calls [] r = r
record_calls (c ∷ cs) r = record_calls cs (record_call c r)

abbrev pub fresh_recorder : Writer → StatusRecorder
fresh_recorder w = record { writer = w; status = 200; wrote_header = false }

pub record Request : Type 0 where
  pub method : Str
  pub path : Str
  pub request_id : Str
  pub authorization : Str

-- What a handler does: its calls, and whether it panics after them.
pub record Outcome : Type 0 where
  pub calls : List Call
  pub panics : Bool

-- A line of the access log, and whether a panic was logged.
pub record AccessEntry : Type 0 where
  pub method : Str
  pub path : Str
  pub status : ℕ
  pub request_id : Str
  pub recovered : Bool

abbrev pub header_request_id : Str
header_request_id = str "X-Request-Id"

-- `requestIDMiddleware`: `minted` is the id that `newRequestID` makes.
unfoldable pub request_id_of : Str → Str → Str
unfolding ◌==◌
request_id_of minted id = if id == [] then minted else id

-- The response's writer with the header that this middleware sets.
abbrev pub start_writer : Str → Writer
start_writer id = record { headers = (header_request_id, id) ∷ []; sent = none; body = [] }

module _ (encode : Problem → Str) where
  -- `writeProblem`.
  unfoldable pub write_problem : Problem → List Call
  write_problem p =
      set_header (str "Content-Type") (str "application/problem+json")
      ∷ write_header p.status
      ∷ write (encode p)
      ∷ []

  abbrev auth_outcome : (Identity → Outcome) → Admission → Outcome
  unfolding write_problem
  auth_outcome next (rejected p) = record { calls = write_problem p; panics = false }
  auth_outcome next (admitted i) = next i

  -- `auth.Middleware` around a handler of the identity.
  unfoldable pub auth_middleware : Bool → (Identity → Outcome) → Str → Outcome
  unfolding write_problem admit
  auth_middleware required next header = auth_outcome next (admit required header)

  unfoldable pub recover_middleware : Outcome → List Call
  unfolding write_problem
  recover_middleware o = if o.panics then o.calls ++ write_problem degraded_problem else o.calls

  -- `loggingMiddleware` around `recoverMiddleware`, for a request with an id.
  unfoldable pub logging_middleware : Writer → Request → Str → Outcome → Writer × AccessEntry
  unfolding record_calls recover_middleware
  logging_middleware w req id o =
      let r = record_calls (recover_middleware o) (fresh_recorder w) in
      (
        r.writer,
        record {
          method = req.method;
          path = req.path;
          status = r.status;
          request_id = id;
          recovered = o.panics;
        },
      )

  -- `Handler`: requestID, logging, recover and auth around the router, which gets the identity and
  -- the request's id.
  unfoldable pub handle_http :
      Bool → (Request → Identity → Str → Outcome) → Str → Request → Writer × AccessEntry
  unfolding request_id_of auth_middleware logging_middleware
  handle_http required mux minted req =
      let id = request_id_of minted req.request_id in
      logging_middleware (start_writer id) req id
        (auth_middleware required (λ i. mux req i id) req.authorization)
