-- ===== src/Api/Server/Delivery.antt =====
-- internal/api/server: answers as calls of the response writer, and what the middleware chain makes of
-- them over the wire and in the access log.
use mathlib.Core.Path.{◌≡◌, refl, sym, ap, ◌∙◌}
use mathlib.Core.Logic.{◌⊎◌, inl, inr}
use keleustes.Base.{ℕ, Option, none, ltb, Bool, true, false, some, Str, str, List, [], ◌∷◌, In}
use keleustes.Base.Result.{Result, ok, err}
use keleustes.Api.Wire.{Problem}
use keleustes.Api.Auth.{
  Identity, Admission, rejected, admitted, admit, bearer_token, stub_identity, identity_from_token,
  unauthenticated,
}
use keleustes.Api.Server.Errors.{
  ServerError, problem, is_not_implemented, is_not_found, is_forbidden, as_forbidden,
  is_param_error, classify, on_error, degraded_problem,
}
use keleustes.Api.Server.Problems.{contract, classify_contract}
use keleustes.Api.Server.Handlers.{Response, Reply, success, failure, reply_of}
use keleustes.Api.Server.Middleware.{
  Call, set_header, write_header, write, Writer, Request, Outcome, AccessEntry, header_request_id,
  start_writer, record_call, record_calls, perform, write_problem, recover_middleware,
  logging_middleware, request_id_of, auth_middleware, handle_http,
}
use keleustes.Api.Server.Routes.{Codec, visit, write_body}

-- A status, a content type and a body.
abbrev pub Answer : Type 0
Answer = ℕ × Str × Str

-- What the client gets and the log keeps where a request with the id is answered.
abbrev pub exchange : Request → Str → Answer → Writer × AccessEntry
exchange req id (status, kind, text) = (
  record {
    headers = (str "Content-Type", kind) ∷ (header_request_id, id) ∷ [];
    sent = some status;
    body = text ∷ [];
  },
  record {
    method = req.method;
    path = req.path;
    status = status;
    request_id = id;
    recovered = false;
  },
)

abbrev pub ok_text : Answer
ok_text = (200, str "text/plain; charset=utf-8", str "ok")

abbrev pub calls_of : Answer → List Call
calls_of (status, kind, text) =
    set_header (str "Content-Type") kind ∷ write_header status ∷ write text ∷ []

abbrev pub IsFinal : Answer → Type 0
IsFinal a = ltb a.0 200 ≡ false

abbrev pub returned : List Call → Outcome
returned cs = record { calls = cs; panics = false }

module _ (codec : Codec) where
  abbrev pub problem_answer : Problem → Answer
  problem_answer p = (p.status, str "application/problem+json", codec.encode_problem p)

  abbrev pub body_answer : Str → Result Str Str → Answer
  body_answer path (ok text) = (200, str "application/json", text)
  body_answer path (err _) = problem_answer (record degraded_problem { instance_path = some path })

  -- The answer for a reply: its body, the 500 problem where that does not encode, or its problem.
  abbrev pub reply_answer : Str → Reply → Answer
  reply_answer path (success body) = body_answer path (codec.encode_body body)
  reply_answer path (failure (p, _)) = problem_answer p

  -- The answer for one who is admitted, and the problem otherwise.
  abbrev pub for_admitted : Admission → Answer → Answer
  for_admitted (rejected p) _ = problem_answer p
  for_admitted (admitted _) a = a

  delivered :
      (req : Request) (id : Str) (a : Answer)
      → IsFinal a
      → logging_middleware codec.encode_problem (start_writer id) req id (returned (calls_of a))
        ≡ exchange req id a
  unfolding logging_middleware recover_middleware record_calls record_call perform
  delivered req id (status, kind, text) f = rw f refl

  contract-IsFinal :
      (p : Problem) → In (p.status, p.problem_type) contract → IsFinal (problem_answer p)
  contract-IsFinal p (inl h) = ap (λ (e : ℕ × Str). ltb e.0 200) h
  contract-IsFinal p (inr (inl h)) = ap (λ (e : ℕ × Str). ltb e.0 200) h
  contract-IsFinal p (inr (inr (inl h))) = ap (λ (e : ℕ × Str). ltb e.0 200) h
  contract-IsFinal p (inr (inr (inr (inl h)))) = ap (λ (e : ℕ × Str). ltb e.0 200) h
  contract-IsFinal p (inr (inr (inr (inr (inl h))))) = ap (λ (e : ℕ × Str). ltb e.0 200) h
  contract-IsFinal p (inr (inr (inr (inr (inr x))))) = elim x [ ]

  body-IsFinal : (path : Str) (r : Result Str Str) → IsFinal (body_answer path r)
  unfolding problem
  body-IsFinal path (ok text) = refl
  body-IsFinal path (err e) = refl

  pub reply-IsFinal :
      (path : Str) (r : Result ServerError Response) → IsFinal (reply_answer path (reply_of path r))
  unfolding on_error
  reply-IsFinal path (ok body) = body-IsFinal path (codec.encode_body body)
  reply-IsFinal path (err e) = contract-IsFinal (classify e) (classify_contract e)

  write_body-calls :
      (path : Str) (r : Result Str Str) → write_body codec path r ≡ calls_of (body_answer path r)
  unfolding on_error write_problem classify is_not_implemented is_not_found is_forbidden
      as_forbidden is_param_error
  write_body-calls path (ok text) = refl
  write_body-calls path (err e) = refl

  pub visit-calls : (path : Str) (r : Reply) → visit codec path r ≡ calls_of (reply_answer path r)
  unfolding visit write_problem
  visit-calls path (success body) = write_body-calls path (codec.encode_body body)
  visit-calls path (failure (p, logged)) = refl

  admission_cases :
      (required : Bool) (header : Str)
      → (admit required header ≡ rejected unauthenticated)
        ⊎ ((who : Identity) × (admit required header ≡ admitted who))
  unfolding admit
  admission_cases false header = inr (stub_identity, refl)
  admission_cases true header = by_token (bearer_token header) refl
    where
      by_token :
          (t : Option Str)
          → bearer_token header ≡ t
          → (admit true header ≡ rejected unauthenticated)
            ⊎ ((who : Identity) × (admit true header ≡ admitted who))
      by_token none h = inl (rw h refl)
      by_token (some tok) h = inr (identity_from_token tok, rw h refl)

  auth_middleware-rejected :
      (required : Bool) (next : Identity → Outcome) (header : Str)
      → admit required header ≡ rejected unauthenticated
      → auth_middleware codec.encode_problem required next header
        ≡ returned (calls_of (problem_answer unauthenticated))
  unfolding auth_middleware write_problem
  auth_middleware-rejected required next header h = rw h refl

  auth_middleware-admitted :
      (required : Bool) (next : Identity → Outcome) (header : Str) (who : Identity)
      → admit required header ≡ admitted who
      → auth_middleware codec.encode_problem required next header ≡ next who
  unfolding auth_middleware
  auth_middleware-admitted required next header who h = rw h refl

  -- The chain around a mux that answers a request.
  pub through_chain :
      (required : Bool) (next : Request → Identity → Str → Outcome) (minted : Str) (req : Request)
      (a : Answer)
      → IsFinal a
      → ((who : Identity) (id : Str) → next req who id ≡ returned (calls_of a))
      → handle_http codec.encode_problem required next minted req
        ≡ exchange req
            (request_id_of minted req.request_id)
            (for_admitted (admit required req.authorization) a)
  unfolding handle_http unauthenticated
  through_chain required next minted req a f h =
      let id = request_id_of minted req.request_id in
      let log = logging_middleware codec.encode_problem (start_writer id) req id in
      let after = λ (x : Admission). exchange req id (for_admitted x a) in
      elim (admission_cases required req.authorization) [
        | inl e ↦
            ap log (auth_middleware-rejected required (λ i. next req i id) req.authorization e)
            ∙ delivered req id (problem_answer unauthenticated) refl
            ∙ sym (ap after e)
        | inr (who, e) ↦
            ap log (
              auth_middleware-admitted required (λ i. next req i id) req.authorization who e
              ∙ h who id)
            ∙ delivered req id a f
            ∙ sym (ap after e)
      ]
