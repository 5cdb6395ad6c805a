-- ===== src/Api/Server/Recording.antt =====
-- internal/api/server/middleware.go: the access log against what the client gets.
use mathlib.Core.Path.{◌≡◌, refl, sym, ap, subst, ◌∙◌}
use mathlib.Core.Logic.{◌⊎◌, inl, inr}
use mathlib.Core.Bool.{◌&&◌}
use keleustes.Base.{
  ℕ, ltb, Bool, true, false, not, Option, none, some, Str, if◌then◌else◌, List, [], ◌∷◌, all,
}
use keleustes.Api.Wire.{Problem}
use keleustes.Api.Auth.{Identity, stub_identity, admit, bearer_token, unauthenticated}
use keleustes.Api.Server.Errors.{problem, degraded_problem}
use keleustes.Api.Server.Middleware.{
  Call, set_header, write_header, write, Writer, send, perform, wire_status, StatusRecorder,
  record_call, record_calls, fresh_recorder, Request, Outcome, write_problem, auth_middleware,
  recover_middleware, request_id_of, handle_http, logging_middleware, start_writer,
}

-- A call that sends no informational status.
abbrev pub is_final : Call → Bool
is_final (set_header _ _) = true
is_final (write_header code) = not (ltb code 200)
is_final (write _) = true

abbrev Agrees : StatusRecorder → Type 0
Agrees r =
    ((r.wrote_header ≡ true) × (r.writer.sent ≡ some r.status))
    ⊎ ((r.wrote_header ≡ false) × (r.writer.sent ≡ none) × (r.status ≡ 200))

send_final :
    (code : ℕ) {sent : Option ℕ}
    → sent ≡ none
    → not (ltb code 200) ≡ true
    → send sent code ≡ some code
send_final code h f = rw h (if_not (ltb code 200) f)
  where
    if_not : (b : Bool) → not b ≡ true → (if b then none else some code) ≡ some code
    if_not true e = cc
    if_not false e = refl

record_call-Agrees :
    (c : Call) (r : StatusRecorder) → is_final c ≡ true → Agrees r → Agrees (record_call c r)
unfolding record_call perform
record_call-Agrees (set_header _ _) r f h = h
record_call-Agrees (write_header code) r f (inl h) = rw (h.0) (inl (refl, h.1))
record_call-Agrees (write_header code) r f (inr h) =
    rw (h.0, h.1) (inl (refl, send_final code {sent = none} refl f))
record_call-Agrees (write b) r f (inl h) = inl (refl, rw (h.1) refl)
record_call-Agrees (write b) r f (inr h) = inl (refl, rw (h.1, h.2) refl)

-- The plain writer under the same calls.
abbrev pub perform_calls : List Call → Writer → Writer
unfolding perform
perform_calls [] w = w
perform_calls (c ∷ cs) w = perform_calls cs (perform c w)

record_call-writer :
    (c : Call) (r : StatusRecorder)
    → is_final c ≡ true
    → Agrees r
    → (record_call c r).writer ≡ perform c r.writer
unfolding record_call perform
record_call-writer (set_header _ _) r f h = refl
record_call-writer (write_header code) r f (inl h) =
    rw (h.0) (ap (λ s. record r.writer { sent = s }) (h.1 ∙ sym (ap (λ s. send s code) (h.1))))
record_call-writer (write_header code) r f (inr h) = rw (h.0) refl
record_call-writer (write b) r f h = refl

and_split : (a b : Bool) → a && b ≡ true → (a ≡ true) × (b ≡ true)
and_split true b h = (refl, h)
and_split false b h = cc

record_calls-Agrees :
    (cs : List Call) (r : StatusRecorder)
    → all is_final cs ≡ true
    → Agrees r
    → Agrees (record_calls cs r) × ((record_calls cs r).writer ≡ perform_calls cs r.writer)
unfolding record_calls
record_calls-Agrees [] r f h = (h, refl)
record_calls-Agrees (c ∷ cs) r f h =
    let fs = and_split (is_final c) (all is_final cs) f in
    let later = record_calls-Agrees cs (record_call c r) (fs.1) (record_call-Agrees c r (fs.0) h) in
    (later.0, later.1 ∙ ap (perform_calls cs) (record_call-writer c r (fs.0) h))

Agrees-status : (r : StatusRecorder) → Agrees r → r.status ≡ wire_status r.writer.sent
Agrees-status r (inl h) = rw (h.1) refl
Agrees-status r (inr h) = rw (h.1, h.2) refl

fresh-Agrees : (w : Writer) → w.sent ≡ none → Agrees (fresh_recorder w)
fresh-Agrees w h = inr (refl, h, refl)

-- Over any calls without an informational status, on a writer that has sent nothing, the recorder's
-- writer ends as a plain one does under the same calls, and the status that the recorder keeps for
-- the log is the one that the client gets.
pub recorder_transparent :
    (cs : List Call) (w : Writer)
    → w.sent ≡ none
    → all is_final cs ≡ true
    → ((record_calls cs (fresh_recorder w)).writer ≡ perform_calls cs w)
      × ((record_calls cs (fresh_recorder w)).status ≡ wire_status (perform_calls cs w).sent)
recorder_transparent cs w u f =
    let end = record_calls-Agrees cs (fresh_recorder w) f (fresh-Agrees w u) in
    (
      end.1,
      Agrees-status (record_calls cs (fresh_recorder w)) (end.0)
          ∙ ap (λ (v : Writer). wire_status v.sent) (end.1),
    )

module _ (encode : Problem → Str) where
  abbrev problem_outcome : Problem → Outcome
  unfolding write_problem
  problem_outcome p = record { calls = write_problem encode p; panics = false }

  auth_middleware_rejects :
      (next : Identity → Outcome) (header : Str)
      → bearer_token header ≡ none
      → auth_middleware encode true next header ≡ problem_outcome unauthenticated
  unfolding auth_middleware admit
  auth_middleware_rejects next header h = rw h refl

  -- A request without a bearer token, where one is required, never reaches the router: whatever the
  -- router does, the client gets status 401 and the problem's body, and the log holds status 401.
  pub unauthenticated_request :
      (mux : Request → Identity → Str → Outcome) (minted : Str) (req : Request)
      → bearer_token req.authorization ≡ none
      → ((handle_http encode true mux minted req).0.sent ≡ some 401)
        × ((handle_http encode true mux minted req).0.body ≡ encode unauthenticated ∷ [])
        × ((handle_http encode true mux minted req).1.status ≡ 401)
  unfolding handle_http logging_middleware write_problem recover_middleware record_calls record_call
      perform unauthenticated
  unauthenticated_request mux minted req h =
      let id = request_id_of minted req.request_id in
      subst
        (λ o.
          ((logging_middleware encode (start_writer id) req id o).0.sent ≡ some 401)
          × ((logging_middleware encode (start_writer id) req id o).0.body
              ≡ encode unauthenticated ∷ [])
          × ((logging_middleware encode (start_writer id) req id o).1.status ≡ 401))
        (sym (auth_middleware_rejects (λ i. mux req i id) req.authorization h)) (refl, refl, refl)

  -- Where no token is required, and the router panics before it has called its writer: the client
  -- gets status 500 and the fixed problem's body, and the log holds status 500.
  pub panicked_request :
      (mux : Request → Identity → Str → Outcome) (minted : Str) (req : Request)
      → ((i : Identity) (id : Str) → mux req i id ≡ record { calls = []; panics = true })
      → ((handle_http encode false mux minted req).0.sent ≡ some 500)
        × ((handle_http encode false mux minted req).0.body ≡ encode degraded_problem ∷ [])
        × ((handle_http encode false mux minted req).1.status ≡ 500)
  unfolding handle_http logging_middleware auth_middleware write_problem recover_middleware
      record_calls record_call perform admit problem
  panicked_request mux minted req h =
      let id = request_id_of minted req.request_id in
      subst
        (λ o.
          ((logging_middleware encode (start_writer id) req id o).0.sent ≡ some 500)
          × ((logging_middleware encode (start_writer id) req id o).0.body
              ≡ encode degraded_problem ∷ [])
          × ((logging_middleware encode (start_writer id) req id o).1.status ≡ 500))
        (sym (h stub_identity id)) (refl, refl, refl)
