-- ===== src/Audit/Webhook/Sequence.antt =====
-- internal/audit/webhook/handler.go: the log that a sequence of admission requests leaves.
use keleustes.Base.{◌≡◌, ◌⊎◌, refl, ap, ◌∙◌, inl, inr, some, Str, List, [], ◌∷◌, ◌++◌}
use keleustes.Base.Result.{Result-cases}
use keleustes.Audit.Types.{Envelope}
use keleustes.Audit.Emitter.{Ambient, in_memory}
use keleustes.Audit.Webhook.{
  Decoder, Request, Response, allowed, errored, BuildError, decode_old_object, decode_object,
  verb_for, handle, build_envelope, redacted_snapshot,
}
use keleustes.Audit.Webhook.Verbs.{IsWrite, verb_for_cases}
use keleustes.Audit.Webhook.FailClosed.{handle_recorded, handle_exempt}

-- The event is about the request: its verb is that of the operation.
abbrev pub IsAbout : Request → Envelope → Type 0
IsAbout req event =
    (verb_for req.operation ≡ some event.action.verb)
    × (event.action.subject.kind ≡ req.kind)
    × (event.action.subject.name ≡ req.name)
    × (event.request_id ≡ req.uid)

-- The responses to requests and the events that they leave, each at its time.
pub data Logged : List (Ambient × Request) → List Response → List Envelope → Type 0 where
  nothing : Logged [] [] []
  recorded :
      {w : Ambient} {req : Request} {event : Envelope} {reqs : List (Ambient × Request)}
      {rs : List Response} {es : List Envelope}
      → IsWrite req.operation
      → IsAbout req event
      → Logged reqs rs es
      → Logged ((w, req) ∷ reqs) (allowed ∷ rs) (event ∷ es)
  exempt :
      {w : Ambient} {req : Request} {reqs : List (Ambient × Request)} {rs : List Response}
      {es : List Envelope}
      → ¬ IsWrite req.operation
      → Logged reqs rs es
      → Logged ((w, req) ∷ reqs) (allowed ∷ rs) es
  undecoded :
      {w : Ambient} {req : Request} {bad : BuildError} {reqs : List (Ambient × Request)}
      {rs : List Response} {es : List Envelope}
      → IsWrite req.operation
      → Logged reqs rs es
      → Logged ((w, req) ∷ reqs) (errored bad ∷ rs) es

module _ (unmarshal : Decoder) (cluster_name : Str) where
  -- Requests one after another on the in-memory emitter.
  abbrev pub handle_all : List (Ambient × Request) → List Envelope → List Response × List Envelope
  handle_all [] events = ([], events)
  handle_all ((w, req) ∷ reqs) events =
      let first = handle unmarshal w in_memory cluster_name req events in
      let rest = handle_all reqs first.1 in (first.0 ∷ rest.0, rest.1)

  -- What one request does.
  abbrev Handled : Ambient → Request → List Envelope → Type 0
  Handled w req events =
      ((event : Envelope) × IsWrite req.operation
        × IsAbout req event
        × (handle unmarshal w in_memory cluster_name req events ≡ (allowed, events ++ event ∷ [])))
      ⊎ (((¬ IsWrite req.operation)
            × (handle unmarshal w in_memory cluster_name req events ≡ (allowed, events)))
          ⊎ ((bad : BuildError) × IsWrite req.operation
              × (handle unmarshal w in_memory cluster_name req events ≡ (errored bad, events))))

  outcome_of : (w : Ambient) (req : Request) (events : List Envelope) → Handled w req events
  unfolding handle build_envelope
  outcome_of w req events = elim (verb_for_cases req.operation) [
    | inr (n, _) ↦ inr (inl (n, handle_exempt unmarshal w in_memory cluster_name req events n))
    | inl (write, v, op, _) ↦
        elim (Result-cases (redacted_snapshot unmarshal req.old_object_raw req.kind)) [
          | inr (x, a) ↦ inr (inr (decode_old_object x, write, rw (op, a) refl))
          | inl (before, a) ↦
              elim (Result-cases (redacted_snapshot unmarshal req.object_raw req.kind)) [
                | inr (x, b) ↦ inr (inr (decode_object x, write, rw (op, a, b) refl))
                | inl (after, b) ↦
                    let (event, done, verb, kind, name, uid, _, _) =
                      handle_recorded unmarshal w cluster_name req before after events write a b in
                    inl (event, write, (verb, kind, name, uid), done)
              ]
        ]
  ]

  append_assoc : (xs ys zs : List Envelope) → (xs ++ ys) ++ zs ≡ xs ++ (ys ++ zs)
  append_assoc [] ys zs = refl
  append_assoc (x ∷ xs) ys zs = ap (λ es. x ∷ es) (append_assoc xs ys zs)

  append_nil : (xs : List Envelope) → xs ≡ xs ++ []
  append_nil [] = refl
  append_nil (x ∷ xs) = ap (λ es. x ∷ es) (append_nil xs)

  -- With the in-memory emitter, over any requests: the events that were there stay as they are,
  -- and after them come, in the order of the requests, one event about each create, update or
  -- delete that is allowed, and none for the other requests; such a request that is not allowed is
  -- answered with an error of decoding, and every other operation is allowed.
  pub handle_all-Logged :
      (reqs : List (Ambient × Request)) (events : List Envelope)
      → (es : List Envelope) × ((handle_all reqs events).1 ≡ events ++ es)
        × Logged reqs (handle_all reqs events).0 es
  handle_all-Logged [] events = ([], append_nil events, nothing)
  handle_all-Logged ((w, req) ∷ reqs) events = elim (outcome_of w req events) [
    | inl (event, write, about, e) ↦
        let (es, kept, rest) = handle_all-Logged reqs (events ++ event ∷ []) in
        rw e (event ∷ es, kept ∙ append_assoc events (event ∷ []) es, recorded write about rest)
    | inr (inl (n, e)) ↦
        let (es, kept, rest) = handle_all-Logged reqs events in rw e (es, kept, exempt n rest)
    | inr (inr (bad, write, e)) ↦
        let (es, kept, rest) = handle_all-Logged reqs events in
        rw e (es, kept, undecoded write rest)
  ]
