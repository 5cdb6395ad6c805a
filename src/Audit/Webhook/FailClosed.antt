-- ===== src/Audit/Webhook/FailClosed.antt =====
-- internal/audit/webhook/handler.go: what an allowed write has behind it.
use keleustes.Base.{◌≡◌, ◌≢◌, refl, sym, ◌∙◌, Str, inl, inr, ◌⊎◌, Option, some, List, [], ◌∷◌, ◌++◌}
use keleustes.Base.Result.{Result, ok, err, Result-cases}
use keleustes.Json.{Json}
use keleustes.Audit.Types.{Verb, Envelope}
use keleustes.Audit.Payloads.{crd_write_payload}
use keleustes.Audit.Emitter.{AuditError, Emitter, Ambient, emit, in_memory, fill_defaults}
use keleustes.Audit.Emitter.Pairs.{IsWriteVerb}
use keleustes.Audit.Emitter.Emit.{outgoing, called, refused, emit_cases}
use keleustes.Audit.Webhook.{
  Request, allowed, Decoder, verb_for, redacted_snapshot, envelope_of, payload_of, build_envelope,
  answer, handle,
}
use keleustes.Audit.Webhook.Verbs.{IsWrite, verb_for_cases}

module _ (unmarshal : Decoder) {S : Type 0} (w : Ambient) (e : Emitter S) (cluster_name : Str) where
  -- The event of a write, given the snapshots of the object before and after it.
  abbrev pub event_of : Request → Verb → Option Json → Option Json → Envelope
  event_of req v before after =
      outgoing w (envelope_of cluster_name req v before after) (some (payload_of req))

  -- The pair of a write verb and its payload is always registered, so `Emit` calls the emitter.
  emit_written :
      (req : Request) (v : Verb) (before after : Option Json) (s : S)
      → IsWriteVerb v
      → emit w e (envelope_of cluster_name req v before after) (some (payload_of req)) s
        ≡ e (event_of req v before after) (some (payload_of req)) s
  unfolding crd_write_payload
  emit_written req v before after s h =
      elim (emit_cases w e (envelope_of cluster_name req v before after) (some (payload_of req))
        s) [ called _ _ q ↦ q | refused bad n q ↦ absurd (n (h, refl) refl) ]

  -- The answer to a write whose snapshots decode is the emitter's.
  pub handle_written :
      (req : Request) (v : Verb) (before after : Option Json) (s : S)
      → verb_for req.operation ≡ some v
      → IsWriteVerb v
      → redacted_snapshot unmarshal req.old_object_raw req.kind ≡ ok before
      → redacted_snapshot unmarshal req.object_raw req.kind ≡ ok after
      → handle unmarshal w e cluster_name req s
        ≡ answer unmarshal w e cluster_name
            (e (event_of req v before after) (some (payload_of req)) s)
  unfolding handle build_envelope
  handle_written req v before after s op wv old new =
      rw (op, old, new, emit_written req v before after s wv)

  -- What stands behind a write that was let through: its event, made from the redacted snapshots,
  -- was acknowledged by the emitter with an id.
  pub record IsAcknowledged (req : Request) (s s' : S) : Type 0 where
    pub verb : Verb
    pub before : Option Json
    pub after : Option Json
    pub id : Str
    pub verb_of : verb_for req.operation ≡ some verb
    pub before_of : redacted_snapshot unmarshal req.old_object_raw req.kind ≡ ok before
    pub after_of : redacted_snapshot unmarshal req.object_raw req.kind ≡ ok after
    pub acknowledged : e (event_of req verb before after) (some (payload_of req)) s ≡ (ok id, s')

  answer_allowed :
      (r : Result AuditError Str × S) (s' : S)
      → answer unmarshal w e cluster_name r ≡ (allowed, s')
      → (id : Str) × (r ≡ (ok id, s'))
  answer_allowed (ok id, t) s' h = (id, cc)
  answer_allowed (err bad, t) s' h = cc

  -- Where a snapshot does not decode the write is not let through.
  undecodable :
      (req : Request) (v : Verb) (s s' : S) (x : Str)
      → verb_for req.operation ≡ some v
      → (redacted_snapshot unmarshal req.old_object_raw req.kind ≡ err x)
        ⊎ ((b : Option Json) × (redacted_snapshot unmarshal req.old_object_raw req.kind ≡ ok b)
            × (redacted_snapshot unmarshal req.object_raw req.kind ≡ err x))
      → handle unmarshal w e cluster_name req s ≢ (allowed, s')
  unfolding handle build_envelope
  undecodable req v s s' x op (inl a) h = cc (sym (rw (op, a) at h))
  undecodable req v s s' x op (inr (b, a, c)) h = cc (rw (op, a, c) at h)

  -- For every decoder, clock and emitter: where a create, update or delete is allowed, its
  -- snapshots decoded and the emitter acknowledged, with an id, the event made from the redacted
  -- snapshots.
  pub handle_fail_closed :
      (req : Request) (s s' : S)
      → IsWrite req.operation
      → handle unmarshal w e cluster_name req s ≡ (allowed, s')
      → IsAcknowledged req s s'
  handle_fail_closed req s s' is_write h = elim (verb_for_cases req.operation) [
    | inr (n, _) ↦ absurd (n is_write)
    | inl (_, v, op, wv) ↦
        elim (Result-cases (redacted_snapshot unmarshal req.old_object_raw req.kind)) [
          | inr (x, a) ↦ absurd (undecodable req v s s' x op (inl a) h)
          | inl (before, a) ↦
              elim (Result-cases (redacted_snapshot unmarshal req.object_raw req.kind)) [
                | inr (x, b) ↦ absurd (undecodable req v s s' x op (inr (before, a, b)) h)
                | inl (after, b) ↦
                    let q = sym (handle_written req v before after s op wv a b) ∙ h in
                    let (id, ack) =
                      answer_allowed (e (event_of req v before after) (some (payload_of req)) s) s'
                        q in
                    record {
                      verb = v;
                      before = before;
                      after = after;
                      id = id;
                      verb_of = op;
                      before_of = a;
                      after_of = b;
                      acknowledged = ack;
                    }
              ]
        ]
  ]

  -- Any other operation is let through, and the emitter is not called.
  pub handle_exempt :
      (req : Request) (s : S)
      → ¬ IsWrite req.operation
      → handle unmarshal w e cluster_name req s ≡ (allowed, s)
  unfolding handle
  handle_exempt req s n = elim (verb_for_cases req.operation) [
    | inr (_, none') ↦ rw none'
    | inl (is_write, _, _, _) ↦ absurd (n is_write)
  ]

-- With the in-memory emitter every create, update or delete whose snapshots decode is admitted,
-- and records exactly one event: with the verb of the operation, the object's kind and name, the
-- request's id, and the redacted snapshots.
pub handle_recorded :
    (unmarshal : Decoder) (w : Ambient) (cluster_name : Str) (req : Request)
    (before after : Option Json) (events : List Envelope)
    → IsWrite req.operation
    → redacted_snapshot unmarshal req.old_object_raw req.kind ≡ ok before
    → redacted_snapshot unmarshal req.object_raw req.kind ≡ ok after
    → (event : Envelope) × (handle unmarshal w in_memory cluster_name req events
        ≡ (allowed, events ++ event ∷ []))
      × (verb_for req.operation ≡ some event.action.verb)
      × (event.action.subject.kind ≡ req.kind)
      × (event.action.subject.name ≡ req.name)
      × (event.request_id ≡ req.uid)
      × (event.result.before ≡ before)
      × (event.result.after ≡ after)
unfolding in_memory outgoing fill_defaults
handle_recorded unmarshal w cluster_name req before after events is_write a b =
    elim (verb_for_cases req.operation) [
      | inr (n, _) ↦ absurd (n is_write)
      | inl (_, v, op, wv) ↦ (
        event_of unmarshal w in_memory cluster_name req v before after,
        handle_written unmarshal w in_memory cluster_name req v before after events op wv a b,
        op,
        refl,
        refl,
        refl,
        refl,
        refl,
      )
    ]
