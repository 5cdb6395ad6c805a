-- ===== src/Audit/Emitter/Emit.antt =====
-- internal/audit/emitter.go: what `Emit` hands to an emitter, and what it refuses.
use keleustes.Base.{
  ◌≡◌, ◌≢◌, refl, ap, sym, ◌∙◌, Str, false, Bool-cases, Option-cases, inl, inr, Option, none, some,
  ◌==◌, ==_refl, ==_false, List, [], ◌∷◌, ◌++◌, arith,
}
use keleustes.Base.Result.{Result, ok, err, ok-injective, err_ne_ok}
use keleustes.Audit.Ulid.Shape.{new_event_id-ne-nil}
use keleustes.Audit.Types.{Envelope}
use keleustes.Audit.Payloads.{Payload}
use keleustes.Audit.Emitter.{
  AuditError, payload_validation, Emitter, Ambient, fill_defaults, validate_payload_for_verb,
  with_type, emit, in_memory,
}
use keleustes.Audit.Emitter.Pairs.{IsRegistered, validate_iff}

-- The payload's own check passes; there is none without a payload.
abbrev pub PassesOwn : Option Payload → Type 0
PassesOwn none = Unit {0}
PassesOwn (some p) = p.validate ≡ none

-- The envelope that goes out: the defaults filled in, and the payload with its type.
abbrev pub with_payload : Envelope → Option Payload → Envelope
with_payload env none = env
with_payload env (some p) = record env { payload = some (with_type p) }

unfoldable pub outgoing : Ambient → Envelope → Option Payload → Envelope
outgoing w env p = with_payload (fill_defaults w env) p

-- Either the pair is registered and the payload passes, and the call is the emitter's on the
-- outgoing envelope; or the emitter is not called, its state stays, and the result is an error.
pub data EmitCase {S : Type 0} (w : Ambient) (e : Emitter S) (env : Envelope) (p : Option Payload)
    (s : S) : Type 0 where
  called :
      IsRegistered env.action.verb p
      → PassesOwn p
      → emit w e env p s ≡ e (outgoing w env p) p s
      → EmitCase w e env p s
  refused :
      (bad : AuditError)
      → (IsRegistered env.action.verb p → PassesOwn p → ⊥)
      → emit w e env p s ≡ (err bad, s)
      → EmitCase w e env p s

-- Every call of `Emit`, for every emitter, either has a registered pair and a payload that passes
-- its own check, and is the emitter's call on the outgoing envelope, or fails one of the two,
-- returns an error and leaves the emitter's state as it was.
pub emit_cases :
    {S : Type 0} (w : Ambient) (e : Emitter S) (env : Envelope) (p : Option Payload) (s : S)
    → EmitCase w e env p s
unfolding emit outgoing fill_defaults
emit_cases w e env none s = elim (Option-cases (validate_payload_for_verb env.action.verb none)) [
  | inl g ↦ called ((validate_iff env.action.verb none).0 g) tt (rw g)
  | inr (bad, b) ↦ refused bad (λ r _. cc ((validate_iff env.action.verb none).1 r)) (rw b)
]
emit_cases w e env (some p) s =
    elim (Option-cases (validate_payload_for_verb env.action.verb (some p))) [
      | inl g ↦ elim (Option-cases p.validate) [
        | inl v ↦ called ((validate_iff env.action.verb (some p)).0 g) v (rw (g, v))
        | inr (x, v) ↦ refused (payload_validation x) (λ _ k. cc) (rw (g, v))
      ]
      | inr (bad, b) ↦ refused bad (λ r _. cc ((validate_iff env.action.verb (some p)).1 r)) (rw b)
    ]

-- The fields that `Emit` fills are set.
pub record IsComplete (env : Envelope) : Type 0 where
  pub has_schema : env.schema_version ≢ []
  pub has_id : env.event_id ≢ []
  pub has_time : env.occurred_at ≢ 0

ne_of_nil : (s : Str) → (s == []) ≡ false → s ≢ []
ne_of_nil s e h = cc (==_refl s, ap (λ t. s == t) h)

fill_defaults-IsComplete :
    (w : Ambient) (env : Envelope) → w.now ≢ 0 → IsComplete (fill_defaults w env)
unfolding fill_defaults
fill_defaults-IsComplete w env n = record {
  has_schema = elim (Bool-cases (env.schema_version == [])) [
    | inl e ↦ rw e (λ h. cc)
    | inr e ↦ rw e (ne_of_nil env.schema_version e)
  ];
  has_id = elim (Bool-cases (env.event_id == [])) [
    | inl e ↦ rw e (new_event_id-ne-nil w.unix_milli w.entropy)
    | inr e ↦ rw e (ne_of_nil env.event_id e)
  ];
  has_time = ground arith;
}

outgoing-IsComplete :
    (w : Ambient) (env : Envelope) (p : Option Payload) → w.now ≢ 0 → IsComplete (outgoing w env p)
unfolding outgoing
outgoing-IsComplete w env none n = fill_defaults-IsComplete w env n
outgoing-IsComplete w env (some p) n =
    let c = fill_defaults-IsComplete w env n in
    record { has_schema = c.has_schema; has_id = c.has_id; has_time = c.has_time }

-- A success with the in-memory emitter: one more event, with the returned id, the fields that
-- `Emit` fills, the caller's id and action, and a registered pair.
pub record Recorded (w : Ambient) (env : Envelope) (p : Option Payload)
    (events events' : List Envelope) (id : Str) : Type 0 where
  pub appended : events' ≡ events ++ outgoing w env p ∷ []
  pub returned : id ≡ (outgoing w env p).event_id
  pub complete : IsComplete (outgoing w env p)
  pub own_id : env.event_id ≢ [] → id ≡ env.event_id
  pub same_action : (outgoing w env p).action ≡ env.action
  pub registered : IsRegistered env.action.verb p

own_id_kept :
    (w : Ambient) (env : Envelope) (p : Option Payload)
    → env.event_id ≢ []
    → (outgoing w env p).event_id ≡ env.event_id
unfolding outgoing fill_defaults
own_id_kept w env none h = rw (==_false env.event_id [] h)
own_id_kept w env (some p) h = rw (==_false env.event_id [] h)

action_kept :
    (w : Ambient) (env : Envelope) (p : Option Payload) → (outgoing w env p).action ≡ env.action
unfolding outgoing fill_defaults
action_kept w env none = refl
action_kept w env (some p) = refl

-- A call on the in-memory emitter that succeeds, with a clock that does not read the zero time,
-- has recorded exactly one event more, complete and of a registered pair, and its id is what the
-- caller gets, the caller's own id where there was one.
pub emit-Recorded :
    (w : Ambient) (env : Envelope) (p : Option Payload) (events events' : List Envelope) (id : Str)
    → w.now ≢ 0
    → emit w in_memory env p events ≡ (ok id, events')
    → Recorded w env p events events' id
unfolding in_memory
emit-Recorded w env p events events' id n h = elim (emit_cases w in_memory env p events) [
  | called r own e ↦
      let q = sym e ∙ h in
      let same : (outgoing w env p).event_id ≡ id =
        ok-injective (ap (λ (t : Result AuditError Str × List Envelope). t.0) q) in
      record {
        appended = sym (ap (λ (t : Result AuditError Str × List Envelope). t.1) q);
        returned = sym same;
        complete = outgoing-IsComplete w env p n;
        own_id = λ k. sym same ∙ own_id_kept w env p k;
        same_action = action_kept w env p;
        registered = r;
      }
  | refused bad _ e ↦
      absurd (err_ne_ok (ap (λ (t : Result AuditError Str × List Envelope). t.0) (sym e ∙ h)))
]
