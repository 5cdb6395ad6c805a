-- ===== src/Audit/Emitter.antt =====
-- internal/audit/emitter.go: the check of a (verb, payload) pair, `Emit`, and the emitters. An
-- emitter is a state with a step; the clock and the entropy that `Emit` reads are its arguments.
pub mod Pairs
pub mod Emit
use keleustes.Base.{
  ℕ, eqb, Bool, true, false, not, Option, none, some, Str, str, ◌==◌, if◌then◌else◌, List, [], ◌∷◌,
  ◌++◌,
}
use keleustes.Base.Result.{Result, ok, err}
use keleustes.Json.{
  Json, null, bool, float64, string, marker, array, object, Fields, end, field, put,
}
use keleustes.Audit.Types.{Time, Verb, Envelope, schema_version}
use keleustes.Audit.Ulid.{Entropy, new_event_id}
use keleustes.Audit.Payloads.{Payload, allowed_payload_type}

-- The errors that the package makes; the text of an error from outside is kept.
pub data AuditError : Type 0 where
  unregistered_verb : Verb → AuditError
  takes_no_payload : Verb → AuditError
  requires_payload : Verb → Str → AuditError
  wrong_payload : Verb → (want got : Str) → AuditError
  payload_validation : Str → AuditError
  not_initialized : AuditError
  marshal_envelope : Str → AuditError

-- The body of `validatePayloadForVerb` behind the look-up; `none` is Go's nil error, and a payload
-- `none` is the nil interface.
abbrev pub check_payload : Verb → Option Str → Option Payload → Option AuditError
check_payload verb none p = some (unregistered_verb verb)
check_payload verb (some []) none = none
check_payload verb (some []) (some p) = some (takes_no_payload verb)
check_payload verb (some (c ∷ want)) none = some (requires_payload verb (c ∷ want))
check_payload verb (some (c ∷ want)) (some p) =
    if p.audit_type == c ∷ want then none else some (wrong_payload verb (c ∷ want) p.audit_type)

unfoldable pub validate_payload_for_verb : Verb → Option Payload → Option AuditError
unfolding allowed_payload_type
validate_payload_for_verb verb p = check_payload verb (allowed_payload_type verb) p

-- The JSON value is no map: the error of `json.Unmarshal`.
abbrev json_kind : Json → Str
json_kind null = str "null"
json_kind (bool _) = str "bool"
json_kind (float64 _) = str "number"
json_kind (string _) = str "string"
json_kind (array _) = str "array"
json_kind _ = str "object"

abbrev not_a_map : Json → Str
not_a_map v =
    str "json: cannot unmarshal "
    ++ (json_kind v ++ str " into Go value of type map[string]interface {}")

abbrev pub type_key : Str
type_key = str "@type"

abbrev marshal_failed : Str → Str → Json
marshal_failed typ e =
    object (field type_key (string typ) (field (str "@marshalError") (string e) end))

abbrev typed : Str → Result Str Json → Json
typed typ (err e) = marshal_failed typ e
typed typ (ok (object fs)) = object (put type_key (string typ) fs)
typed typ (ok null) = object (put type_key (string typ) end)
typed typ (ok v) = marshal_failed typ (not_a_map v)

unfoldable pub with_type : Payload → Json
with_type p = typed p.audit_type p.marshal

-- What `Emit` reads from outside: `time.Now().UTC().UnixMilli()` and `rand.Read` for the id, and
-- `time.Now()` for the time of occurrence.
pub record Ambient : Type 0 where
  pub unix_milli : ℕ
  pub entropy : Option Entropy
  pub now : Time

-- The interface `Emitter` over a state of the emitter's own.
abbrev pub Emitter : Type 0 → Type 0
Emitter S = Envelope → Option Payload → S → Result AuditError Str × S

-- The three assignments at the head of `Emit`.
unfoldable pub fill_defaults : Ambient → Envelope → Envelope
fill_defaults w env = record env {
  schema_version = if env.schema_version == [] then schema_version else env.schema_version;
  event_id = if env.event_id == [] then new_event_id w.unix_milli w.entropy else env.event_id;
  occurred_at = if eqb env.occurred_at 0 then w.now else env.occurred_at;
}

-- `Emit` behind the check of the pair: the payload's own check, and the call of the emitter.
module _ {S : Type 0} (e : Emitter S) (env : Envelope) where
  abbrev publish : Payload → Option Str → S → Result AuditError Str × S
  publish p (some bad) s = (err (payload_validation bad), s)
  publish p none s = e (record env { payload = some (with_type p) }) (some p) s

  abbrev deliver : Option AuditError → Option Payload → S → Result AuditError Str × S
  deliver (some bad) p s = (err bad, s)
  deliver none none s = e env none s
  deliver none (some p) s = publish p p.validate s

unfoldable pub emit :
    {S : Type 0} → Ambient → Emitter S → Envelope → Option Payload → S → Result AuditError Str × S
emit w e env p s =
    let filled = fill_defaults w env in
    deliver e filled (validate_payload_for_verb filled.action.verb p) p s

-- `InMemoryEmitter`: the events in the order of their arrival.
unfoldable pub in_memory : Emitter (List Envelope)
in_memory env p events = (ok env.event_id, events ++ env ∷ [])

-- `LogEmitter`: whether it has a sink, and the lines written to it. `marshal` is `json.Marshal` of
-- an envelope.
pub record LogEmitter : Type 0 where
  pub has_sink : Bool
  pub lines : List Str

abbrev log_line : Envelope → Result Str Str → LogEmitter → Result AuditError Str × LogEmitter
log_line env (err e) l = (err (marshal_envelope e), l)
log_line env (ok body) l = (ok env.event_id, record l { lines = l.lines ++ body ∷ [] })

unfoldable pub log_emit : (Envelope → Result Str Str) → Emitter LogEmitter
log_emit marshal env p l =
    if not l.has_sink then (err not_initialized, l) else log_line env (marshal env) l
