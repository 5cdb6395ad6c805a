-- ===== src/Audit/Webhook.antt =====
-- internal/audit/webhook/handler.go: the admission handler that audits writes of custom resources.
pub mod Verbs
pub mod FailClosed
pub mod Snapshots
pub mod Sequence
use keleustes.Base.{
  Bool, true, false, not, ◌&&◌, ◌||◌, Option, none, some, Str, str, ◌==◌, starts_with,
  if◌then◌else◌, List, [], ◌∷◌,
}
use keleustes.Base.Result.{Result, ok, err, ◌>>=◌}
use keleustes.Json.{Json, object, Fields}
use keleustes.Audit.Types.{
  Verb, verb_create, verb_edit, verb_delete, ActorType, actor_human, actor_system, Principal, Actor,
  direct, Envelope, outcome_success,
}
use keleustes.Audit.Payloads.{Payload, CrdWriteV1, crd_write_payload}
use keleustes.Audit.Redaction.{apply}
use keleustes.Audit.Emitter.{AuditError, Emitter, Ambient, emit}

-- `authenticationv1.UserInfo`, as far as it is read.
pub record UserInfo : Type 0 where
  pub username : Str
  pub uid : Str
  pub groups : List Str

-- `admission.Request`, as far as it is read; an object's `Raw` is its bytes.
pub record Request : Type 0 where
  pub operation : Str
  pub uid : Str
  pub group : Str
  pub version : Str
  pub kind : Str
  pub namespace : Str
  pub name : Str
  pub sub_resource : Str
  pub user_info : UserInfo
  pub object_raw : Str
  pub old_object_raw : Str
  pub dry_run : Option Bool

-- `admission.Allowed("")`, `admission.Denied` with the emit error, and `admission.Errored(500, …)`
-- with which object could not be decoded and why.
pub data BuildError : Type 0 where
  decode_old_object decode_object : Str → BuildError

pub data Response : Type 0 where
  allowed : Response
  denied : AuditError → Response
  errored : BuildError → Response

-- `none` is `ok == false`.
unfoldable pub verb_for : Str → Option Verb
verb_for op =
    if op == str "CREATE"
    then some verb_create
    else if op == str "UPDATE"
    then some verb_edit
    else if op == str "DELETE"
    then some verb_delete
    else none

unfoldable pub actor_type_for : Str → ActorType
actor_type_for username =
    if starts_with (str "system:serviceaccount:") username || starts_with (str "system:") username
    then actor_system
    else actor_human

-- `if u.UID != "" { a.SubjectID = u.UID }` leaves the field empty or sets it: the UID either way.
unfoldable pub build_actor : UserInfo → Actor
unfolding actor_type_for
build_actor u = direct (record {
  actor_type = actor_type_for u.username;
  subject = u.username;
  subject_id = if not (u.uid == []) then u.uid else [];
  identity_provider = [];
  groups = u.groups;
})

-- `json.Unmarshal` into a `map[string]any`: the entries, or the text of the error.
abbrev pub Decoder : Type 0
Decoder = Str → Result Str Fields

abbrev pub envelope_of : Str → Request → Verb → Option Json → Option Json → Envelope
envelope_of cluster_name req verb before after = record {
  schema_version = [];
  event_id = [];
  occurred_at = 0;
  recorded_at = none;
  request_id = req.uid;
  session_id = [];
  trace_parent = [];
  actor = build_actor req.user_info;
  action = record {
    verb = verb;
    scope = [];
    subject = record {
      api_group = req.group;
      version = req.version;
      kind = req.kind;
      namespace = req.namespace;
      name = req.name;
      ulid = [];
    };
  };
  intent = [];
  context = record {
    source_ip = [];
    user_agent = [];
    audit_ticket = [];
    cluster_name = cluster_name;
    shard = [];
  };
  result = record { outcome = outcome_success; reason = []; before = before; after = after };
  payload = none;
  evidence = [];
}

abbrev is_set : Option Bool → Bool
is_set none = false
is_set (some b) = b

abbrev pub payload_of : Request → Payload
payload_of req = crd_write_payload (record {
  patch = [];
  subresource_write = not (req.sub_resource == []);
  dry_run = is_set req.dry_run;
})

abbrev tag : {A : Type 0} → (Str → BuildError) → Result Str A → Result BuildError A
tag wrap (ok a) = ok a
tag wrap (err e) = err (wrap e)

module _ (unmarshal : Decoder) where
  abbrev redacted : Str → Result Str Fields → Result Str (Option Json)
  redacted kind (err e) = err e
  redacted kind (ok fs) = ok (some (apply kind (object fs)))

  unfoldable pub redacted_snapshot : Str → Str → Result Str (Option Json)
  redacted_snapshot raw kind = if raw == [] then ok none else redacted kind (unmarshal raw)

  unfoldable pub build_envelope : Str → Request → Verb → Result BuildError (Envelope × Payload)
  unfolding redacted_snapshot
  build_envelope cluster_name req verb = do
    before ← tag decode_old_object (redacted_snapshot req.old_object_raw req.kind)
    after ← tag decode_object (redacted_snapshot req.object_raw req.kind)
    ok (envelope_of cluster_name req verb before after, payload_of req)

  module _ {S : Type 0} (w : Ambient) (e : Emitter S) (cluster_name : Str) where
    abbrev answer : Result AuditError Str × S → Response × S
    answer (ok id, s) = (allowed, s)
    answer (err bad, s) = (denied bad, s)

    abbrev handle_built : Result BuildError (Envelope × Payload) → S → Response × S
    handle_built (err bad) s = (errored bad, s)
    handle_built (ok (env, p)) s = answer (emit w e env (some p) s)

    abbrev handle_verb : Request → Option Verb → S → Response × S
    handle_verb req none s = (allowed, s)
    handle_verb req (some verb) s = handle_built (build_envelope cluster_name req verb) s

    unfoldable pub handle : Request → S → Response × S
    unfolding verb_for
    handle req s = handle_verb req (verb_for req.operation) s
