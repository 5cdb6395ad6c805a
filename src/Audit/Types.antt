-- ===== src/Audit/Types.antt =====
-- internal/audit/types.go and internal/audit/envelope.go: the record of one audit event. A
-- `time.Time` is the number of nanoseconds since the zero time, so that 0 is the zero value; a
-- pointer or an `any` that may be nil is an `Option`; the closed string types are Go strings.
use keleustes.Base.{ℕ, Str, str, Option, List}
use keleustes.Json.{Json}

abbrev pub Time : Type 0
Time = ℕ

abbrev pub schema_version : Str
schema_version = str "audit/v1"

abbrev pub ActorType : Type 0
ActorType = Str

abbrev pub actor_human : ActorType
actor_human = str "human"

abbrev pub actor_ci : ActorType
actor_ci = str "ci"

abbrev pub actor_agent : ActorType
actor_agent = str "agent"

abbrev pub actor_system : ActorType
actor_system = str "system"

abbrev pub Outcome : Type 0
Outcome = Str

abbrev pub outcome_success : Outcome
outcome_success = str "success"

abbrev pub Verb : Type 0
Verb = Str

abbrev pub verb_create : Verb
verb_create = str "create"

abbrev pub verb_edit : Verb
verb_edit = str "edit"

abbrev pub verb_delete : Verb
verb_delete = str "delete"

abbrev pub verb_view : Verb
verb_view = str "view"

-- The fields of an actor but `DelegatedFrom`.
pub record Principal : Type 0 where
  pub actor_type : ActorType
  pub subject : Str
  pub subject_id : Str
  pub identity_provider : Str
  pub groups : List Str

-- An actor without and with a `DelegatedFrom`.
pub data Actor : Type 0 where
  direct : Principal → Actor
  delegated : Principal → Actor → Actor

pub record ActionSubject : Type 0 where
  pub api_group : Str
  pub version : Str
  pub kind : Str
  pub namespace : Str
  pub name : Str
  pub ulid : Str

pub record Action : Type 0 where
  pub verb : Verb
  pub scope : Str
  pub subject : ActionSubject

pub record Context : Type 0 where
  pub source_ip : Str
  pub user_agent : Str
  pub audit_ticket : Str
  pub cluster_name : Str
  pub shard : Str

pub record ActionResult : Type 0 where
  pub outcome : Outcome
  pub reason : Str
  pub before : Option Json
  pub after : Option Json

pub record Evidence : Type 0 where
  pub kind : Str
  pub hash : Str
  pub object_ref : Str
  pub store : Str
  pub label : Str

pub record Envelope : Type 0 where
  pub schema_version : Str
  pub event_id : Str
  pub occurred_at : Time
  pub recorded_at : Option Time
  pub request_id : Str
  pub session_id : Str
  pub trace_parent : Str
  pub actor : Actor
  pub action : Action
  pub intent : Str
  pub context : Context
  pub result : ActionResult
  pub payload : Option Json
  pub evidence : List Evidence
