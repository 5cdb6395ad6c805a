-- ===== src/Tests/Writes.antt =====
-- A run of internal/audit/webhook on the creation of a Secret.
use keleustes.Base.{◌≡◌, ◌≢◌, refl, inl, none, some, str, ◌==◌, List, [], ◌∷◌, ◌++◌}
use keleustes.Base.Result.{ok}
use keleustes.Json.{Json, string, object, marker, Fields, end, field, get, get_path}
use keleustes.Audit.Types.{Envelope}
use keleustes.Audit.Redaction.{apply, class_secret_bytes}
use keleustes.Audit.Emitter.{Ambient, emit, in_memory, fill_defaults, validate_payload_for_verb}
use keleustes.Audit.Payloads.{crd_write_payload}
use keleustes.Audit.Webhook.{
  Request, allowed, Decoder, verb_for, handle, build_envelope, redacted_snapshot,
}
use keleustes.Audit.Webhook.FailClosed.{IsAcknowledged, handle_fail_closed, handle_recorded}
use keleustes.Audit.Webhook.Sequence.{handle_all, Logged, handle_all-Logged}
use keleustes.Audit.Webhook.Snapshots.{created_secret}

abbrev secret_data : Fields
secret_data = field (str "password") (string (str "aHVudGVyMg==")) end

abbrev secret_fields : Fields
secret_fields = field (str "data") (object secret_data) end

abbrev decoder : Decoder
decoder raw = ok secret_fields

abbrev ambient : Ambient
ambient = record { unix_milli = 1700000000000; entropy = none; now = 5 }

abbrev create_secret : Request
create_secret = record {
  operation = str "CREATE";
  uid = str "u1";
  group = [];
  version = str "v1";
  kind = str "Secret";
  namespace = str "ns";
  name = str "db";
  sub_resource = [];
  user_info = record { username = str "alice"; uid = []; groups = [] };
  object_raw = str "{}";
  old_object_raw = [];
  dry_run = none;
}

abbrev redacted_secret : Json
redacted_secret = apply (str "Secret") (object secret_fields)

before_of : redacted_snapshot decoder create_secret.old_object_raw create_secret.kind ≡ ok none
unfolding redacted_snapshot ◌==◌
before_of = refl

after_of :
    redacted_snapshot decoder create_secret.object_raw create_secret.kind
    ≡ ok (some redacted_secret)
unfolding redacted_snapshot ◌==◌
after_of = refl

abbrev recorded : List Envelope
recorded = (handle decoder ambient in_memory (str "c1") create_secret []).1

create_allowed : handle decoder ambient in_memory (str "c1") create_secret [] ≡ (allowed, recorded)
unfolding handle ◌==◌ build_envelope emit validate_payload_for_verb fill_defaults crd_write_payload
    in_memory
create_allowed = refl

handle_fail_closed_example :
    IsAcknowledged decoder ambient in_memory (str "c1") create_secret [] recorded
handle_fail_closed_example =
    handle_fail_closed decoder ambient in_memory (str "c1") create_secret [] recorded (inl refl)
      create_allowed

handle_recorded_example :
    (event : Envelope) × (handle decoder ambient in_memory (str "c1") create_secret []
      ≡ (allowed, [] ++ event ∷ []))
    × (verb_for create_secret.operation ≡ some event.action.verb)
    × (event.action.subject.kind ≡ str "Secret")
    × (event.action.subject.name ≡ str "db")
    × (event.request_id ≡ str "u1")
    × (event.result.before ≡ none)
    × (event.result.after ≡ some redacted_secret)
handle_recorded_example =
    handle_recorded decoder ambient (str "c1") create_secret none (some redacted_secret) []
      (inl refl) before_of after_of

raw_ne : str "{}" ≢ []
raw_ne e = cc

data_at : get (str "data") secret_fields ≡ some (object secret_data)
unfolding get ◌==◌
data_at = refl

password_at : get (str "password") secret_data ≡ some (string (str "aHVudGVyMg=="))
unfolding get ◌==◌
password_at = refl

created_secret_example :
    (event : Envelope) × (after : Json) × (handle decoder ambient in_memory
        (str "c1")
        create_secret
        []
      ≡ (allowed, [] ++ event ∷ []))
    × (event.result.before ≡ none)
    × (event.result.after ≡ some after)
    × (get_path (str "data" ∷ str "password" ∷ []) after ≡ some (marker class_secret_bytes))
created_secret_example =
    created_secret decoder ambient (str "c1") create_secret secret_fields secret_data (str "data")
      (str "password") (string (str "aHVudGVyMg==")) [] refl refl refl raw_ne refl (inl refl)
      data_at password_at

abbrev connect : Request
connect = record create_secret { operation = str "CONNECT" }

abbrev two_requests : List (Ambient × Request)
two_requests = (ambient, connect) ∷ (ambient, create_secret) ∷ []

handle_all-Logged_example :
    (es : List Envelope) × ((handle_all decoder (str "c1") two_requests recorded).1
      ≡ recorded ++ es)
    × Logged two_requests (handle_all decoder (str "c1") two_requests recorded).0 es
handle_all-Logged_example = handle_all-Logged decoder (str "c1") two_requests recorded
