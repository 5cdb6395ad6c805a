-- ===== src/Tests/Events.antt =====
-- Runs of internal/audit/emitter.go.
use keleustes.Base.{◌≡◌, ◌≢◌, refl, Option, none, str, ◌==◌, [], ◌∷◌, ◌++◌}
use keleustes.Base.Result.{ok}
use keleustes.Audit.Types.{Envelope, outcome_success}
use keleustes.Audit.Payloads.{Payload}
use keleustes.Audit.Emitter.{Ambient, fill_defaults, emit, in_memory, validate_payload_for_verb}
use keleustes.Audit.Emitter.Emit.{Recorded, emit-Recorded}
use keleustes.Audit.Webhook.{build_actor}

abbrev view_event : Envelope
view_event = record {
  schema_version = [];
  event_id = str "E1";
  occurred_at = 0;
  recorded_at = none;
  request_id = [];
  session_id = [];
  trace_parent = [];
  actor = build_actor (record { username = str "alice"; uid = []; groups = [] });
  action = record {
    verb = str "view";
    scope = [];
    subject = record {
      api_group = [];
      version = [];
      kind = str "Application";
      namespace = [];
      name = str "app";
      ulid = [];
    };
  };
  intent = [];
  context = record {
    source_ip = [];
    user_agent = [];
    audit_ticket = [];
    cluster_name = [];
    shard = [];
  };
  result = record { outcome = outcome_success; reason = []; before = none; after = none };
  payload = none;
  evidence = [];
}

abbrev clock : Ambient
clock = record { unix_milli = 7; entropy = none; now = 9 }

abbrev no_payload : Option Payload
no_payload = none

abbrev filled_event : Envelope
filled_event = fill_defaults clock view_event

view_recorded :
    emit clock in_memory view_event no_payload [] ≡ (ok (str "E1"), [] ++ filled_event ∷ [])
unfolding emit validate_payload_for_verb ◌==◌ fill_defaults in_memory
view_recorded = refl

now_set : clock.now ≢ 0
now_set e = cc

emit-Recorded_example : Recorded clock view_event no_payload [] ([] ++ filled_event ∷ []) (str "E1")
emit-Recorded_example =
    emit-Recorded clock view_event no_payload [] ([] ++ filled_event ∷ []) (str "E1") now_set
      view_recorded
