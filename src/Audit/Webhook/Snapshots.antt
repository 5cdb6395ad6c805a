-- ===== src/Audit/Webhook/Snapshots.antt =====
-- internal/audit/webhook/handler.go: the snapshots of a Secret in the recorded events.
use keleustes.Base.{
  ◌≡◌, ◌≢◌, ap, ◌∙◌, Str, str, inl, ◌⊎◌, none, some, List, [], ◌∷◌, ◌++◌, ==_false, ==_refl,
}
use keleustes.Base.Result.{ok}
use keleustes.Json.{Json, object, marker, Fields, get, get_path}
use keleustes.Audit.Redaction.{apply, class_secret_bytes}
use keleustes.Audit.Redaction.Secrets.{apply_secret}
use keleustes.Audit.Webhook.{Decoder, allowed, Request, redacted_snapshot, handle}
use keleustes.Audit.Emitter.{Ambient, in_memory}
use keleustes.Audit.Types.{Envelope}
use keleustes.Audit.Webhook.FailClosed.{handle_recorded}

snapshot_of :
    (unmarshal : Decoder) (raw kind : Str) (fs : Fields)
    → raw ≢ []
    → unmarshal raw ≡ ok fs
    → redacted_snapshot unmarshal raw kind ≡ ok (some (apply kind (object fs)))
unfolding redacted_snapshot
snapshot_of unmarshal raw kind fs n d = rw (==_false raw [] n, d)

empty_snapshot :
    (unmarshal : Decoder) (raw kind : Str)
    → raw ≡ []
    → redacted_snapshot unmarshal raw kind ≡ ok none
unfolding redacted_snapshot
empty_snapshot unmarshal raw kind e = rw (e, ==_refl [])

-- When a Secret whose object decodes is created, the in-memory emitter records one event more,
-- which has no `before`, and whose `after` holds the marker for secret bytes in the place of a
-- value under `data` or `stringData`, where that is a map.
pub created_secret :
    (unmarshal : Decoder) (w : Ambient) (cluster_name : Str) (req : Request) (fs ds : Fields)
    (f k : Str) (v : Json) (events : List Envelope)
    → req.operation ≡ str "CREATE"
    → req.kind ≡ str "Secret"
    → req.old_object_raw ≡ []
    → req.object_raw ≢ []
    → unmarshal req.object_raw ≡ ok fs
    → (f ≡ str "data") ⊎ (f ≡ str "stringData")
    → get f fs ≡ some (object ds)
    → get k ds ≡ some v
    → (event : Envelope) × (after : Json) × (handle unmarshal w in_memory cluster_name req events
        ≡ (allowed, events ++ event ∷ []))
      × (event.result.before ≡ none)
      × (event.result.after ≡ some after)
      × (get_path (f ∷ k ∷ []) after ≡ some (marker class_secret_bytes))
created_secret unmarshal w cluster_name req fs ds f k v events op kind old new d which h g =
    let a = snapshot_of unmarshal req.object_raw req.kind fs new d in
    let (event, handled, _, _, _, _, before, after) =
      handle_recorded unmarshal w cluster_name req none (some (apply req.kind (object fs))) events
        (inl op) (empty_snapshot unmarshal req.old_object_raw req.kind old) a in
    (
      event,
      apply req.kind (object fs),
      handled,
      before,
      after,
      ap (λ q. get_path (f ∷ k ∷ []) (apply q (object fs))) kind
          ∙ apply_secret f k fs ds v which h g,
    )
