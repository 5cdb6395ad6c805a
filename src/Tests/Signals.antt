-- ===== src/Tests/Signals.antt =====
-- Runs of internal/observability, and of the activity log of internal/api/readmodel/fixtures.
use mathlib.Core.List.{Perm}
use keleustes.Base.{
  ◌≡◌, refl, ℕ, ◌+◌, Bool, true, false, ◌&&◌, if◌then◌else◌, Option, none, some, Str, str, ◌==◌,
  keep, IsSorted, List, [], ◌∷◌,
}
use keleustes.Base.Int.{ℤ, pos}
use keleustes.Base.Result.{ok}
use keleustes.Api.Wire.{AuditEvent}
use keleustes.Api.Port.{AuditQuery, AuditPage}
use keleustes.Api.Fixtures.{Fixtures}
use keleustes.Api.Fixtures.Activity.{
  audit_matches, query_audit, newer, at_instant, IsPage, query_audit_exact,
}
use keleustes.Observability.Metrics.{Prometheus, Call, registered, event, generation}
use keleustes.Tests.Corpus.{corpus}

abbrev same_labels : List Str → List Str → Bool
same_labels [] [] = true
same_labels (a ∷ k) (b ∷ l) = a == b && same_labels k l
same_labels _ _ = false

abbrev prometheus : Prometheus
prometheus = record {
  Counters = List Str → ℕ;
  Gauges = List Str → Option ℤ;
  new_counters = λ l. 0;
  new_gauges = λ l. none;
  inc = λ k c l. if same_labels k l then c l + 1 else c l;
  set = λ k v g l. if same_labels k l then some v else g l;
  count = λ l c. c l;
  value = λ l g. g l;
  same = same_labels;
  count-new = λ l. refl;
  value-new = λ l. refl;
  count-inc = λ k l c. refl;
  value-set = λ k l v g. refl;
}

abbrev success : List Str
success = str "sync" ∷ str "SyncRun" ∷ str "success" ∷ []

abbrev sync_runs : List Str
sync_runs = str "sync" ∷ str "SyncRun" ∷ []

-- A call that comes too early, a second registration, and a generation that falls.
abbrev calls : List (Call prometheus)
calls =
    event (str "sync") (str "SyncRun") (str "success")
    ∷ registered
    ∷ event (str "sync") (str "SyncRun") (str "success")
    ∷ generation (str "sync") (str "SyncRun") (pos 4)
    ∷ registered
    ∷ generation (str "sync") (str "SyncRun") (pos 3)
    ∷ []

abbrev at_time : ℕ → Str → AuditEvent
at_time at actor = record {
  actor = actor;
  at = at;
  target = str "prod/shop";
  ulid = [];
  verb = str "approve";
}

abbrev busy : Fixtures
busy = record corpus {
  audit = at_time 1 (str "a") ∷ at_time 2 (str "b") ∷ at_time 2 (str "c") ∷ [];
}

abbrev query : AuditQuery
query = record {
  resource = str "shop";
  actor = [];
  verb = [];
  from = none;
  to = none;
  limit = pos 2;
}

query_audit_exact_example :
    (page : AuditPage) × (query_audit busy query ≡ ok page)
    × ((events : List AuditEvent) × IsPage query.limit events page.items
        × Perm events (keep (λ e. audit_matches e query) busy.audit)
        × IsSorted newer events
        × ((t : ℕ)
            → at_instant t events ≡ at_instant t (keep (λ e. audit_matches e query) busy.audit)))
query_audit_exact_example = query_audit_exact busy query
