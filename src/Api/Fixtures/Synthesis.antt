-- ===== src/Api/Fixtures/Synthesis.antt =====
-- internal/api/readmodel/fixtures/fixtures.go: the health, drift and diff that are made up from a
-- target or a query, and the corpus as a read model.
use keleustes.Base.{
  Bool, true, false, Option, none, some, Str, str, ◌==◌, if◌then◌else◌, not, List, [], ◌∷◌, ◌++◌,
  eqb,
}
use keleustes.Base.Result.{Result, ok, err}
use keleustes.Api.Wire.{
  HealthCheck, Diff, DiffEntry, DeploymentTarget, healthy, status_word, git_live,
}
use keleustes.Api.Port.{ReadError, not_found, DiffQuery}
use keleustes.Api.Fixtures.{Fixtures, find_target}

-- `target[i+1:]` for `i := strings.LastIndex(target, "/")`, if that is not negative.
abbrev after_last : Str → Option Str
after_last [] = none
after_last (c ∷ s) =
    let here = if eqb c b'/' then some s else none in
    elim (after_last s) [ some r ↦ some r | none ↦ here ]

unfoldable pub app_of : (target : Str) → Str
app_of target = elim (after_last target) [
  | none ↦ target
  | some [] ↦ target
  | some (c ∷ app) ↦ c ∷ app
]

abbrev target_health : DeploymentTarget → Str → List HealthCheck
target_health t app =
    record {
      last_probe = t.last_sync;
      message = some (str "rollout " ++ status_word t.status);
      resource = str "Deployment/" ++ app;
      status = t.status;
    }
    ∷ record {
      last_probe = t.last_sync;
      message = some (str "endpoints ready");
      resource = str "Service/" ++ app;
      status = healthy;
    }
    ∷ []

unfoldable pub get_target_health : Fixtures → Str → Result ReadError (List HealthCheck)
unfolding app_of status_word
get_target_health f name = elim (find_target f name) [
  | none ↦ err not_found
  | some t ↦ ok (target_health t (app_of name))
]

abbrev drift_entries : Option Bool → Str → List DiffEntry
drift_entries (some true) app =
    record {
      change = str "changed";
      drift = some true;
      object = str "Deployment/" ++ app;
      patch = some (str "@@ spec.replicas @@\n-replicas: 3\n+replicas: 2");
    }
    ∷ []
drift_entries _ app = []

abbrev pub target_drift : DeploymentTarget → Str → Diff
target_drift t app = record {
  entries = drift_entries t.drift app;
  left = some (str "git");
  mode = git_live;
  right = some t.name;
  summary = none;
}

unfoldable pub get_target_drift : Fixtures → Str → Result ReadError Diff
unfolding app_of
get_target_drift f name = elim (find_target f name) [
  | none ↦ err not_found
  | some t ↦ ok (target_drift t (app_of name))
]

unfoldable pub get_diff : Fixtures → DiffQuery → Result ReadError Diff
get_diff f q = ok (record {
  entries =
      record {
        change = str "changed";
        drift = some false;
        object = str "Deployment/api";
        patch = some (str "@@ image @@\n-image: api:1.4.1\n+image: api:1.4.2");
      }
      ∷ [];
  left = if not (q.left == []) then some q.left else none;
  mode = if q.mode == [] then git_live else q.mode;
  right = if not (q.right == []) then some q.right else none;
  summary = none;
})
