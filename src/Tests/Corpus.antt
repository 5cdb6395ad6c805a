-- ===== src/Tests/Corpus.antt =====
-- Runs of internal/api/readmodel/fixtures and of the look-up of internal/cli/kinds.go.
use keleustes.Base.{
  ◌≡◌, ◌≢◌, ◌↔◌, ◌⊎◌, refl, Bool, true, false, none, some, str, ◌==◌, ==_refl, not, all, all_at,
  any_of_In, get_or, to_lower, In, [], ◌∷◌,
}
use keleustes.Base.Result.{ok}
use keleustes.Api.Resources
use keleustes.Api.Wire
use keleustes.Api.Wire.{degraded, healthy}
use keleustes.Api.Port.{ApplicationFilter, ApplicationsPage}
use keleustes.Api.CrdSource.Mapping.{promotion_to_api, promotion_matches_state, promotion_status}
use keleustes.Api.Fixtures.{
  Fixtures, promotion_in_state, list_applications, list_targets, list_environments,
}
use keleustes.Api.Fixtures.Inbox.{promotion_in_state_iff}
use keleustes.Api.Auth.{allow_all}
use keleustes.Api.Server.Handlers.{get_targets_name_drift, get_targets_name_health, serve, failure}
use keleustes.Api.Server.Lookup.{missing_problem}
use keleustes.Api.Server.Targets.{Absent, Present, fixtures, read_model_of, serve_target}
use keleustes.Cli.Kinds.{gvk, gvr, has_alias, ResolvedKind, keleustes_kinds, resolve_kind}
use keleustes.Cli.Kinds.Resolve.{resolve_kind_iff}
use keleustes.Tests.Fleet.{promotion}

abbrev app_view : Wire.Application
app_view = record {
  name = str "shop";
  owner = none;
  project = some (str "web");
  source = none;
  status = healthy;
  ulid = [];
}

abbrev target_view : Wire.DeploymentTarget
target_view = record {
  cell = none;
  cluster = none;
  drift = none;
  env = some (str "prod");
  last_sync = none;
  name = str "t1";
  region = none;
  status = healthy;
  ulid = none;
}

abbrev env_view : Wire.Environment
env_view = record {
  cells = some (record { name = none; region = none; targets = target_view ∷ [] } ∷ []);
  name = str "prod";
  regions = none;
}

abbrev pub corpus : Fixtures
corpus = record {
  apps = app_view ∷ [];
  matrix = record {
    as_of = 1;
    columns = [];
    rows =
        record {
          application = str "shop";
          cells =
              record { drift = none; env = some (str "prod"); region = none; status = healthy }
              ∷ [];
          ulid = none;
        }
        ∷ [];
  };
  proms = [];
  releases = [];
  envs = env_view ∷ [];
  audit = [];
  apps_as_of = 2;
}

abbrev rolled_back : Resources.Promotion
rolled_back = promotion (str "p3") (str "RolledBack")

promotion_in_state_iff_example :
    ((promotion_in_state (promotion_to_api rolled_back) (str "blocked") ≡ true)
      ↔ (promotion_matches_state rolled_back (str "blocked") ≡ true))
    × ((promotion_in_state (promotion_to_api rolled_back) (str "history") ≡ true) ↔ (
        (promotion_matches_state rolled_back (str "history") ≡ true)
        × (promotion_status rolled_back.status.phase ≢ degraded)))
    × ((promotion_in_state (promotion_to_api rolled_back) (str "active") ≡ true) ↔ (
        (promotion_matches_state rolled_back (str "active") ≡ true)
        ⊎ (promotion_matches_state rolled_back (str "blocked") ≡ true)
        ⊎ (promotion_status rolled_back.status.phase ≡ degraded)))
promotion_in_state_iff_example = promotion_in_state_iff rolled_back

abbrev in_prod : ApplicationFilter
in_prod = record { project = []; env = str "prod"; region = []; q = [] }

abbrev prod_page : ApplicationsPage
prod_page = record { items = app_view ∷ []; as_of = 2 }

prod_listed : list_applications corpus in_prod ≡ ok prod_page
unfolding list_applications
prod_listed = refl

targets_listed : list_targets corpus ≡ ok (target_view ∷ [])
unfolding list_targets
targets_listed = refl

targets_granted : allow_all (str "read") (str "targets") [] ≡ true
unfolding allow_all
targets_granted = refl

serve_target_example :
    ((serve allow_all
          (read_model_of (fixtures corpus))
          (str "/d")
          (get_targets_name_drift (str "x"))
        ≡ failure (missing_problem (str "/d"), false))
      ↔ Absent (str "x") (target_view ∷ []))
    × ((serve allow_all
            (read_model_of (fixtures corpus))
            (str "/d")
            (get_targets_name_health (str "x"))
          ≡ failure (missing_problem (str "/d"), false))
        ⊎ Present (str "x") (target_view ∷ []))
serve_target_example =
    serve_target allow_all (fixtures corpus) (str "/d") (str "x") (target_view ∷ []) targets_granted
      targets_listed

corpus_envs : list_environments corpus ≡ ok (env_view ∷ [])
unfolding list_environments
corpus_envs = refl

abbrev no_kind : ResolvedKind
no_kind = record { gvk = gvk []; gvr = gvr []; aliases = []; columns = [] }

-- The first entry of the registry.
abbrev application_kind : ResolvedKind
application_kind = get_or keleustes_kinds 0 no_kind

resolve_kind_iff_example :
    (resolve_kind (str "App") ≡ ok application_kind)
    ↔ (In application_kind keleustes_kinds × In (to_lower (str "App")) application_kind.aliases)
resolve_kind_iff_example = resolve_kind_iff (str "App") application_kind

no_pod_alias : all (λ k. not (has_alias (str "pod") k)) keleustes_kinds ≡ true
unfolding keleustes_kinds ◌==◌
no_pod_alias = refl

not_refutes : (b : Bool) → b ≡ true → not b ≡ true → ⊥
not_refutes b t n = cc (rw t at n)

no_pods : (k : ResolvedKind) → In k keleustes_kinds → ¬ In (to_lower (str "pod")) k.aliases
unfolding to_lower
no_pods k i m =
    let n = all_at (λ j. not (has_alias (str "pod") j)) k keleustes_kinds no_pod_alias i in
    let t = any_of_In (λ a. a == str "pod") (str "pod") k.aliases m (==_refl (str "pod")) in
    not_refutes (has_alias (str "pod") k) t n
