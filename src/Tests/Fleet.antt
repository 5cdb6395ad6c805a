-- ===== src/Tests/Fleet.antt =====
-- A small fleet for runs of internal/api/readmodel/crdsource.
pub mod Inbox
mod Shape
use mathlib.Core.List.{Perm}
use keleustes.Base.{
  ◌≡◌, ◌⊎◌, ◌≢◌, ◌↔◌, refl, inl, inr, Bool, true, false, Option, none, some, Str, str, ◌==◌, ◌<?◌,
  In, Lacks, IsSorted, IsStrict, List, [], ◌∷◌, ◌++◌, ◌+◌, map, length, first, sort_by,
}
use keleustes.Base.Int.{ℤ, pos}
use keleustes.Base.Result.{Result, ok, err}
use keleustes.Api.Resources
use keleustes.Api.Resources.{ObjectMeta, Condition}
use keleustes.Api.Wire
use keleustes.Api.Wire.{blocked, progressing, MatrixRow}
use keleustes.Api.Port.{ApplicationsPage, not_found}
use keleustes.Api.CrdSource.Mapping.{
  Finder, application_to_api, promotion_to_api, promotion_matches_state, promotion_status, contains,
}
use keleustes.Api.CrdSource.Matrix.{matrix_columns, target_less, distinct_targets, column_of}
use keleustes.Api.CrdSource.Topology.{environment_less, env_cells, unique_regions}
use keleustes.Api.CrdSource.Reads.{
  Source, listed, list_promotions, list_environments, list_applications, get_application,
  get_matrix, get_target_health, get_target_drift,
}
use keleustes.Api.CrdSource.Phases.{IsEnded, state_iff_status, list_promotions_partition}
use keleustes.Api.CrdSource.Columns.{AreKeyed, Pair, pair_of, pair_less, pair_column}
use keleustes.Api.CrdSource.Headers.{
  matrix_columns_exact, matrix_columns_any_sort, matrix_columns_ext,
}
use keleustes.Api.CrdSource.Cells.{cell_view, env_cells_exact, unique_regions_exact}
use keleustes.Api.CrdSource.Lookups.{no_filter, get_application_listed, get_application_missing}
use keleustes.Api.CrdSource.MatrixShape.{IsRow, get_matrix_rows, target_answers}

abbrev pub meta_of : Str → ObjectMeta
meta_of name = record {
  name = name;
  namespace = str "ns";
  labels = [];
  annotations = [];
  creation_timestamp = 3;
  generation = 2;
}

abbrev pub target : (name environment cell region : Str) → Resources.DeploymentTarget
target name environment cell region = record {
  meta = meta_of name;
  environment = environment;
  cell = cell;
  region = region;
  cluster_name = str "k1";
  status = record {
    observed_generation = 0;
    conditions = [];
    reachable = false;
    last_contacted_at = none;
  };
}

abbrev pub west : Resources.DeploymentTarget
west = target (str "t1") (str "prod") (str "c1") (str "west")

abbrev pub east : Resources.DeploymentTarget
east = target (str "t2") (str "prod") (str "c1") (str "east")

abbrev pub two_targets : List Resources.DeploymentTarget
two_targets = west ∷ east ∷ []

abbrev pub prod : Resources.Environment
prod = record {
  meta = meta_of (str "prod");
  order = pos 1;
  status = record { observed_generation = 0; conditions = [] };
}

abbrev pub rejected : Condition
rejected = record {
  condition_type = str "Accepted";
  status = str "False";
  observed_generation = 1;
  last_transition_time = 5;
  reason = str "Invalid";
  message = [];
}

abbrev pub shop : Resources.Application
shop = record {
  meta = meta_of (str "shop");
  owner_team = str "web";
  manifest = record { manifest_type = str "helm"; repo = []; base_path = []; chart = [] };
  environments = str "prod" ∷ [];
  status = record { observed_generation = 1; conditions = rejected ∷ [] };
}

abbrev pub promotion : Str → Str → Resources.Promotion
promotion name phase = record {
  meta = meta_of name;
  application = str "shop";
  release = str "r1";
  from_environment = str "dev";
  to_environment = str "prod";
  mode = [];
  status = record { observed_generation = 0; phase = phase; blockers = []; conditions = [] };
}

abbrev pub two_promotions : List Resources.Promotion
two_promotions = promotion (str "p1") (str "Blocked") ∷ promotion (str "p2") (str "Canceled") ∷ []

-- The first condition of the type.
abbrev pub find_condition : Finder
find_condition conds t = first (λ (c : Condition). c.condition_type == t) conds

abbrev pub fleet : Source
fleet = record {
  applications = ok (shop ∷ []);
  releases = ok [];
  targets = ok two_targets;
  promotions = ok two_promotions;
  health_checks = ok [];
  environments = ok (prod ∷ []);
  find = find_condition;
  is_not_found = λ e. e == str "not found";
  now = 11;
}
