-- ===== src/Tests/Fleet/Shape.antt =====
-- The columns of the matrix and the topology.
use mathlib.Core.List.{Perm}
use keleustes.Base.{
  ◌≡◌, ◌↔◌, refl, inl, inr, true, str, ◌==◌, ◌<?◌, In, Lacks, IsSorted, IsStrict, List, [], ◌∷◌,
  map,
}
use keleustes.Base.Result.{ok}
use keleustes.Api.Resources
use keleustes.Api.Resources.{ObjectMeta, Condition}
use keleustes.Api.CrdSource.Matrix.{matrix_columns, target_less}
use keleustes.Api.CrdSource.Topology.{environment_less}
use keleustes.Api.CrdSource.Reads.{list_environments}
use keleustes.Api.CrdSource.Columns.{AreKeyed, Pair, pair_of, pair_less, pair_column}
use keleustes.Api.CrdSource.Headers.{matrix_columns_exact}
use keleustes.Api.CrdSource.Environments.{ShowsEnvironment, IsBefore, list_environments_exact}
use keleustes.Api.CrdSource.Mapping.{target_to_api}
use keleustes.Api.Wire
use keleustes.Tests.Fleet.{west, east, two_targets, prod, find_condition, fleet}

prod_Lacks : Lacks 0 (str "prod")
prod_Lacks = ((λ e. cc), ((λ e. cc), ((λ e. cc), ((λ e. cc), tt))))

two_keyed : AreKeyed two_targets
two_keyed = (prod_Lacks, (prod_Lacks, tt))

matrix_columns_exact_example :
    (ps : List Pair) × (matrix_columns two_targets ≡ map pair_column ps)
    × IsStrict pair_less ps
    × ((q : Pair) → In q ps ↔ In q (map pair_of two_targets))
matrix_columns_exact_example = matrix_columns_exact two_targets two_keyed

abbrev sorted_targets : List Resources.DeploymentTarget
sorted_targets = east ∷ west ∷ []

two-IsSorted : IsSorted target_less sorted_targets
unfolding target_less ◌==◌ ◌<?◌
two-IsSorted = ((refl, tt), (tt, tt))

sorted_same : (t : Resources.DeploymentTarget) → In t sorted_targets ↔ In t two_targets
sorted_same t = (
  (λ h. elim h [ inl e ↦ inr (inl e) | inr (inl e) ↦ inl e | inr (inr e) ↦ absurd e ]),
  (λ h. elim h [ inl e ↦ inr (inl e) | inr (inl e) ↦ inl e | inr (inr e) ↦ absurd e ]),
)

environments_listed : fleet.environments ≡ ok (prod ∷ [])
environments_listed = refl

list_environments_exact_example :
    (sorted : List Resources.Environment) × (view : Resources.Environment → Wire.Environment)
    × (list_environments fleet ≡ ok (map view sorted))
    × ((e : Resources.Environment) → ShowsEnvironment find_condition two_targets e (view e))
    × ((t : Resources.DeploymentTarget) → (target_to_api find_condition t).name ≡ t.meta.name)
    × Perm sorted (prod ∷ [])
    × IsSorted environment_less sorted
    × ((a b : Resources.Environment) → (environment_less a b ≡ true) ↔ IsBefore a b)
list_environments_exact_example = list_environments_exact fleet (prod ∷ []) two_targets refl refl
