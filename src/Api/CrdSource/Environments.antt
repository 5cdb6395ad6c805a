-- ===== src/Api/CrdSource/Environments.antt =====
-- internal/api/readmodel/crdsource: the topology, environment by environment.
use mathlib.Core.List.{Perm}
use mathlib.Core.Path.{fun_ext}
use keleustes.Base.{
  ◌≡◌, ◌≢◌, ◌⊎◌, ◌↔◌, refl, ap, inl, inr, true, Bool-cases, Option, none, some, Str, ◌==◌, ◌<?◌,
  arith, List, [], ◌∷◌, map, keep, In, sort_by, sort_by-perm, IsSorted, IsStrict, sort_by-IsSorted,
}
use keleustes.Base.Int.{int_lt, int_eq}
use keleustes.Base.Result.{ok}
use keleustes.Api.Resources
use keleustes.Api.Resources.{DeploymentTarget}
use keleustes.Api.Wire
use keleustes.Api.CrdSource.Mapping.{Finder, target_to_api}
use keleustes.Api.CrdSource.Topology.{
  environment_less, sorted_environments, environment_to_api, unique_regions,
}
use keleustes.Api.CrdSource.Reads.{Source, listed, list_environments}
use keleustes.Api.CrdSource.Groups.{grouped, environment_order}
use keleustes.Api.CrdSource.Cells.{cell_view, env_cells_exact, unique_regions_exact}

abbrev pub unless_empty : {A : Type 0} → List A → Option (List A)
unless_empty [] = none
unless_empty (x ∷ xs) = some (x ∷ xs)

-- What is shown of an environment: its name, a cell for each cell of a target that names it, and
-- each region of such a target, none twice and in order of name.
abbrev pub ShowsEnvironment :
    Finder → List DeploymentTarget → Resources.Environment → Wire.Environment → Type 0
ShowsEnvironment find targets e w =
    let here = keep (λ (t : DeploymentTarget). t.environment == e.meta.name) targets in
    (w.name ≡ e.meta.name)
    × ((cells : List Str) × (w.cells ≡ unless_empty (map (cell_view find here) cells))
        × IsStrict ◌<?◌ cells
        × ((c : Str) → In c cells ↔ In c (map (λ (t : DeploymentTarget). t.cell) here)))
    × ((regions : List Str) × (w.regions ≡ unless_empty regions)
        × IsStrict ◌<?◌ regions
        × ((r : Str)
            → In r regions ↔ ((r ≢ []) × In r (map (λ (t : DeploymentTarget). t.region) here))))

-- By `spec.order`, and by name where that is the same.
abbrev pub IsBefore : Resources.Environment → Resources.Environment → Type 0
IsBefore a b =
    (int_lt a.order b.order ≡ true)
    ⊎ ((int_eq a.order b.order ≡ true) × (a.meta.name <? b.meta.name ≡ true))

environment_less-IsBefore :
    (a b : Resources.Environment) → (environment_less a b ≡ true) ↔ IsBefore a b
unfolding environment_less
environment_less-IsBefore a b = elim (Bool-cases (int_eq a.order b.order)) [
  | inl e ↦ rw e ((λ h. inr (refl, h)), (λ h. elim h [ inl l ↦ ground arith | inr (_, l) ↦ l ]))
  | inr e ↦ rw e ((λ h. inl h), (λ h. elim h [ inl l ↦ l | inr (q, _) ↦ cc ]))
]

shown-environment :
    (find : Finder) (targets : List DeploymentTarget) (e : Resources.Environment)
    → ShowsEnvironment find targets e (
        environment_to_api find e
          (keep (λ (t : DeploymentTarget). t.environment == e.meta.name) targets))
unfolding environment_to_api
shown-environment find targets e =
    let here = keep (λ (t : DeploymentTarget). t.environment == e.meta.name) targets in
    let (cells, shown, strict, exact) = env_cells_exact find here in
    let regions = unique_regions_exact here in
    (
      refl,
      (cells, ap unless_empty shown, strict, exact),
      (unique_regions here, refl, regions.0, regions.1),
    )

target_named : (find : Finder) (t : DeploymentTarget) → (target_to_api find t).name ≡ t.meta.name
unfolding target_to_api
target_named find t = refl

-- If both listings succeed, the topology shows every environment once, in order of `spec.order` and
-- then of name. An environment is shown with its name, with a cell for each cell of the targets that
-- name it, in order of name, and in a cell exactly its targets, in the order of the listing, each
-- under its own name; and with the regions of those targets, none twice and in order.
pub list_environments_exact :
    (s : Source) (envs : List Resources.Environment) (targets : List DeploymentTarget)
    → s.environments ≡ ok envs
    → s.targets ≡ ok targets
    → (sorted : List Resources.Environment) × (view : Resources.Environment → Wire.Environment)
      × (list_environments s ≡ ok (map view sorted))
      × ((e : Resources.Environment) → ShowsEnvironment s.find targets e (view e))
      × ((t : DeploymentTarget) → (target_to_api s.find t).name ≡ t.meta.name)
      × Perm sorted envs
      × IsSorted environment_less sorted
      × ((a b : Resources.Environment) → (environment_less a b ≡ true) ↔ IsBefore a b)
unfolding list_environments listed sorted_environments
list_environments_exact s envs targets h k = (
  sort_by environment_less envs,
  λ e.
      environment_to_api s.find e
        (keep (λ (t : DeploymentTarget). t.environment == e.meta.name) targets),
  rw (
    h,
    k,
    fun_ext (λ (e : Resources.Environment).
        ap (environment_to_api s.find e) (grouped (λ t. t.environment) e.meta.name targets)),
  ),
  shown-environment s.find targets,
  target_named s.find,
  sort_by-perm environment_less envs,
  sort_by-IsSorted environment_less environment_order envs,
  environment_less-IsBefore,
)
