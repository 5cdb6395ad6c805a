-- ===== src/Api/CrdSource/Topology.antt =====
-- internal/api/readmodel/crdsource/map.go: environments with their regions and cells.
use keleustes.Base.{
  Bool, not, ◌||◌, Option, none, some, Str, ◌==◌, ◌<?◌, if◌then◌else◌, List, [], ◌∷◌, ◌++◌, map,
  sort_by,
}
use keleustes.Base.Int.{int_lt, int_eq}
use keleustes.Api.Resources
use keleustes.Api.Resources.{DeploymentTarget}
use keleustes.Api.Wire
use keleustes.Api.Wire.{EnvCell}
use keleustes.Api.CrdSource.Mapping.{Finder, str_ptr_or_nil, contains, target_to_api}

-- The `less` function of the sort: by `spec.order`, then by name.
unfoldable pub environment_less : Resources.Environment → Resources.Environment → Bool
environment_less a b =
    if not (int_eq a.order b.order) then int_lt a.order b.order else a.meta.name <? b.meta.name

unfoldable pub sorted_environments : List Resources.Environment → List Resources.Environment
unfolding environment_less
sorted_environments envs = sort_by environment_less envs

-- The loop of `uniqueRegions`; `out` is what it appends.
unfoldable pub new_regions : List Str → List DeploymentTarget → List Str
new_regions seen [] = []
new_regions seen (t ∷ ts) =
    let skipped = new_regions seen ts in
    let added = t.region ∷ new_regions (t.region ∷ seen) ts in
    if t.region == [] || contains seen t.region then skipped else added

unfoldable pub unique_regions : List DeploymentTarget → List Str
unfolding new_regions
unique_regions targets = sort_by ◌<?◌ (new_regions [] targets)

-- `groups[k]`, a map of slices: the empty slice where the key is missing.
unfoldable pub group_of : Str → List (Str × List DeploymentTarget) → List DeploymentTarget
group_of k [] = []
group_of k ((j, ts) ∷ m) = if j == k then ts else group_of k m

-- `groups[k] = append(groups[k], t)`.
unfoldable pub add_to_group :
    Str → DeploymentTarget → List (Str × List DeploymentTarget) → List (Str × List DeploymentTarget)
add_to_group k t [] = (k, t ∷ []) ∷ []
add_to_group k t ((j, ts) ∷ m) =
    if j == k then (j, ts ++ t ∷ []) ∷ m else (j, ts) ∷ add_to_group k t m

-- A loop that groups the targets by a key.
unfoldable pub group_by :
    (DeploymentTarget → Str)
    → List (Str × List DeploymentTarget)
    → List DeploymentTarget
    → List (Str × List DeploymentTarget)
unfolding add_to_group
group_by key groups [] = groups
group_by key groups (t ∷ ts) = group_by key (add_to_group (key t) t groups) ts

-- The keys of the groups in the order in which the loop of `envCells` meets them.
unfoldable pub cell_order : List Str → List DeploymentTarget → List Str
cell_order seen [] = []
cell_order seen (t ∷ ts) =
    let skipped = cell_order seen ts in
    let added = t.cell ∷ cell_order (t.cell ∷ seen) ts in
    if not (contains seen t.cell) then added else skipped

-- The first region of a member that is not empty, or the empty string.
unfoldable pub cell_region : List DeploymentTarget → Str
cell_region [] = []
cell_region (t ∷ ts) = let rest = cell_region ts in if t.region == [] then rest else t.region

unfoldable pub env_cell : Finder → List (Str × List DeploymentTarget) → Str → EnvCell
unfolding group_of target_to_api str_ptr_or_nil cell_region
env_cell find groups cell =
    let members = group_of cell groups in
    record {
      name = str_ptr_or_nil cell;
      region = str_ptr_or_nil (cell_region members);
      targets = map (target_to_api find) members;
    }

unfoldable pub env_cells : Finder → List DeploymentTarget → List EnvCell
unfolding group_by cell_order env_cell
env_cells find targets =
    let groups = group_by (λ t. t.cell) [] targets in
    map (env_cell find groups) (sort_by ◌<?◌ (cell_order [] targets))

-- `if len(xs) > 0 { … = &xs }`.
abbrev non_empty {ℓ} : {A : Type ℓ} → List A → Option (List A)
non_empty [] = none
non_empty (x ∷ xs) = some (x ∷ xs)

unfoldable pub environment_to_api :
    Finder → Resources.Environment → List DeploymentTarget → Wire.Environment
unfolding unique_regions env_cells
environment_to_api find e targets = record {
  cells = non_empty (env_cells find targets);
  name = e.meta.name;
  regions = non_empty (unique_regions targets);
}
