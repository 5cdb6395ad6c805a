-- ===== src/Api/CrdSource/Cells.antt =====
-- internal/api/readmodel/crdsource/map.go: the cells and the regions of an environment.
use mathlib.Core.Path.{fun_ext}
use keleustes.Base.{
  ◌≡◌, ◌≢◌, refl, ap, sym, subst, ◌↔◌, inl, inr, true, not, Bool-cases, Str, ◌==◌, ==_sound,
  ==_refl, ==_false, ne_of_==, arith, if◌then◌else◌, List, [], ◌∷◌, map, In, In-keep, keep, ◌<?◌,
  sort_by, In-sort_by, none, some, first, IsStrict, IsDistinct, sort_by-IsStrict, <?-IsWeakOrder,
  <?_total,
}
use keleustes.Api.Resources.{DeploymentTarget}
use keleustes.Api.Wire.{EnvCell}
use keleustes.Api.CrdSource.Mapping.{Finder, contains, str_ptr_or_nil, target_to_api}
use keleustes.Api.CrdSource.Topology.{
  group_by, cell_order, cell_region, env_cell, env_cells, new_regions, unique_regions,
}
use keleustes.Api.CrdSource.Columns.{not_contained, absent}
use keleustes.Api.CrdSource.Groups.{grouped}

-- The strings at their first places, but for those that were seen.
firsts : List Str → List Str → List Str
firsts seen [] = []
firsts seen (s ∷ ss) =
    let old = firsts seen ss in
    let new = s ∷ firsts (s ∷ seen) ss in if contains seen s then old else new

firsts_sound : (seen ss : List Str) (s : Str) → In s (firsts seen ss) → In s ss × (¬ In s seen)
unfolding firsts
firsts_sound seen [] s h = absurd h
firsts_sound seen (x ∷ ss) s h = elim (Bool-cases (contains seen x)) [
  | inl old ↦ let (i, n) = firsts_sound seen ss s (rw old at h) in (inr i, n)
  | inr new ↦ elim (rw new at h) [
    | inl e ↦ (inl e, λ i. not_contained seen x new (subst (λ k. In k seen) e i))
    | inr i ↦ let (j, n) = firsts_sound (x ∷ seen) ss s i in (inr j, λ k. n (inr k))
  ]
]

firsts_complete : (seen ss : List Str) (s : Str) → In s ss → (¬ In s seen) → In s (firsts seen ss)
unfolding firsts
firsts_complete seen [] s h n = absurd h
firsts_complete seen (x ∷ ss) s (inl e) n =
    rw (absent seen x (λ i. n (subst (λ k. In k seen) (sym e) i))) (inl e)
firsts_complete seen (x ∷ ss) s (inr i) n = elim (Bool-cases (contains seen x)) [
  | inl old ↦ rw old (firsts_complete seen ss s i n)
  | inr new ↦ rw new (elim (Bool-cases (x == s)) [
    | inl e ↦ inl (sym (==_sound x s e))
    | inr e ↦
        inr (
          firsts_complete (x ∷ seen) ss s i
            (λ h. elim h [ inl p ↦ ne_of_== x s e p | inr q ↦ n q ]))
  ])
]

firsts-IsDistinct : (seen ss : List Str) → IsDistinct (firsts seen ss)
unfolding firsts
firsts-IsDistinct seen [] = tt
firsts-IsDistinct seen (x ∷ ss) = elim (Bool-cases (contains seen x)) [
  | inl old ↦ rw old (firsts-IsDistinct seen ss)
  | inr new ↦
      rw new ((λ i. (firsts_sound (x ∷ seen) ss x i).1 (inl refl)), firsts-IsDistinct (x ∷ seen) ss)
]

-- Sorted, the first places are the strictly increasing list of the strings.
sorted_firsts :
    (ss : List Str)
    → IsStrict ◌<?◌ (sort_by ◌<?◌ (firsts [] ss))
      × ((s : Str) → In s (sort_by ◌<?◌ (firsts [] ss)) ↔ In s ss)
sorted_firsts ss = (
  sort_by-IsStrict ◌<?◌ <?-IsWeakOrder <?_total (firsts [] ss) (firsts-IsDistinct [] ss),
  λ s. (
    (λ h. (firsts_sound [] ss s ((In-sort_by ◌<?◌ s (firsts [] ss)).0 h)).0),
    (λ h. (In-sort_by ◌<?◌ s (firsts [] ss)).1 (firsts_complete [] ss s h (λ n. n))),
  ),
)

abbrev cells_of : List DeploymentTarget → List Str
cells_of ts = map (λ (t : DeploymentTarget). t.cell) ts

cell_order-firsts :
    (seen : List Str) (ts : List DeploymentTarget) → cell_order seen ts ≡ firsts seen (cells_of ts)
unfolding cell_order firsts
cell_order-firsts seen [] = refl
cell_order-firsts seen (t ∷ ts) =
    ground (arith, cell_order-firsts seen ts, cell_order-firsts (t.cell ∷ seen) ts)

-- The regions that are named.
abbrev regions_of : List DeploymentTarget → List Str
regions_of ts = keep (λ s. not (s == [])) (map (λ (t : DeploymentTarget). t.region) ts)

new_regions-firsts :
    (seen : List Str) (ts : List DeploymentTarget)
    → new_regions seen ts ≡ firsts seen (regions_of ts)
unfolding new_regions firsts
new_regions-firsts seen [] = refl
new_regions-firsts seen (t ∷ ts) =
    ground (arith, new_regions-firsts seen ts, new_regions-firsts (t.region ∷ seen) ts)

-- What is shown of a cell: its name, if it has one, the first region that a target of it names, and
-- its targets in the order of the listing.
abbrev pub cell_view : Finder → List DeploymentTarget → Str → EnvCell
cell_view find ts cell =
    let members = keep (λ (t : DeploymentTarget). t.cell == cell) ts in
    record {
      name = if cell == [] then none else some cell;
      region = first (λ s. not (s == [])) (map (λ (t : DeploymentTarget). t.region) members);
      targets = map (target_to_api find) members;
    }

cell_region-first :
    (ts : List DeploymentTarget)
    → str_ptr_or_nil (cell_region ts)
      ≡ first (λ s. not (s == [])) (map (λ (t : DeploymentTarget). t.region) ts)
unfolding str_ptr_or_nil cell_region ◌==◌
cell_region-first [] = refl
cell_region-first (t ∷ ts) = elim (Bool-cases (t.region == [])) [
  | inl e ↦ rw e (cell_region-first ts)
  | inr e ↦ rw (e, e) refl
]

cell_eq :
    (find : Finder) (ts : List DeploymentTarget) (c : Str)
    → env_cell find (group_by (λ t. t.cell) [] ts) c ≡ cell_view find ts c
unfolding env_cell str_ptr_or_nil
cell_eq find ts c =
    rw
      (
        grouped (λ t. t.cell) c ts,
        cell_region-first (keep (λ (t : DeploymentTarget). t.cell == c) ts),
      )
      refl

-- The cells are strictly increasing by name, a name is shown exactly if a target is in that cell,
-- and a cell shows exactly its targets, in the order of the listing.
pub env_cells_exact :
    (find : Finder) (ts : List DeploymentTarget)
    → (cells : List Str) × (env_cells find ts ≡ map (cell_view find ts) cells)
      × IsStrict ◌<?◌ cells
      × ((c : Str) → In c cells ↔ In c (map (λ (t : DeploymentTarget). t.cell) ts))
unfolding env_cells
env_cells_exact find ts =
    let order = cell_order-firsts [] ts in
    let facts = sorted_firsts (cells_of ts) in
    (
      sort_by ◌<?◌ (firsts [] (cells_of ts)),
      rw order (
          ap (λ f. map f (sort_by ◌<?◌ (firsts [] (cells_of ts))))
            (fun_ext (λ c. cell_eq find ts c))),
      facts.0,
      facts.1,
    )

named : (r : Str) → r ≢ [] → not (r == []) ≡ true
named r n = rw (==_false r [] n)

-- The regions are strictly increasing, and are exactly those, not empty, that a target names.
pub unique_regions_exact :
    (ts : List DeploymentTarget)
    → IsStrict ◌<?◌ (unique_regions ts)
      × ((r : Str)
          → In r (unique_regions ts)
            ↔ ((r ≢ []) × In r (map (λ (t : DeploymentTarget). t.region) ts)))
unfolding unique_regions
unique_regions_exact ts =
    let facts = sorted_firsts (regions_of ts) in
    rw (new_regions-firsts [] ts) (
      facts.0,
      λ r. (
        (λ h.
            let (p, i) =
              (In-keep (λ s. not (s == [])) r (map (λ (t : DeploymentTarget). t.region) ts)).0
                ((facts.1 r).0 h) in
            (λ e. cc (==_refl r, ap (λ s. r == s) e), i)),
        (λ h. (facts.1 r).1 (
            (In-keep (λ s. not (s == [])) r (map (λ (t : DeploymentTarget). t.region) ts)).1
              (named r h.0, h.1))),
      ),
    )
