-- ===== src/Api/CrdSource/Headers.antt =====
-- internal/api/readmodel/crdsource/map.go: the column headers of the matrix.
use keleustes.Base.{
  ◌≡◌, refl, ap, sym, ◌∙◌, subst, ◌↔◌, true, List, [], ◌∷◌, map, In, In-map, In-map_inv, All,
  All_at, Lacks, sort_by, In-sort_by, IsSorted, IsStrict, sort_by-IsSorted, IsStrict-unique,
  IsWeakOrder, lex-IsWeakOrder,
}
use keleustes.Api.Resources.{DeploymentTarget}
use keleustes.Api.CrdSource.Matrix.{target_less, column_of, distinct_targets, matrix_columns}
use keleustes.Api.CrdSource.Columns.{
  Pair, pair_of, pair_less, pair_column, AreKeyed, key_injective, distinct_sound, distinct_complete,
  distinct-IsStrict,
}

target_order : IsWeakOrder target_less
unfolding target_less
target_order = lex-IsWeakOrder (λ (t : DeploymentTarget). t.environment) (λ t. t.region)

pair_order : IsWeakOrder pair_less
pair_order = lex-IsWeakOrder (λ (p : Pair). p.0) (λ p. p.1)

-- The (environment, region) of each target that the loop keeps.
abbrev header_pairs : List DeploymentTarget → List Pair
header_pairs sorted = map pair_of (distinct_targets [] sorted)

map-pair_column : (ts : List DeploymentTarget) → map column_of ts ≡ map pair_column (map pair_of ts)
unfolding column_of pair_column
map-pair_column [] = refl
map-pair_column (t ∷ ts) = ap (λ cs. column_of t ∷ cs) (map-pair_column ts)

All-pair :
    (t : DeploymentTarget) (ts : List DeploymentTarget)
    → All (λ u. target_less t u ≡ true) ts
    → All (λ q. pair_less (pair_of t) q ≡ true) (map pair_of ts)
unfolding target_less
All-pair t [] h = tt
All-pair t (u ∷ ts) h = (h.0, All-pair t ts h.1)

IsStrict-pair :
    (ts : List DeploymentTarget) → IsStrict target_less ts → IsStrict pair_less (map pair_of ts)
IsStrict-pair [] s = tt
IsStrict-pair (t ∷ ts) s = (All-pair t ts s.0, IsStrict-pair ts s.1)

module _ (ts sorted : List DeploymentTarget) (keyed : AreKeyed ts)
    (same : (t : DeploymentTarget) → In t sorted ↔ In t ts) where
  In-header_pairs : (q : Pair) → In q (header_pairs sorted) ↔ In q (map pair_of ts)
  In-header_pairs q = (
    (λ h.
        let (t, i, e) = In-map_inv pair_of q (distinct_targets [] sorted) h in
        let (j, _) = distinct_sound [] sorted t i in
        subst (λ p. In p (map pair_of ts)) (sym e) (In-map pair_of t ts ((same t).0 j))),
    (λ h.
        let (t, i, e) = In-map_inv pair_of q ts h in
        let (u, j, k) = distinct_complete [] sorted t ((same t).1 i) (λ n. absurd n) in
        let (l, _) = distinct_sound [] sorted u j in
        let (en, re) =
          key_injective u.environment t.environment u.region t.region
            (All_at (λ (v : DeploymentTarget). Lacks 0 v.environment) ts u keyed ((same u).0 l))
            (All_at (λ (v : DeploymentTarget). Lacks 0 v.environment) ts t keyed i) k in
        let p : pair_of u ≡ q = cc in
        subst (λ r. In r (header_pairs sorted)) p
          (In-map pair_of u (distinct_targets [] sorted) j)),
  )

-- The columns are the (environment, region) of the targets, each once, strictly increasing by
-- environment and then region, where no environment holds a zero byte.
pub matrix_columns_exact :
    (ts : List DeploymentTarget)
    → AreKeyed ts
    → (ps : List Pair) × (matrix_columns ts ≡ map pair_column ps)
      × IsStrict pair_less ps
      × ((q : Pair) → In q ps ↔ In q (map pair_of ts))
unfolding matrix_columns
matrix_columns_exact ts k =
    let sorted = sort_by target_less ts in
    (
      header_pairs sorted,
      map-pair_column (distinct_targets [] sorted),
      IsStrict-pair (distinct_targets [] sorted)
          (distinct-IsStrict [] sorted (sort_by-IsSorted target_less target_order ts)),
      In-header_pairs ts sorted k (λ t. In-sort_by target_less t ts),
    )

-- The columns are the same whatever order `sort.Slice`, which is not stable, leaves equal targets
-- in: any sorted list of the same targets gives them, where no environment holds a zero byte.
pub matrix_columns_any_sort :
    (ts sorted : List DeploymentTarget)
    → AreKeyed ts
    → IsSorted target_less sorted
    → ((t : DeploymentTarget) → In t sorted ↔ In t ts)
    → map column_of (distinct_targets [] sorted) ≡ matrix_columns ts
matrix_columns_any_sort ts sorted k s same =
    let (ps, e, strict, members) = matrix_columns_exact ts k in
    let mine = In-header_pairs ts sorted k same in
    let q =
      IsStrict-unique pair_less pair_order (header_pairs sorted) ps
        (IsStrict-pair (distinct_targets [] sorted) (distinct-IsStrict [] sorted s)) strict
        (λ p. ((λ h. (members p).1 ((mine p).0 h)), (λ h. (mine p).1 ((members p).0 h)))) in
    map-pair_column (distinct_targets [] sorted) ∙ ap (map pair_column) q ∙ sym e

-- Two lists of targets with the same pairs of environment and region have the same columns, where no
-- environment holds a zero byte.
pub matrix_columns_ext :
    (ts us : List DeploymentTarget)
    → AreKeyed ts
    → AreKeyed us
    → ((q : Pair) → In q (map pair_of ts) ↔ In q (map pair_of us))
    → matrix_columns ts ≡ matrix_columns us
matrix_columns_ext ts us k l same =
    let (ps, e, strict, members) = matrix_columns_exact ts k in
    let (qs, f, strict', members') = matrix_columns_exact us l in
    let q = IsStrict-unique pair_less pair_order ps qs strict strict' (λ p. (
      (λ h. (members' p).1 ((same p).0 ((members p).0 h))),
      (λ h. (members p).1 ((same p).1 ((members' p).0 h))),
    )) in
    e ∙ ap (map pair_column) q ∙ sym f
