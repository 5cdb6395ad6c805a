-- ===== src/Api/CrdSource/Matrix.antt =====
-- internal/api/readmodel/crdsource/map.go: the columns and the rows of the matrix.
use keleustes.Base.{
  none, Bool, not, Str, ◌==◌, ◌<?◌, if◌then◌else◌, List, [], ◌∷◌, ◌++◌, map, sort_by,
}
use keleustes.Api.Resources.{Application, DeploymentTarget}
use keleustes.Api.Wire.{MatrixColumn, MatrixRow}
use keleustes.Api.CrdSource.Mapping.{
  Finder, str_ptr_or_nil, ulid_of, contains, status_from_conditions,
}

-- The `less` function of the sort: by environment, then by region.
unfoldable pub target_less : DeploymentTarget → DeploymentTarget → Bool
target_less a b =
    if not (a.environment == b.environment)
    then a.environment <? b.environment
    else a.region <? b.region

-- `env + "\x00" + region`.
abbrev pub column_key : DeploymentTarget → Str
column_key t = t.environment ++ (0 ∷ t.region)

unfoldable pub column_of : DeploymentTarget → MatrixColumn
unfolding str_ptr_or_nil
column_of t = record { env = str_ptr_or_nil t.environment; region = str_ptr_or_nil t.region }

-- The loop over the sorted targets that passes over a key in `seen`.
unfoldable pub distinct_targets : List Str → List DeploymentTarget → List DeploymentTarget
distinct_targets seen [] = []
distinct_targets seen (t ∷ ts) =
    let old = distinct_targets seen ts in
    let new = t ∷ distinct_targets (column_key t ∷ seen) ts in
    if contains seen (column_key t) then old else new

unfoldable pub matrix_columns : List DeploymentTarget → List MatrixColumn
unfolding distinct_targets column_of
matrix_columns targets = map column_of (distinct_targets [] (sort_by target_less targets))

unfoldable pub matrix_row : Finder → Application → List MatrixColumn → MatrixRow
unfolding status_from_conditions ulid_of str_ptr_or_nil
matrix_row find a cols =
    let status = status_from_conditions find a.status.conditions in
    record {
      application = a.meta.name;
      cells =
          map
            (λ (c : MatrixColumn). record {
              drift = none;
              env = c.env;
              region = c.region;
              status = status;
            })
            cols;
      ulid = str_ptr_or_nil (ulid_of a.meta);
    }
