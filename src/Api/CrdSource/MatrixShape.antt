-- ===== src/Api/CrdSource/MatrixShape.antt =====
-- internal/api/readmodel/crdsource/crdsource.go: the rows of the matrix, and one target.
use keleustes.Base.{
  ◌≡◌, ◌≢◌, refl, ap, sym, ◌∙◌, subst, ◌⊎◌, inl, inr, Bool-cases, Option-cases, none, Str, str,
  ◌==◌, ==_sound, ==_refl, List, [], ◌∷◌, map, In, In-map_inv, keep, first, first_sound, first-none,
}
use keleustes.Base.Result.{ok, err, Result-cases, ok-injective}
use keleustes.Api.Resources
use keleustes.Api.Wire
use keleustes.Api.Wire.{git_live, MatrixColumn, MatrixCell, MatrixRow}
use keleustes.Api.Port.{not_found}
use keleustes.Api.CrdSource.Mapping.{Finder, health_check_to_api, status_from_conditions}
use keleustes.Api.CrdSource.Matrix.{matrix_columns, matrix_row}
use keleustes.Api.CrdSource.Reads.{
  Source, listed, selected, get_matrix, find_target, get_target_health, get_target_drift,
  is_some_of,
}

-- The header that a cell stands under.
abbrev pub header_of : MatrixCell → MatrixColumn
header_of c = record { env = c.env; region = c.region }

headers_of_row :
    (find : Finder) (a : Resources.Application) (cols : List MatrixColumn)
    → map header_of (matrix_row find a cols).cells ≡ cols
unfolding matrix_row
headers_of_row find a [] = refl
headers_of_row find a (c ∷ cols) = ap (λ cs. c ∷ cs) (headers_of_row find a cols)

status_of_row :
    (find : Finder) (a : Resources.Application) (cols : List MatrixColumn) (c : MatrixCell)
    → In c (matrix_row find a cols).cells
    → c.status ≡ status_from_conditions find a.status.conditions
unfolding matrix_row
status_of_row find a [] c h = absurd h
status_of_row find a (d ∷ cols) c (inl e) = ap (λ (x : MatrixCell). x.status) e
status_of_row find a (d ∷ cols) c (inr i) = status_of_row find a cols c i

drift_of_row :
    (find : Finder) (a : Resources.Application) (cols : List MatrixColumn) (c : MatrixCell)
    → In c (matrix_row find a cols).cells
    → c.drift ≡ none
unfolding matrix_row
drift_of_row find a [] c h = absurd h
drift_of_row find a (d ∷ cols) c (inl e) = ap (λ (x : MatrixCell). x.drift) e
drift_of_row find a (d ∷ cols) c (inr i) = drift_of_row find a cols c i

-- A row belongs to an application of the listing, has one cell under each header in the order of
-- the headers, and every cell shows the application's status and no drift.
pub record IsRow (s : Source) (apps : List Resources.Application) (cols : List MatrixColumn)
    (row : MatrixRow) : Type 0 where
  pub app : Resources.Application
  pub is_listed : In app apps
  pub name_of : row.application ≡ app.meta.name
  pub headers : map header_of row.cells ≡ cols
  pub statuses :
      (c : MatrixCell)
      → In c row.cells
      → c.status ≡ status_from_conditions s.find app.status.conditions
  pub unmarked : (c : MatrixCell) → In c row.cells → c.drift ≡ none

IsRow-of :
    (s : Source) (apps : List Resources.Application) (cols : List MatrixColumn)
    (a : Resources.Application)
    → In a apps
    → IsRow s apps cols (matrix_row s.find a cols)
unfolding matrix_row
IsRow-of s apps cols a i = record {
  app = a;
  is_listed = i;
  name_of = refl;
  headers = headers_of_row s.find a cols;
  statuses = status_of_row s.find a cols;
  unmarked = drift_of_row s.find a cols;
}

selected-In :
    (name : Str) (apps chosen : List Resources.Application) (a : Resources.Application)
    → selected name apps ≡ ok chosen
    → In a chosen
    → In a apps × ((name ≢ str "all") → a.meta.name ≡ name)
unfolding selected
selected-In name apps chosen a h i = elim (Bool-cases (name == str "all")) [
  | inl e ↦ (
    subst (λ xs. In a xs) (sym (ok-injective (rw e at h))) i,
    λ n. absurd (n (==_sound name (str "all") e)),
  )
  | inr e ↦ elim (Option-cases (first (λ (b : Resources.Application). b.meta.name == name) apps)) [
    | inl none' ↦ cc (rw (e, none') at h)
    | inr (b, hit) ↦
        let (p, j) = first_sound (λ (b : Resources.Application). b.meta.name == name) apps hit in
        elim (subst (λ xs. In a xs) (sym (ok-injective (rw (e, hit) at h))) i) [
          | inl q ↦ (
            subst (λ x. In x apps) (sym q) j,
            λ _. ap (λ (x : Resources.Application). x.meta.name) q ∙ ==_sound b.meta.name name p,
          )
          | inr k ↦ absurd k
        ]
  ]
]

abbrev matrix_of : Source → List MatrixColumn → List Resources.Application → Wire.Matrix
matrix_of s cols chosen = record {
  as_of = s.now;
  columns = cols;
  rows = map (λ a. matrix_row s.find a cols) chosen;
}

application_of :
    (s : Source) (a : Resources.Application) (cols : List MatrixColumn)
    → (matrix_row s.find a cols).application ≡ a.meta.name
unfolding matrix_row
application_of s a cols = refl

rows_of :
    (s : Source) (name : Str) (apps chosen : List Resources.Application) (cols : List MatrixColumn)
    (row : MatrixRow)
    → selected name apps ≡ ok chosen
    → In row (map (λ a. matrix_row s.find a cols) chosen)
    → IsRow s apps cols row × ((name ≢ str "all") → row.application ≡ name)
rows_of s name apps chosen cols row sel i =
    let (a, j, e) = In-map_inv (λ a. matrix_row s.find a cols) row chosen i in
    let (k, named) = selected-In name apps chosen a sel j in
    let r = IsRow-of s apps cols a k in
    (
      subst (λ x. IsRow s apps cols x) (sym e) r,
      λ n. ap (λ (x : MatrixRow). x.application) e ∙ application_of s a cols ∙ named n,
    )

-- With the applications listed, in a matrix that is returned every row belongs to a listed
-- application, has one cell under each header with the application's status and no drift, and,
-- unless the name asked for is `all`, is about the application with that name.
pub get_matrix_rows :
    (s : Source) (name : Str) (apps : List Resources.Application) (m : Wire.Matrix)
    (row : MatrixRow)
    → s.applications ≡ ok apps
    → get_matrix s name ≡ ok m
    → In row m.rows
    → IsRow s apps m.columns row × ((name ≢ str "all") → row.application ≡ name)
unfolding get_matrix listed
get_matrix_rows s name apps m row got h i = elim (Result-cases (selected name apps)) [
  | inr (e, failed) ↦ cc (rw (got, failed) at h)
  | inl (chosen, sel) ↦ elim (Result-cases s.targets) [
    | inr (e, failed) ↦ cc (rw (got, sel, failed) at h)
    | inl (targets, tgt) ↦
        let cols = matrix_columns targets in
        let e : matrix_of s cols chosen ≡ m = ok-injective (rw (got, sel, tgt) at h) in
        subst
          (λ (n : Wire.Matrix).
            In row n.rows
            → IsRow s apps n.columns row × ((name ≢ str "all") → row.application ≡ name))
          e (rows_of s name apps chosen cols row sel) i
  ]
]

-- The checks that are bound to a target, as the answer shows them.
abbrev bound_checks : Str → List Resources.HealthCheck → List Wire.HealthCheck
bound_checks name checks =
    map health_check_to_api
      (keep (λ (h : Resources.HealthCheck). is_some_of name h.target_ref) checks)

abbrev no_drift : Wire.Diff
no_drift = record { entries = []; left = none; mode = git_live; right = none; summary = none }

-- With the targets and the checks listed, health and drift of a target both fail with `not_found`
-- where no target has the name, and both succeed where one has, with a drift that has no entries.
pub target_answers :
    (s : Source) (name : Str) (targets : List Resources.DeploymentTarget)
    (checks : List Resources.HealthCheck)
    → s.targets ≡ ok targets
    → s.health_checks ≡ ok checks
    → (((t : Resources.DeploymentTarget) → In t targets → t.meta.name ≢ name)
        × (get_target_health s name ≡ err not_found)
        × (get_target_drift s name ≡ err not_found))
      ⊎ ((t : Resources.DeploymentTarget) × In t targets
          × (t.meta.name ≡ name)
          × ((hs : List Wire.HealthCheck) × (get_target_health s name ≡ ok hs))
          × ((d : Wire.Diff) × (get_target_drift s name ≡ ok d) × (d.entries ≡ [])))
unfolding get_target_health get_target_drift find_target listed
target_answers s name targets checks got chk =
    elim (Option-cases (first (λ (t : Resources.DeploymentTarget). t.meta.name == name) targets)) [
      | inl none' ↦ inl (
        (λ t i e. cc (
          first-none (λ (u : Resources.DeploymentTarget). u.meta.name == name) targets t none' i,
          ap (λ n. n == name) e,
          ==_refl name,
        )),
        rw (got, none'),
        rw (got, none'),
      )
      | inr (t, hit) ↦
          let (p, i) =
            first_sound (λ (u : Resources.DeploymentTarget). u.meta.name == name) targets hit in
          inr (
            t,
            i,
            ==_sound t.meta.name name p,
            (bound_checks name checks, rw (got, hit, chk)),
            (no_drift, rw (got, hit), refl),
          )
    ]
