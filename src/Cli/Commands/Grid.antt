-- ===== src/Cli/Commands/Grid.antt =====
-- internal/cli/commands.go over internal/api/readmodel/crdsource: the printed matrix.
use keleustes.Base.{
  ◌≡◌, inl, inr, refl, sym, ap, ◌∙◌, subst, Bool-cases, if◌then◌else◌, true, Option-cases, none,
  some, Str, str, ◌==◌, ==_refl, List, [], ◌∷◌, ◌++◌, map, In, In-keep, In-map_inv,
}
use keleustes.Base.Result.{ok}
use keleustes.Api.Resources
use keleustes.Api.Wire
use keleustes.Api.Wire.{
  status_word, MatrixColumn, MatrixCell, MatrixRow, Status, blocked, degraded, drifted, failed,
  frozen, healthy, missing, progressing,
}
use keleustes.Api.CrdSource.Mapping.{status_from_conditions}
use keleustes.Api.CrdSource.Reads.{Source, get_matrix}
use keleustes.Api.CrdSource.MatrixShape.{header_of, IsRow, get_matrix_rows}
use keleustes.Cli.Output.{table_lines}
use keleustes.Cli.Tables.{
  deref_string, matrix_cell_text, by_key, cell_key, column_key, same_key, kept_columns,
  matrix_entries, matrix_headers, entry, render_matrix,
}
use keleustes.Cli.Commands.{Runtime, ApiClient, Reply, run_matrix}

text_unmarked : (c : MatrixCell) → c.drift ≡ none → matrix_cell_text c ≡ status_word c.status
unfolding matrix_cell_text status_word ◌==◌
text_unmarked c h = rw h (by_status c.status)
  where
    by_status :
        (s : Status)
        → (if status_word s == [] then str "-" else status_word s) ++ [] ≡ status_word s
    by_status blocked = refl
    by_status degraded = refl
    by_status drifted = refl
    by_status failed = refl
    by_status frozen = refl
    by_status healthy = refl
    by_status missing = refl
    by_status progressing = refl

some-injective : {a b : MatrixCell} → some a ≡ some b → a ≡ b
some-injective h = cc

-- What is found by a key is a cell of the row.
by_key_sound :
    (cells : List MatrixCell) (key : Str × Str) (d : MatrixCell)
    → by_key cells key ≡ some d
    → In d cells
unfolding by_key
by_key_sound [] key d h = cc
by_key_sound (c ∷ cells) key d h = elim (Option-cases (by_key cells key)) [
  | inr (e, f) ↦ inr (by_key_sound cells key d (f ∙ (let h' = rw f at h in h')))
  | inl f ↦ elim (Bool-cases (same_key (cell_key c) key)) [
    | inl y ↦ inl (sym (some-injective (rw (f, y) at h)))
    | inr n ↦ cc (rw (f, n) at h)
  ]
]

-- A key that a cell has is found.
by_key_complete :
    (cells : List MatrixCell) (c : MatrixCell)
    → In c cells
    → (d : MatrixCell) × (by_key cells (cell_key c) ≡ some d)
unfolding by_key same_key
by_key_complete [] c i = absurd i
by_key_complete (d ∷ cells) c i = elim (Option-cases (by_key cells (cell_key c))) [
  | inr (e, f) ↦ rw f (e, refl)
  | inl f ↦ elim i [
    | inl same ↦ rw (f, same_key_of same) (d, refl)
    | inr j ↦ let (e, g) = by_key_complete cells c j in cc (rw g at f)
  ]
]
  where
    same_key_of : c ≡ d → same_key (cell_key d) (cell_key c) ≡ true
    same_key_of e = rw (e, ==_refl (deref_string d.env), ==_refl (deref_string d.region)) refl

-- The printed row of a row: under each header that is kept, the status of the application.
abbrev pub IsPrinted :
    (s : Source) (apps : List Resources.Application) (kept : List MatrixColumn) → List Str → Type 0
IsPrinted s apps kept row =
    (app : Resources.Application) × In app apps
    × (row
        ≡ app.meta.name
          ∷ map (λ _. status_word (status_from_conditions s.find app.status.conditions)) kept)

module _ (s : Source) (apps : List Resources.Application) (cols kept : List MatrixColumn)
    (r : MatrixRow) (shape : IsRow s apps cols r) where
  status_entry :
      (c : MatrixColumn)
      → In c cols
      → entry (by_key r.cells (column_key c))
        ≡ status_word (status_from_conditions s.find shape.app.status.conditions)
  status_entry c i =
      let (cell, j, e) =
        In-map_inv header_of c r.cells (subst (λ cs. In c cs) (sym shape.headers) i) in
      let (d, f) = by_key_complete r.cells cell j in
      let k = by_key_sound r.cells (cell_key cell) d f in
      let same : column_key c ≡ cell_key cell = ap column_key e in
      rw (same, f) (text_unmarked d (shape.unmarked d k) ∙ ap status_word (shape.statuses d k))

  status_entries :
      (cs : List MatrixColumn)
      → ((c : MatrixColumn) → In c cs → In c cols)
      → map (λ (c : MatrixColumn). entry (by_key r.cells (column_key c))) cs
        ≡ map (λ _. status_word (status_from_conditions s.find shape.app.status.conditions)) cs
  status_entries [] h = refl
  status_entries (c ∷ cs) h =
      rw (status_entry c (h c (inl refl)), status_entries cs (λ d i. h d (inr i))) refl

  matrix_entries-IsPrinted :
      ((c : MatrixColumn) → In c kept → In c cols) → IsPrinted s apps kept (matrix_entries r kept)
  unfolding matrix_entries
  matrix_entries-IsPrinted h =
      (shape.app, shape.is_listed, rw (shape.name_of, status_entries kept h) refl)

kept_In :
    (env : Str) (cols : List MatrixColumn) (c : MatrixColumn)
    → In c (kept_columns env cols)
    → In c cols
unfolding kept_columns
kept_In env cols c i = ((In-keep _ c cols).0 i).1

-- With the read model's matrix as the answer and the applications listed, the printed table has
-- under the kept headers, in every row, the name of a listed application and its status in every
-- place: no entry is missing, and none is marked as drifted.
pub run_matrix-get_matrix :
    (r : Runtime) (c : ApiClient) (reply : Reply Wire.Matrix) (s : Source) (name env : Str)
    (apps : List Resources.Application) (m : Wire.Matrix)
    → r.client ≡ ok c
    → c.get_matrix name ≡ ok reply
    → reply.json200 ≡ some m
    → get_matrix s name ≡ ok m
    → s.applications ≡ ok apps
    → (rows : List (List Str)) × (run_matrix r (name ∷ []) env
        ≡ ok (
            (str "AS OF: " ++ r.time_text m.as_of)
            ∷ table_lines (matrix_headers (kept_columns env m.columns)) rows))
      × ((row : List Str) → In row rows → IsPrinted s apps (kept_columns env m.columns) row)
unfolding run_matrix render_matrix
run_matrix-get_matrix r c reply s name env apps m client answer body got listed' =
    let kept = kept_columns env m.columns in
    (
      map (λ x. matrix_entries x kept) m.rows,
      rw (client, answer, body) refl,
      λ row i.
          let (x, j, e) = In-map_inv (λ x. matrix_entries x kept) row m.rows i in
          let (shape, _) = get_matrix_rows s name apps m x listed' got j in
          subst (λ t. IsPrinted s apps kept t) (sym e)
            (matrix_entries-IsPrinted s apps m.columns kept x shape (kept_In env m.columns)),
    )
