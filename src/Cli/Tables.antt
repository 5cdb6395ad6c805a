-- ===== src/Cli/Tables.antt =====
-- internal/cli/commands.go: the tables that the commands render.
use keleustes.Base.{
  ℕ, ◌+◌, Bool, true, ◌&&◌, ◌||◌, if◌then◌else◌, Option, none, some, Str, str, ◌==◌, join, to_upper,
  decimal, List, [], ◌∷◌, ◌++◌, map, keep,
}
use keleustes.Base.Int.{ℤ, pos, negsuc}
use keleustes.Api.Wire.{
  status_word, Application, Release, Promotion, Diff, DiffEntry, DiffSummary, Matrix, MatrixColumn,
  MatrixCell, MatrixRow,
}
use keleustes.Cli.Output.{table_lines}

abbrev pub deref_string : Option Str → Str
deref_string none = []
deref_string (some s) = s

abbrev pub bool_ptr_mark : Option Bool → Str
bool_ptr_mark (some true) = str "yes"
bool_ptr_mark _ = []

abbrev pub join_str_ptr : Option (List Str) → Str
join_str_ptr none = []
join_str_ptr (some ss) = join (str ",") ss

-- `%d` of `intPtrVal`.
abbrev pub int_text : Option ℤ → Str
int_text none = str "0"
int_text (some (pos n)) = decimal n
int_text (some (negsuc n)) = str "-" ++ decimal (n + 1)

unfoldable pub render_applications : List Application → List Str
render_applications apps =
    table_lines (str "NAME" ∷ str "PROJECT" ∷ str "OWNER" ∷ str "STATUS" ∷ []) (
      map
        (λ (a : Application).
          a.name ∷ deref_string a.project ∷ deref_string a.owner ∷ status_word a.status ∷ [])
        apps)

-- `time_text` formats by RFC 3339.
module _ (time_text : ℕ → Str) where
  abbrev pub format_time_ptr : Option ℕ → Str
  format_time_ptr none = []
  format_time_ptr (some t) = time_text t

  unfoldable pub render_releases : List Release → List Str
  render_releases rels =
      table_lines (str "VERSION" ∷ str "APP" ∷ str "CREATED" ∷ str "DEPLOYED-ON" ∷ []) (
        map
          (λ (r : Release).
            r.version ∷ r.app ∷ format_time_ptr r.created ∷ join_str_ptr r.deployed_on ∷ [])
          rels)

unfoldable pub render_promotions : List Promotion → List Str
render_promotions proms =
    table_lines (str "APPLICATION" ∷ str "FROM" ∷ str "TO" ∷ str "STATUS" ∷ str "RELEASE" ∷ []) (
      map
        (λ (p : Promotion).
          p.application
          ∷ p.from_environment
          ∷ p.to_environment
          ∷ status_word p.status
          ∷ deref_string p.release
          ∷ [])
        proms)

abbrev summary_lines : Option DiffSummary → List Str
summary_lines none = []
summary_lines (some s) =
    []
    ∷ (str "summary: +"
        ++ (int_text s.added
            ++ (str " ~" ++ (int_text s.changed ++ (str " -" ++ int_text s.removed)))))
    ∷ []

unfoldable pub render_diff : Diff → List Str
render_diff d =
    (str "mode="
      ++ (d.mode
          ++ (str " left=" ++ (deref_string d.left ++ (str " right=" ++ deref_string d.right)))))
    ∷ (table_lines (str "OBJECT" ∷ str "CHANGE" ∷ str "DRIFT" ∷ [])
          (map (λ (e : DiffEntry). e.object ∷ e.change ∷ bool_ptr_mark e.drift ∷ []) d.entries)
        ++ summary_lines d.summary)

-- The struct `colKey`, of the pair of its fields.
abbrev pub column_key : MatrixColumn → Str × Str
column_key c = (deref_string c.env, deref_string c.region)

abbrev pub cell_key : MatrixCell → Str × Str
cell_key c = (deref_string c.env, deref_string c.region)

unfoldable pub same_key : Str × Str → Str × Str → Bool
same_key k j = k.0 == j.0 && k.1 == j.1

unfoldable pub matrix_column_header : (env region : Str) → Str
unfolding to_upper
matrix_column_header env region =
    let name = if env == [] then str "?" else env in
    if region == [] then to_upper name else to_upper (name ++ (str "/" ++ region))

abbrev drift_marker : Option Bool → Str
drift_marker (some true) = str "*"
drift_marker _ = []

unfoldable pub matrix_cell_text : MatrixCell → Str
unfolding status_word
matrix_cell_text c =
    let s = status_word c.status in (if s == [] then str "-" else s) ++ drift_marker c.drift

-- `byKey[key]`: of the cells with the key, the last one.
unfoldable pub by_key : List MatrixCell → Str × Str → Option MatrixCell
unfolding same_key
by_key [] key = none
by_key (c ∷ cells) key = elim (by_key cells key) [
  | some d ↦ some d
  | none ↦ if same_key (cell_key c) key then some c else none
]

-- The columns that the loop keeps.
unfoldable pub kept_columns : (env_filter : Str) → List MatrixColumn → List MatrixColumn
kept_columns env_filter columns =
    keep (λ (c : MatrixColumn). env_filter == [] || deref_string c.env == env_filter) columns

abbrev pub entry : Option MatrixCell → Str
entry none = str "-"
entry (some cell) = matrix_cell_text cell

unfoldable pub matrix_entries : MatrixRow → List MatrixColumn → List Str
unfolding by_key matrix_cell_text
matrix_entries r cols =
    r.application ∷ map (λ (c : MatrixColumn). entry (by_key r.cells (column_key c))) cols

unfoldable pub matrix_headers : List MatrixColumn → List Str
unfolding matrix_column_header
matrix_headers cols =
    str "APPLICATION"
    ∷ map (λ (c : MatrixColumn). matrix_column_header (deref_string c.env) (deref_string c.region))
        cols

module _ (time_text : ℕ → Str) where
  unfoldable pub render_matrix : Matrix → (env_filter : Str) → List Str
  unfolding kept_columns matrix_headers matrix_entries
  render_matrix m env_filter =
      let cols = kept_columns env_filter m.columns in
      (str "AS OF: " ++ time_text m.as_of)
      ∷ table_lines (matrix_headers cols) (map (λ r. matrix_entries r cols) m.rows)
