-- ===== src/Api/Fixtures.antt =====
-- internal/api/readmodel/fixtures/fixtures.go: the backend over an embedded corpus of wire values,
-- with the reads that filter and look up; a field that may be nil is an `Option`.
pub mod Inbox
pub mod Filters
pub mod Targets
pub mod Synthesis
pub mod Activity
pub mod Model
use keleustes.Base.{
  ℕ, Bool, true, false, not, ◌&&◌, ◌||◌, Option, none, some, Str, str, ◌==◌, to_lower, contains_str,
  if◌then◌else◌, List, [], ◌∷◌, ◌++◌, keep, first, any,
}
use keleustes.Base.Result.{Result, ok, err}
use keleustes.Api.Wire.{
  Application, Matrix, MatrixRow, MatrixCell, Release, Promotion, DeploymentTarget, Environment,
  EnvCell, AuditEvent, Status, blocked, healthy, failed,
}
use keleustes.Api.Port.{ReadError, not_found, ApplicationFilter, ApplicationsPage}

-- The corpus, as `json.Unmarshal` reads it, and the fixed freshness stamp.
pub record Fixtures : Type 0 where
  pub apps : List Application
  pub matrix : Matrix
  pub proms : List Promotion
  pub releases : List Release
  pub envs : List Environment
  pub audit : List AuditEvent
  pub apps_as_of : ℕ

abbrev pub deref : Option Str → Str
deref none = []
deref (some s) = s

-- The loops of `flattenTargets`.
unfoldable pub flatten_cells : List EnvCell → List DeploymentTarget
flatten_cells [] = []
flatten_cells (c ∷ cells) = c.targets ++ flatten_cells cells

abbrev pub cells_of : Option (List EnvCell) → List EnvCell
cells_of none = []
cells_of (some cells) = cells

unfoldable pub flatten_targets : List Environment → List DeploymentTarget
unfolding flatten_cells
flatten_targets [] = []
flatten_targets (e ∷ envs) = flatten_cells (cells_of e.cells) ++ flatten_targets envs

-- The field `targets` that `New` fills.
abbrev pub targets_of : Fixtures → List DeploymentTarget
unfolding flatten_targets
targets_of f = flatten_targets f.envs

unfoldable pub app_matches_query : Application → Str → Bool
unfolding to_lower contains_str
app_matches_query a q =
    any (λ v. contains_str (to_lower q) (to_lower v))
      (a.name ∷ deref a.project ∷ deref a.owner ∷ [])

-- One round of the inner loop of `appHasCell`.
unfoldable pub cell_matches : Str → Str → MatrixCell → Bool
unfolding ◌==◌
cell_matches env region c =
    not (not (env == []) && not (deref c.env == env))
    && not (not (region == []) && not (deref c.region == region))

unfoldable pub app_has_cell : Fixtures → Str → Str → Str → Bool
unfolding cell_matches ◌==◌
app_has_cell f app env region =
    any (λ (row : MatrixRow). row.application == app && any (cell_matches env region) row.cells)
      f.matrix.rows

unfoldable pub app_matches : Fixtures → Application → ApplicationFilter → Bool
unfolding app_matches_query app_has_cell ◌==◌
app_matches f a flt =
    if not (flt.project == []) && not (deref a.project == flt.project)
    then false
    else if not (flt.q == []) && not (app_matches_query a flt.q)
    then false
    else if (not (flt.env == []) || not (flt.region == []))
        && not (app_has_cell f a.name flt.env flt.region)
    then false
    else true

unfoldable pub list_applications : Fixtures → ApplicationFilter → Result ReadError ApplicationsPage
unfolding app_matches
list_applications f flt =
    ok (record { items = keep (λ a. app_matches f a flt) f.apps; as_of = f.apps_as_of })

abbrev found : {A : Type 0} → Option A → Result ReadError A
found none = err not_found
found (some a) = ok a

unfoldable pub get_application : Fixtures → Str → Result ReadError Application
unfolding ◌==◌
get_application f name = found (first (λ (a : Application). a.name == name) f.apps)

abbrev matrix_with : Matrix → Option MatrixRow → Result ReadError Matrix
matrix_with m none = err not_found
matrix_with m (some row) = ok (record m { rows = row ∷ [] })

unfoldable pub get_matrix : Fixtures → Str → Result ReadError Matrix
unfolding ◌==◌
get_matrix f name =
    if name == str "all"
    then ok f.matrix
    else matrix_with f.matrix (first (λ (row : MatrixRow). row.application == name) f.matrix.rows)

unfoldable pub list_application_releases : Fixtures → Str → Result ReadError (List Release)
unfolding ◌==◌
list_application_releases f name = ok (keep (λ (r : Release). r.app == name) f.releases)

unfoldable pub list_application_promotions : Fixtures → Str → Result ReadError (List Promotion)
unfolding ◌==◌
list_application_promotions f name = ok (keep (λ (p : Promotion). p.application == name) f.proms)

-- `s == openapi.StatusBlocked`, and the two tests of `isTerminalPromotion`.
abbrev pub is_blocked : Status → Bool
is_blocked blocked = true
is_blocked _ = false

unfoldable pub is_terminal_promotion : Status → Bool
is_terminal_promotion healthy = true
is_terminal_promotion failed = true
is_terminal_promotion _ = false

unfoldable pub promotion_in_state : Promotion → Str → Bool
unfolding is_terminal_promotion ◌==◌
promotion_in_state p state =
    if state == str "blocked"
    then is_blocked p.status
    else if state == str "active"
    then not (is_terminal_promotion p.status)
    else if state == str "history"
    then is_terminal_promotion p.status
    else true

unfoldable pub list_promotions : Fixtures → Str → Result ReadError (List Promotion)
unfolding promotion_in_state
list_promotions f state = ok (keep (λ p. promotion_in_state p state) f.proms)

unfoldable pub get_promotion : Fixtures → Str → Result ReadError Promotion
unfolding ◌==◌
get_promotion f id = found (first (λ (p : Promotion). p.ulid == id) f.proms)

abbrev project_in : Option Application → Str
project_in none = []
project_in (some a) = deref a.project

unfoldable pub project_of_app : Fixtures → Str → Str
unfolding ◌==◌
project_of_app f app = project_in (first (λ (a : Application). a.name == app) f.apps)

unfoldable pub list_releases : Fixtures → Str → Result ReadError (List Release)
unfolding project_of_app ◌==◌
list_releases f project =
    if project == []
    then ok f.releases
    else ok (keep (λ (r : Release). project_of_app f r.app == project) f.releases)

unfoldable pub list_targets : Fixtures → Result ReadError (List DeploymentTarget)
unfolding flatten_targets
list_targets f = ok (targets_of f)

unfoldable pub find_target : Fixtures → Str → Option DeploymentTarget
unfolding flatten_targets ◌==◌
find_target f name = first (λ (t : DeploymentTarget). t.name == name) (targets_of f)

unfoldable pub list_environments : Fixtures → Result ReadError (List Environment)
list_environments f = ok f.envs
