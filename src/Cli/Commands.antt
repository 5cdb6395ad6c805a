-- ===== src/Cli/Commands.antt =====
-- internal/cli/commands.go: the commands on the API server. A command yields the lines that it prints
-- or its error, with the text of the error; a failed write of its output is not modelled.
pub mod Inbox
pub mod Grid
use keleustes.Base.{
  ℕ, Bool, true, false, not, ◌&&◌, ◌||◌, if◌then◌else◌, Option, none, some, Str, str, ◌==◌, decimal,
  List, [], ◌∷◌, ◌++◌, keep,
}
use keleustes.Base.Result.{Result, ok, err, ◌>>=◌}
use keleustes.Api.Wire.{
  blocked, Application, Release, Promotion, Diff, Matrix, Problem, Status, git_live,
}
use keleustes.Cli.Tables.{
  render_applications, render_releases, render_promotions, render_diff, render_matrix,
}

-- `notImplemented`, at the path of a command.
abbrev pub not_implemented : (command_path : Str) → Result Str (List Str)
not_implemented command_path = err (command_path ++ str ": not implemented in this scaffold")

-- The commands `promote`, `rollback` and `version`.
unfoldable pub run_promote : (command_path app : Str) → Result Str (List Str)
run_promote command_path app = not_implemented command_path

unfoldable pub run_rollback : (command_path app : Str) → Result Str (List Str)
run_rollback command_path app = not_implemented command_path

unfoldable pub run_version : Result Str (List Str)
run_version = ok (str "keleustesctl 0.0.0 (scaffold)" ∷ [])

-- An answer of the generated client: the status, the body, and `JSON200`, which is set where the
-- status is 200 and the body could be read.
pub record Reply (A : Type 0) : Type 0 where
  pub status_code : ℕ
  pub body : Str
  pub json200 : Option A

pub record DiffParams : Type 0 where
  pub mode : Str
  pub left : Option Str
  pub right : Option Str

-- The operations of the generated client that the commands call.
pub record ApiClient : Type 0 where
  pub get_applications : Result Str (Reply (List Application))
  pub get_application : Str → Result Str (Reply Application)
  pub get_matrix : Str → Result Str (Reply Matrix)
  pub get_releases : Str → Result Str (Reply (List Release))
  pub get_promotions : Str → Result Str (Reply (List Promotion))
  pub get_diff : DiffParams → Result Str (Reply Diff)

-- `newAPIClient`, `%q`, RFC 3339, and `json.Unmarshal` of a problem.
pub record Runtime : Type 0 where
  pub client : Result Str ApiClient
  pub quote : Str → Str
  pub time_text : ℕ → Str
  pub unmarshal_problem : Str → Option Problem

abbrev pub env_env : Str
env_env = str "env-env"

-- `p.Detail != nil && *p.Detail != ""`, else the title.
abbrev pub problem_message : Problem → Str
problem_message p = elim p.detail [ none ↦ p.title | some d ↦ if d == [] then p.title else d ]

abbrev status_error : Str → ℕ → Str
status_error op status = op ++ (str ": unexpected status " ++ decimal status)

abbrev problem_error : Str → ℕ → Option Problem → Str
problem_error op status none = status_error op status
problem_error op status (some p) =
    if not (p.problem_type == [])
    then op
      ++ (str ": "
          ++ (problem_message p
              ++ (str " (type="
                  ++ (p.problem_type ++ (str ", http " ++ (decimal status ++ str ")"))))))
    else status_error op status

-- The parameters that `runDiff` makes of the application and the flags.
unfoldable pub diff_params : (app from_env to_env : Str) → DiffParams
diff_params app from_env to_env =
    let left = if not (from_env == []) then from_env else app in
    record {
      mode = if not (from_env == []) && not (to_env == []) then env_env else git_live;
      left = if not (left == []) then some left else none;
      right = if not (to_env == []) then some to_env else none;
    }

-- `s == openapi.StatusBlocked`.
abbrev pub is_blocked : Status → Bool
is_blocked blocked = true
is_blocked _ = false

-- The test of the loop of `runBlockers`.
unfoldable pub is_blocker : (to_env : Str) → Promotion → Bool
is_blocker to_env p = is_blocked p.status && (to_env == [] || p.to_environment == to_env)

module _ (r : Runtime) where
  unfoldable pub api_error : (op : Str) → (status : ℕ) → (body : Str) → Str
  unfolding decimal
  api_error op status body = problem_error op status (r.unmarshal_problem body)

  -- `if resp.JSON200 == nil { return apiError(...) }`.
  abbrev pub answered : {A : Type 0} → (op : Str) → Reply A → Result Str A
  answered op resp = elim resp.json200 [
    | none ↦ err (api_error op resp.status_code resp.body)
    | some a ↦ ok a
  ]

  unfoldable pub run_app_list : Result Str (List Str)
  run_app_list = do
    client ← r.client
    resp ← client.get_applications
    items ← answered (str "list applications") resp
    ok (render_applications items)

  unfoldable pub run_app_get : (name : Str) → Result Str (List Str)
  run_app_get name = do
    client ← r.client
    resp ← client.get_application name
    a ← answered (str "get application " ++ r.quote name) resp
    ok (render_applications (a ∷ []))

  -- `args` holds at most one argument; `env` is the flag.
  unfoldable pub run_matrix : (args : List Str) → (env : Str) → Result Str (List Str)
  run_matrix args env = do
    client ← r.client
    resp ← client.get_matrix (matrix_name args)
    m ← answered (str "matrix") resp
    ok (render_matrix r.time_text m env)
    where
      matrix_name : List Str → Str
      matrix_name (name ∷ []) = name
      matrix_name _ = str "all"

  unfoldable pub run_release_list : (app : Str) → Result Str (List Str)
  run_release_list app = do
    client ← r.client
    resp ← client.get_releases app
    rels ← answered (str "list releases") resp
    ok (render_releases r.time_text rels)

  unfoldable pub run_diff : (app from_env to_env : Str) → Result Str (List Str)
  unfolding diff_params
  run_diff app from_env to_env = do
    client ← r.client
    resp ← client.get_diff (diff_params app from_env to_env)
    d ← answered (str "diff") resp
    ok (render_diff d)

  unfoldable pub run_blockers : (app to_env : Str) → Result Str (List Str)
  unfolding is_blocker
  run_blockers app to_env = do
    client ← r.client
    resp ← client.get_promotions app
    proms ← answered (str "blockers") resp
    ok (render_promotions (keep (is_blocker to_env) proms))
