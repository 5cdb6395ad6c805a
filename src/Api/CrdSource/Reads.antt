-- ===== src/Api/CrdSource/Reads.antt =====
-- internal/api/readmodel/crdsource/crdsource.go: the operations of `Source`. The client of
-- sigs.k8s.io/controller-runtime is what its `List` returns for each kind, at each call.
use keleustes.Base.{
  ℕ, Bool, true, false, not, ◌&&◌, ◌||◌, Option, none, some, Str, str, ◌==◌, to_lower, contains_str,
  if◌then◌else◌, List, [], ◌∷◌, map, keep, first,
}
use keleustes.Base.Result.{Result, ok, err, ◌>>=◌}
use keleustes.Api.Resources
use keleustes.Api.Wire
use keleustes.Api.Wire.{Diff, git_live}
use keleustes.Api.Port.{
  ReadError, not_found, other, ApplicationFilter, DiffQuery, AuditQuery, ApplicationsPage,
  AuditPage, ReadModel,
}
use keleustes.Api.CrdSource.Mapping.{
  Finder, str_ptr_or_nil, project_of, ulid_of, contains, application_to_api, release_to_api,
  target_to_api, promotion_to_api, promotion_matches_state, health_check_to_api,
}
use keleustes.Api.CrdSource.Matrix.{matrix_columns, matrix_row}
use keleustes.Api.CrdSource.Topology.{group_by, group_of, sorted_environments, environment_to_api}

-- The client: the list of each kind or the error's text. `find` is `FindStatusCondition`, `is_not_found`
-- is `apierrors.IsNotFound`, and `now` the clock's reading.
pub record Source : Type 0 where
  pub applications : Result Str (List Resources.Application)
  pub releases : Result Str (List Resources.Release)
  pub targets : Result Str (List Resources.DeploymentTarget)
  pub promotions : Result Str (List Resources.Promotion)
  pub health_checks : Result Str (List Resources.HealthCheck)
  pub environments : Result Str (List Resources.Environment)
  pub find : Finder
  pub is_not_found : Str → Bool
  pub now : ℕ

unfoldable pub wrap_err : Source → Str → ReadError
wrap_err s e = if s.is_not_found e then not_found else other e

-- `if err := s.c.List(…); err != nil { return …, wrapErr(err) }`.
unfoldable pub listed : {A : Type 0} → Source → Result Str A → Result ReadError A
unfolding wrap_err
listed s (ok a) = ok a
listed s (err e) = err (wrap_err s e)

unfoldable pub matches_application_filter : Resources.Application → ApplicationFilter → Bool
unfolding project_of contains to_lower contains_str
matches_application_filter app f =
    let q = to_lower f.q in
    if not (f.project == []) && not (project_of app.meta == f.project)
    then false
    else if not (f.env == []) && not (contains app.environments f.env)
    then false
    else if not (f.q == [])
        && (not (contains_str q (to_lower app.meta.name))
            && not (contains_str q (to_lower app.owner_team)))
    then false
    else true

-- The loop that returns the first match, or `ErrNotFound`.
abbrev pub found : {A : Type 0} → Option A → Result ReadError A
found none = err not_found
found (some a) = ok a

unfoldable pub list_applications : Source → ApplicationFilter → Result ReadError ApplicationsPage
unfolding listed matches_application_filter application_to_api
list_applications s f = do
  list ← listed s s.applications
  ok (record {
    items = map (application_to_api s.find) (keep (λ a. matches_application_filter a f) list);
    as_of = s.now;
  })

unfoldable pub get_application : Source → Str → Result ReadError Wire.Application
unfolding listed application_to_api
get_application s name = do
  list ← listed s s.applications
  app ← found (first (λ (a : Resources.Application). a.meta.name == name) list)
  ok (application_to_api s.find app)

abbrev only : Option Resources.Application → Result ReadError (List Resources.Application)
only none = err not_found
only (some a) = ok (a ∷ [])

-- The applications that the matrix is about.
unfoldable pub selected :
    Str → List Resources.Application → Result ReadError (List Resources.Application)
selected name apps =
    if not (name == str "all")
    then only (first (λ (a : Resources.Application). a.meta.name == name) apps)
    else ok apps

unfoldable pub get_matrix : Source → Str → Result ReadError Wire.Matrix
unfolding listed selected matrix_columns matrix_row
get_matrix s name = do
  apps ← listed s s.applications
  rows ← selected name apps
  targets ← listed s s.targets
  let cols = matrix_columns targets
  ok (record { as_of = s.now; columns = cols; rows = map (λ a. matrix_row s.find a cols) rows })

unfoldable pub list_application_releases : Source → Str → Result ReadError (List Wire.Release)
unfolding listed release_to_api
list_application_releases s name = do
  list ← listed s s.releases
  ok (map release_to_api (keep (λ (r : Resources.Release). r.application == name) list))

unfoldable pub list_application_promotions : Source → Str → Result ReadError (List Wire.Promotion)
unfolding listed promotion_to_api
list_application_promotions s name = do
  list ← listed s s.promotions
  ok (map promotion_to_api (keep (λ (p : Resources.Promotion). p.application == name) list))

unfoldable pub list_promotions : Source → Str → Result ReadError (List Wire.Promotion)
unfolding listed promotion_to_api promotion_matches_state
list_promotions s state = do
  list ← listed s s.promotions
  ok (map promotion_to_api (keep (λ p. promotion_matches_state p state) list))

-- The test of the loop of `GetPromotion`.
unfoldable pub has_id : Str → Resources.Promotion → Bool
unfolding ulid_of
has_id id p = (not (ulid_of p.meta == []) && ulid_of p.meta == id) || p.meta.name == id

unfoldable pub get_promotion : Source → Str → Result ReadError Wire.Promotion
unfolding listed has_id promotion_to_api
get_promotion s id = do
  list ← listed s s.promotions
  p ← found (first (has_id id) list)
  ok (promotion_to_api p)

unfoldable pub in_project : Str → Resources.Release → Bool
unfolding project_of
in_project project r = not (not (project == []) && not (project_of r.meta == project))

unfoldable pub list_releases : Source → Str → Result ReadError (List Wire.Release)
unfolding listed release_to_api in_project
list_releases s project = do
  list ← listed s s.releases
  ok (map release_to_api (keep (in_project project) list))

unfoldable pub list_targets : Source → Result ReadError (List Wire.DeploymentTarget)
unfolding listed target_to_api
list_targets s = do list ← listed s s.targets; ok (map (target_to_api s.find) list)

unfoldable pub find_target : Source → Str → Result ReadError Resources.DeploymentTarget
unfolding listed
find_target s name = do
  list ← listed s s.targets
  found (first (λ (t : Resources.DeploymentTarget). t.meta.name == name) list)

abbrev pub is_some_of : Str → Option Str → Bool
is_some_of name none = false
is_some_of name (some n) = n == name

unfoldable pub get_target_health : Source → Str → Result ReadError (List Wire.HealthCheck)
unfolding listed find_target health_check_to_api
get_target_health s name = do
  _ ← find_target s name
  list ← listed s s.health_checks
  ok (
      map health_check_to_api
        (keep (λ (h : Resources.HealthCheck). is_some_of name h.target_ref) list))

unfoldable pub get_target_drift : Source → Str → Result ReadError Diff
unfolding find_target
get_target_drift s name = do
  _ ← find_target s name
  ok (record { entries = []; left = none; mode = git_live; right = none; summary = none })

unfoldable pub list_environments : Source → Result ReadError (List Wire.Environment)
unfolding listed group_by group_of sorted_environments environment_to_api
list_environments s = do
  envs ← listed s s.environments
  targets ← listed s s.targets
  let by_env = group_by (λ t. t.environment) [] targets
  ok (
      map (λ (e : Resources.Environment). environment_to_api s.find e (group_of e.meta.name by_env))
        (sorted_environments envs))

unfoldable pub get_diff : DiffQuery → Result ReadError Diff
unfolding str_ptr_or_nil
get_diff q = ok (record {
  entries = [];
  left = str_ptr_or_nil q.left;
  mode = q.mode;
  right = str_ptr_or_nil q.right;
  summary = none;
})

unfoldable pub query_audit : AuditQuery → Result ReadError AuditPage
query_audit q = ok (record { items = []; next_cursor = [] })

-- `var _ readmodel.ReadModel = (*Source)(nil)`: the source as a read model.
abbrev pub read_model : Source → ReadModel
read_model s = record {
  list_applications = list_applications s;
  get_application = get_application s;
  get_matrix = get_matrix s;
  list_application_releases = list_application_releases s;
  list_application_promotions = list_application_promotions s;
  list_promotions = list_promotions s;
  get_promotion = get_promotion s;
  list_releases = list_releases s;
  list_targets = list_targets s;
  get_target_health = get_target_health s;
  get_target_drift = get_target_drift s;
  list_environments = list_environments s;
  get_diff = get_diff;
  query_audit = query_audit;
}
