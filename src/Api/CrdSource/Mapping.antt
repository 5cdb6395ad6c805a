-- ===== src/Api/CrdSource/Mapping.antt =====
-- internal/api/readmodel/crdsource/map.go: the maps from custom resources to wire types, but for
-- the matrix and the topology. `strPtrOrNil` makes an `Option` of a string.
use keleustes.Base.{
  ℕ, eqb, Bool, true, false, not, ◌&&◌, ◌||◌, Option, none, some, Str, str, ◌==◌, if◌then◌else◌,
  List, [], ◌∷◌,
}
use keleustes.Api.Resources
use keleustes.Api.Resources.{
  ObjectMeta, Condition, condition_true, condition_false, ApplicationManifest, ReleaseArtifact,
  PromotionPhase, phase_blocked, phase_succeeded, phase_failed, phase_rolled_back, phase_canceled,
  HealthState, health_healthy, health_progressing, health_degraded, health_suspended,
  health_missing,
}
use keleustes.Api.Wire
use keleustes.Api.Wire.{
  Status, blocked, degraded, failed, frozen, healthy, missing, progressing, SourceRef,
}

abbrev pub condition_accepted : Str
condition_accepted = str "Accepted"

abbrev pub label_part_of : Str
label_part_of = str "app.kubernetes.io/part-of"

abbrev pub annotation_ulid : Str
annotation_ulid = str "keleustes.skaphos.io/ulid"

unfoldable pub str_ptr_or_nil : Str → Option Str
str_ptr_or_nil s = if s == [] then none else some s

-- `m[k]` of a map of strings, empty where the key is missing.
unfoldable pub get_string : Str → List (Str × Str) → Str
get_string k [] = []
get_string k ((j, v) ∷ m) = if j == k then v else get_string k m

unfoldable pub project_of : ObjectMeta → Str
unfolding get_string
project_of o = let v = get_string label_part_of o.labels in if not (v == []) then v else o.namespace

unfoldable pub ulid_of : ObjectMeta → Str
unfolding get_string
ulid_of o = get_string annotation_ulid o.annotations

unfoldable pub contains : List Str → Str → Bool
contains [] s = false
contains (x ∷ ss) s = x == s || contains ss s

-- The switch of `statusFromConditions`, on the condition that was found.
abbrev pub status_of_condition : Option Condition → Status
status_of_condition none = missing
status_of_condition (some c) =
    if c.status == condition_true
    then progressing
    else if c.status == condition_false
    then blocked
    else progressing

-- `find` is `FindStatusCondition` of k8s.io/apimachinery.
abbrev pub Finder : Type 0
Finder = List Condition → Str → Option Condition

unfoldable pub status_from_conditions : Finder → List Condition → Status
status_from_conditions find conds = status_of_condition (find conds condition_accepted)

unfoldable pub source_ref_from_manifest : ApplicationManifest → Option SourceRef
unfolding str_ptr_or_nil
source_ref_from_manifest m =
    if m.repo == [] && m.base_path == []
    then none
    else some
        (record { commit = none; path = str_ptr_or_nil m.base_path; repo = str_ptr_or_nil m.repo })

unfoldable pub application_to_api : Finder → Resources.Application → Wire.Application
unfolding status_from_conditions ulid_of str_ptr_or_nil project_of source_ref_from_manifest
application_to_api find a = record {
  name = a.meta.name;
  owner = str_ptr_or_nil a.owner_team;
  project = str_ptr_or_nil (project_of a.meta);
  source = source_ref_from_manifest a.manifest;
  status = status_from_conditions find a.status.conditions;
  ulid = ulid_of a.meta;
}

abbrev first_version : List ReleaseArtifact → Str → Str
first_version [] name = name
first_version (a ∷ _) name = if not (a.version == []) then a.version else name

unfoldable pub release_version : Resources.Release → Str
release_version r = first_version r.artifacts r.meta.name

-- `timePtr` behind `!t.IsZero()`.
abbrev time_ptr : ℕ → Option ℕ
time_ptr t = if not (eqb t 0) then some t else none

unfoldable pub release_to_api : Resources.Release → Wire.Release
unfolding release_version ulid_of str_ptr_or_nil
release_to_api r = record {
  app = r.application;
  created = time_ptr r.meta.creation_timestamp;
  deployed_on = none;
  sbom = if not (r.sbom_ref == []) then some true else none;
  source =
      if not (r.commit == [])
      then some (record { commit = str_ptr_or_nil r.commit; path = none; repo = none })
      else none;
  ulid = str_ptr_or_nil (ulid_of r.meta);
  version = release_version r;
}

unfoldable pub target_to_api : Finder → Resources.DeploymentTarget → Wire.DeploymentTarget
unfolding status_from_conditions ulid_of str_ptr_or_nil
target_to_api find t = record {
  cell = str_ptr_or_nil t.cell;
  cluster = str_ptr_or_nil t.cluster_name;
  drift = none;
  env = str_ptr_or_nil t.environment;
  last_sync = t.status.last_contacted_at;
  name = t.meta.name;
  region = str_ptr_or_nil t.region;
  status = status_from_conditions find t.status.conditions;
  ulid = str_ptr_or_nil (ulid_of t.meta);
}

unfoldable pub promotion_status : PromotionPhase → Status
promotion_status phase =
    if phase == phase_blocked
    then blocked
    else if phase == phase_succeeded
    then healthy
    else if phase == phase_failed
    then failed
    else if phase == phase_rolled_back || phase == phase_canceled
    then degraded
    else progressing

unfoldable pub promotion_to_api : Resources.Promotion → Wire.Promotion
unfolding promotion_status ulid_of str_ptr_or_nil
promotion_to_api p = record {
  application = p.application;
  from_environment = p.from_environment;
  to_environment = p.to_environment;
  mode = str_ptr_or_nil p.mode;
  release = str_ptr_or_nil p.release;
  requested_at = time_ptr p.meta.creation_timestamp;
  status = promotion_status p.status.phase;
  ulid = ulid_of p.meta;
}

unfoldable pub is_terminal_phase : PromotionPhase → Bool
is_terminal_phase phase =
    phase == phase_succeeded
    || (phase == phase_failed || (phase == phase_rolled_back || phase == phase_canceled))

unfoldable pub promotion_matches_state : Resources.Promotion → Str → Bool
unfolding is_terminal_phase
promotion_matches_state p state =
    if state == [] || state == str "mine"
    then true
    else if state == str "blocked"
    then p.status.phase == phase_blocked
    else if state == str "history"
    then is_terminal_phase p.status.phase
    else if state == str "active"
    then not (is_terminal_phase p.status.phase) && not (p.status.phase == phase_blocked)
    else true

unfoldable pub health_status : HealthState → Status
health_status state =
    if state == health_healthy
    then healthy
    else if state == health_degraded
    then degraded
    else if state == health_missing
    then missing
    else if state == health_suspended
    then frozen
    else if state == health_progressing
    then progressing
    else progressing

unfoldable pub health_check_to_api : Resources.HealthCheck → Wire.HealthCheck
unfolding health_status str_ptr_or_nil
health_check_to_api h = record {
  last_probe = none;
  message = str_ptr_or_nil h.status.summary;
  resource = if h.application == [] then h.meta.name else h.application;
  status = health_status h.status.state;
}
