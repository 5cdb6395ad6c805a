-- ===== src/Api/Resources.antt =====
-- api/v1alpha1: the custom resources that the read model reads, with the fields that it reads. Of
-- `metav1.ObjectMeta` and `metav1.Condition`, types of another repository, likewise. An enumeration
-- is a Go string, a `metav1.Time` the number of nanoseconds since the zero time, and a map of
-- strings the list of its entries. A generation, an `int64` that the cluster counts up from 1, is a
-- natural number.
pub mod Gates
pub mod Runs
use keleustes.Base.{Bool, ℕ, Str, str, Option, List}
use keleustes.Base.Int.{ℤ}

pub record ObjectMeta : Type 0 where
  pub name : Str
  pub namespace : Str
  pub labels : List (Str × Str)
  pub annotations : List (Str × Str)
  pub creation_timestamp : ℕ
  pub generation : ℕ

pub record Condition : Type 0 where
  pub condition_type : Str
  pub status : Str
  pub observed_generation : ℕ
  pub last_transition_time : ℕ
  pub reason : Str
  pub message : Str

abbrev pub condition_true : Str
condition_true = str "True"

abbrev pub condition_false : Str
condition_false = str "False"

pub record ApplicationManifest : Type 0 where
  pub manifest_type : Str
  pub repo : Str
  pub base_path : Str
  pub chart : Str

pub record ApplicationStatus : Type 0 where
  pub observed_generation : ℕ
  pub conditions : List Condition

pub record Application : Type 0 where
  pub meta : ObjectMeta
  pub owner_team : Str
  pub manifest : ApplicationManifest
  pub environments : List Str
  pub status : ApplicationStatus

pub record ReleaseArtifact : Type 0 where
  pub artifact_type : Str
  pub artifact_ref : Str
  pub digest : Str
  pub version : Str

pub record ReleaseStatus : Type 0 where
  pub observed_generation : ℕ
  pub conditions : List Condition

pub record Release : Type 0 where
  pub meta : ObjectMeta
  pub application : Str
  pub artifacts : List ReleaseArtifact
  pub commit : Str
  pub sbom_ref : Str
  pub status : ReleaseStatus

pub record DeploymentTargetStatus : Type 0 where
  pub observed_generation : ℕ
  pub conditions : List Condition
  pub reachable : Bool
  pub last_contacted_at : Option ℕ

pub record DeploymentTarget : Type 0 where
  pub meta : ObjectMeta
  pub environment : Str
  pub cell : Str
  pub region : Str
  pub cluster_name : Str
  pub status : DeploymentTargetStatus

abbrev pub PromotionPhase : Type 0
PromotionPhase = Str

abbrev pub phase_proposed : PromotionPhase
phase_proposed = str "Proposed"

abbrev pub phase_blocked : PromotionPhase
phase_blocked = str "Blocked"

abbrev pub phase_succeeded : PromotionPhase
phase_succeeded = str "Succeeded"

abbrev pub phase_failed : PromotionPhase
phase_failed = str "Failed"

abbrev pub phase_rolled_back : PromotionPhase
phase_rolled_back = str "RolledBack"

abbrev pub phase_canceled : PromotionPhase
phase_canceled = str "Canceled"

pub record PromotionStatus : Type 0 where
  pub observed_generation : ℕ
  pub phase : PromotionPhase
  pub blockers : List Str
  pub conditions : List Condition

pub record Promotion : Type 0 where
  pub meta : ObjectMeta
  pub application : Str
  pub release : Str
  pub from_environment : Str
  pub to_environment : Str
  pub mode : Str
  pub status : PromotionStatus

abbrev pub HealthState : Type 0
HealthState = Str

abbrev pub health_healthy : HealthState
health_healthy = str "Healthy"

abbrev pub health_progressing : HealthState
health_progressing = str "Progressing"

abbrev pub health_degraded : HealthState
health_degraded = str "Degraded"

abbrev pub health_suspended : HealthState
health_suspended = str "Suspended"

abbrev pub health_missing : HealthState
health_missing = str "Missing"

pub record HealthCheckStatus : Type 0 where
  pub observed_generation : ℕ
  pub state : HealthState
  pub summary : Str
  pub conditions : List Condition

-- `target_ref` is the name in `Spec.TargetRef`, if that is set.
pub record HealthCheck : Type 0 where
  pub meta : ObjectMeta
  pub application : Str
  pub target_ref : Option Str
  pub status : HealthCheckStatus

pub record EnvironmentStatus : Type 0 where
  pub observed_generation : ℕ
  pub conditions : List Condition

-- `order` is an `int32`.
pub record Environment : Type 0 where
  pub meta : ObjectMeta
  pub order : ℤ
  pub status : EnvironmentStatus
