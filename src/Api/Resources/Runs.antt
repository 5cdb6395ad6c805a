-- ===== src/Api/Resources/Runs.antt =====
-- api/v1alpha1: cells, sources, deployments, sync plans and sync runs. A `LocalObjectReference` is
-- its name, and a `metav1.Time` the number of nanoseconds since the zero time.
use keleustes.Base.{Bool, ℕ, Str, str, Option, List, [], ◌∷◌}
use keleustes.Api.Resources.{ObjectMeta, Condition}

pub record CellSpec : Type 0 where
  pub environment : Str
  pub purpose : Str
  pub failure_boundary : Str
  pub regions : List Str

pub record CellStatus : Type 0 where
  pub observed_generation : ℕ
  pub conditions : List Condition

pub record Cell : Type 0 where
  pub meta : ObjectMeta
  pub spec : CellSpec
  pub status : CellStatus

pub record SourceVerify : Type 0 where
  pub cosign : Bool
  pub require_sbom : Bool

pub record SourceSpec : Type 0 where
  pub source_type : Str
  pub image : Str
  pub repo : Str
  pub chart : Str
  pub semver : Str
  pub verify : SourceVerify

pub record SourceObservedRevision : Type 0 where
  pub tag : Str
  pub digest : Str
  pub observed_at : Option ℕ

pub record SourceStatus : Type 0 where
  pub observed_generation : ℕ
  pub conditions : List Condition
  pub latest_revision : Option SourceObservedRevision

pub record Source : Type 0 where
  pub meta : ObjectMeta
  pub spec : SourceSpec
  pub status : SourceStatus

pub record DeploymentSpec : Type 0 where
  pub application : Str
  pub target_ref : Str
  pub release : Str

pub record DeploymentStatus : Type 0 where
  pub observed_generation : ℕ
  pub conditions : List Condition
  pub last_sync_run : Str

pub record Deployment : Type 0 where
  pub meta : ObjectMeta
  pub spec : DeploymentSpec
  pub status : DeploymentStatus

pub record SyncPlanSpec : Type 0 where
  pub application : Str
  pub target_refs : List Str
  pub auto_sync : Bool
  pub suspended : Bool

pub record SyncPlanStatus : Type 0 where
  pub observed_generation : ℕ
  pub conditions : List Condition
  pub last_sync_run : Str

pub record SyncPlan : Type 0 where
  pub meta : ObjectMeta
  pub spec : SyncPlanSpec
  pub status : SyncPlanStatus

-- The values that the custom resource's validation admits.
abbrev pub sync_run_phases : List Str
sync_run_phases =
    str "Pending"
    ∷ str "Rendering"
    ∷ str "Applying"
    ∷ str "Verifying"
    ∷ str "Succeeded"
    ∷ str "Failed"
    ∷ []

pub record SyncRunSpec : Type 0 where
  pub plan_ref : Str
  pub target_ref : Str
  pub revision : Str

pub record SyncRunStatus : Type 0 where
  pub observed_generation : ℕ
  pub phase : Str
  pub started_at : Option ℕ
  pub completed_at : Option ℕ
  pub conditions : List Condition

pub record SyncRun : Type 0 where
  pub meta : ObjectMeta
  pub spec : SyncRunSpec
  pub status : SyncRunStatus
