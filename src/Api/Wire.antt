-- ===== src/Api/Wire.antt =====
-- internal/api/openapi/keleustes.gen.go: the types of the answers. Fields that the adapter over the
-- custom resources never sets are left out, but for those that it sets to an empty value.
use keleustes.Base.{ℕ, Str, str, Option, List, Bool}
use keleustes.Base.Int.{ℤ}

pub data Status : Type 0 where
  blocked degraded drifted failed frozen healthy missing progressing : Status

-- `string(s)` of a status.
unfoldable pub status_word : Status → Str
status_word blocked = str "Blocked"
status_word degraded = str "Degraded"
status_word drifted = str "Drifted"
status_word failed = str "Failed"
status_word frozen = str "Frozen"
status_word healthy = str "Healthy"
status_word missing = str "Missing"
status_word progressing = str "Progressing"

pub record SourceRef : Type 0 where
  pub commit : Option Str
  pub path : Option Str
  pub repo : Option Str

pub record Application : Type 0 where
  pub name : Str
  pub owner : Option Str
  pub project : Option Str
  pub source : Option SourceRef
  pub status : Status
  pub ulid : Str

pub record MatrixColumn : Type 0 where
  pub env : Option Str
  pub region : Option Str

pub record MatrixCell : Type 0 where
  pub drift : Option Bool
  pub env : Option Str
  pub region : Option Str
  pub status : Status

pub record MatrixRow : Type 0 where
  pub application : Str
  pub cells : List MatrixCell
  pub ulid : Option Str

pub record Matrix : Type 0 where
  pub as_of : ℕ
  pub columns : List MatrixColumn
  pub rows : List MatrixRow

pub record DiffEntry : Type 0 where
  pub change : Str
  pub drift : Option Bool
  pub object : Str
  pub patch : Option Str

-- The struct of `Diff.Summary`.
pub record DiffSummary : Type 0 where
  pub added : Option ℤ
  pub changed : Option ℤ
  pub removed : Option ℤ

pub record Diff : Type 0 where
  pub entries : List DiffEntry
  pub left : Option Str
  pub mode : Str
  pub right : Option Str
  pub summary : Option DiffSummary

pub record DeploymentTarget : Type 0 where
  pub cell : Option Str
  pub cluster : Option Str
  pub drift : Option Bool
  pub env : Option Str
  pub last_sync : Option ℕ
  pub name : Str
  pub region : Option Str
  pub status : Status
  pub ulid : Option Str

-- `sbom` is the field `Sbom` of the provenance, if that is set.
pub record Release : Type 0 where
  pub app : Str
  pub created : Option ℕ
  pub deployed_on : Option (List Str)
  pub sbom : Option Bool
  pub source : Option SourceRef
  pub ulid : Option Str
  pub version : Str

pub record Promotion : Type 0 where
  pub application : Str
  pub from_environment : Str
  pub to_environment : Str
  pub mode : Option Str
  pub release : Option Str
  pub requested_at : Option ℕ
  pub status : Status
  pub ulid : Str

pub record HealthCheck : Type 0 where
  pub last_probe : Option ℕ
  pub message : Option Str
  pub resource : Str
  pub status : Status

pub record EnvCell : Type 0 where
  pub name : Option Str
  pub region : Option Str
  pub targets : List DeploymentTarget

pub record Environment : Type 0 where
  pub cells : Option (List EnvCell)
  pub name : Str
  pub regions : Option (List Str)

-- An event of the activity log, without its evidence and result, which no code looks at.
pub record AuditEvent : Type 0 where
  pub actor : Str
  pub at : ℕ
  pub target : Str
  pub ulid : Str
  pub verb : Str

-- An RFC 9457 problem.
pub record Problem : Type 0 where
  pub detail : Option Str
  pub instance_path : Option Str
  pub resource : Option Str
  pub status : ℕ
  pub title : Str
  pub problem_type : Str
  pub verb : Option Str

abbrev pub git_live : Str
git_live = str "git-live"
