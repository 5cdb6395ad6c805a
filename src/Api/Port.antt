-- ===== src/Api/Port.antt =====
-- internal/api/readmodel/port.go: the interface between the server and its backends.
use keleustes.Base.{ℕ, Str, Option, List}
use keleustes.Base.Result.{Result}
use keleustes.Base.Int.{ℤ}
use keleustes.Api.Wire.{
  Application, Matrix, Release, Promotion, DeploymentTarget, HealthCheck, Diff, Environment,
  AuditEvent,
}

-- The sentinel errors, and any other error by its text.
pub data ReadError : Type 0 where
  not_found forbidden : ReadError
  other : Str → ReadError

pub record ApplicationFilter : Type 0 where
  pub project : Str
  pub env : Str
  pub region : Str
  pub q : Str

pub record DiffQuery : Type 0 where
  pub mode : Str
  pub left : Str
  pub right : Str

pub record AuditQuery : Type 0 where
  pub resource : Str
  pub actor : Str
  pub verb : Str
  pub from : Option ℕ
  pub to : Option ℕ
  pub limit : ℤ

pub record ApplicationsPage : Type 0 where
  pub items : List Application
  pub as_of : ℕ

pub record AuditPage : Type 0 where
  pub items : List AuditEvent
  pub next_cursor : Str

-- The interface: a read of each kind.
pub record ReadModel : Type 0 where
  pub list_applications : ApplicationFilter → Result ReadError ApplicationsPage
  pub get_application : Str → Result ReadError Application
  pub get_matrix : Str → Result ReadError Matrix
  pub list_application_releases : Str → Result ReadError (List Release)
  pub list_application_promotions : Str → Result ReadError (List Promotion)
  pub list_promotions : Str → Result ReadError (List Promotion)
  pub get_promotion : Str → Result ReadError Promotion
  pub list_releases : Str → Result ReadError (List Release)
  pub list_targets : Result ReadError (List DeploymentTarget)
  pub get_target_health : Str → Result ReadError (List HealthCheck)
  pub get_target_drift : Str → Result ReadError Diff
  pub list_environments : Result ReadError (List Environment)
  pub get_diff : DiffQuery → Result ReadError Diff
  pub query_audit : AuditQuery → Result ReadError AuditPage
