-- ===== src/Controller/Kinds.antt =====
-- internal/controller and cmd/manager: the kinds that have a reconciler, in the order of main.go, and
-- the reconciler of each.
pub mod Fleet
pub mod Delivery
pub use Fleet.*
pub use Delivery.*
use keleustes.Base.{List, [], ◌∷◌}
use keleustes.Controller.Runtime.{Reconciler}

pub data Kind : Type 0 where
  application_kind : Kind
  source_kind : Kind
  release_kind : Kind
  environment_kind : Kind
  cell_kind : Kind
  deployment_target_kind : Kind
  deployment_kind : Kind
  promotion_kind : Kind
  promotion_policy_kind : Kind
  approval_kind : Kind
  freeze_window_kind : Kind
  sync_plan_kind : Kind
  sync_run_kind : Kind
  health_check_kind : Kind
  notifier_kind : Kind

-- The calls of `SetupWithManager`.
abbrev pub controllers : List Kind
controllers =
    application_kind ∷ source_kind ∷ release_kind ∷ environment_kind ∷ cell_kind
    ∷ deployment_target_kind ∷ deployment_kind ∷ promotion_kind ∷ promotion_policy_kind
    ∷ approval_kind ∷ freeze_window_kind ∷ sync_plan_kind ∷ sync_run_kind ∷ health_check_kind
    ∷ notifier_kind ∷ []

abbrev pub reconciler : Kind → Reconciler
reconciler application_kind = application_reconciler
reconciler source_kind = source_reconciler
reconciler release_kind = release_reconciler
reconciler environment_kind = environment_reconciler
reconciler cell_kind = cell_reconciler
reconciler deployment_target_kind = deployment_target_reconciler
reconciler deployment_kind = deployment_reconciler
reconciler promotion_kind = promotion_reconciler
reconciler promotion_policy_kind = promotion_policy_reconciler
reconciler approval_kind = approval_reconciler
reconciler freeze_window_kind = freeze_window_reconciler
reconciler sync_plan_kind = sync_plan_reconciler
reconciler sync_run_kind = sync_run_reconciler
reconciler health_check_kind = health_check_reconciler
reconciler notifier_kind = notifier_reconciler
