-- ===== src/Controller/Status.antt =====
-- internal/controller: what each reconciler makes of the status of its resource.
use keleustes.Base.{ℕ, Str, str, ◌==◌, if◌then◌else◌, []}
use keleustes.Api.Resources
use keleustes.Api.Resources.{Condition, condition_true, phase_proposed, PromotionPhase}
use keleustes.Api.Resources.Gates
use keleustes.Api.Resources.Runs
use keleustes.Api.CrdSource.Mapping.{condition_accepted}
use keleustes.Controller.Runtime.{ConditionsApi}

abbrev pub reason_scaffold_reconciler : Str
reason_scaffold_reconciler = str "ScaffoldReconciler"

-- The literal of the condition, whose time is the zero one.
abbrev pub accepted_condition : Str → ℕ → Condition
accepted_condition message generation = record {
  condition_type = condition_accepted;
  status = condition_true;
  observed_generation = generation;
  last_transition_time = 0;
  reason = reason_scaffold_reconciler;
  message = message;
}

unfoldable pub default_phase : PromotionPhase → PromotionPhase
default_phase phase = if phase == [] then phase_proposed else phase

abbrev pub application_accepted : ℕ → Condition
application_accepted =
    accepted_condition (str "Application specification accepted; reconciliation engines pending.")

abbrev pub source_accepted : ℕ → Condition
source_accepted = accepted_condition (str "Source accepted; Source Engine arrives with MVP 2.")

abbrev pub release_accepted : ℕ → Condition
release_accepted =
    accepted_condition (str "Release accepted; release-cut behavior arrives with MVP 2.")

abbrev pub environment_accepted : ℕ → Condition
environment_accepted = accepted_condition (str "Environment specification accepted.")

abbrev pub cell_accepted : ℕ → Condition
cell_accepted = accepted_condition (str "Cell specification accepted.")

abbrev pub deployment_target_accepted : ℕ → Condition
deployment_target_accepted =
    accepted_condition
      (str "DeploymentTarget specification accepted; cluster connectivity is not yet probed.")

abbrev pub deployment_accepted : ℕ → Condition
deployment_accepted =
    accepted_condition
      (str "Deployment accepted; live-state reporting arrives with the Sync Engine.")

abbrev pub promotion_accepted : ℕ → Condition
promotion_accepted =
    accepted_condition (str "Promotion accepted; Promotion Engine arrives with MVP 2.")

abbrev pub promotion_policy_accepted : ℕ → Condition
promotion_policy_accepted =
    accepted_condition (str "PromotionPolicy accepted; Promotion Engine arrives with MVP 2.")

abbrev pub approval_accepted : ℕ → Condition
approval_accepted =
    accepted_condition (str "Approval accepted; approval semantics arrive with MVP 2.")

abbrev pub freeze_window_accepted : ℕ → Condition
freeze_window_accepted =
    accepted_condition (str "FreezeWindow accepted; active-window evaluation arrives with MVP 2.")

abbrev pub sync_plan_accepted : ℕ → Condition
sync_plan_accepted = accepted_condition (str "SyncPlan accepted; Sync Engine arrives with MVP 1.")

abbrev pub sync_run_accepted : ℕ → Condition
sync_run_accepted = accepted_condition (str "SyncRun accepted; Sync Engine arrives with MVP 1.")

abbrev pub health_check_accepted : ℕ → Condition
health_check_accepted =
    accepted_condition (str "HealthCheck accepted; Health Engine arrives with MVP 1.")

abbrev pub notifier_accepted : ℕ → Condition
notifier_accepted =
    accepted_condition (str "Notifier accepted; plugin dispatcher arrives with MVP 1.")

module _ (api : ConditionsApi) (now generation : ℕ) where
  abbrev pub accept_application : Resources.ApplicationStatus → Resources.ApplicationStatus
  accept_application st = record st {
    observed_generation = generation;
    conditions = api.set_status_condition now st.conditions (application_accepted generation);
  }

  abbrev pub accept_source : Runs.SourceStatus → Runs.SourceStatus
  accept_source st = record st {
    observed_generation = generation;
    conditions = api.set_status_condition now st.conditions (source_accepted generation);
  }

  abbrev pub accept_release : Resources.ReleaseStatus → Resources.ReleaseStatus
  accept_release st = record st {
    observed_generation = generation;
    conditions = api.set_status_condition now st.conditions (release_accepted generation);
  }

  abbrev pub accept_environment : Resources.EnvironmentStatus → Resources.EnvironmentStatus
  accept_environment st = record st {
    observed_generation = generation;
    conditions = api.set_status_condition now st.conditions (environment_accepted generation);
  }

  abbrev pub accept_cell : Runs.CellStatus → Runs.CellStatus
  accept_cell st = record st {
    observed_generation = generation;
    conditions = api.set_status_condition now st.conditions (cell_accepted generation);
  }

  abbrev pub accept_deployment_target :
      Resources.DeploymentTargetStatus → Resources.DeploymentTargetStatus
  accept_deployment_target st = record st {
    observed_generation = generation;
    conditions = api.set_status_condition now st.conditions (deployment_target_accepted generation);
  }

  abbrev pub accept_deployment : Runs.DeploymentStatus → Runs.DeploymentStatus
  accept_deployment st = record st {
    observed_generation = generation;
    conditions = api.set_status_condition now st.conditions (deployment_accepted generation);
  }

  abbrev pub accept_promotion : Resources.PromotionStatus → Resources.PromotionStatus
  accept_promotion st = record st {
    observed_generation = generation;
    phase = default_phase st.phase;
    conditions = api.set_status_condition now st.conditions (promotion_accepted generation);
  }

  abbrev pub accept_promotion_policy : Gates.PromotionPolicyStatus → Gates.PromotionPolicyStatus
  accept_promotion_policy st = record st {
    observed_generation = generation;
    conditions = api.set_status_condition now st.conditions (promotion_policy_accepted generation);
  }

  abbrev pub accept_approval : Gates.ApprovalStatus → Gates.ApprovalStatus
  accept_approval st = record st {
    observed_generation = generation;
    conditions = api.set_status_condition now st.conditions (approval_accepted generation);
  }

  abbrev pub accept_freeze_window : Gates.FreezeWindowStatus → Gates.FreezeWindowStatus
  accept_freeze_window st = record st {
    observed_generation = generation;
    conditions = api.set_status_condition now st.conditions (freeze_window_accepted generation);
  }

  abbrev pub accept_sync_plan : Runs.SyncPlanStatus → Runs.SyncPlanStatus
  accept_sync_plan st = record st {
    observed_generation = generation;
    conditions = api.set_status_condition now st.conditions (sync_plan_accepted generation);
  }

  abbrev pub accept_sync_run : Runs.SyncRunStatus → Runs.SyncRunStatus
  accept_sync_run st = record st {
    observed_generation = generation;
    conditions = api.set_status_condition now st.conditions (sync_run_accepted generation);
  }

  abbrev pub accept_health_check : Resources.HealthCheckStatus → Resources.HealthCheckStatus
  accept_health_check st = record st {
    observed_generation = generation;
    conditions = api.set_status_condition now st.conditions (health_check_accepted generation);
  }

  abbrev pub accept_notifier : Gates.NotifierStatus → Gates.NotifierStatus
  accept_notifier st = record st {
    observed_generation = generation;
    conditions = api.set_status_condition now st.conditions (notifier_accepted generation);
  }
