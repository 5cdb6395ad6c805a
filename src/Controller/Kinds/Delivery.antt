-- ===== src/Controller/Kinds/Delivery.antt =====
-- internal/controller: the reconcilers of promotions, syncs and what they depend on.
use keleustes.Base.{◌≡◌, refl, ap, Str, str, ◌==◌, [], ◌∷◌}
use keleustes.Api.Resources
use keleustes.Api.Resources.Gates
use keleustes.Api.Resources.Runs
use keleustes.Controller.Runtime.{Reconciler}
use keleustes.Controller.Status.{
  default_phase, accept_promotion, promotion_accepted, accept_promotion_policy,
  promotion_policy_accepted, accept_approval, approval_accepted, accept_freeze_window,
  freeze_window_accepted, accept_sync_plan, sync_plan_accepted, accept_sync_run, sync_run_accepted,
  accept_health_check, health_check_accepted, accept_notifier, notifier_accepted,
}

-- A phase that was defaulted is not empty.
pub default_phase_settled :
    (phase : Str) → default_phase (default_phase phase) ≡ default_phase phase
unfolding default_phase ◌==◌
default_phase_settled [] = refl
default_phase_settled (a ∷ phase) = refl

abbrev pub promotion_reconciler : Reconciler
promotion_reconciler = record {
  Obj = Resources.Promotion;
  Status = Resources.PromotionStatus;
  controller = str "promotion";
  meta = λ o. o.meta;
  status = λ o. o.status;
  with_status = λ o st. record o { status = st };
  observed = λ st. st.observed_generation;
  conditions = λ st. st.conditions;
  accept = accept_promotion;
  accepted = promotion_accepted;
  meta-with_status = λ o st. refl;
  status-with_status = λ o st. refl;
  observed-accept = λ api now g st. refl;
  conditions-accept = λ api now g st. refl;
  accept_settled = λ api now later g st.
      rw
        (api.settled now later st.conditions (promotion_accepted g), default_phase_settled st.phase)
        refl;
}

abbrev pub promotion_policy_reconciler : Reconciler
promotion_policy_reconciler = record {
  Obj = Gates.PromotionPolicy;
  Status = Gates.PromotionPolicyStatus;
  controller = str "promotionpolicy";
  meta = λ o. o.meta;
  status = λ o. o.status;
  with_status = λ o st. record o { status = st };
  observed = λ st. st.observed_generation;
  conditions = λ st. st.conditions;
  accept = accept_promotion_policy;
  accepted = promotion_policy_accepted;
  meta-with_status = λ o st. refl;
  status-with_status = λ o st. refl;
  observed-accept = λ api now g st. refl;
  conditions-accept = λ api now g st. refl;
  accept_settled = λ api now later g st.
      ap (λ cs. record st { observed_generation = g; conditions = cs })
        (api.settled now later st.conditions (promotion_policy_accepted g));
}

abbrev pub approval_reconciler : Reconciler
approval_reconciler = record {
  Obj = Gates.Approval;
  Status = Gates.ApprovalStatus;
  controller = str "approval";
  meta = λ o. o.meta;
  status = λ o. o.status;
  with_status = λ o st. record o { status = st };
  observed = λ st. st.observed_generation;
  conditions = λ st. st.conditions;
  accept = accept_approval;
  accepted = approval_accepted;
  meta-with_status = λ o st. refl;
  status-with_status = λ o st. refl;
  observed-accept = λ api now g st. refl;
  conditions-accept = λ api now g st. refl;
  accept_settled = λ api now later g st.
      ap (λ cs. record st { observed_generation = g; conditions = cs })
        (api.settled now later st.conditions (approval_accepted g));
}

abbrev pub freeze_window_reconciler : Reconciler
freeze_window_reconciler = record {
  Obj = Gates.FreezeWindow;
  Status = Gates.FreezeWindowStatus;
  controller = str "freezewindow";
  meta = λ o. o.meta;
  status = λ o. o.status;
  with_status = λ o st. record o { status = st };
  observed = λ st. st.observed_generation;
  conditions = λ st. st.conditions;
  accept = accept_freeze_window;
  accepted = freeze_window_accepted;
  meta-with_status = λ o st. refl;
  status-with_status = λ o st. refl;
  observed-accept = λ api now g st. refl;
  conditions-accept = λ api now g st. refl;
  accept_settled = λ api now later g st.
      ap (λ cs. record st { observed_generation = g; conditions = cs })
        (api.settled now later st.conditions (freeze_window_accepted g));
}

abbrev pub sync_plan_reconciler : Reconciler
sync_plan_reconciler = record {
  Obj = Runs.SyncPlan;
  Status = Runs.SyncPlanStatus;
  controller = str "syncplan";
  meta = λ o. o.meta;
  status = λ o. o.status;
  with_status = λ o st. record o { status = st };
  observed = λ st. st.observed_generation;
  conditions = λ st. st.conditions;
  accept = accept_sync_plan;
  accepted = sync_plan_accepted;
  meta-with_status = λ o st. refl;
  status-with_status = λ o st. refl;
  observed-accept = λ api now g st. refl;
  conditions-accept = λ api now g st. refl;
  accept_settled = λ api now later g st.
      ap (λ cs. record st { observed_generation = g; conditions = cs })
        (api.settled now later st.conditions (sync_plan_accepted g));
}

abbrev pub sync_run_reconciler : Reconciler
sync_run_reconciler = record {
  Obj = Runs.SyncRun;
  Status = Runs.SyncRunStatus;
  controller = str "syncrun";
  meta = λ o. o.meta;
  status = λ o. o.status;
  with_status = λ o st. record o { status = st };
  observed = λ st. st.observed_generation;
  conditions = λ st. st.conditions;
  accept = accept_sync_run;
  accepted = sync_run_accepted;
  meta-with_status = λ o st. refl;
  status-with_status = λ o st. refl;
  observed-accept = λ api now g st. refl;
  conditions-accept = λ api now g st. refl;
  accept_settled = λ api now later g st.
      ap (λ cs. record st { observed_generation = g; conditions = cs })
        (api.settled now later st.conditions (sync_run_accepted g));
}

abbrev pub health_check_reconciler : Reconciler
health_check_reconciler = record {
  Obj = Resources.HealthCheck;
  Status = Resources.HealthCheckStatus;
  controller = str "healthcheck";
  meta = λ o. o.meta;
  status = λ o. o.status;
  with_status = λ o st. record o { status = st };
  observed = λ st. st.observed_generation;
  conditions = λ st. st.conditions;
  accept = accept_health_check;
  accepted = health_check_accepted;
  meta-with_status = λ o st. refl;
  status-with_status = λ o st. refl;
  observed-accept = λ api now g st. refl;
  conditions-accept = λ api now g st. refl;
  accept_settled = λ api now later g st.
      ap (λ cs. record st { observed_generation = g; conditions = cs })
        (api.settled now later st.conditions (health_check_accepted g));
}

abbrev pub notifier_reconciler : Reconciler
notifier_reconciler = record {
  Obj = Gates.Notifier;
  Status = Gates.NotifierStatus;
  controller = str "notifier";
  meta = λ o. o.meta;
  status = λ o. o.status;
  with_status = λ o st. record o { status = st };
  observed = λ st. st.observed_generation;
  conditions = λ st. st.conditions;
  accept = accept_notifier;
  accepted = notifier_accepted;
  meta-with_status = λ o st. refl;
  status-with_status = λ o st. refl;
  observed-accept = λ api now g st. refl;
  conditions-accept = λ api now g st. refl;
  accept_settled = λ api now later g st.
      ap (λ cs. record st { observed_generation = g; conditions = cs })
        (api.settled now later st.conditions (notifier_accepted g));
}
