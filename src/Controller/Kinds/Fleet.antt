-- ===== src/Controller/Kinds/Fleet.antt =====
-- internal/controller: the reconcilers of the applications, their releases and where they run.
use keleustes.Base.{refl, ap, str}
use keleustes.Api.Resources
use keleustes.Api.Resources.Runs
use keleustes.Controller.Runtime.{Reconciler}
use keleustes.Controller.Status.{
  accept_application, application_accepted, accept_source, source_accepted, accept_release,
  release_accepted, accept_environment, environment_accepted, accept_cell, cell_accepted,
  accept_deployment_target, deployment_target_accepted, accept_deployment, deployment_accepted,
}

abbrev pub application_reconciler : Reconciler
application_reconciler = record {
  Obj = Resources.Application;
  Status = Resources.ApplicationStatus;
  controller = str "application";
  meta = λ o. o.meta;
  status = λ o. o.status;
  with_status = λ o st. record o { status = st };
  observed = λ st. st.observed_generation;
  conditions = λ st. st.conditions;
  accept = accept_application;
  accepted = application_accepted;
  meta-with_status = λ o st. refl;
  status-with_status = λ o st. refl;
  observed-accept = λ api now g st. refl;
  conditions-accept = λ api now g st. refl;
  accept_settled = λ api now later g st.
      ap (λ cs. record st { observed_generation = g; conditions = cs })
        (api.settled now later st.conditions (application_accepted g));
}

abbrev pub source_reconciler : Reconciler
source_reconciler = record {
  Obj = Runs.Source;
  Status = Runs.SourceStatus;
  controller = str "source";
  meta = λ o. o.meta;
  status = λ o. o.status;
  with_status = λ o st. record o { status = st };
  observed = λ st. st.observed_generation;
  conditions = λ st. st.conditions;
  accept = accept_source;
  accepted = source_accepted;
  meta-with_status = λ o st. refl;
  status-with_status = λ o st. refl;
  observed-accept = λ api now g st. refl;
  conditions-accept = λ api now g st. refl;
  accept_settled = λ api now later g st.
      ap (λ cs. record st { observed_generation = g; conditions = cs })
        (api.settled now later st.conditions (source_accepted g));
}

abbrev pub release_reconciler : Reconciler
release_reconciler = record {
  Obj = Resources.Release;
  Status = Resources.ReleaseStatus;
  controller = str "release";
  meta = λ o. o.meta;
  status = λ o. o.status;
  with_status = λ o st. record o { status = st };
  observed = λ st. st.observed_generation;
  conditions = λ st. st.conditions;
  accept = accept_release;
  accepted = release_accepted;
  meta-with_status = λ o st. refl;
  status-with_status = λ o st. refl;
  observed-accept = λ api now g st. refl;
  conditions-accept = λ api now g st. refl;
  accept_settled = λ api now later g st.
      ap (λ cs. record st { observed_generation = g; conditions = cs })
        (api.settled now later st.conditions (release_accepted g));
}

abbrev pub environment_reconciler : Reconciler
environment_reconciler = record {
  Obj = Resources.Environment;
  Status = Resources.EnvironmentStatus;
  controller = str "environment";
  meta = λ o. o.meta;
  status = λ o. o.status;
  with_status = λ o st. record o { status = st };
  observed = λ st. st.observed_generation;
  conditions = λ st. st.conditions;
  accept = accept_environment;
  accepted = environment_accepted;
  meta-with_status = λ o st. refl;
  status-with_status = λ o st. refl;
  observed-accept = λ api now g st. refl;
  conditions-accept = λ api now g st. refl;
  accept_settled = λ api now later g st.
      ap (λ cs. record st { observed_generation = g; conditions = cs })
        (api.settled now later st.conditions (environment_accepted g));
}

abbrev pub cell_reconciler : Reconciler
cell_reconciler = record {
  Obj = Runs.Cell;
  Status = Runs.CellStatus;
  controller = str "cell";
  meta = λ o. o.meta;
  status = λ o. o.status;
  with_status = λ o st. record o { status = st };
  observed = λ st. st.observed_generation;
  conditions = λ st. st.conditions;
  accept = accept_cell;
  accepted = cell_accepted;
  meta-with_status = λ o st. refl;
  status-with_status = λ o st. refl;
  observed-accept = λ api now g st. refl;
  conditions-accept = λ api now g st. refl;
  accept_settled = λ api now later g st.
      ap (λ cs. record st { observed_generation = g; conditions = cs })
        (api.settled now later st.conditions (cell_accepted g));
}

abbrev pub deployment_target_reconciler : Reconciler
deployment_target_reconciler = record {
  Obj = Resources.DeploymentTarget;
  Status = Resources.DeploymentTargetStatus;
  controller = str "deploymenttarget";
  meta = λ o. o.meta;
  status = λ o. o.status;
  with_status = λ o st. record o { status = st };
  observed = λ st. st.observed_generation;
  conditions = λ st. st.conditions;
  accept = accept_deployment_target;
  accepted = deployment_target_accepted;
  meta-with_status = λ o st. refl;
  status-with_status = λ o st. refl;
  observed-accept = λ api now g st. refl;
  conditions-accept = λ api now g st. refl;
  accept_settled = λ api now later g st.
      ap (λ cs. record st { observed_generation = g; conditions = cs })
        (api.settled now later st.conditions (deployment_target_accepted g));
}

abbrev pub deployment_reconciler : Reconciler
deployment_reconciler = record {
  Obj = Runs.Deployment;
  Status = Runs.DeploymentStatus;
  controller = str "deployment";
  meta = λ o. o.meta;
  status = λ o. o.status;
  with_status = λ o st. record o { status = st };
  observed = λ st. st.observed_generation;
  conditions = λ st. st.conditions;
  accept = accept_deployment;
  accepted = deployment_accepted;
  meta-with_status = λ o st. refl;
  status-with_status = λ o st. refl;
  observed-accept = λ api now g st. refl;
  conditions-accept = λ api now g st. refl;
  accept_settled = λ api now later g st.
      ap (λ cs. record st { observed_generation = g; conditions = cs })
        (api.settled now later st.conditions (deployment_accepted g));
}
