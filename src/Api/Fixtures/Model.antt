-- ===== src/Api/Fixtures/Model.antt =====
-- internal/api/readmodel/fixtures/fixtures.go: the corpus as a read model, and its targets.
use keleustes.Api.Port.{ReadModel}
use keleustes.Api.Fixtures.{
  Fixtures, list_applications, get_application, get_matrix, list_application_releases,
  list_application_promotions, list_promotions, get_promotion, list_releases, list_targets,
  list_environments,
}
use keleustes.Api.Fixtures.Synthesis.{get_target_health, get_target_drift, get_diff}
use keleustes.Api.Fixtures.Activity.{query_audit}

-- `var _ readmodel.ReadModel = (*Fixtures)(nil)`.
abbrev pub read_model : Fixtures → ReadModel
read_model f = record {
  list_applications = list_applications f;
  get_application = get_application f;
  get_matrix = get_matrix f;
  list_application_releases = list_application_releases f;
  list_application_promotions = list_application_promotions f;
  list_promotions = list_promotions f;
  get_promotion = get_promotion f;
  list_releases = list_releases f;
  list_targets = list_targets f;
  get_target_health = get_target_health f;
  get_target_drift = get_target_drift f;
  list_environments = list_environments f;
  get_diff = get_diff f;
  query_audit = query_audit f;
}
