-- ===== src/Cli/Kinds.antt =====
-- internal/cli/kinds.go: the kinds that the command line knows, and the look-up of an alias.
pub mod Resolve
use keleustes.Base.{
  ℕ, Bool, Option, none, some, Str, str, ◌==◌, ◌<?◌, to_lower, List, [], ◌∷◌, map, any, first,
  sort_by,
}
use keleustes.Base.Result.{Result, ok, err}

-- `schema.GroupVersionKind` and `schema.GroupVersionResource`.
pub record GroupVersionKind : Type 0 where
  pub group : Str
  pub version : Str
  pub kind : Str

pub record GroupVersionResource : Type 0 where
  pub group : Str
  pub version : Str
  pub resource : Str

pub record Column : Type 0 where
  pub header : Str
  pub json_path : Str

pub record ResolvedKind : Type 0 where
  pub gvk : GroupVersionKind
  pub gvr : GroupVersionResource
  pub aliases : List Str
  pub columns : List Column

abbrev pub keleustes_group : Str
keleustes_group = str "keleustes.skaphos.io"

abbrev pub keleustes_version : Str
keleustes_version = str "v1alpha1"

abbrev pub gvk : Str → GroupVersionKind
gvk kind = record { group = keleustes_group; version = keleustes_version; kind = kind }

abbrev pub gvr : Str → GroupVersionResource
gvr resource = record { group = keleustes_group; version = keleustes_version; resource = resource }

abbrev column : Str → Str → Column
column header path = record { header = header; json_path = path }

abbrev resolved : (kind resource : Str) → List Str → List Column → ResolvedKind
resolved kind resource aliases columns = record {
  gvk = gvk kind;
  gvr = gvr resource;
  aliases = aliases;
  columns = columns;
}

unfoldable pub keleustes_kinds : List ResolvedKind
keleustes_kinds =
    resolved (str "Application") (str "applications")
      (str "app" ∷ str "application" ∷ str "applications" ∷ [])
      (column (str "Strategy") (str ".spec.deployment.strategy")
        ∷ column (str "Manifest") (str ".spec.deployment.manifest.type")
        ∷ column (str "Status") (str ".status.conditions[?(@.type=='Accepted')].status")
        ∷ [])
    ∷ resolved (str "Source") (str "sources") (str "src" ∷ str "source" ∷ str "sources" ∷ []) (
        column (str "Type") (str ".spec.type")
        ∷ column (str "Status") (str ".status.conditions[?(@.type=='Accepted')].status")
        ∷ [])
    ∷ resolved (str "Release") (str "releases") (str "rel" ∷ str "release" ∷ str "releases" ∷ []) (
        column (str "Application") (str ".spec.application")
        ∷ column (str "Artifacts") (str ".spec.artifacts[*].type")
        ∷ [])
    ∷ resolved (str "Deployment") (str "deployments")
        (str "deploy" ∷ str "deployment" ∷ str "deployments" ∷ [])
        (column (str "Application") (str ".spec.application")
          ∷ column (str "Target") (str ".spec.targetRef.name")
          ∷ column (str "Status") (str ".status.conditions[?(@.type=='Accepted')].status")
          ∷ [])
    ∷ resolved (str "Environment") (str "environments")
        (str "env" ∷ str "environment" ∷ str "environments" ∷ [])
        (column (str "Order") (str ".spec.order")
          ∷ column (str "Status") (str ".status.conditions[?(@.type=='Accepted')].status")
          ∷ [])
    ∷ resolved (str "Cell") (str "cells") (str "cell" ∷ str "cells" ∷ []) (
        column (str "Environment") (str ".spec.environment")
        ∷ column (str "Status") (str ".status.conditions[?(@.type=='Accepted')].status")
        ∷ [])
    ∷ resolved (str "DeploymentTarget") (str "deploymenttargets")
        (str "dt" ∷ str "deploymenttarget" ∷ str "deploymenttargets" ∷ [])
        (column (str "Environment") (str ".spec.environment")
          ∷ column (str "Cluster") (str ".spec.cluster.name")
          ∷ column (str "Status") (str ".status.conditions[?(@.type=='Accepted')].status")
          ∷ [])
    ∷ resolved (str "Promotion") (str "promotions")
        (str "promo" ∷ str "promotion" ∷ str "promotions" ∷ [])
        (column (str "Application") (str ".spec.application")
          ∷ column (str "Release") (str ".spec.release")
          ∷ column (str "To") (str ".spec.to.environment")
          ∷ column (str "Phase") (str ".status.phase")
          ∷ [])
    ∷ resolved (str "PromotionPolicy") (str "promotionpolicies")
        (str "pp" ∷ str "promotionpolicy" ∷ str "promotionpolicies" ∷ [])
        (column (str "Required") (str ".spec.required[*]") ∷ [])
    ∷ resolved (str "Approval") (str "approvals")
        (str "appr" ∷ str "approval" ∷ str "approvals" ∷ [])
        (column (str "Promotion") (str ".spec.promotionRef.name")
          ∷ column (str "Decision") (str ".spec.decision")
          ∷ column (str "Reviewer") (str ".spec.reviewer")
          ∷ [])
    ∷ resolved (str "FreezeWindow") (str "freezewindows")
        (str "fw" ∷ str "freezewindow" ∷ str "freezewindows" ∷ [])
        (column (str "Reason") (str ".spec.reason")
          ∷ column (str "Start") (str ".spec.start")
          ∷ column (str "End") (str ".spec.end")
          ∷ [])
    ∷ resolved (str "SyncPlan") (str "syncplans") (str "sp" ∷ str "syncplan" ∷ str "syncplans" ∷ [])
        (column (str "Application") (str ".spec.application")
          ∷ column (str "Targets") (str ".spec.targetRefs[*].name")
          ∷ [])
    ∷ resolved (str "SyncRun") (str "syncruns") (str "sr" ∷ str "syncrun" ∷ str "syncruns" ∷ []) (
        column (str "Plan") (str ".spec.planRef.name")
        ∷ column (str "Target") (str ".spec.targetRef.name")
        ∷ column (str "Phase") (str ".status.phase")
        ∷ [])
    ∷ resolved (str "HealthCheck") (str "healthchecks")
        (str "hc" ∷ str "healthcheck" ∷ str "healthchecks" ∷ [])
        (column (str "Application") (str ".spec.application")
          ∷ column (str "State") (str ".status.state")
          ∷ [])
    ∷ resolved (str "Notifier") (str "notifiers")
        (str "notif" ∷ str "notifier" ∷ str "notifiers" ∷ [])
        (column (str "Builtin") (str ".spec.endpoint.builtin")
          ∷ column (str "Mode") (str ".spec.delivery.mode")
          ∷ [])
    ∷ []

-- `slices.Contains(k.Aliases, key)`.
abbrev pub has_alias : Str → ResolvedKind → Bool
has_alias key k = any (λ a. a == key) k.aliases

-- `k.Aliases[len(k.Aliases)-1]`, for aliases that are there.
abbrev pub last_alias : List Str → Str
last_alias [] = []
last_alias (a ∷ []) = a
last_alias (a ∷ b ∷ rest) = last_alias (b ∷ rest)

unfoldable pub known_aliases : List Str
unfolding keleustes_kinds
known_aliases = sort_by ◌<?◌ (map (λ (k : ResolvedKind). last_alias k.aliases) keleustes_kinds)

-- The unknown alias, and the valid kinds that the message lists.
pub data KindError : Type 0 where
  unknown_kind : Str → List Str → KindError

abbrev resolved_or_unknown : Str → Option ResolvedKind → Result KindError ResolvedKind
resolved_or_unknown s none = err (unknown_kind s known_aliases)
resolved_or_unknown s (some k) = ok k

-- The loop of `resolveKind` over the kinds that are left.
unfoldable pub resolve_in : Str → List ResolvedKind → Option ResolvedKind
unfolding ◌==◌
resolve_in key ks = first (has_alias key) ks

unfoldable pub resolve_kind : Str → Result KindError ResolvedKind
unfolding to_lower resolve_in
resolve_kind s = resolved_or_unknown s (resolve_in (to_lower s) keleustes_kinds)
