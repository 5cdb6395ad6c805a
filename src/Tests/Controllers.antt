-- ===== src/Tests/Controllers.antt =====
-- Runs of internal/controller on a cluster of one promotion, and of internal/sync.
use native.Mathlib.Decide.{ℕ_discrete}
use keleustes.Base.{◌≡◌, ◌↔◌, ◌⊎◌, ◌≢◌, In, ==_iff, ◌+◌, refl, inr, Str, str, ◌==◌, [], ◌∷◌, arith}
use keleustes.Base.Result.{ok, err}
use keleustes.Api.Resources.{Promotion}
use keleustes.Api.Resources.Runs.{sync_run_phases}
use keleustes.Sync.{OperationPhases, phase_from_operation, phase_from_operation-In}
use keleustes.Api.Wire.{progressing}
use keleustes.Api.CrdSource.Mapping.{application_to_api, target_to_api, promotion_matches_state}
use keleustes.Controller.Runtime.{NamespacedName, reconcile}
use keleustes.Controller.Kinds.{promotion_kind, promotion_reconciler}
use keleustes.Controller.Status.{
  default_phase, accept_application, accept_deployment_target, accept_promotion,
}
use keleustes.Controller.Settled.{IsAccepted}
use keleustes.Controller.Converge.{reconciles, reconcile_accepts, reconcile_settles, accept-status}
use keleustes.Controller.Generations.{
  IsApiWrite, IsBehind, start, reconciled, written, Reaches-IsBehind,
}
use keleustes.Tests.Cluster.{
  Copies, conditions_api, one_promotion, read_one, one_promotion-IsClient, one_promotion-IsAtomic,
  Condition-discrete, PromotionStatus-discrete,
}
use keleustes.Tests.Fleet.{find_condition, promotion, shop, west}

abbrev first_key : NamespacedName
first_key = record { namespace = str "ns"; name = str "p1" }

-- A promotion without a phase.
abbrev new_promotion : Promotion
new_promotion = promotion (str "p1") []

-- The specification changes, which raises the generation.
abbrev edit : Promotion → Promotion
edit s = record s { meta = record s.meta { generation = s.meta.generation + 1 } }

-- The cache has what is stored.
abbrev fresh : Copies
fresh = (new_promotion, new_promotion)

read_new : one_promotion.get fresh first_key ≡ ok new_promotion
unfolding ◌==◌
read_new = refl

abbrev once : Copies
once = (reconcile conditions_api promotion_reconciler one_promotion 7 first_key fresh).1

-- The cache takes over what is stored.
abbrev caught_up : Copies → Copies
caught_up s = (s.1, s.1)

once_phase : once.1.status.phase ≡ str "Proposed"
unfolding reconcile PromotionStatus-discrete Condition-discrete ℕ_discrete ◌==◌ default_phase
once_phase = refl

once_ok :
    reconcile conditions_api promotion_reconciler one_promotion 7 first_key fresh ≡ (ok tt, once)
unfolding reconcile PromotionStatus-discrete Condition-discrete ℕ_discrete ◌==◌ default_phase
once_ok = refl

-- A reconcile of an old copy is a conflict, and writes nothing.
behind_conflicts :
    reconcile conditions_api promotion_reconciler one_promotion 8 first_key
      (new_promotion, edit new_promotion)
    ≡ (err (str "conflict"), (new_promotion, edit new_promotion))
unfolding reconcile PromotionStatus-discrete Condition-discrete ℕ_discrete ◌==◌ default_phase
behind_conflicts = refl

reconcile_accepts_example :
    ((reconcile conditions_api promotion_reconciler one_promotion 7 first_key fresh
        ≡ (ok tt, fresh))
      × IsAccepted conditions_api promotion_reconciler new_promotion)
    ⊎ (((t : Copies) × (o' : Promotion) × (reconcile conditions_api promotion_reconciler
              one_promotion 7 first_key fresh
            ≡ (ok tt, t))
          × (one_promotion.stored t first_key ≡ ok o')
          × (o'.meta ≡ new_promotion.meta)
          × IsAccepted conditions_api promotion_reconciler o')
        ⊎ ((t : Copies) × (e : Str) × (reconcile conditions_api promotion_reconciler one_promotion 7
                first_key fresh
              ≡ (err e, t))
            × (one_promotion.update_status fresh (record new_promotion {
              status = accept_promotion conditions_api 7 2 new_promotion.status;
            })
                ≡ (err e, t))))
reconcile_accepts_example =
    reconcile_accepts conditions_api promotion_kind one_promotion one_promotion-IsClient 7 first_key
      fresh new_promotion read_new

reconcile_settles_example :
    reconciles conditions_api promotion_reconciler one_promotion first_key
      (8 ∷ 9 ∷ [])
      (caught_up once)
    ≡ (ok tt ∷ ok tt ∷ [], caught_up once)
reconcile_settles_example =
    reconcile_settles conditions_api promotion_kind one_promotion one_promotion-IsClient 7 first_key
      fresh once (caught_up once) (8 ∷ 9 ∷ []) refl once_ok refl

accept-status_example :
    ((application_to_api find_condition
        (record shop { status = accept_application conditions_api 3 2 shop.status })).status
      ≡ progressing)
    × ((target_to_api find_condition
          (record west { status = accept_deployment_target conditions_api 3 2 west.status })).status
        ≡ progressing)
    × (promotion_matches_state
          (record new_promotion {
            status = accept_promotion conditions_api 3 2 new_promotion.status;
          })
          (str "active")
        ≡ promotion_matches_state new_promotion (str "active"))
accept-status_example = accept-status conditions_api 3 2 shop west new_promotion (str "active")

abbrev edited : Copies → Copies
edited s = (s.0, edit s.1)

edited-IsApiWrite : (s : Copies) → IsApiWrite promotion_reconciler one_promotion s (edited s)
edited-IsApiWrite s key o h =
    let (same, e) = read_one (edit s.1) o key h in
    rw (← same) (inr (s.1, rw e refl, omega arith, omega arith))

fresh-IsBehind : IsBehind promotion_reconciler one_promotion fresh
fresh-IsBehind key o h = let (same, _) = read_one new_promotion o key h in rw (← same) (omega arith)

Reaches-IsBehind_example : IsBehind promotion_reconciler one_promotion (edited once)
Reaches-IsBehind_example =
    Reaches-IsBehind conditions_api promotion_kind one_promotion one_promotion-IsClient
      one_promotion-IsAtomic fresh (edited once) fresh-IsBehind
      (written (reconciled 7 first_key start) (edited-IsApiWrite once))

abbrev operations : OperationPhases
operations = record {
  running = str "Running";
  terminating = str "Terminating";
  failed = str "Failed";
  error = str "Error";
  succeeded = str "Succeeded";
}

error_not_succeeded : operations.error ≢ operations.succeeded
unfolding ◌==◌
error_not_succeeded h = let f = (==_iff operations.error operations.succeeded).1 h in cc

error_not_failed : operations.error ≢ operations.failed
unfolding ◌==◌
error_not_failed h = let f = (==_iff operations.error operations.failed).1 h in cc

phase_from_operation-In_example :
    In (phase_from_operation operations (str "Terminating")) sync_run_phases ↔ (
      (str "Terminating" ≢ str "Running")
      × (str "Terminating" ≢ str "Terminating")
      × (str "Terminating" ≢ str "Error"))
phase_from_operation-In_example =
    phase_from_operation-In operations (str "Terminating") error_not_succeeded error_not_failed
