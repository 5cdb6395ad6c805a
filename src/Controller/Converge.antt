-- ===== src/Controller/Converge.antt =====
-- internal/controller: that the reconcilers converge, and what the read model shows then.
use keleustes.Base.{◌≡◌, ◌⊎◌, ◌∙◌, subst, some, refl, ℕ, ◌==◌, Str, List, [], ◌∷◌, map}
use keleustes.Base.Result.{Result, ok, err}
use keleustes.Api.Resources
use keleustes.Api.Resources.{Condition, condition_true, phase_blocked}
use keleustes.Api.Wire.{progressing}
use keleustes.Api.CrdSource.Mapping.{
  status_from_conditions, application_to_api, target_to_api, promotion_matches_state,
  condition_accepted, is_terminal_phase,
}
use keleustes.Controller.Runtime.{ConditionsApi, Reconciler, NamespacedName, Client, reconcile}
use keleustes.Controller.Status.{
  accept_application, accept_deployment_target, accept_promotion, application_accepted,
  deployment_target_accepted, default_phase,
}
use keleustes.Controller.Kinds.{Kind, reconciler}
use keleustes.Controller.Settled.{IsClient, IsAccepted, reconcile_again, reconcile-IsAccepted}

-- Reconciles of one object one after another, at the given times: the results, and the last state.
abbrev pub reconciles :
    ConditionsApi
    → (r : Reconciler) {S : Type 0} → Client r S
    → NamespacedName
    → List ℕ
    → S
    → List (Result Str (Unit {0})) × S
reconciles api r c key [] s = ([], s)
reconciles api r c key (now ∷ times) s =
    let first = reconcile api r c now key s in
    let rest = reconciles api r c key times first.1 in (first.0 ∷ rest.0, rest.1)

module _ (api : ConditionsApi) (k : Kind) {S : Type 0} (c : Client (reconciler k) S) where
  -- For the reconciler of every kind, where the object is read, from a cache that may be behind. The
  -- reconcile returns no error and writes nothing, and the object as it was read has a status of its
  -- own generation, and an Accepted condition with that generation and the status, reason and message
  -- of its kind; or it returns no error and the API server then holds such an object, with the
  -- metadata that was read; or it returns the error with which the write of the status failed.
  pub reconcile_accepts :
      IsClient (reconciler k) c
      → (now : ℕ) (key : NamespacedName) (s : S) (o : (reconciler k).Obj) → c.get s key ≡ ok o
      → ((reconcile api (reconciler k) c now key s ≡ (ok tt, s)) × IsAccepted api (reconciler k) o)
        ⊎ (((t : S) × (o' : (reconciler k).Obj) × (reconcile api (reconciler k) c now key s
                ≡ (ok tt, t))
              × (c.stored t key ≡ ok o')
              × ((reconciler k).meta o' ≡ (reconciler k).meta o)
              × IsAccepted api (reconciler k) o')
            ⊎ ((t : S) × (e : Str) × (reconcile api (reconciler k) c now key s ≡ (err e, t))
                × (c.update_status s (
                      (reconciler k).with_status o (
                        (reconciler k).accept api now
                          ((reconciler k).meta o).generation
                          ((reconciler k).status o)))
                    ≡ (err e, t))))
  reconcile_accepts laws now key s o h =
      reconcile-IsAccepted api (reconciler k) c laws now key s o h

  -- For the reconciler of every kind: let a reconcile that reads from the cache what the API server
  -- holds under its key, an object or that there is none, return no error. In a state where the
  -- cache gives what the API server held after it, so that the cache has caught up and nobody else
  -- has written the object in between, any number of further reconciles of the object, at any times,
  -- return no error and write nothing.
  pub reconcile_settles :
      IsClient (reconciler k) c
      → (now : ℕ) (key : NamespacedName) (s t u : S) (times : List ℕ) → c.get s key ≡ c.stored s key
      → reconcile api (reconciler k) c now key s ≡ (ok tt, t)
      → c.get u key ≡ c.stored t key
      → reconciles api (reconciler k) c key times u ≡ (map (λ _. ok tt) times, u)
  reconcile_settles laws now key s t u [] fresh h caught = refl
  reconcile_settles laws now key s t u (later ∷ times) fresh h caught =
      let once = reconcile_again api (reconciler k) c laws now later key s t u fresh h caught in
      rw (once, reconcile_settles laws now key s t u times fresh h caught) refl

-- The switch of the read model at a condition that a reconciler has set.
status_from-accepted :
    (api : ConditionsApi) (now : ℕ) (cs : List Condition) (c : Condition)
    → c.condition_type ≡ condition_accepted
    → c.status ≡ condition_true
    → status_from_conditions api.find_status_condition (api.set_status_condition now cs c)
      ≡ progressing
unfolding status_from_conditions ◌==◌
status_from-accepted api now cs c kind yes' =
    let (d, f, st, _, _, _) = api.found now cs c in
    let cs' = api.set_status_condition now cs c in
    let f' : api.find_status_condition cs' condition_accepted ≡ some d =
      subst (λ t. api.find_status_condition cs' t ≡ some d) kind f in
    let st' : d.status ≡ condition_true = st ∙ yes' in rw (f', st') refl

default_phase_kept :
    (phase : Str)
    → (is_terminal_phase (default_phase phase) ≡ is_terminal_phase phase)
      × ((default_phase phase == phase_blocked) ≡ (phase == phase_blocked))
unfolding default_phase is_terminal_phase ◌==◌
default_phase_kept [] = (refl, refl)
default_phase_kept (a ∷ phase) = (refl, refl)

matches-default_phase :
    (p : Resources.Promotion) (q : Resources.Promotion) (state : Str)
    → q.status.phase ≡ default_phase p.status.phase
    → promotion_matches_state q state ≡ promotion_matches_state p state
unfolding promotion_matches_state
matches-default_phase p q state e =
    let (t, b) = default_phase_kept p.status.phase in rw (e, t, b) refl

-- The read model shows an application and a target with the status of their reconcilers as
-- progressing, whatever they showed before. A promotion stays in the lists that it was in, also
-- where its phase was empty.
pub accept-status :
    (api : ConditionsApi) (now g : ℕ) (app : Resources.Application)
    (target : Resources.DeploymentTarget) (p : Resources.Promotion) (state : Str)
    → ((application_to_api api.find_status_condition
          (record app { status = accept_application api now g app.status })).status
        ≡ progressing)
      × ((target_to_api api.find_status_condition
            (record target { status = accept_deployment_target api now g target.status })).status
          ≡ progressing)
      × (promotion_matches_state (record p { status = accept_promotion api now g p.status }) state
          ≡ promotion_matches_state p state)
unfolding application_to_api target_to_api
accept-status api now g app target p state = (
  status_from-accepted api now app.status.conditions (application_accepted g) refl refl,
  status_from-accepted api now target.status.conditions (deployment_target_accepted g) refl refl,
  matches-default_phase p (record p { status = accept_promotion api now g p.status }) state refl,
)
