-- ===== src/Controller/Runtime.antt =====
-- What the reconcilers take from other repositories, as parameters, and the body of `Reconcile`
-- that the files of internal/controller share. A `ctrl.Result` is always the empty one, so a
-- reconcile returns an error or none.
use keleustes.Base.{◌≡◌, Bool, if◌then◌else◌, ℕ, Str, List, some}
use keleustes.Base.Result.{Result, ok, err}
use keleustes.Api.Resources.{ObjectMeta, Condition}
use keleustes.Api.CrdSource.Mapping.{Finder}

-- k8s.io/apimachinery/pkg/api/meta: `set_status_condition` at the time of the call, and
-- `find_status_condition`. The laws are documented ones: a condition that was set is found with the
-- fields that it was set to, and one that is set again, at any time, changes nothing.
pub record ConditionsApi : Type 0 where
  pub set_status_condition : ℕ → List Condition → Condition → List Condition
  pub find_status_condition : Finder
  pub found :
      (now : ℕ) (cs : List Condition) (c : Condition)
      → (d : Condition) × (find_status_condition (set_status_condition now cs c) c.condition_type
          ≡ some d)
        × (d.status ≡ c.status)
        × (d.observed_generation ≡ c.observed_generation)
        × (d.reason ≡ c.reason)
        × (d.message ≡ c.message)
  pub settled :
      (now later : ℕ) (cs : List Condition) (c : Condition)
      → set_status_condition later (set_status_condition now cs c) c ≡ set_status_condition now cs c

-- A custom resource, the view of its status, and what its reconciler makes of the status at a
-- generation, with what each of them satisfies.
pub record Reconciler : Type 1 where
  pub Obj : Type 0
  pub Status : Type 0
  pub controller : Str
  pub meta : Obj → ObjectMeta
  pub status : Obj → Status
  pub with_status : Obj → Status → Obj
  pub observed : Status → ℕ
  pub conditions : Status → List Condition
  pub accept : ConditionsApi → ℕ → ℕ → Status → Status
  pub accepted : ℕ → Condition
  pub meta-with_status : (o : Obj) (st : Status) → meta (with_status o st) ≡ meta o
  pub status-with_status : (o : Obj) (st : Status) → status (with_status o st) ≡ st
  pub observed-accept :
      (api : ConditionsApi) (now g : ℕ) (st : Status) → observed (accept api now g st) ≡ g
  pub conditions-accept :
      (api : ConditionsApi) (now g : ℕ) (st : Status)
      → conditions (accept api now g st) ≡ api.set_status_condition now (conditions st) (accepted g)
  pub accept_settled :
      (api : ConditionsApi) (now later g : ℕ) (st : Status)
      → accept api later g (accept api now g st) ≡ accept api now g st

pub record NamespacedName : Type 0 where
  pub namespace : Str
  pub name : Str

-- The client of the manager on a cluster in a state of `S`, `IsNotFound` of apierrors, and
-- `equality.Semantic.DeepEqual` of two statuses. `get` reads the manager's cache, which may be behind;
-- a write goes to the API server, and `stored` is what that holds, which no code reads.
pub record Client (r : Reconciler) (S : Type 0) : Type 0 where
  pub get : S → NamespacedName → Result Str r.Obj
  pub stored : S → NamespacedName → Result Str r.Obj
  pub update_status : S → r.Obj → Result Str (Unit {0}) × S
  pub is_not_found : Str → Bool
  pub deep_equal : r.Status → r.Status → Bool

module _ (api : ConditionsApi) (r : Reconciler) {S : Type 0} (c : Client r S) where
  -- `Reconcile` after its `r.Get`.
  abbrev pub reconcile_got : ℕ → S → Result Str r.Obj → Result Str (Unit {0}) × S
  reconcile_got now s (err e) = if c.is_not_found e then (ok tt, s) else (err e, s)
  reconcile_got now s (ok o) =
      let after = r.accept api now (r.meta o).generation (r.status o) in
      if c.deep_equal (r.status o) after
      then (ok tt, s)
      else c.update_status s (r.with_status o after)

  unfoldable pub reconcile : ℕ → NamespacedName → S → Result Str (Unit {0}) × S
  reconcile now key s = reconcile_got now s (c.get s key)
