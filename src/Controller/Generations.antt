-- ===== src/Controller/Generations.antt =====
-- internal/controller: the reconcilers beside the other writers of a cluster, about what the API
-- server holds. A reconcile is one step, from the read of the cache to its write: where the cache is
-- behind, or another write came between, the write returns the conflict.
use keleustes.Base.{
  ◌≡◌, ◌⊎◌, inl, inr, subst, ℕ, ◌≤◌, Str, arith, Bool, if◌then◌else◌, true, false, ap,
}
use keleustes.Base.Result.{Result, ok, err, Result-cases}
use keleustes.Controller.Runtime.{ConditionsApi, Reconciler, NamespacedName, Client, reconcile}
use keleustes.Controller.Kinds.{Kind, reconciler}
use keleustes.Controller.Settled.{IsClient, reconcile_read, reconcile_unread}

module _ (r : Reconciler) {S : Type 0} (c : Client r S) where
  -- After a write of the status of an object, failed or not, what is stored under a key was stored
  -- there before, or is the object that was written.
  abbrev pub IsAtomic : Type 0
  IsAtomic =
      (s : S) (o o' : r.Obj) (key : NamespacedName)
      → c.stored (c.update_status s o).1 key ≡ ok o'
      → (c.stored s key ≡ ok o') ⊎ (o' ≡ o)

  -- What the others write, or the cache takes over: an object that is stored is new, and has observed
  -- no generation yet, or its status has not observed a later generation than it had, and its
  -- generation has not gone back. Others may disappear, and what the cache holds may change at will.
  abbrev pub IsApiWrite : S → S → Type 0
  IsApiWrite s t =
      (key : NamespacedName) (o : r.Obj)
      → c.stored t key ≡ ok o
      → (r.observed (r.status o) ≡ 0)
        ⊎ ((old : r.Obj) × (c.stored s key ≡ ok old)
            × (r.observed (r.status o) ≤ r.observed (r.status old))
            × ((r.meta old).generation ≤ (r.meta o).generation))

  -- No stored status is ahead of its object.
  abbrev pub IsBehind : S → Type 0
  IsBehind s =
      (key : NamespacedName) (o : r.Obj)
      → c.stored s key ≡ ok o
      → r.observed (r.status o) ≤ (r.meta o).generation

  -- The states that are reached from a state.
  pub data Reaches (api : ConditionsApi) (s : S) : S → Type 0 where
    start : Reaches api s s
    reconciled :
        (now : ℕ) (key : NamespacedName) {t : S}
        → Reaches api s t
        → Reaches api s (reconcile api r c now key t).1
    written : {t u : S} → Reaches api s t → IsApiWrite t u → Reaches api s u

module _ (api : ConditionsApi) (r : Reconciler) {S : Type 0} (c : Client r S) where
  unread_state :
      (s : S) (e : Str) (p : Result Str (Unit {0}) × S) (b : Bool)
      → p ≡ (if b then (ok tt, s) else (err e, s))
      → p.1 ≡ s
  unread_state s e p true h = ap (λ q. q.1) h
  unread_state s e p false h = ap (λ q. q.1) h

  reconcile-IsBehind :
      IsClient r c
      → IsAtomic r c
      → (now : ℕ) (key : NamespacedName) (s : S) → IsBehind r c s
      → IsBehind r c (reconcile api r c now key s).1
  reconcile-IsBehind laws atomic now key s h k o' g = elim (Result-cases (c.get s key)) [
    | inl (o, q) ↦
        let st = r.accept api now (r.meta o).generation (r.status o) in
        elim (reconcile_read api r c laws now key s o q) [
          | inl (e, _) ↦ h k o' (subst (λ p. c.stored p.1 k ≡ ok o') e g)
          | inr e ↦
              elim (atomic s (r.with_status o st) o' k (subst (λ p. c.stored p.1 k ≡ ok o') e g)) [
                | inl old ↦ h k o' old
                | inr new ↦
                    rw
                      (
                        new,
                        r.status-with_status o st,
                        r.observed-accept api now (r.meta o).generation (r.status o),
                        r.meta-with_status o st,
                      )
                      (omega arith)
              ]
        ]
    | inr (e, q) ↦
        let f = reconcile_unread api r c laws now key s e q in
        let same : (reconcile api r c now key s).1 ≡ s = unread_state s e _ (c.is_not_found e) f in
        h k o' (subst (λ t. c.stored t k ≡ ok o') same g)
  ]

module _ (api : ConditionsApi) (k : Kind) {S : Type 0} (c : Client (reconciler k) S) where
  -- For the reconciler of every kind: from a state in which no stored status has observed a
  -- generation that is ahead of its object's, no sequence of reconciles of any objects, each of
  -- whatever the cache holds, and of the writes of others reaches one where a status has. Those writes
  -- do not take generations back, do not raise the generation that a status has observed, and give
  -- no observed generation to what they create.
  pub Reaches-IsBehind :
      IsClient (reconciler k) c
      → IsAtomic (reconciler k) c
      → (s t : S) → IsBehind (reconciler k) c s
      → Reaches (reconciler k) c api s t
      → IsBehind (reconciler k) c t
  Reaches-IsBehind laws atomic s t h start = h
  Reaches-IsBehind laws atomic s _ h (reconciled now key {t} path) =
      reconcile-IsBehind api (reconciler k) c laws atomic now key t
        (Reaches-IsBehind laws atomic s t h path)
  Reaches-IsBehind laws atomic s u h (written {t} path w) = λ key o g. elim (w key o g) [
    | inl new ↦ rw new (omega arith)
    | inr (old, q, e, le) ↦
        let before = Reaches-IsBehind laws atomic s t h path key old q in omega arith
  ]
