-- ===== src/Controller/Settled.antt =====
-- internal/controller: what a reconcile leaves behind, and that the reconciles after it leave it.
use keleustes.Base.{
  ◌≡◌, ◌⊎◌, ◌↔◌, inl, inr, refl, sym, ap, ◌∙◌, Bool-cases, true, if◌then◌else◌, ℕ, Str, some, List,
}
use keleustes.Base.Result.{ok, err, Result-cases}
use keleustes.Api.Resources.{Condition}
use keleustes.Controller.Runtime.{ConditionsApi, Reconciler, NamespacedName, Client, reconcile}

-- What the reconcilers rely on of a client: `DeepEqual` tells equal statuses, and where the write of
-- the status of an object that was read returns no error, the API server then holds that status, with
-- the rest of the object as it was read: an object that is behind the stored one is a conflict.
pub record IsClient (r : Reconciler) {S : Type 0} (c : Client r S) : Type 0 where
  pub equal_iff : (a b : r.Status) → (c.deep_equal a b ≡ true) ↔ (a ≡ b)
  pub written :
      (s t : S) (key : NamespacedName) (o : r.Obj) (st : r.Status)
      → c.get s key ≡ ok o
      → c.update_status s (r.with_status o st) ≡ (ok tt, t)
      → c.stored t key ≡ ok (r.with_status o st)

-- The conditions show the condition, but for the time.
abbrev pub Shows : ConditionsApi → List Condition → Condition → Type 0
Shows api cs c =
    (d : Condition) × (api.find_status_condition cs c.condition_type ≡ some d)
    × (d.status ≡ c.status)
    × (d.observed_generation ≡ c.observed_generation)
    × (d.reason ≡ c.reason)
    × (d.message ≡ c.message)

-- The object has a status of its own generation, with the condition of its acceptance.
abbrev pub IsAccepted : (api : ConditionsApi) (r : Reconciler) → r.Obj → Type 0
IsAccepted api r o =
    (r.observed (r.status o) ≡ (r.meta o).generation)
    × Shows api (r.conditions (r.status o)) (r.accepted (r.meta o).generation)

module _ (api : ConditionsApi) (r : Reconciler) where
  accept-IsAccepted :
      (now : ℕ) (o : r.Obj) (st : r.Status)
      → r.status o ≡ r.accept api now (r.meta o).generation st
      → IsAccepted api r o
  accept-IsAccepted now o st e =
      let g = (r.meta o).generation in
      rw (e, r.observed-accept api now g st, r.conditions-accept api now g st)
        (refl, api.found now (r.conditions st) (r.accepted g))

  module _ {S : Type 0} (c : Client r S) (laws : IsClient r c) where
    -- An object that is read has the status that it would get, or gets it written.
    pub reconcile_read :
        (now : ℕ) (key : NamespacedName) (s : S) (o : r.Obj)
        → c.get s key ≡ ok o
        → let after = r.accept api now (r.meta o).generation (r.status o) in
          ((reconcile api r c now key s ≡ (ok tt, s)) × (r.status o ≡ after))
          ⊎ (reconcile api r c now key s ≡ c.update_status s (r.with_status o after))
    unfolding reconcile
    reconcile_read now key s o h =
        let after = r.accept api now (r.meta o).generation (r.status o) in
        elim (Bool-cases (c.deep_equal (r.status o) after)) [
          | inl e ↦ inl (rw (h, e) (refl, (laws.equal_iff _ _).0 e))
          | inr e ↦ inr (rw (h, e) refl)
        ]

    -- Without the object nothing is written.
    pub reconcile_unread :
        (now : ℕ) (key : NamespacedName) (s : S) (e : Str)
        → c.get s key ≡ err e
        → reconcile api r c now key s ≡ (if c.is_not_found e then (ok tt, s) else (err e, s))
    unfolding reconcile
    reconcile_unread now key s e h = rw h refl

    -- A reconcile of a status that has settled does nothing.
    reconcile_fixed :
        (now : ℕ) (key : NamespacedName) (s : S) (o : r.Obj)
        → c.get s key ≡ ok o
        → r.status o ≡ r.accept api now (r.meta o).generation (r.status o)
        → reconcile api r c now key s ≡ (ok tt, s)
    unfolding reconcile
    reconcile_fixed now key s o h e = rw (h, (laws.equal_iff _ _).1 e) refl

    -- What was accepted once is accepted at any time.
    accept_later :
        (now later : ℕ) (o : r.Obj) (st : r.Status)
        → r.status o ≡ r.accept api now (r.meta o).generation st
        → r.status o ≡ r.accept api later (r.meta o).generation (r.status o)
    accept_later now later o st e =
        e
        ∙ sym (r.accept_settled api now later _ st)
        ∙ ap (r.accept api later (r.meta o).generation) (sym e)

    -- Where the object is read: the reconcile finds it accepted and does nothing, or leaves it stored
    -- as accepted, or fails as its write did.
    pub reconcile-IsAccepted :
        (now : ℕ) (key : NamespacedName) (s : S) (o : r.Obj)
        → c.get s key ≡ ok o
        → ((reconcile api r c now key s ≡ (ok tt, s)) × IsAccepted api r o)
          ⊎ (((t : S) × (o' : r.Obj) × (reconcile api r c now key s ≡ (ok tt, t))
                × (c.stored t key ≡ ok o')
                × (r.meta o' ≡ r.meta o)
                × IsAccepted api r o')
              ⊎ ((t : S) × (e : Str) × (reconcile api r c now key s ≡ (err e, t))
                  × (c.update_status s
                        (r.with_status o (r.accept api now (r.meta o).generation (r.status o)))
                      ≡ (err e, t))))
    reconcile-IsAccepted now key s o h =
        let after = r.accept api now (r.meta o).generation (r.status o) in
        let o' = r.with_status o after in
        elim (reconcile_read now key s o h) [
          | inl (q, e) ↦ inl (q, accept-IsAccepted now o _ e)
          | inr q ↦ elim (Result-cases (c.update_status s o').0) [
            | inl (u, w) ↦
                let t = (c.update_status s o').1 in
                let p : c.update_status s o' ≡ (ok tt, t) = ap (λ a. (a, t)) w in
                inr (
                  inl (
                    t,
                    o',
                    q ∙ p,
                    laws.written s t key o after h p,
                    r.meta-with_status o after,
                    accept-IsAccepted now o' (r.status o)
                        (rw (r.status-with_status o after, r.meta-with_status o after) refl),
                  ))
            | inr (e, w) ↦
                let t = (c.update_status s o').1 in
                let p : c.update_status s o' ≡ (err e, t) = ap (λ a. (a, t)) w in
                inr (inr (t, e, q ∙ p, p))
          ]
        ]

    -- A reconcile of the stored object that returned no error leaves one with which every later
    -- reconcile does nothing, once it is read.
    pub reconcile_again :
        (now later : ℕ) (key : NamespacedName) (s t u : S)
        → c.get s key ≡ c.stored s key
        → reconcile api r c now key s ≡ (ok tt, t)
        → c.get u key ≡ c.stored t key
        → reconcile api r c later key u ≡ (ok tt, u)
    reconcile_again now later key s t u fresh h caught = elim (Result-cases (c.get s key)) [
      | inl (o, g) ↦ elim (reconcile_read now key s o g) [
        | inl (q, e) ↦
            let same : s ≡ t = cc in
            let g' : c.get u key ≡ ok o =
              caught ∙ ap (λ x. c.stored x key) (sym same) ∙ sym fresh ∙ g in
            reconcile_fixed later key u o g' (accept_later now later o _ e)
        | inr q ↦
            let after = r.accept api now (r.meta o).generation (r.status o) in
            let o' = r.with_status o after in
            let g' = caught ∙ laws.written s t key o after g (sym q ∙ h) in
            reconcile_fixed later key u o' g' (
              accept_later now later o' (r.status o)
                (rw (r.status-with_status o after, r.meta-with_status o after) refl))
      ]
      | inr (e, g) ↦
          let q : (if c.is_not_found e then (ok tt, s) else (err e, s)) ≡ (ok tt, t) =
            sym (reconcile_unread now key s e g) ∙ h in
          elim (Bool-cases (c.is_not_found e)) [
            | inl n ↦
                let same : s ≡ t = let q' = rw n at q in cc in
                let g' : c.get u key ≡ err e =
                  caught ∙ ap (λ x. c.stored x key) (sym same) ∙ sym fresh ∙ g in
                rw (reconcile_unread later key u e g', n) refl
            | inr n ↦ let q' = rw n at q in cc
          ]
    ]
