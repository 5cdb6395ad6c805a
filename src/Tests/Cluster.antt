-- ===== src/Tests/Cluster.antt =====
-- A cluster of one promotion behind a cache, with conditions as k8s.io/apimachinery sets them.
use native.Mathlib.Decide.{ℕ_discrete}
use keleustes.Base.{
  ◌≡◌, ◌↔◌, refl, sym, Bool, Bool-cases, true, false, if◌then◌else◌, inl, inr, ℕ, eqb, ◌&&◌, Str,
  str, ◌==◌, ==_refl, some, List, [], ◌∷◌,
}
use keleustes.Base.Result.{Result, ok, err, ok-injective, err_ne_ok}
use keleustes.Api.Resources.{Condition, Promotion, PromotionStatus}
use keleustes.Controller.Runtime.{ConditionsApi, Client, NamespacedName}
use keleustes.Controller.Kinds.{promotion_reconciler}
use keleustes.Controller.Settled.{IsClient}
use keleustes.Controller.Generations.{IsAtomic}
use keleustes.Tests.Fleet.{find_condition}

-- `SetStatusCondition`: the time changes with the status only.
abbrev pub set_condition : ℕ → List Condition → Condition → List Condition
set_condition now [] c = record c { last_transition_time = now } ∷ []
set_condition now (d ∷ ds) c =
    if d.condition_type == c.condition_type
    then record c {
      last_transition_time = if d.status == c.status then d.last_transition_time else now;
    }
      ∷ ds
    else d ∷ set_condition now ds c

pub find_set :
    (now : ℕ) (cs : List Condition) (c : Condition)
    → (d : Condition) × (find_condition (set_condition now cs c) c.condition_type ≡ some d)
      × (d.status ≡ c.status)
      × (d.observed_generation ≡ c.observed_generation)
      × (d.reason ≡ c.reason)
      × (d.message ≡ c.message)
find_set now [] c = rw (==_refl c.condition_type) (_, refl, refl, refl, refl, refl)
find_set now (d ∷ ds) c = elim (Bool-cases (d.condition_type == c.condition_type)) [
  | inl e ↦ rw (e, ==_refl c.condition_type) (_, refl, refl, refl, refl, refl)
  | inr e ↦ rw (e, e) (find_set now ds c)
]

pub set_again :
    (now later : ℕ) (cs : List Condition) (c : Condition)
    → set_condition later (set_condition now cs c) c ≡ set_condition now cs c
set_again now later [] c = rw (==_refl c.condition_type, ==_refl c.status) refl
set_again now later (d ∷ ds) c = elim (Bool-cases (d.condition_type == c.condition_type)) [
  | inl e ↦ rw (e, ==_refl c.condition_type, ==_refl c.status) refl
  | inr e ↦ rw (e, e, set_again now later ds c) refl
]

abbrev pub conditions_api : ConditionsApi
conditions_api = record {
  set_status_condition = set_condition;
  find_status_condition = find_condition;
  found = find_set;
  settled = set_again;
}

unfoldable pub Condition-discrete : Discrete Condition
Condition-discrete = hlevel (ℕ_discrete)

unfoldable pub PromotionStatus-discrete : Discrete PromotionStatus
PromotionStatus-discrete = hlevel (ℕ_discrete, Condition-discrete)

abbrev pub decided : {A : Type 0} → Dec A → Bool
decided (yes a) = true
decided (no n) = false

decided_iff : {A : Type 0} (d : Dec A) → (decided d ≡ true) ↔ A
decided_iff (yes a) = (λ _. a, λ _. refl)
decided_iff (no n) = (λ h. cc, λ a. absurd (n a))

-- The promotion in the cache, and the one that is stored.
abbrev pub Copies : Type 0
Copies = Promotion × Promotion

abbrev pub copy_at : Promotion → NamespacedName → Result Str Promotion
copy_at s key = if s.meta.name == key.name then ok s else err (str "not found")

-- An object of the stored generation can be written.
abbrev is_current : Promotion → Promotion → Bool
is_current o s = o.meta.name == s.meta.name && eqb o.meta.generation s.meta.generation

abbrev pub one_promotion : Client promotion_reconciler Copies
one_promotion = record {
  get = λ s key. copy_at s.0 key;
  stored = λ s key. copy_at s.1 key;
  update_status = λ s o. if is_current o s.1 then (ok tt, (s.0, o)) else (err (str "conflict"), s);
  is_not_found = λ e. e == str "not found";
  deep_equal = λ a b. decided (PromotionStatus-discrete a b);
}

pub read_one :
    (s o : Promotion) (key : NamespacedName)
    → copy_at s key ≡ ok o
    → (s ≡ o) × ((s.meta.name == key.name) ≡ true)
read_one s o key h = elim (Bool-cases (s.meta.name == key.name)) [
  | inl e ↦ (let h' = rw e at h in ok-injective h', e)
  | inr e ↦ absurd (err_ne_ok (let h' = rw e at h in h'))
]

written_one :
    (s t : Copies) (key : NamespacedName) (o : Promotion) (st : PromotionStatus)
    → one_promotion.get s key ≡ ok o
    → one_promotion.update_status s (record o { status = st }) ≡ (ok tt, t)
    → one_promotion.stored t key ≡ ok (record o { status = st })
written_one s t key o st h u = elim (Bool-cases (is_current o s.1)) [
  | inl n ↦
      let (same, e) = read_one s.0 o key h in
      let new : record o { status = st } ≡ t.1 = let u' = rw n at u in cc in
      let e' : (o.meta.name == key.name) ≡ true = rw same at e in rw (← new, e') refl
  | inr n ↦ let u' = rw n at u in cc
]

pub one_promotion-IsClient : IsClient promotion_reconciler one_promotion
one_promotion-IsClient = record {
  equal_iff = λ a b. decided_iff (PromotionStatus-discrete a b);
  written = written_one;
}

pub one_promotion-IsAtomic : IsAtomic promotion_reconciler one_promotion
one_promotion-IsAtomic s o o' key h = elim (Bool-cases (is_current o s.1)) [
  | inl e ↦ let h' = rw e at h in inr (sym (read_one o o' key h').0)
  | inr e ↦ let h' = rw e at h in inl h'
]
