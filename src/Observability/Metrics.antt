-- ===== src/Observability/Metrics.antt =====
-- internal/observability/metrics.go: the two metrics, from their registration on.
use keleustes.Base.{
  ◌≡◌, ℕ, ◌+◌, Bool, true, false, ◌&&◌, if◌then◌else◌, Option, none, some, Str, List, [], ◌∷◌,
}
use keleustes.Base.Int.{ℤ}

-- A `CounterVec` and a `GaugeVec` of prometheus, with what is documented of them: a new one has no
-- counts and no values; a label's counter grows by one, and a label's gauge has the value that was
-- set last, and those of the other labels stay.
pub record Prometheus : Type 1 where
  pub Counters : Type 0
  pub Gauges : Type 0
  pub new_counters : Counters
  pub new_gauges : Gauges
  pub inc : List Str → Counters → Counters
  pub set : List Str → ℤ → Gauges → Gauges
  pub count : List Str → Counters → ℕ
  pub value : List Str → Gauges → Option ℤ
  pub same : List Str → List Str → Bool
  pub count-new : (l : List Str) → count l new_counters ≡ 0
  pub value-new : (l : List Str) → value l new_gauges ≡ none
  pub count-inc :
      (k l : List Str) (c : Counters)
      → count l (inc k c) ≡ (if same k l then count l c + 1 else count l c)
  pub value-set :
      (k l : List Str) (v : ℤ) (g : Gauges)
      → value l (set k v g) ≡ (if same k l then some v else value l g)

module _ (p : Prometheus) where
  -- The package's variables: the once, the two vectors, and how often the registry was given them.
  pub record State : Type 0 where
    pub done : Bool
    pub reconcile_events : Option p.Counters
    pub reconcile_generation : Option p.Gauges
    pub registrations : ℕ

  abbrev pub initial : State
  initial = record {
    done = false;
    reconcile_events = none;
    reconcile_generation = none;
    registrations = 0;
  }

  unfoldable pub register : State → State
  register s = if s.done then s else record {
    done = true;
    reconcile_events = some p.new_counters;
    reconcile_generation = some p.new_gauges;
    registrations = s.registrations + 1;
  }

  unfoldable pub observe_reconcile_event : (engine kind result : Str) → State → State
  observe_reconcile_event engine kind result s = elim s.reconcile_events [
    | none ↦ s
    | some c ↦ record s { reconcile_events = some (p.inc (engine ∷ kind ∷ result ∷ []) c) }
  ]

  unfoldable pub observe_reconcile_generation : (engine kind : Str) → ℤ → State → State
  observe_reconcile_generation engine kind generation s = elim s.reconcile_generation [
    | none ↦ s
    | some g ↦ record s { reconcile_generation = some (p.set (engine ∷ kind ∷ []) generation g) }
  ]

  -- The calls of the package.
  pub data Call : Type 0 where
    registered : Call
    event : (engine kind result : Str) → Call
    generation : (engine kind : Str) → ℤ → Call

  unfoldable pub run : List Call → State → State
  unfolding register observe_reconcile_event observe_reconcile_generation
  run [] s = s
  run (registered ∷ calls) s = run calls (register s)
  run (event engine kind result ∷ calls) s =
      run calls (observe_reconcile_event engine kind result s)
  run (generation engine kind g ∷ calls) s =
      run calls (observe_reconcile_generation engine kind g s)

  -- The events with the labels, after the first registration.
  abbrev pub events_of : List Str → Bool → List Call → ℕ
  events_of l r [] = 0
  events_of l r (registered ∷ calls) = events_of l true calls
  events_of l r (event engine kind result ∷ calls) =
      let later = events_of l r calls in
      if r && p.same (engine ∷ kind ∷ result ∷ []) l then later + 1 else later
  events_of l r (generation engine kind g ∷ calls) = events_of l r calls

  -- The last generation with the labels, after the first registration, else the given one.
  abbrev pub last_of : List Str → Bool → Option ℤ → List Call → Option ℤ
  last_of l r v [] = v
  last_of l r v (registered ∷ calls) = last_of l true v calls
  last_of l r v (event engine kind result ∷ calls) = last_of l r v calls
  last_of l r v (generation engine kind g ∷ calls) =
      last_of l r (if r && p.same (engine ∷ kind ∷ []) l then some g else v) calls

  abbrev pub is_registered : Bool → List Call → Bool
  is_registered r [] = r
  is_registered r (registered ∷ calls) = is_registered true calls
  is_registered r (event engine kind result ∷ calls) = is_registered r calls
  is_registered r (generation engine kind g ∷ calls) = is_registered r calls

  abbrev pub count_of : List Str → Option p.Counters → ℕ
  count_of l none = 0
  count_of l (some c) = p.count l c

  abbrev pub value_of : List Str → Option p.Gauges → Option ℤ
  value_of l none = none
  value_of l (some g) = p.value l g

  abbrev live : p.Counters → p.Gauges → ℕ → State
  live c g n = record {
    done = true;
    reconcile_events = some c;
    reconcile_generation = some g;
    registrations = n;
  }
