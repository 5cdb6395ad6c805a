-- ===== src/Api/Fixtures/Activity.antt =====
-- internal/api/readmodel/fixtures/fixtures.go: the query of the activity log.
use mathlib.Core.List.{Perm}
use keleustes.Base.{
  ◌≡◌, ◌⊎◌, inl, inr, refl, sym, ap, ◌∙◌, ℕ, ◌≤◌, zero, suc, ltb, eqb, Bool, false, not, ◌&&◌,
  Bool-cases, Option, none, some, ◌==◌, contains_str, List, [], ◌∷◌, keep, take, length, ◌++◌,
  sort_by, place, sort_by-perm, sort_by-IsSorted, IsSorted, IsWeakOrder, arith,
}
use keleustes.Base.Int.{ℤ, pos, negsuc}
use keleustes.Base.Result.{Result, ok}
use keleustes.Api.Wire.{AuditEvent}
use keleustes.Api.Port.{ReadError, AuditQuery, AuditPage}
use keleustes.Api.Fixtures.{Fixtures}

abbrev before : ℕ → Option ℕ → Bool
before at none = false
before at (some bound) = ltb at bound

abbrev after : ℕ → Option ℕ → Bool
after at none = false
after at (some bound) = ltb bound at

-- One test of each `if`, whose failure returns false.
unfoldable pub audit_matches : AuditEvent → AuditQuery → Bool
unfolding contains_str
audit_matches e q =
    not (not (q.actor == []) && not (e.actor == q.actor))
    && (not (not (q.verb == []) && not (e.verb == q.verb))
        && (not (not (q.resource == []) && not (contains_str q.resource e.target))
            && (not (before e.at q.from) && not (after e.at q.to))))

-- `items[i].At.After(items[j].At)`.
abbrev pub newer : AuditEvent → AuditEvent → Bool
newer a b = ltb b.at a.at

-- `if q.Limit > 0 && len(items) > q.Limit { items = items[:q.Limit] }`.
abbrev pub limited : ℤ → List AuditEvent → List AuditEvent
limited (pos zero) items = items
limited (pos (suc n)) items = take (suc n) items
limited (negsuc n) items = items

-- `sort.SliceStable` is the insertion sort, which keeps events of one instant in their order.
unfoldable pub query_audit : Fixtures → AuditQuery → Result ReadError AuditPage
unfolding audit_matches sort_by
query_audit f q = ok (record {
  items = limited q.limit (sort_by newer (keep (λ e. audit_matches e q) f.audit));
  next_cursor = [];
})

newer-IsWeakOrder : IsWeakOrder newer
newer-IsWeakOrder = record { asym = λ a b h. ground arith; trans = λ a b c h k. ground arith }

append_nil : (events : List AuditEvent) → events ++ [] ≡ events
append_nil [] = refl
append_nil (e ∷ events) = ap (λ es. e ∷ es) (append_nil events)

-- The events of one instant, in the order in which they stand.
abbrev pub at_instant : ℕ → List AuditEvent → List AuditEvent
at_instant t = keep (λ (e : AuditEvent). eqb e.at t)

place_stable :
    (t : ℕ) (e : AuditEvent) (es : List AuditEvent)
    → at_instant t (place newer e es) ≡ at_instant t (e ∷ es)
unfolding place
place_stable t e [] = refl
place_stable t e (f ∷ es) = elim (Bool-cases (ltb e.at f.at)) [
  | inr n ↦ rw n refl
  | inl l ↦ elim (Bool-cases (eqb f.at t)) [
    | inl y ↦
        let other : eqb e.at t ≡ false = ground arith in
        rw (l, y, other, place_stable t e es, other) refl
    | inr n ↦ rw (l, n, place_stable t e es) refl
  ]
]

sort_stable : (t : ℕ) (es : List AuditEvent) → at_instant t (sort_by newer es) ≡ at_instant t es
unfolding sort_by
sort_stable t [] = refl
sort_stable t (e ∷ es) = elim (Bool-cases (eqb e.at t)) [
  | inl y ↦ place_stable t e (sort_by newer es) ∙ rw (y, sort_stable t es) refl
  | inr n ↦ place_stable t e (sort_by newer es) ∙ rw (n, sort_stable t es) refl
]

-- A length that a positive limit allows.
abbrev pub Within : ℤ → ℕ → Type 0
Within (pos (suc n)) size = size ≤ suc n
Within _ size = Unit

-- The first events of a list: no more than a positive limit, and all if the limit is not reached.
abbrev pub IsPage : ℤ → (events page : List AuditEvent) → Type 0
IsPage limit events page =
    Within limit (length page)
    × ((rest : List AuditEvent) × (events ≡ page ++ rest)
        × ((rest ≡ []) ⊎ ((n : ℕ) × (limit ≡ pos (suc n)) × (length page ≡ suc n))))

take-IsPage :
    (n : ℕ) (events : List AuditEvent)
    → (length (take n events) ≤ n)
      × ((rest : List AuditEvent) × (events ≡ take n events ++ rest)
          × ((rest ≡ []) ⊎ (length (take n events) ≡ n)))
take-IsPage zero events = (omega arith, (events, refl, inr refl))
take-IsPage (suc n) [] = (omega arith, ([], refl, inl refl))
take-IsPage (suc n) (e ∷ events) =
    let (most, (rest, whole, size)) = take-IsPage n events in
    (
      omega arith,
      (rest, ap (λ es. e ∷ es) whole, elim size [ inl z ↦ inl z | inr l ↦ inr (ap suc l) ]),
    )

limited-IsPage : (limit : ℤ) (events : List AuditEvent) → IsPage limit events (limited limit events)
limited-IsPage (pos zero) events = (tt, ([], sym (append_nil events), inl refl))
limited-IsPage (negsuc n) events = (tt, ([], sym (append_nil events), inl refl))
limited-IsPage (pos (suc n)) events =
    let (most, (rest, whole, size)) = take-IsPage (suc n) events in
    (most, (rest, whole, elim size [ inl z ↦ inl z | inr l ↦ inr (n, refl, l) ]))

-- The answer to a query of the activity log is the start of a list, as long as a positive limit
-- lets it be and else the whole: the events of the corpus that match, each as often as it stands
-- there, the newest first, and those of one instant in the order of the corpus.
pub query_audit_exact :
    (f : Fixtures) (q : AuditQuery)
    → (page : AuditPage) × (query_audit f q ≡ ok page)
      × ((events : List AuditEvent) × IsPage q.limit events page.items
          × Perm events (keep (λ e. audit_matches e q) f.audit)
          × IsSorted newer events
          × ((t : ℕ) → at_instant t events ≡ at_instant t (keep (λ e. audit_matches e q) f.audit)))
unfolding query_audit
query_audit_exact f q =
    let matching = keep (λ e. audit_matches e q) f.audit in
    let events = sort_by newer matching in
    (
      record { items = limited q.limit events; next_cursor = [] },
      refl,
      (
        events,
        limited-IsPage q.limit events,
        sort_by-perm newer matching,
        sort_by-IsSorted newer newer-IsWeakOrder matching,
        λ t. sort_stable t matching,
      ),
    )
