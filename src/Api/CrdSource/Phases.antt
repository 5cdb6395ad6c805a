-- ===== src/Api/CrdSource/Phases.antt =====
-- internal/api/readmodel/crdsource/map.go: inbox states and the status of a promotion.
use mathlib.Core.List.{Perm, perm_middle, append_assoc}
use mathlib.Core.List.Perm
use keleustes.Base.{
  ◌++◌, subst, ◌≡◌, refl, ap, ◌↔◌, ◌⊎◌, inl, inr, Bool, true, false, not, ◌&&◌, Str, str, ◌==◌,
  ==_sound, arith, List, [], ◌∷◌, keep, map,
}
use keleustes.Base.Result.{ok, Result-cases, ok-injective}
use keleustes.Api.Resources.{PromotionPhase, phase_blocked, Promotion}
use keleustes.Api.Wire
use keleustes.Api.Wire.{Status, blocked, degraded, failed, healthy, progressing}
use keleustes.Api.CrdSource.Mapping.{
  is_terminal_phase, promotion_status, promotion_matches_state, promotion_to_api,
}
use keleustes.Api.CrdSource.Reads.{Source, listed, list_promotions}

by_state :
    (p : Promotion)
    → (promotion_matches_state p [] ≡ true)
      × (promotion_matches_state p (str "blocked") ≡ (p.status.phase == phase_blocked))
      × (promotion_matches_state p (str "history") ≡ is_terminal_phase p.status.phase)
      × (promotion_matches_state p (str "active")
          ≡ not (is_terminal_phase p.status.phase) && not (p.status.phase == phase_blocked))
unfolding promotion_matches_state ◌==◌
by_state p = (refl, refl, refl, refl)

blocked_not_terminal :
    (phase : PromotionPhase) → (phase == phase_blocked) ≡ true → is_terminal_phase phase ≡ false
unfolding is_terminal_phase ◌==◌
blocked_not_terminal phase h = rw (==_sound phase phase_blocked h)

-- The statuses of a promotion that has ended.
abbrev pub IsEnded : Status → Type 0
IsEnded s = (s ≡ healthy) ⊎ (s ≡ failed) ⊎ (s ≡ degraded)

status_cases :
    (phase : PromotionPhase)
    → ((phase == phase_blocked) ≡ true) × (promotion_status phase ≡ blocked)
      ⊎ ((phase == phase_blocked) ≡ false)
        × (is_terminal_phase phase ≡ true)
        × IsEnded (promotion_status phase)
      ⊎ ((phase == phase_blocked) ≡ false)
        × (is_terminal_phase phase ≡ false)
        × (promotion_status phase ≡ progressing)
unfolding is_terminal_phase promotion_status
status_cases phase = ground arith

-- The inbox shows a promotion as blocked, in the history, or as active exactly if its wire status
-- is Blocked, is Healthy, Failed or Degraded, or is Progressing.
pub state_iff_status :
    (p : Promotion)
    → ((promotion_matches_state p (str "blocked") ≡ true)
        ↔ (promotion_status p.status.phase ≡ blocked))
      × ((promotion_matches_state p (str "history") ≡ true)
          ↔ IsEnded (promotion_status p.status.phase))
      × ((promotion_matches_state p (str "active") ≡ true)
          ↔ (promotion_status p.status.phase ≡ progressing))
state_iff_status p =
    let (_, b, h, a) = by_state p in
    let t = blocked_not_terminal p.status.phase in
    rw (b, h, a) (grind (arith, status_cases p.status.phase, t))

one_state :
    (p : Promotion)
    → (promotion_matches_state p (str "blocked") ≡ true)
        × (promotion_matches_state p (str "history") ≡ false)
        × (promotion_matches_state p (str "active") ≡ false)
      ⊎ (promotion_matches_state p (str "blocked") ≡ false)
        × (promotion_matches_state p (str "history") ≡ true)
        × (promotion_matches_state p (str "active") ≡ false)
      ⊎ (promotion_matches_state p (str "blocked") ≡ false)
        × (promotion_matches_state p (str "history") ≡ false)
        × (promotion_matches_state p (str "active") ≡ true)
one_state p =
    let (_, b, h, a) = by_state p in
    let t = blocked_not_terminal p.status.phase in rw (b, h, a) (ground arith)

abbrev in_state : Str → Promotion → Bool
in_state state p = promotion_matches_state p state

keep_all : (ps : List Promotion) → keep (in_state []) ps ≡ ps
keep_all [] = refl
keep_all (p ∷ ps) = rw ((by_state p).0) (ap (λ qs. p ∷ qs) (keep_all ps))

last_part :
    {A : Type 0} (a : A) (xs ys zs : List A)
    → Perm (xs ++ (ys ++ (a ∷ zs))) (a ∷ (xs ++ (ys ++ zs)))
last_part a xs ys zs =
    subst (λ l. Perm l (a ∷ (xs ++ (ys ++ zs)))) (append_assoc xs ys (a ∷ zs))
      (subst (λ l. Perm ((xs ++ ys) ++ (a ∷ zs)) (a ∷ l)) (append_assoc xs ys zs)
        (perm_middle (xs ++ ys) zs))

-- The promotions of an inbox list, as the answer shows them.
abbrev shown : Str → List Promotion → List Wire.Promotion
shown state ps = map promotion_to_api (keep (in_state state) ps)

shown_parts :
    (ps : List Promotion)
    → Perm
        (shown (str "blocked") ps ++ (shown (str "history") ps ++ shown (str "active") ps))
        (map promotion_to_api ps)
shown_parts [] = Perm.refl _
shown_parts (p ∷ ps) = elim (one_state p) [
  | inl (b, h, a) ↦ rw (b, h, a) (Perm.cons (promotion_to_api p) (shown_parts ps))
  | inr (inl (b, h, a)) ↦
      rw (b, h, a)
        (Perm.trans
          (perm_middle (shown (str "blocked") ps)
            (shown (str "history") ps ++ shown (str "active") ps))
          (Perm.cons (promotion_to_api p) (shown_parts ps)))
  | inr (inr (b, h, a)) ↦
      rw (b, h, a)
        (Perm.trans
          (last_part (promotion_to_api p) (shown (str "blocked") ps) (shown (str "history") ps)
            (shown (str "active") ps))
          (Perm.cons (promotion_to_api p) (shown_parts ps)))
]

-- The inbox lists are a partition: if the unfiltered list is returned, so are the three others, and
-- together they are a permutation of it.
pub list_promotions_partition :
    (s : Source) (all : List Wire.Promotion)
    → list_promotions s [] ≡ ok all
    → (active stopped history : List Wire.Promotion) × (list_promotions s (str "active")
        ≡ ok active)
      × (list_promotions s (str "blocked") ≡ ok stopped)
      × (list_promotions s (str "history") ≡ ok history)
      × Perm (stopped ++ (history ++ active)) all
unfolding list_promotions
list_promotions_partition s all h = elim (Result-cases (listed s s.promotions)) [
  | inr (e, failed') ↦ cc (rw failed' at h)
  | inl (ps, found) ↦
      let q : map promotion_to_api (keep (in_state []) ps) ≡ all = ok-injective (rw found at h) in
      (
        map promotion_to_api (keep (in_state (str "active")) ps),
        map promotion_to_api (keep (in_state (str "blocked")) ps),
        map promotion_to_api (keep (in_state (str "history")) ps),
        rw found,
        rw found,
        rw found,
        rw (← q, keep_all ps) (shown_parts ps),
      )
]
