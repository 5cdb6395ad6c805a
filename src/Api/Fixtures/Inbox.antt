-- ===== src/Api/Fixtures/Inbox.antt =====
-- internal/api/readmodel: the inbox states of the two backends, on one promotion.
use keleustes.Base.{◌≡◌, ◌≢◌, ◌↔◌, not, inl, inr, ◌⊎◌, true, str, ◌==◌, arith}
use keleustes.Api.Resources.{Promotion, PromotionPhase}
use keleustes.Api.Wire.{Status, degraded, blocked, healthy, failed, progressing}
use keleustes.Api.CrdSource.Mapping.{promotion_to_api, promotion_status, promotion_matches_state}
use keleustes.Api.CrdSource.Phases.{IsEnded, state_iff_status}
use keleustes.Api.Fixtures.{promotion_in_state, is_blocked, is_terminal_promotion}

-- The statuses that a promotion gets.
abbrev IsPromotionStatus : Status → Type 0
IsPromotionStatus s =
    (s ≡ blocked) ⊎ (s ≡ healthy) ⊎ (s ≡ failed) ⊎ (s ≡ degraded) ⊎ (s ≡ progressing)

status_range : (phase : PromotionPhase) → IsPromotionStatus (promotion_status phase)
unfolding promotion_status
status_range phase = ground arith

-- The tests of the backend against the three views of a status.
tests_of_status :
    (s : Status)
    → IsPromotionStatus s
    → ((is_blocked s ≡ true) ↔ (s ≡ blocked))
      × ((is_terminal_promotion s ≡ true) ↔ (IsEnded s × (s ≢ degraded)))
      × ((not (is_terminal_promotion s) ≡ true)
          ↔ ((s ≡ progressing) ⊎ (s ≡ blocked) ⊎ (s ≡ degraded)))
unfolding is_terminal_promotion
tests_of_status s (inl e) = rw e (grind arith)
tests_of_status s (inr (inl e)) = rw e (grind arith)
tests_of_status s (inr (inr (inl e))) = rw e (grind arith)
tests_of_status s (inr (inr (inr (inl e)))) = rw e (grind arith)
tests_of_status s (inr (inr (inr (inr e)))) = rw e (grind arith)

-- On the wire form of a custom resource, the fixtures backend and the custom resource backend
-- agree on the blocked list; the fixtures' history leaves out the promotions with status Degraded,
-- and its active list shows those and what is blocked besides.
pub promotion_in_state_iff :
    (p : Promotion)
    → ((promotion_in_state (promotion_to_api p) (str "blocked") ≡ true)
        ↔ (promotion_matches_state p (str "blocked") ≡ true))
      × ((promotion_in_state (promotion_to_api p) (str "history") ≡ true) ↔ (
          (promotion_matches_state p (str "history") ≡ true)
          × (promotion_status p.status.phase ≢ degraded)))
      × ((promotion_in_state (promotion_to_api p) (str "active") ≡ true) ↔ (
          (promotion_matches_state p (str "active") ≡ true)
          ⊎ (promotion_matches_state p (str "blocked") ≡ true)
          ⊎ (promotion_status p.status.phase ≡ degraded)))
unfolding promotion_in_state promotion_to_api is_terminal_promotion ◌==◌
promotion_in_state_iff p =
    let (b, h, a) = state_iff_status p in
    let (tb, th, ta) =
      tests_of_status (promotion_status p.status.phase) (status_range p.status.phase) in
    grind arith
