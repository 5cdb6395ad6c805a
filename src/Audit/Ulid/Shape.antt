-- ===== src/Audit/Ulid/Shape.antt =====
-- internal/audit/ulid.go: the shape that `validULID` checks.
use keleustes.Base.{
  ℕ, ◌≢◌, ◌+◌, ◌<◌, List, [], ◌∷◌, ◌++◌, map, none, some, Option, ◌≡◌, refl, All, length, Str,
}
use keleustes.Audit.Ulid.{
  Entropy, crockford, time_digits, entropy_digits, entropy_hi, entropy_lo, encode_ulid,
  zero_entropy, new_event_id, check_chars, valid_ulid,
}
use keleustes.Audit.Ulid.Digits.{crockford_known, time_digits-All, entropy_digits-All}

check_chars-map :
    (i : ℕ) (ds : List ℕ) → All (λ d. d < 32) ds → check_chars i (map crockford ds) ≡ none
unfolding check_chars
check_chars-map i [] h = refl
check_chars-map i (d ∷ ds) h = rw (crockford_known d h.0) (check_chars-map (i + 1) ds h.1)

check_chars-append :
    (i : ℕ) (ds : List ℕ) (rest : Str)
    → All (λ d. d < 32) ds
    → ((j : ℕ) → check_chars j rest ≡ none)
    → check_chars i (map crockford ds ++ rest) ≡ none
unfolding check_chars
check_chars-append i [] rest h k = k i
check_chars-append i (d ∷ ds) rest h k =
    rw (crockford_known d h.0) (check_chars-append (i + 1) ds rest h.1 k)

check_chars-encode_ulid : (ms : ℕ) (e : Entropy) → check_chars 0 (encode_ulid ms e) ≡ none
unfolding encode_ulid
check_chars-encode_ulid ms e = check_chars-append 0 (time_digits ms) _ (time_digits-All ms) λ j.
    check_chars-map j (entropy_digits (entropy_hi e) (entropy_lo e))
      (entropy_digits-All (entropy_hi e) (entropy_lo e))

length-encode_ulid : (ms : ℕ) (e : Entropy) → length (encode_ulid ms e) ≡ 26
unfolding encode_ulid
length-encode_ulid ms e = refl

-- An encoded id passes `validULID`, whatever the clock and the entropy were.
pub valid_ulid-encode_ulid : (ms : ℕ) (e : Entropy) → valid_ulid (encode_ulid ms e) ≡ none
unfolding valid_ulid
valid_ulid-encode_ulid ms e = rw (length-encode_ulid ms e) (check_chars-encode_ulid ms e)

-- A minted event id passes `validULID`, whatever the clock read, also where the source of entropy
-- failed.
pub valid_ulid-new_event_id : (ms : ℕ) (r : Option Entropy) → valid_ulid (new_event_id ms r) ≡ none
unfolding new_event_id
valid_ulid-new_event_id ms (some e) = valid_ulid-encode_ulid ms e
valid_ulid-new_event_id ms none = valid_ulid-encode_ulid ms zero_entropy

pub new_event_id-ne-nil : (ms : ℕ) (r : Option Entropy) → new_event_id ms r ≢ []
unfolding new_event_id encode_ulid
new_event_id-ne-nil ms (some e) h = cc
new_event_id-ne-nil ms none h = cc
