-- ===== src/Audit/Ulid/Digits.antt =====
-- Facts about the digits of an id: each is below 32, and the alphabet is strictly increasing.
use keleustes.Base.{
  ℕ, zero, suc, ◌+◌, ◌<◌, List, [], ◌∷◌, ◌&&◌, Bool, true, ◌≡◌, refl, arith, any, ltb, eqb, All,
  Str, if◌then◌else◌, ◌-◌, ◌*◌, ◌^◌, length,
}
use keleustes.Audit.Ulid.{crockford_alphabet, crockford, time_digits, entropy_digits}

-- A test of every index below a bound, to check the alphabet as a whole.
module _ (test : ℕ → Bool) where
  holds_to : (bound : ℕ) → Bool
  holds_to zero = true
  holds_to (suc last) = holds_to last && test last

  test_at : (v bound : ℕ) → v < bound → holds_to bound ≡ true → test v ≡ true
  unfolding holds_to
  test_at v zero below all_hold = absurd (omega arith)
  test_at v (suc last) below all_hold = ground (arith, test_at v last)

known_table : holds_to (λ v. any (λ a. eqb (crockford v) a) crockford_alphabet) 32 ≡ true
unfolding holds_to crockford
known_table = refl

pub crockford_known : (v : ℕ) → v < 32 → any (λ a. eqb (crockford v) a) crockford_alphabet ≡ true
crockford_known v h = test_at _ v 32 h known_table

-- The position of a character in the alphabet, 32 where it is none of it.
pub position : ℕ → Str → ℕ
position c [] = 0
position c (a ∷ s) = if eqb c a then 0 else suc (position c s)

position_table : holds_to (λ v. eqb (position (crockford v) crockford_alphabet) v) 32 ≡ true
unfolding holds_to crockford position
position_table = refl

pub position-crockford : (v : ℕ) → v < 32 → position (crockford v) crockford_alphabet ≡ v
position-crockford v h =
    let t =
      test_at (λ v. eqb (position (crockford v) crockford_alphabet) v) v 32 h position_table in
    ground arith

step_table : holds_to (λ v. ltb (crockford v) (crockford (suc v))) 31 ≡ true
unfolding holds_to crockford
step_table = refl

-- A later index has a greater character.
pub crockford_mono : (k v : ℕ) → v + suc k < 32 → crockford v < crockford (v + suc k)
crockford_mono zero v h =
    let t = test_at (λ v. ltb (crockford v) (crockford (suc v))) v 31 (omega arith) step_table in
    let e : v + 1 ≡ suc v = omega arith in rw e (ground arith)
crockford_mono (suc k) v h =
    let t =
      test_at (λ v. ltb (crockford v) (crockford (suc v))) (v + suc k) 31 (omega arith)
        step_table in
    let e : v + suc (suc k) ≡ suc (v + suc k) = omega arith in
    rw e (ground (arith, crockford_mono k v))

pub crockford-lt : (v w : ℕ) → v < w → w < 32 → crockford v < crockford w
crockford-lt v w h k =
    let e : v + suc (w - suc v) ≡ w = omega arith in
    rw e at (crockford_mono (w - suc v) v (omega arith))

pub time_digits-All : (ms : ℕ) → All (λ d. d < 32) (time_digits ms)
unfolding time_digits
time_digits-All ms = omega arith

pub entropy_digits-All : (hi lo : ℕ) → All (λ d. d < 32) (entropy_digits hi lo)
unfolding entropy_digits
entropy_digits-All hi lo = omega arith

-- The number that digits to base 32 stand for.
unfoldable pub value : List ℕ → ℕ
value [] = 0
value (d ∷ ds) = d * 32 ^ length ds + value ds

pub value-time_digits : (ms : ℕ) → ms < 2 ^ 50 → value (time_digits ms) ≡ ms
unfolding value time_digits
value-time_digits ms h = omega arith
