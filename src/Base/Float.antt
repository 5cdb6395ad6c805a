-- ===== src/Base/Float.antt =====
-- Go's float64, for values that are not negative and below 2 ^ 53, as the number of their units of
-- 2 ^ -128: the nearest value of 53 bits, and of two that are as near the even one. A value that is
-- not 0 has to be 2 ^ -75 at least, so that the bits below a unit are below the 53.
use Prim.Native.Nat.{ℕ, zero, suc, ◌+◌, ◌*◌, ◌/◌, ◌%◌, ◌^◌, ◌≤◌, ◌<◌}
use mathlib.Core.Path.{◌≡◌}
use mathlib.Core.Logic.{inl, inr}
use mathlib.Core.Bool.{true}
use native.Mathlib.Omega.{arith}
use keleustes.Base.Tests.{ltb, eqb, Bool-cases, if◌then◌else◌}

abbrev pub float_one : ℕ
float_one = 2 ^ 128

-- What is added to `a` where `half` is the bit below it, and `sticky` is 0 exactly if there are no
-- other bits below.
unfoldable pub round_up : (a half sticky : ℕ) → ℕ
round_up a half sticky = if eqb half 0 then 0 else if eqb sticky 0 then a % 2 else 1

-- The number without its last bits until it has 53 of them, rounded, and with zeros for the bits.
unfoldable pub round_bits : (fuel a half sticky : ℕ) → ℕ
unfolding round_up
round_bits zero a half sticky = a + round_up a half sticky
round_bits (suc fuel) a half sticky =
    let shorter = round_bits fuel (a / 2) (a % 2) (half + sticky) in
    if ltb a (2 ^ 53) then a + round_up a half sticky else 2 * shorter

-- The float64 of a number of units, `sticky` telling of what is left of a unit.
unfoldable pub round_float : (a sticky : ℕ) → ℕ
round_float a sticky = round_bits 128 a 0 sticky

-- The quotient and the sum of float64 values, and the conversion to an integer. A numeral is a
-- value of its units.
unfoldable pub float_quotient : (x n : ℕ) → ℕ
float_quotient x n = round_float (x / n) (x % n)

unfoldable pub float_sum : (x y : ℕ) → ℕ
float_sum x y = round_float (x + y) 0

-- The integer that `int` makes of a value.
abbrev pub whole : ℕ → ℕ
whole x = x / float_one

round_up-le : (a half sticky : ℕ) → round_up a half sticky ≤ 1
unfolding round_up
round_up-le a half sticky = ground arith

-- A number with zeros for its last bits.
unfoldable pub shifted : (n bits : ℕ) → ℕ
shifted n zero = n
shifted n (suc bits) = 2 * shifted n bits

round_bits-ge :
    (fuel n a half sticky : ℕ)
    → shifted n fuel ≤ a
    → a < shifted (2 ^ 53) fuel
    → shifted n fuel ≤ round_bits fuel a half sticky
unfolding round_bits shifted
round_bits-ge zero n a half sticky h k = omega arith
round_bits-ge (suc fuel) n a half sticky h k = elim (Bool-cases (ltb a (2 ^ 53))) [
  | inl e ↦ rw e (omega arith)
  | inr e ↦
      let ih = round_bits-ge fuel n (a / 2) (a % 2) (half + sticky) (omega arith) (omega arith) in
      rw e (omega arith)
]

-- The fuel is enough for a number below 2 ^ 53, and then the error is one unit in the last of the
-- 53 places at most.
round_bits-le :
    (fuel a half sticky : ℕ)
    → 2 ^ 52 ≤ a
    → a < shifted (2 ^ 53) fuel
    → round_bits fuel a half sticky * 2 ^ 52 ≤ a * (2 ^ 52 + 1)
unfolding round_bits shifted
round_bits-le zero a half sticky h k = let u = round_up-le a half sticky in omega arith
round_bits-le (suc fuel) a half sticky h k = elim (Bool-cases (ltb a (2 ^ 53))) [
  | inl e ↦ let u = round_up-le a half sticky in rw e (omega arith)
  | inr e ↦
      let big : 2 ^ 53 ≤ a = ground arith in
      let ih = round_bits-le fuel (a / 2) (a % 2) (half + sticky) (omega arith) (omega arith) in
      rw e (omega arith)
]

shifted-mul : (n : ℕ) → shifted n 128 ≡ n * float_one
unfolding shifted
shifted-mul n = omega arith

-- Rounding does not go below a whole number.
pub round_float-ge :
    (n a sticky : ℕ)
    → n * float_one ≤ a
    → a < 2 ^ 53 * float_one
    → n * float_one ≤ round_float a sticky
unfolding round_float
round_float-ge n a sticky h k =
    let e = shifted-mul n in
    let f = shifted-mul (2 ^ 53) in
    let r = round_bits-ge 128 n a 0 sticky (rw e h) (rw f k) in rw e at r

round_bits-short : (fuel a half sticky : ℕ) → a < 2 ^ 53 → round_bits fuel a half sticky ≤ a + 1
unfolding round_bits
round_bits-short zero a half sticky h = let u = round_up-le a half sticky in omega arith
round_bits-short (suc fuel) a half sticky h =
    let e : ltb a (2 ^ 53) ≡ true = ground arith in
    let u = round_up-le a half sticky in rw e (omega arith)

-- Rounding adds one unit in the last of the 53 places at most.
pub round_float-le :
    (a sticky : ℕ)
    → a < 2 ^ 53 * float_one
    → round_float a sticky * 2 ^ 52 ≤ a * (2 ^ 52 + 1) + 2 ^ 52
unfolding round_float
round_float-le a sticky k = elim (Bool-cases (ltb a (2 ^ 52))) [
  | inl e ↦ let r = round_bits-short 128 a 0 sticky (ground arith) in ground arith
  | inr e ↦
      let f = shifted-mul (2 ^ 53) in
      let r = round_bits-le 128 a 0 sticky (ground arith) (rw f k) in omega arith
]
