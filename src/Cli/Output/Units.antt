-- ===== src/Cli/Output/Units.antt =====
-- internal/cli/output.go: the hours of a duration in float64, and the units that are printed of it.
use keleustes.Base.{◌≡◌, ℕ, ◌+◌, ◌*◌, ◌/◌, ◌%◌, ◌^◌, ◌<◌, arith}
use keleustes.Base.Float.{
  float_one, float_sum, float_quotient, whole, round_float, round_float-ge, round_float-le,
}
use keleustes.Cli.Output.{second, minute, hour, in_units}

-- Below the next unit, the whole units that have passed.
pub whole-second : (d : ℕ) → d < minute → whole (in_units d second) ≡ d / second
unfolding in_units float_sum float_quotient
whole-second d h =
    let x = d % second * float_one in
    let y = round_float (x / second) (x % second) in
    let y_le = round_float-le (x / second) (x % second) (omega arith) in
    let z = d / second * float_one + y in
    let z_ge = round_float-ge (d / second) z 0 (omega arith) (omega arith) in
    let z_le = round_float-le z 0 (omega arith) in omega arith

pub whole-minute : (d : ℕ) → d < hour → whole (in_units d minute) ≡ d / minute
unfolding in_units float_sum float_quotient
whole-minute d h =
    let x = d % minute * float_one in
    let y = round_float (x / minute) (x % minute) in
    let y_le = round_float-le (x / minute) (x % minute) (omega arith) in
    let z = d / minute * float_one + y in
    let z_ge = round_float-ge (d / minute) z 0 (omega arith) (omega arith) in
    let z_le = round_float-le z 0 (omega arith) in omega arith

pub whole-hour : (d : ℕ) → d < 24 * hour → whole (in_units d hour) ≡ d / hour
unfolding in_units float_sum float_quotient
whole-hour d h =
    let x = d % hour * float_one in
    let y = round_float (x / hour) (x % hour) in
    let y_le = round_float-le (x / hour) (x % hour) (omega arith) in
    let z = d / hour * float_one + y in
    let z_ge = round_float-ge (d / hour) z 0 (omega arith) (omega arith) in
    let z_le = round_float-le z 0 (omega arith) in omega arith

-- In float64 the days of a duration are those that have passed, or one more where less than 4096
-- nanoseconds are missing.
pub whole_days :
    (d : ℕ)
    → d < 2 ^ 63
    → let days = whole (float_quotient (in_units d hour) 24) in
      (days * (24 * hour) < d + 4096) × (d < (days + 1) * (24 * hour))
unfolding in_units float_sum float_quotient
whole_days d h =
    let x = d % hour * float_one in
    let y = round_float (x / hour) (x % hour) in
    let y_le = round_float-le (x / hour) (x % hour) (omega arith) in
    let z = d / hour * float_one + y in
    let w = round_float z 0 in
    let w_ge = round_float-ge (d / hour) z 0 (omega arith) (omega arith) in
    let w_le = round_float-le z 0 (omega arith) in
    let v = round_float (w / 24) (w % 24) in
    let v_ge = round_float-ge (d / hour / 24) (w / 24) (w % 24) (omega arith) (omega arith) in
    let v_le = round_float-le (w / 24) (w % 24) (omega arith) in (omega arith, omega arith)
