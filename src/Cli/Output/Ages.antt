-- ===== src/Cli/Output/Ages.antt =====
-- internal/cli/output.go: what an age says of the time that has passed.
use keleustes.Base.{
  ◌≡◌, ◌⊎◌, inl, inr, refl, ℕ, ◌+◌, ◌-◌, ◌*◌, ◌/◌, ◌^◌, ◌<◌, ◌≤◌, ltb, eqb, Bool-cases, some, Str,
  str, decimal, ◌++◌, arith, false,
}
use keleustes.Cli.Output.Units.{whole-second, whole-minute, whole-hour, whole_days}
use keleustes.Base.Float.{float_quotient, whole}
use keleustes.Cli.Output.{in_units, format_age, duration_text, since, second, minute, hour}

-- An age that is printed as `v` units, where less than `bound` of them make one of the next.
abbrev pub IsAge : (d v unit bound : ℕ) → Type 0
IsAge d v unit bound = (v * unit ≤ d) × (d < (v + 1) * unit) × (v < bound)

-- An age that is printed as `v` days: as many have passed, but for less than 4096 nanoseconds.
abbrev pub IsDays : (d v : ℕ) → Type 0
IsDays d v = (v * (24 * hour) < d + 4096) × (d < (v + 1) * (24 * hour)) × (v < 106752)

-- The text of a duration in one of the four units.
abbrev pub ShowsAge : Str → ℕ → Type 0
ShowsAge text d =
    (v : ℕ) × (((text ≡ decimal v ++ str "s") × IsAge d v second 60)
      ⊎ (((text ≡ decimal v ++ str "m") × (1 ≤ v) × IsAge d v minute 60)
          ⊎ (((text ≡ decimal v ++ str "h") × (1 ≤ v) × IsAge d v hour 24)
              ⊎ ((text ≡ decimal v ++ str "d") × (1 ≤ v) × IsDays d v))))

duration_shows : (d : ℕ) → d < 2 ^ 63 → ShowsAge (duration_text (some d)) d
unfolding duration_text
duration_shows d h = elim (Bool-cases (ltb d minute)) [
  | inl s ↦
      let lt : d < minute = ground arith in
      let w = whole-second d lt in
      (d / second, inl (rw (s, w) refl, (omega arith, omega arith, omega arith)))
  | inr s ↦
      let ge : minute ≤ d = ground arith in
      elim (Bool-cases (ltb d hour)) [
        | inl m ↦
            let lt : d < hour = ground arith in
            let w = whole-minute d lt in
            (
              d / minute,
              inr (inl (rw (s, m, w) refl, omega arith, (omega arith, omega arith, omega arith))),
            )
        | inr m ↦ elim (Bool-cases (ltb d (24 * hour))) [
          | inl q ↦
              let ge' : hour ≤ d = ground arith in
              let lt : d < 24 * hour = ground arith in
              let w = whole-hour d lt in
              let age : (1 ≤ d / hour) × IsAge d (d / hour) hour 24 =
                (omega arith, (omega arith, omega arith, omega arith)) in
              (d / hour, inr (inr (inl (rw (s, m, q, w) refl, age.0, age.1))))
          | inr q ↦
              let ge' : 24 * hour ≤ d = ground arith in
              let v = whole (float_quotient (in_units d hour) 24) in
              let (le, lt) = whole_days d h in
              let days : (1 ≤ v) × IsDays d v = (omega arith, (le, lt, omega arith)) in
              (v, inr (inr (inr (rw (s, m, q) refl, days.0, days.1))))
        ]
      ]
]

-- The time that has passed, where it has.
since_shows : (now t : ℕ) → t ≤ now → (d : ℕ) × (since now t ≡ some d) × (d < 2 ^ 63)
since_shows now t h =
    let n : ltb now t ≡ false = ground arith in
    elim (Bool-cases (ltb (now - t) (2 ^ 63))) [
      | inl e ↦ (now - t, rw (n, e) refl, ground arith)
      | inr e ↦ (2 ^ 63 - 1, rw (n, e) refl, omega arith)
    ]

-- The age of a resource of a known time: where that has not come, 0s; else the number of seconds,
-- minutes, hours or days that have passed, rounded down, in the largest unit of which at least one
-- has, if one second has. Only days may be one more, where less than 4096 nanoseconds are missing.
-- The time that has passed is taken to be at most 2 ^ 63 - 1 nanoseconds.
pub format_age_bounds :
    (now t : ℕ)
    → 0 < t
    → ((now < t) × (format_age now t ≡ str "0s"))
      ⊎ ((d : ℕ) × (since now t ≡ some d) × (d < 2 ^ 63) × ShowsAge (format_age now t) d)
unfolding format_age duration_text
format_age_bounds now t pos =
    let z : eqb t 0 ≡ false = ground arith in
    elim (Bool-cases (ltb now t)) [
      | inl e ↦ inl (ground arith, rw (z, e) refl)
      | inr e ↦
          let (d, q, b) = since_shows now t (ground arith) in
          inr (d, q, b, rw (z, q) (duration_shows d b))
    ]
