-- ===== src/Audit/Ulid/Order.antt =====
-- internal/audit/ulid.go: the order of ids as strings against the order of their times.
use native.Mathlib.Nat.{pow-suc, mul-le-mul_right}
use keleustes.Base.{
  ℕ, suc, ◌+◌, ◌*◌, ◌^◌, ◌<◌, List, [], ◌∷◌, ◌++◌, map, ◌≡◌, refl, arith, All, length, Str, ◌<?◌,
  true, ◌⊎◌, inl, inr,
}
use keleustes.Audit.Ulid.{Entropy, crockford, time_digits, encode_ulid}
use keleustes.Audit.Ulid.Digits.{value, value-time_digits, crockford-lt, time_digits-All}

value-lt : (ds : List ℕ) → All (λ d. d < 32) ds → value ds < 32 ^ length ds
unfolding value
value-lt [] h = omega arith
value-lt (d ∷ ds) h =
    let ih = value-lt ds h.1 in
    let p = pow-suc 32 (length ds) in
    let q = mul-le-mul_right {m = suc d} {n = 32} (32 ^ length ds) h.0 in omega (arith, p, q)

lt-trichotomy : (d e : ℕ) → (d < e) ⊎ ((d ≡ e) ⊎ (e < d))
lt-trichotomy d e = grind arith

-- A number is less than another where its first digit is, or with equal first digits its rest.
value_cases :
    (d e p v w : ℕ) → v < p → w < p → d * p + v < e * p + w → (d < e) ⊎ ((d ≡ e) × (v < w))
value_cases d e p v w hv hw h = elim (lt-trichotomy d e) [
  | inl l ↦ inl l
  | inr (inl s) ↦ inr (s, let h' = rw s at h in omega arith)
  | inr (inr g) ↦ let q = mul-le-mul_right {m = suc e} {n = d} p g in absurd (omega (arith, q))
]

<?-map :
    (ds es : List ℕ) (s t : Str)
    → length ds ≡ length es
    → All (λ d. d < 32) ds
    → All (λ d. d < 32) es
    → value ds < value es
    → ((map crockford ds ++ s) <? (map crockford es ++ t)) ≡ true
unfolding value ◌<?◌
<?-map [] [] s t l hd he h = absurd (omega arith)
<?-map [] (e ∷ es) s t l hd he h = absurd (omega arith)
<?-map (d ∷ ds) [] s t l hd he h = absurd (omega arith)
<?-map (d ∷ ds) (e ∷ es) s t l hd he h =
    let l' : length ds ≡ length es = omega arith in
    let step =
      value_cases d e (32 ^ length es) (value ds) (value es) (rw (← l') (value-lt ds hd.1))
        (value-lt es he.1) (rw l' at h) in
    elim step [
      | inl less ↦ let c = crockford-lt d e less he.0 in ground arith
      | inr (same, rest) ↦ let r = <?-map ds es s t l' hd.1 he.1 rest in rw same (ground arith)
    ]

-- An id minted at an earlier millisecond is the smaller string, whatever the two entropies are;
-- the later time is below 2 ^ 48 milliseconds.
pub encode_ulid-lt :
    (ms later : ℕ) (e f : Entropy)
    → ms < later
    → later < 2 ^ 48
    → (encode_ulid ms e <? encode_ulid later f) ≡ true
unfolding encode_ulid
encode_ulid-lt ms later e f h k =
    <?-map (time_digits ms) (time_digits later) _ _ refl (time_digits-All ms)
      (time_digits-All later)
      (rw (value-time_digits ms (omega arith), value-time_digits later (omega arith)) h)
