-- ===== src/Audit/Ulid/Decode.antt =====
-- internal/audit/ulid.go: reading an id back.
use keleustes.Base.{
  ℕ, ◌+◌, ◌*◌, ◌^◌, ◌<◌, List, [], ◌∷◌, map, ◌≡◌, refl, ap, sym, ◌∙◌, arith, All, Str, take, drop,
}
use keleustes.Audit.Ulid.{
  Entropy, IsBytes, crockford_alphabet, crockford, time_digits, entropy_digits, entropy_hi,
  entropy_lo, encode_ulid,
}
use keleustes.Audit.Ulid.Digits.{
  value, value-time_digits, position, position-crockford, time_digits-All, entropy_digits-All,
}

abbrev digit : ℕ → ℕ
digit c = position c crockford_alphabet

-- The first ten characters and the rest, each read as a number to base 32.
pub decode_ulid : Str → ℕ × ℕ
decode_ulid s = (value (map digit (take 10 s)), value (map digit (drop 10 s)))

-- The ten bytes of entropy as one number of 80 bits.
pub entropy_number : Entropy → ℕ
entropy_number e = entropy_hi e * 2 ^ 64 + entropy_lo e

map-digit : (ds : List ℕ) → All (λ d. d < 32) ds → map digit (map crockford ds) ≡ ds
map-digit [] h = refl
map-digit (d ∷ ds) h = cc (position-crockford d h.0, map-digit ds h.1)

value-entropy_digits :
    (hi lo : ℕ) → hi < 2 ^ 16 → lo < 2 ^ 64 → value (entropy_digits hi lo) ≡ hi * 2 ^ 64 + lo
unfolding value entropy_digits
value-entropy_digits hi lo h k = omega arith

hi-lt : (e : Entropy) → IsBytes e → entropy_hi e < 2 ^ 16
hi-lt e b = omega arith

lo-lt : (e : Entropy) → IsBytes e → entropy_lo e < 2 ^ 64
lo-lt e b = omega arith

-- An id is read back as the timestamp and the entropy that it was made of, where the timestamp is
-- below 2 ^ 48 and the entropy consists of bytes.
pub decode_ulid-encode_ulid :
    (ms : ℕ) (e : Entropy)
    → ms < 2 ^ 48
    → IsBytes e
    → decode_ulid (encode_ulid ms e) ≡ (ms, entropy_number e)
unfolding decode_ulid entropy_number encode_ulid
decode_ulid-encode_ulid ms e h b =
    let t =
      ap value (map-digit (time_digits ms) (time_digits-All ms))
      ∙ value-time_digits ms (omega arith) in
    let r =
      ap value (
        map-digit (entropy_digits (entropy_hi e) (entropy_lo e))
          (entropy_digits-All (entropy_hi e) (entropy_lo e)))
      ∙ value-entropy_digits (entropy_hi e) (entropy_lo e) (hi-lt e b) (lo-lt e b) in
    cc

entropy_fields :
    (e f : Entropy)
    → IsBytes e
    → IsBytes f
    → entropy_number e ≡ entropy_number f
    → (e.b0 ≡ f.b0)
      × (e.b1 ≡ f.b1)
      × (e.b2 ≡ f.b2)
      × (e.b3 ≡ f.b3)
      × (e.b4 ≡ f.b4)
      × (e.b5 ≡ f.b5)
      × (e.b6 ≡ f.b6)
      × (e.b7 ≡ f.b7)
      × (e.b8 ≡ f.b8)
      × (e.b9 ≡ f.b9)
unfolding entropy_number
entropy_fields e f b c h = omega arith

entropy_number-injective :
    (e f : Entropy) → IsBytes e → IsBytes f → entropy_number e ≡ entropy_number f → e ≡ f
entropy_number-injective e f b c h =
    let p = entropy_fields e f b c h in
    λ i. record {
      b0 = p.0 i;
      b1 = p.1 i;
      b2 = p.2 i;
      b3 = p.3 i;
      b4 = p.4 i;
      b5 = p.5 i;
      b6 = p.6 i;
      b7 = p.7 i;
      b8 = p.8 i;
      b9 = p.9 i;
    }

-- Two ids are equal only if they were minted at one millisecond with one entropy, where the
-- timestamps are below 2 ^ 48 and the entropies consist of bytes.
pub encode_ulid-injective :
    (ms ms' : ℕ) (e f : Entropy)
    → ms < 2 ^ 48
    → ms' < 2 ^ 48
    → IsBytes e
    → IsBytes f
    → encode_ulid ms e ≡ encode_ulid ms' f
    → (ms ≡ ms') × (e ≡ f)
encode_ulid-injective ms ms' e f h h' b c p =
    let q =
      sym (decode_ulid-encode_ulid ms e h b)
      ∙ ap decode_ulid p
      ∙ decode_ulid-encode_ulid ms' f h' c in
    (ap (λ (t : ℕ × ℕ). t.0) q, entropy_number-injective e f b c (ap (λ (t : ℕ × ℕ). t.1) q))
