-- ===== src/Audit/Ulid.antt =====
-- internal/audit/ulid.go: minting of event ids. A uint64 is its value below 2 ^ 64, the ten bytes
-- of entropy are a record of bytes, and a string is the list of its bytes.
mod Digits
pub mod Shape
pub mod Order
pub mod Decode
use keleustes.Base.{
  ℕ, ◌+◌, ◌*◌, ◌/◌, ◌%◌, ◌^◌, ◌<◌, List, [], ◌∷◌, ◌++◌, map, Bool, Option, none, some, Str, str,
  get_or, length, any, eqb, if◌then◌else◌, not, ◌||◌,
}

-- A constant of the package.
abbrev pub crockford_alphabet : Str
crockford_alphabet = str "0123456789ABCDEFGHJKMNPQRSTVWXYZ"

-- `[10]byte`.
pub record Entropy : Type 0 where
  pub b0 : ℕ
  pub b1 : ℕ
  pub b2 : ℕ
  pub b3 : ℕ
  pub b4 : ℕ
  pub b5 : ℕ
  pub b6 : ℕ
  pub b7 : ℕ
  pub b8 : ℕ
  pub b9 : ℕ

-- Every field is a byte.
pub record IsBytes (e : Entropy) : Type 0 where
  pub l0 : e.b0 < 256
  pub l1 : e.b1 < 256
  pub l2 : e.b2 < 256
  pub l3 : e.b3 < 256
  pub l4 : e.b4 < 256
  pub l5 : e.b5 < 256
  pub l6 : e.b6 < 256
  pub l7 : e.b7 < 256
  pub l8 : e.b8 < 256
  pub l9 : e.b9 < 256

-- `binary.BigEndian.Uint16(entropy[0:2])`.
abbrev pub entropy_hi : Entropy → ℕ
entropy_hi e = e.b0 * 256 + e.b1

-- `binary.BigEndian.Uint64(entropy[2:10])`.
abbrev pub entropy_lo : Entropy → ℕ
entropy_lo e =
    e.b2 * 2 ^ 56
    + e.b3 * 2 ^ 48
    + e.b4 * 2 ^ 40
    + e.b5 * 2 ^ 32
    + e.b6 * 2 ^ 24
    + e.b7 * 2 ^ 16
    + e.b8 * 2 ^ 8
    + e.b9

-- `crockfordAlphabet[v]`, for an index in range.
pub crockford : ℕ → ℕ
crockford v = get_or crockford_alphabet v 0

-- `(x >> k) & 0x1F`.
abbrev pub five_bits : ℕ → ℕ → ℕ
five_bits x k = x / 2 ^ k % 32

-- The ten indices of the timestamp.
pub time_digits : ℕ → List ℕ
time_digits ms =
    five_bits ms 45
    ∷ five_bits ms 40
    ∷ five_bits ms 35
    ∷ five_bits ms 30
    ∷ five_bits ms 25
    ∷ five_bits ms 20
    ∷ five_bits ms 15
    ∷ five_bits ms 10
    ∷ five_bits ms 5
    ∷ five_bits ms 0
    ∷ []

-- The sixteen indices of the entropy; `(hi & 1) << 4 | (lo >> 60) & 0xF` joins the two words, and
-- the two parts of the `|` have no bit in common.
pub entropy_digits : ℕ → ℕ → List ℕ
entropy_digits hi lo =
    five_bits hi 11
    ∷ five_bits hi 6
    ∷ five_bits hi 1
    ∷ (hi % 2 * 16 + lo / 2 ^ 60 % 16)
    ∷ five_bits lo 55
    ∷ five_bits lo 50
    ∷ five_bits lo 45
    ∷ five_bits lo 40
    ∷ five_bits lo 35
    ∷ five_bits lo 30
    ∷ five_bits lo 25
    ∷ five_bits lo 20
    ∷ five_bits lo 15
    ∷ five_bits lo 10
    ∷ five_bits lo 5
    ∷ five_bits lo 0
    ∷ []

unfoldable pub encode_ulid : ℕ → Entropy → Str
unfolding crockford time_digits entropy_digits
encode_ulid ms e =
    map crockford (time_digits ms) ++ map crockford (entropy_digits (entropy_hi e) (entropy_lo e))

abbrev pub zero_entropy : Entropy
zero_entropy = record {
  b0 = 0;
  b1 = 0;
  b2 = 0;
  b3 = 0;
  b4 = 0;
  b5 = 0;
  b6 = 0;
  b7 = 0;
  b8 = 0;
  b9 = 0;
}

-- The clock's milliseconds and what `rand.Read` filled in, `none` where it failed.
pub new_event_id : ℕ → Option Entropy → Str
new_event_id ms (some e) = encode_ulid ms e
new_event_id ms none = encode_ulid ms zero_entropy

-- The two failures of `validULID`.
pub data UlidError : Type 0 where
  bad_length : ℕ → UlidError
  bad_char : (c i : ℕ) → UlidError

check_chars : ℕ → Str → Option UlidError
check_chars i [] = none
check_chars i (c ∷ s) =
    let rest = check_chars (i + 1) s in
    if any (λ a. eqb c a) crockford_alphabet then rest else some (bad_char c i)

-- `none` is Go's nil error.
unfoldable pub valid_ulid : Str → Option UlidError
unfolding check_chars
valid_ulid s =
    let rest = check_chars 0 s in
    if not (eqb (length s) 26) then some (bad_length (length s)) else rest
