-- ===== src/Base/Text.antt =====
-- Functions of the packages strings and fmt, with their laws.
use Prim.Native.Nat.{ℕ, zero, suc, ◌+◌, ◌-◌, ◌*◌, ◌/◌, ◌%◌, ◌<◌}
use mathlib.Core.Path.{◌≡◌, refl, sym, ap, ◌∙◌}
use mathlib.Core.Logic.{◌≢◌, inl, inr}
use mathlib.Core.Bool.{true, false, ◌&&◌}
use mathlib.Core.Option.{Option, none, some}
use mathlib.Core.List.{List, [], ◌∷◌, ◌++◌, map}
use native.Mathlib.Omega.{arith}
use keleustes.Base.Tests.{Bool-cases, if◌then◌else◌, ltb, leb, eqb}
use keleustes.Base.Lists.{length, drop}
use keleustes.Base.Bytes.{Str, trim_prefix, starts_with, starts_with-append, Lacks}

eqb_self : (a : ℕ) → eqb a a ≡ true
eqb_self a = ground arith

-- `strings.Join`.
abbrev pub join : Str → List Str → Str
join sep [] = []
join sep (x ∷ []) = x
join sep (x ∷ y ∷ ys) = x ++ (sep ++ join sep (y ∷ ys))

-- `strings.ToUpper` on ASCII text.
abbrev upper_byte : ℕ → ℕ
upper_byte c = if leb b'a' c && leb c b'z' then c - 32 else c

unfoldable pub to_upper : Str → Str
to_upper s = map upper_byte s

-- `s[:i]` and `s[i+len(sep):]` for `i := strings.Index(s, sep)`, if that is not negative.
unfoldable pub cut : Str → Str → Option (Str × Str)
unfolding starts_with
cut sep [] = if starts_with sep [] then some ([], []) else none
cut sep (c ∷ s) =
    let rest = cut sep s in
    if starts_with sep (c ∷ s)
    then some ([], drop (length sep) (c ∷ s))
    else elim rest [ none ↦ none | some (p, r) ↦ some (c ∷ p, r) ]

drop-append : (p s : Str) → drop (length p) (p ++ s) ≡ s
drop-append [] s = refl
drop-append (c ∷ p) s = drop-append p s

starts_with_other : (a c : ℕ) (sep s : Str) → c ≢ a → starts_with (a ∷ sep) (c ∷ s) ≡ false
unfolding starts_with
starts_with_other a c sep s h = ground arith

-- A separator is found where no byte before it is its first.
pub cut-append :
    (a : ℕ) (sep p r : Str) → Lacks a p → cut (a ∷ sep) (p ++ (a ∷ sep ++ r)) ≡ some (p, r)
unfolding cut
cut-append a sep [] r h =
    let e = starts_with-append (a ∷ sep) r in rw e (ap (λ t. some ([], t)) (drop-append sep r))
cut-append a sep (c ∷ p) r (n, h) =
    let e = starts_with_other a c sep (p ++ (a ∷ sep ++ r)) n in rw (e, cut-append a sep p r h) refl

-- A separator is not found without its first byte.
pub cut-none : (a : ℕ) (sep s : Str) → Lacks a s → cut (a ∷ sep) s ≡ none
unfolding cut
cut-none a sep [] h = refl
cut-none a sep (c ∷ s) (n, h) = rw (starts_with_other a c sep s n, cut-none a sep s h) refl

-- Bytes that are not its first do not bring a separator in.
pub cut-skip :
    (a : ℕ) (sep p t : Str) → Lacks a p → cut (a ∷ sep) t ≡ none → cut (a ∷ sep) (p ++ t) ≡ none
unfolding cut
cut-skip a sep [] t h e = e
cut-skip a sep (c ∷ p) t (n, h) e =
    rw (starts_with_other a c sep (p ++ t) n, cut-skip a sep p t h e) refl

pub trim_prefix-cons : (a : ℕ) (s : Str) → trim_prefix (a ∷ []) (a ∷ s) ≡ s
unfolding trim_prefix starts_with
trim_prefix-cons a s = rw (eqb_self a) refl

-- `fmt.Sprintf("%d", n)`: the digits, the last one by fuel, of which `n + 1` is enough.
abbrev digits : ℕ → ℕ → Str
digits zero n = []
digits (suc fuel) n =
    let front = digits fuel (n / 10) in
    if ltb n 10 then (b'0' + n) ∷ [] else front ++ ((b'0' + n % 10) ∷ [])

unfoldable pub decimal : ℕ → Str
decimal n = digits (suc n) n

abbrev value_of : ℕ → Str → ℕ
value_of n [] = n
value_of n (c ∷ s) = value_of (10 * n + (c - b'0')) s

value_of-append : (n : ℕ) (s t : Str) → value_of n (s ++ t) ≡ value_of (value_of n s) t
value_of-append n [] t = refl
value_of-append n (c ∷ s) t = value_of-append (10 * n + (c - b'0')) s t

digits_value : (fuel n : ℕ) → n < fuel → value_of 0 (digits fuel n) ≡ n
digits_value zero n h = absurd (omega arith)
digits_value (suc fuel) n h = elim (Bool-cases (ltb n 10)) [
  | inl small ↦ rw small (omega arith)
  | inr big ↦
      let below : n / 10 < fuel = ground arith in
      rw
        (
          big,
          value_of-append 0 (digits fuel (n / 10)) ((b'0' + n % 10) ∷ []),
          digits_value fuel (n / 10) below,
        )
        (omega arith)
]

-- The digits of a number have it as their value, so no two numbers print alike.
pub decimal-injective : (m n : ℕ) → decimal m ≡ decimal n → m ≡ n
unfolding decimal
decimal-injective m n h =
    sym (digits_value (suc m) m (omega arith))
    ∙ ap (value_of 0) h
    ∙ digits_value (suc n) n (omega arith)
