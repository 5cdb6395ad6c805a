-- ===== src/Base/Bytes.antt =====
-- Go strings as lists of bytes: equality, order, prefixes, splitting at a byte, letter case.
use Prim.Native.Char.{code}
use Prim.Native.String.{String}
use Prim.Native.Nat.{ℕ, ◌+◌}
use mathlib.Core.Path.{◌≡◌, refl, sym, ap, ◌∙◌}
use mathlib.Core.Logic.{◌≢◌, ◌↔◌, inl, inr}
use mathlib.Core.Bool.{Bool, true, false, ◌&&◌, ◌||◌}
use mathlib.Core.List.{List, [], ◌∷◌, ◌++◌, map}
use native.Mathlib.Omega.{arith}
use keleustes.Base.Tests.{ltb, leb, eqb, if◌then◌else◌, Bool-cases}

abbrev pub Str : Type 0
Str = List ℕ

-- The bytes of an ASCII literal.
abbrev pub str : String → Str
str String.[] = []
str (String.◌∷◌ c s) = code c ∷ str s

infix 50 ◌==◌
unfoldable pub ◌==◌ : Str → Str → Bool
[] == [] = true
[] == (_ ∷ _) = false
(_ ∷ _) == [] = false
(a ∷ s) == (b ∷ t) = eqb a b && s == t

pub ==_sound : (s t : Str) → (s == t) ≡ true → s ≡ t
unfolding ◌==◌
==_sound [] [] h = refl
==_sound [] (b ∷ t) h = cc
==_sound (a ∷ s) [] h = cc
==_sound (a ∷ s) (b ∷ t) h = ground (arith, ==_sound s t)

pub ==_refl : (s : Str) → (s == s) ≡ true
unfolding ◌==◌
==_refl [] = refl
==_refl (a ∷ s) = ground (arith, ==_refl s)

pub ==_iff : (s t : Str) → ((s == t) ≡ true) ↔ (s ≡ t)
==_iff s t = (==_sound s t, λ e. ap (λ u. s == u) (sym e) ∙ ==_refl s)

pub ==_false : (s t : Str) → s ≢ t → (s == t) ≡ false
==_false s t h = elim (Bool-cases (s == t)) [ inl e ↦ absurd (h (==_sound s t e)) | inr e ↦ e ]

pub ne_of_== : (s t : Str) → (s == t) ≡ false → t ≢ s
ne_of_== s t h e = cc (==_refl t, ap (λ u. u == t) e)

-- The order of Go's `<` on strings: byte by byte, a proper prefix first.
infix 50 ◌<?◌
unfoldable pub ◌<?◌ : Str → Str → Bool
[] <? [] = false
[] <? (_ ∷ _) = true
(_ ∷ _) <? [] = false
(a ∷ s) <? (b ∷ t) = ltb a b || (eqb a b && s <? t)

pub <?_irrefl : (s : Str) → (s <? s) ≡ false
unfolding ◌<?◌
<?_irrefl [] = refl
<?_irrefl (a ∷ s) = ground (arith, <?_irrefl s)

pub <?_trans : (s t u : Str) → (s <? t) ≡ true → (t <? u) ≡ true → (s <? u) ≡ true
unfolding ◌<?◌
<?_trans [] [] u h k = cc
<?_trans [] (b ∷ t) [] h k = cc
<?_trans [] (b ∷ t) (c ∷ u) h k = refl
<?_trans (a ∷ s) [] u h k = cc
<?_trans (a ∷ s) (b ∷ t) [] h k = cc
<?_trans (a ∷ s) (b ∷ t) (c ∷ u) h k = ground (arith, <?_trans s t u)

-- Two different strings are ordered one way or the other.
pub <?_total : (s t : Str) → (s <? t) ≡ false → (t <? s) ≡ false → s ≡ t
unfolding ◌<?◌
<?_total [] [] h k = refl
<?_total [] (b ∷ t) h k = cc
<?_total (a ∷ s) [] h k = cc
<?_total (a ∷ s) (b ∷ t) h k = ground (arith, <?_total s t)

-- `strings.HasPrefix(s, p)`, with the prefix first.
unfoldable pub starts_with : Str → Str → Bool
starts_with [] s = true
starts_with (_ ∷ _) [] = false
starts_with (a ∷ p) (b ∷ s) = eqb a b && starts_with p s

abbrev strip : Str → Str → Str
strip [] s = s
strip (_ ∷ _) [] = []
strip (_ ∷ p) (_ ∷ s) = strip p s

-- `strings.TrimPrefix`.
unfoldable pub trim_prefix : Str → Str → Str
unfolding starts_with
trim_prefix p s = if starts_with p s then strip p s else s

-- `strings.Contains(s, p)`.
unfoldable pub contains_str : Str → Str → Bool
unfolding starts_with
contains_str p [] = starts_with p []
contains_str p (c ∷ s) = starts_with p (c ∷ s) || contains_str p s

-- `strings.ToLower` on ASCII text.
abbrev lower_byte : ℕ → ℕ
lower_byte c = if leb b'A' c && leb c b'Z' then c + 32 else c

unfoldable pub to_lower : Str → Str
to_lower s = map lower_byte s

lower_byte_idem : (c : ℕ) → lower_byte (lower_byte c) ≡ lower_byte c
lower_byte_idem c = ground arith

pub to_lower_idem : (s : Str) → to_lower (to_lower s) ≡ to_lower s
unfolding to_lower
to_lower_idem [] = refl
to_lower_idem (c ∷ s) = cc (lower_byte_idem c, to_lower_idem s)

pub starts_with-append : (p s : Str) → starts_with p (p ++ s) ≡ true
unfolding starts_with
starts_with-append [] s = refl
starts_with-append (a ∷ p) s = ground (arith, starts_with-append p s)

pub starts_with_sound : (p s : Str) → starts_with p s ≡ true → (r : Str) × (s ≡ p ++ r)
unfolding starts_with
starts_with_sound [] s h = (s, refl)
starts_with_sound (a ∷ p) [] h = cc
starts_with_sound (a ∷ p) (b ∷ s) h =
    let (r, e) = starts_with_sound p s (ground arith) in (r, ground arith)

-- `strings.Split(s, sep)` for a separator of one byte: always at least one part.
abbrev extend : ℕ → List Str → List Str
extend c [] = (c ∷ []) ∷ []
extend c (p ∷ ps) = (c ∷ p) ∷ ps

unfoldable pub split : ℕ → Str → List Str
split sep [] = [] ∷ []
split sep (c ∷ s) = let rest = split sep s in if eqb c sep then [] ∷ rest else extend c rest

abbrev pub Lacks : ℕ → Str → Type 0
Lacks sep [] = Unit
Lacks sep (c ∷ s) = (c ≢ sep) × Lacks sep s

pub split_of_Lacks : (sep : ℕ) (s : Str) → Lacks sep s → split sep s ≡ s ∷ []
unfolding split
split_of_Lacks sep [] h = refl
split_of_Lacks sep (c ∷ s) h = ground (arith, split_of_Lacks sep s h.1)

pub split-ne-nil : (sep : ℕ) (s : Str) → split sep s ≢ []
unfolding split
split-ne-nil sep [] h = cc
split-ne-nil sep (c ∷ s) h = ground (arith, split-ne-nil sep s)

extend-append : (c : ℕ) (ps qs : List Str) → ps ≢ [] → extend c (ps ++ qs) ≡ extend c ps ++ qs
extend-append c [] qs h = absurd (h refl)
extend-append c (p ∷ ps) qs h = refl

-- Splitting at a separator gives the parts of what stands on its two sides.
pub split-append : (sep : ℕ) (s t : Str) → split sep (s ++ sep ∷ t) ≡ split sep s ++ split sep t
unfolding split
split-append sep [] t = ground arith
split-append sep (c ∷ s) t = elim (Bool-cases (eqb c sep)) [
  | inl e ↦ rw (e, split-append sep s t)
  | inr e ↦
      rw (e, split-append sep s t)
        (extend-append c (split sep s) (split sep t) (split-ne-nil sep s))
]
