-- ===== src/Base/Lex.antt =====
-- The order of strings, and the order by one string and then by another, as `less` functions.
use mathlib.Core.Path.{◌≡◌, sym, ap, ◌∙◌}
use mathlib.Core.Logic.{◌⊎◌, inl, inr, ◌≢◌}
use mathlib.Core.Bool.{Bool, true, false, not}
use keleustes.Base.Tests.{if◌then◌else◌, Bool-cases}
use keleustes.Base.Bytes.{Str, ◌==◌, ==_sound, ==_refl, ◌<?◌, <?_irrefl, <?_trans, <?_total}
use keleustes.Base.Sort.{IsWeakOrder}

pub <?_asym : (s t : Str) → (s <? t) ≡ true → (t <? s) ≡ false
<?_asym s t h = elim (Bool-cases (t <? s)) [
  | inl e ↦ cc (<?_trans s t s h e, <?_irrefl s)
  | inr e ↦ e
]

pub <?_neg_trans : (s t u : Str) → (t <? s) ≡ false → (u <? t) ≡ false → (u <? s) ≡ false
<?_neg_trans s t u h k = elim (Bool-cases (t <? u)) [
  | inl tu ↦ elim (Bool-cases (u <? s)) [ inl us ↦ cc (<?_trans t u s tu us) | inr e ↦ e ]
  | inr e ↦ rw (← <?_total t u e k) h
]

pub <?-IsWeakOrder : IsWeakOrder ◌<?◌
<?-IsWeakOrder = record { asym = <?_asym; trans = <?_neg_trans }

module _ {A : Type 0} (f g : A → Str) where
  abbrev pub lex_less : A → A → Bool
  lex_less a b = if not (f a == f b) then f a <? f b else g a <? g b

  -- One element is less than another in two ways.
  lex_cases :
      (a b : A)
      → (f a ≡ f b) × (lex_less a b ≡ (g a <? g b)) ⊎ (f a ≢ f b) × (lex_less a b ≡ (f a <? f b))
  lex_cases a b = elim (Bool-cases (f a == f b)) [
    | inl e ↦ inl (==_sound (f a) (f b) e, rw e)
    | inr e ↦ inr ((λ p. cc (==_refl (f a), ap (λ s. f a == s) p)), rw e)
  ]

  -- Two elements of which none is less agree in both strings.
  pub lex_total :
      (a b : A) → lex_less a b ≡ false → lex_less b a ≡ false → (f a ≡ f b) × (g a ≡ g b)
  lex_total a b h k = elim (lex_cases a b) [
    | inl (e, p) ↦ elim (lex_cases b a) [
      | inl (_, q) ↦ (e, <?_total (g a) (g b) (sym p ∙ h) (sym q ∙ k))
      | inr (n, _) ↦ absurd (n (sym e))
    ]
    | inr (n, p) ↦ elim (lex_cases b a) [
      | inl (e, _) ↦ absurd (n (sym e))
      | inr (_, q) ↦ absurd (n (<?_total (f a) (f b) (sym p ∙ h) (sym q ∙ k)))
    ]
  ]

  lex_asym : (a b : A) → lex_less a b ≡ true → lex_less b a ≡ false
  lex_asym a b h = elim (lex_cases a b) [
    | inl (e, p) ↦ elim (lex_cases b a) [
      | inl (_, q) ↦ q ∙ <?_asym (g a) (g b) (sym p ∙ h)
      | inr (n, _) ↦ absurd (n (sym e))
    ]
    | inr (n, p) ↦ elim (lex_cases b a) [
      | inl (e, _) ↦ absurd (n (sym e))
      | inr (_, q) ↦ q ∙ <?_asym (f a) (f b) (sym p ∙ h)
    ]
  ]

  lex_trans : (a b c : A) → lex_less a b ≡ true → lex_less b c ≡ true → lex_less a c ≡ true
  lex_trans a b c h k = elim (lex_cases a b) [
    | inl (e, p) ↦ elim (lex_cases b c) [
      | inl (e', q) ↦ elim (lex_cases a c) [
        | inl (_, r) ↦ r ∙ <?_trans (g a) (g b) (g c) (sym p ∙ h) (sym q ∙ k)
        | inr (n, _) ↦ absurd (n (e ∙ e'))
      ]
      | inr (n, q) ↦ elim (lex_cases a c) [
        | inl (e', _) ↦ absurd (n (sym e ∙ e'))
        | inr (_, r) ↦ r ∙ rw e (sym q ∙ k)
      ]
    ]
    | inr (n, p) ↦ elim (lex_cases b c) [
      | inl (e, q) ↦ elim (lex_cases a c) [
        | inl (e', _) ↦ absurd (n (e' ∙ sym e))
        | inr (_, r) ↦ r ∙ rw (← e) (sym p ∙ h)
      ]
      | inr (n', q) ↦
          let ac = <?_trans (f a) (f b) (f c) (sym p ∙ h) (sym q ∙ k) in
          elim (lex_cases a c) [
            | inl (e, _) ↦ cc (<?_irrefl (f a), ac, ap (λ s. f a <? s) e)
            | inr (_, r) ↦ r ∙ ac
          ]
    ]
  ]

  lex_eq_less : (a b c : A) → f a ≡ f b → g a ≡ g b → lex_less c a ≡ lex_less c b
  lex_eq_less a b c e e' = rw (e, e')

  lex_neg_trans : (a b c : A) → lex_less b a ≡ false → lex_less c b ≡ false → lex_less c a ≡ false
  lex_neg_trans a b c h k = elim (Bool-cases (lex_less b c)) [
    | inl bc ↦ elim (Bool-cases (lex_less c a)) [ inl ca ↦ cc (lex_trans b c a bc ca) | inr e ↦ e ]
    | inr e ↦ let (p, q) = lex_total b c e k in rw (← p, ← q) h
  ]

  pub lex-IsWeakOrder : IsWeakOrder lex_less
  lex-IsWeakOrder = record { asym = lex_asym; trans = lex_neg_trans }
