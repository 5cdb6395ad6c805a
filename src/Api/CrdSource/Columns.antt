-- ===== src/Api/CrdSource/Columns.antt =====
-- The column headers of the matrix: one for each (environment, region) of a target, in order.
use keleustes.Base.{
  ◌≡◌, refl, ap, sym, subst, ◌↔◌, inl, inr, Bool, true, false, Bool-cases, Str, ◌==◌, ==_sound,
  ne_of_==, arith, List, [], ◌∷◌, ◌++◌, In, All, All-of, All_at, Lacks, IsSorted, IsStrict,
  lex_less, lex_total,
}
use keleustes.Api.Resources.{DeploymentTarget}
use keleustes.Api.Wire.{MatrixColumn}
use keleustes.Api.CrdSource.Mapping.{contains, str_ptr_or_nil}
use keleustes.Api.CrdSource.Matrix.{target_less, column_key, distinct_targets}

-- An (environment, region).
abbrev pub Pair : Type 0
Pair = Str × Str

abbrev pub pair_of : DeploymentTarget → Pair
pair_of t = (t.environment, t.region)

-- By environment, then by region.
abbrev pub pair_less : Pair → Pair → Bool
pair_less = lex_less (λ (p : Pair). p.0) (λ (p : Pair). p.1)

unfoldable pub pair_column : Pair → MatrixColumn
unfolding str_ptr_or_nil
pair_column p = record { env = str_ptr_or_nil p.0; region = str_ptr_or_nil p.1 }

-- No environment holds the byte that separates it from the region in a key.
abbrev pub AreKeyed : List DeploymentTarget → Type 0
AreKeyed ts = All (λ (t : DeploymentTarget). Lacks 0 t.environment) ts

pub key_injective :
    (s t u v : Str) → Lacks 0 s → Lacks 0 t → s ++ (0 ∷ u) ≡ t ++ (0 ∷ v) → (s ≡ t) × (u ≡ v)
key_injective [] [] u v h k e = ground arith
key_injective [] (c ∷ t) u v h k e = ground arith
key_injective (c ∷ s) [] u v h k e = ground arith
key_injective (c ∷ s) (d ∷ t) u v h k e =
    let (p, q) = key_injective s t u v h.1 k.1 (ground arith) in (ground arith, q)

pub contains-In : (ss : List Str) (s : Str) → (contains ss s ≡ true) ↔ In s ss
unfolding contains
contains-In [] s = (λ h. cc, λ h. absurd h)
contains-In (x ∷ ss) s = elim (Bool-cases (x == s)) [
  | inl e ↦ rw e ((λ _. inl (sym (==_sound x s e))), (λ _. refl))
  | inr e ↦ rw e (
    (λ h. inr ((contains-In ss s).0 h)),
    (λ h. elim h [ inl p ↦ absurd (ne_of_== x s e p) | inr i ↦ (contains-In ss s).1 i ]),
  )
]

pub not_contained : (ss : List Str) (s : Str) → contains ss s ≡ false → ¬ In s ss
not_contained ss s h i = cc ((contains-In ss s).1 i)

pub absent : (ss : List Str) (s : Str) → (¬ In s ss) → contains ss s ≡ false
absent ss s n = elim (Bool-cases (contains ss s)) [
  | inl e ↦ absurd (n ((contains-In ss s).0 e))
  | inr e ↦ e
]

-- What the loop keeps comes from its list and is not in `seen`.
pub distinct_sound :
    (seen : List Str) (ts : List DeploymentTarget) (t : DeploymentTarget)
    → In t (distinct_targets seen ts)
    → In t ts × (¬ In (column_key t) seen)
unfolding distinct_targets
distinct_sound seen [] t h = absurd h
distinct_sound seen (x ∷ ts) t h = elim (Bool-cases (contains seen (column_key x))) [
  | inl old ↦ let (i, n) = distinct_sound seen ts t (rw old at h) in (inr i, n)
  | inr new ↦ elim (rw new at h) [
    | inl e ↦ (
      inl e,
      λ i.
          not_contained seen (column_key x) new
            (subst (λ k. In k seen) (ap (λ (y : DeploymentTarget). column_key y) e) i),
    )
    | inr i ↦ let (j, n) = distinct_sound (column_key x ∷ seen) ts t i in (inr j, λ k. n (inr k))
  ]
]

-- A target whose key is not in `seen` has a kept one with its key.
pub distinct_complete :
    (seen : List Str) (ts : List DeploymentTarget) (t : DeploymentTarget)
    → In t ts
    → (¬ In (column_key t) seen)
    → (u : DeploymentTarget) × In u (distinct_targets seen ts) × (column_key u ≡ column_key t)
unfolding distinct_targets
distinct_complete seen [] t h n = absurd h
distinct_complete seen (x ∷ ts) t (inl e) n =
    let key = ap (λ (y : DeploymentTarget). column_key y) e in
    rw (absent seen (column_key x) (λ i. n (subst (λ k. In k seen) (sym key) i)))
      (x, inl refl, sym key)
distinct_complete seen (x ∷ ts) t (inr i) n = elim (Bool-cases (contains seen (column_key x))) [
  | inl old ↦ rw old (distinct_complete seen ts t i n)
  | inr new ↦ rw new (elim (Bool-cases (column_key x == column_key t)) [
    | inl e ↦ (x, inl refl, ==_sound (column_key x) (column_key t) e)
    | inr e ↦
        let (u, j, k) =
          distinct_complete (column_key x ∷ seen) ts t i
            (λ h. elim h [ inl p ↦ ne_of_== (column_key x) (column_key t) e p | inr q ↦ n q ]) in
        (u, inr j, k)
  ])
]

-- A target that is not before another, nor behind it, has its key.
key_of_pair :
    (t u : DeploymentTarget)
    → target_less t u ≡ false
    → target_less u t ≡ false
    → column_key t ≡ column_key u
unfolding target_less
key_of_pair t u h k =
    let (e, r) = lex_total (λ (v : DeploymentTarget). v.environment) (λ v. v.region) t u h k in cc

-- On a sorted list what is kept is strictly increasing.
pub distinct-IsStrict :
    (seen : List Str) (ts : List DeploymentTarget)
    → IsSorted target_less ts
    → IsStrict target_less (distinct_targets seen ts)
unfolding distinct_targets
distinct-IsStrict seen [] s = tt
distinct-IsStrict seen (x ∷ ts) s = elim (Bool-cases (contains seen (column_key x))) [
  | inl old ↦ rw old (distinct-IsStrict seen ts s.1)
  | inr new ↦ rw new (
    All-of (λ y. target_less x y ≡ true) (distinct_targets (column_key x ∷ seen) ts)
        (λ y i.
          let (j, n) = distinct_sound (column_key x ∷ seen) ts y i in
          elim (Bool-cases (target_less x y)) [
            | inl e ↦ e
            | inr e ↦ absurd (
                n (
                  inl (sym (key_of_pair x y e (All_at (λ z. target_less z x ≡ false) ts y s.0 j)))))
          ]),
    distinct-IsStrict (column_key x ∷ seen) ts s.1,
  )
]
