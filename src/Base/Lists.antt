-- ===== src/Base/Lists.antt =====
-- Lists measured by native numbers, membership by recursion, and the loops of the Go code.
use Prim.Native.Nat.{ℕ, zero, suc}
use mathlib.Core.Path.{◌≡◌, refl, sym, subst, ap}
use mathlib.Core.Logic.{◌⊎◌, inl, inr, ◌↔◌}
use mathlib.Core.Bool.{Bool, true, false, ◌&&◌, ◌||◌}
use mathlib.Core.Option.{Option, none, some}
use mathlib.Core.List.{List, [], ◌∷◌, map}
use native.Mathlib.Omega.{arith}
use keleustes.Base.Tests.{if◌then◌else◌, Bool-cases}

module _ {ℓ} {A : Type ℓ} where
  abbrev pub length : List A → ℕ
  length [] = 0
  length (x ∷ xs) = suc (length xs)

  abbrev pub get_or : List A → ℕ → A → A
  get_or [] i d = d
  get_or (x ∷ xs) zero d = x
  get_or (x ∷ xs) (suc i) d = get_or xs i d

  abbrev pub take : ℕ → List A → List A
  take zero xs = []
  take (suc n) [] = []
  take (suc n) (x ∷ xs) = x ∷ take n xs

  abbrev pub drop : ℕ → List A → List A
  drop zero xs = xs
  drop (suc n) [] = []
  drop (suc n) (x ∷ xs) = drop n xs

  abbrev pub any : (A → Bool) → List A → Bool
  any p [] = false
  any p (x ∷ xs) = p x || any p xs

  abbrev pub all : (A → Bool) → List A → Bool
  all p [] = true
  all p (x ∷ xs) = p x && all p xs

  -- The loop `for … { if !p(x) { continue }; out = append(out, x) }`.
  abbrev pub keep : (A → Bool) → List A → List A
  keep p [] = []
  keep p (x ∷ xs) = if p x then x ∷ keep p xs else keep p xs

  -- The loop `for … { if p(x) { return x } }`.
  abbrev pub first : (A → Bool) → List A → Option A
  first p [] = none
  first p (x ∷ xs) = if p x then some x else first p xs

module _ {A : Type 0} where
  -- Membership, with the place where it holds.
  abbrev pub In : A → List A → Type 0
  In a [] = ⊥
  In a (x ∷ xs) = (a ≡ x) ⊎ In a xs

  pub In-keep : (p : A → Bool) (a : A) (xs : List A) → In a (keep p xs) ↔ ((p a ≡ true) × In a xs)
  In-keep p a [] = (λ h. absurd h, λ h. h.1)
  In-keep p a (x ∷ xs) = elim (Bool-cases (p x)) [
    | inl yes' ↦ rw yes' (
      (λ h. elim h [
        | inl e ↦ (rw e yes', inl e)
        | inr t ↦ (((In-keep p a xs).0 t).0, inr ((In-keep p a xs).0 t).1)
      ]),
      (λ h. elim h.1 [ inl e ↦ inl e | inr t ↦ inr ((In-keep p a xs).1 (h.0, t)) ]),
    )
    | inr no' ↦ rw no' (
      (λ t. (((In-keep p a xs).0 t).0, inr ((In-keep p a xs).0 t).1)),
      (λ h. elim h.1 [ inl e ↦ cc | inr t ↦ (In-keep p a xs).1 (h.0, t) ]),
    )
  ]

  -- `first` returns an element that passes the test, and fails only where none does.
  pub first_sound :
      (p : A → Bool) (xs : List A) {a : A} → first p xs ≡ some a → (p a ≡ true) × In a xs
  first_sound p [] h = cc
  first_sound p (x ∷ xs) {a} h = elim (Bool-cases (p x)) [
    | inl yes' ↦ let e : a ≡ x = ground arith in (rw e yes', inl e)
    | inr no' ↦ let r = first_sound p xs {a = a} (ground arith) in (r.0, inr r.1)
  ]

  pub first-none : (p : A → Bool) (xs : List A) (a : A) → first p xs ≡ none → In a xs → p a ≡ false
  first-none p [] a h i = absurd i
  first-none p (x ∷ xs) a h (inl e) = rw e (ground arith)
  first-none p (x ∷ xs) a h (inr i) = first-none p xs a (ground arith) i

  -- `any` and `all` by membership.
  pub any_of_In : (p : A → Bool) (x : A) (xs : List A) → In x xs → p x ≡ true → any p xs ≡ true
  any_of_In p x [] i h = absurd i
  any_of_In p x (y ∷ ys) (inl e) h = rw (← e, h) refl
  any_of_In p x (y ∷ ys) (inr i) h = ground (arith, any_of_In p x ys i h)

  pub In_of_any : (p : A → Bool) (xs : List A) → any p xs ≡ true → (x : A) × In x xs × (p x ≡ true)
  In_of_any p [] h = cc
  In_of_any p (x ∷ xs) h = elim (Bool-cases (p x)) [
    | inl yes' ↦ (x, inl refl, yes')
    | inr no' ↦ let (y, i, q) = In_of_any p xs (rw no' at h) in (y, inr i, q)
  ]

  pub all_at : (p : A → Bool) (x : A) (xs : List A) → all p xs ≡ true → In x xs → p x ≡ true
  all_at p x [] h i = absurd i
  all_at p x (y ∷ ys) h (inl e) = rw e (ground arith)
  all_at p x (y ∷ ys) h (inr i) = all_at p x ys (ground arith) i

module _ {ℓ κ} {A : Type ℓ} (P : A → Type κ) where
  abbrev pub All : List A → Type κ
  All [] = Unit
  All (x ∷ xs) = P x × All xs

module _ {A : Type 0} (P : A → Type 0) where
  pub All-of : (xs : List A) → ((a : A) → In a xs → P a) → All P xs
  All-of [] h = tt
  All-of (x ∷ xs) h = (h x (inl refl), All-of xs (λ a i. h a (inr i)))

  pub All_at : (xs : List A) (a : A) → All P xs → In a xs → P a
  All_at [] a h i = absurd i
  All_at (x ∷ xs) a h (inl e) = subst P (sym e) h.0
  All_at (x ∷ xs) a h (inr i) = All_at xs a h.1 i

pub length-map {ℓ κ} :
    {A : Type ℓ} {B : Type κ} (f : A → B) (xs : List A) → length (map f xs) ≡ length xs
length-map f [] = refl
length-map f (x ∷ xs) = ap suc (length-map f xs)

module _ {A B : Type 0} (f : A → B) where
  pub In-map : (a : A) (xs : List A) → In a xs → In (f a) (map f xs)
  In-map a (x ∷ xs) (inl e) = inl (ap f e)
  In-map a (x ∷ xs) (inr i) = inr (In-map a xs i)
  In-map a [] h = absurd h

  pub In-map_inv : (b : B) (xs : List A) → In b (map f xs) → (a : A) × In a xs × (b ≡ f a)
  In-map_inv b [] h = absurd h
  In-map_inv b (x ∷ xs) (inl e) = (x, inl refl, e)
  In-map_inv b (x ∷ xs) (inr i) = let (a, j, e) = In-map_inv b xs i in (a, inr j, e)
