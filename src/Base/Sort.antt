-- ===== src/Base/Sort.antt =====
-- `sort.Slice` and `sort.Strings` by a `less` function: a sorted list of the same elements.
use mathlib.Core.Path.{◌≡◌, refl, sym, subst}
use mathlib.Core.Logic.{inl, inr, ◌↔◌}
use mathlib.Core.Bool.{Bool, true, false}
use mathlib.Core.List.{List, [], ◌∷◌, Perm}
use mathlib.Core.List.Perm
use native.Mathlib.Omega.{arith}
use keleustes.Base.Tests.{if◌then◌else◌, Bool-cases}
use keleustes.Base.Lists.{In, All, All-of, All_at}

module _ {A : Type 0} (less : A → A → Bool) where
  unfoldable pub place : A → List A → List A
  place x [] = x ∷ []
  place x (y ∷ ys) = if less y x then y ∷ place x ys else x ∷ y ∷ ys

  unfoldable pub sort_by : List A → List A
  unfolding place
  sort_by [] = []
  sort_by (x ∷ xs) = place x (sort_by xs)

  place-perm : (x : A) (ys : List A) → Perm (place x ys) (x ∷ ys)
  unfolding place
  place-perm x [] = Perm.refl _
  place-perm x (y ∷ ys) = elim (Bool-cases (less y x)) [
    | inl l ↦ rw l (Perm.trans (Perm.cons y (place-perm x ys)) (Perm.swap x y ys))
    | inr g ↦ rw g (Perm.refl _)
  ]

  pub sort_by-perm : (xs : List A) → Perm (sort_by xs) xs
  unfolding sort_by
  sort_by-perm [] = Perm.refl _
  sort_by-perm (x ∷ xs) = Perm.trans (place-perm x (sort_by xs)) (Perm.cons x (sort_by-perm xs))

  In-place : (a x : A) (ys : List A) → In a (place x ys) ↔ In a (x ∷ ys)
  unfolding place
  In-place a x [] = (λ h. h, λ h. h)
  In-place a x (y ∷ ys) = elim (Bool-cases (less y x)) [
    | inl l ↦ rw l (grind (arith, In-place a x ys))
    | inr g ↦ rw g (λ h. h, λ h. h)
  ]

  pub In-sort_by : (a : A) (xs : List A) → In a (sort_by xs) ↔ In a xs
  unfolding sort_by
  In-sort_by a [] = (λ h. h, λ h. h)
  In-sort_by a (x ∷ xs) = grind (arith, In-place a x (sort_by xs), In-sort_by a xs)

  -- No element comes before one that is less than it.
  abbrev pub IsSorted : List A → Type 0
  IsSorted [] = Unit
  IsSorted (x ∷ xs) = All (λ y. less y x ≡ false) xs × IsSorted xs

  -- Every element is less than those that follow it.
  abbrev pub IsStrict : List A → Type 0
  IsStrict [] = Unit
  IsStrict (x ∷ xs) = All (λ y. less x y ≡ true) xs × IsStrict xs

-- What a `less` function of `sort.Slice` must be: a strict weak order.
pub record IsWeakOrder {A : Type 0} (less : A → A → Bool) : Type 0 where
  pub asym : (a b : A) → less a b ≡ true → less b a ≡ false
  pub trans : (a b c : A) → less b a ≡ false → less c b ≡ false → less c a ≡ false

module _ {A : Type 0} (less : A → A → Bool) (o : IsWeakOrder less) where
  place-IsSorted : (x : A) (ys : List A) → IsSorted less ys → IsSorted less (place less x ys)
  unfolding place
  place-IsSorted x [] s = (tt, tt)
  place-IsSorted x (y ∷ ys) s = elim (Bool-cases (less y x)) [
    | inl l ↦ rw l (
      All-of (λ z. less z y ≡ false) (place less x ys)
          (λ z i. elim ((In-place less z x ys).0 i) [
            | inl e ↦ rw e (o.asym y x l)
            | inr k ↦ All_at (λ z. less z y ≡ false) ys z s.0 k
          ]),
      place-IsSorted x ys s.1,
    )
    | inr g ↦ rw g (
      (
        g,
        All-of (λ z. less z x ≡ false) ys
            (λ z i. o.trans x y z g (All_at (λ z. less z y ≡ false) ys z s.0 i)),
      ),
      s,
    )
  ]

  pub sort_by-IsSorted : (xs : List A) → IsSorted less (sort_by less xs)
  unfolding sort_by
  sort_by-IsSorted [] = tt
  sort_by-IsSorted (x ∷ xs) = place-IsSorted x (sort_by less xs) (sort_by-IsSorted xs)

  head_eq :
      (x y : A) (xs ys : List A)
      → All (λ z. less x z ≡ true) xs
      → All (λ z. less y z ≡ true) ys
      → In x (y ∷ ys)
      → In y (x ∷ xs)
      → x ≡ y
  head_eq x y xs ys h k (inl e) j = e
  head_eq x y xs ys h k (inr i) (inl e) = sym e
  head_eq x y xs ys h k (inr i) (inr j) =
      let a = All_at (λ z. less x z ≡ true) xs y h j in
      let b = All_at (λ z. less y z ≡ true) ys x k i in cc (o.asym x y a)

  tail_in :
      (x z : A) (xs ys : List A) → All (λ w. less x w ≡ true) xs → In z xs → In z (x ∷ ys) → In z ys
  tail_in x z xs ys h i (inr j) = j
  tail_in x z xs ys h i (inl e) =
      let a = subst (λ w. less x w ≡ true) e (All_at (λ w. less x w ≡ true) xs z h i) in
      cc (o.asym x x a)

  -- A strictly ordered list is determined by its elements.
  pub IsStrict-unique :
      (xs ys : List A)
      → IsStrict less xs
      → IsStrict less ys
      → ((a : A) → In a xs ↔ In a ys)
      → xs ≡ ys
  IsStrict-unique [] [] s t h = refl
  IsStrict-unique [] (y ∷ ys) s t h = absurd ((h y).1 (inl refl))
  IsStrict-unique (x ∷ xs) [] s t h = absurd ((h x).0 (inl refl))
  IsStrict-unique (x ∷ xs) (y ∷ ys) s t h =
      let e = head_eq x y xs ys s.0 t.0 ((h x).0 (inl refl)) ((h y).1 (inl refl)) in
      let rest = IsStrict-unique xs ys s.1 t.1 (λ a. (
        λ i. tail_in x a xs ys s.0 i (subst (λ w. In a (w ∷ ys)) (sym e) ((h a).0 (inr i))),
        λ i. tail_in y a ys xs t.0 i (subst (λ w. In a (w ∷ xs)) e ((h a).1 (inr i))),
      )) in
      cc

module _ {A : Type 0} where
  -- No element stands twice.
  abbrev pub IsDistinct : List A → Type 0
  IsDistinct [] = Unit
  IsDistinct (x ∷ xs) = (¬ In x xs) × IsDistinct xs

module _ {A : Type 0} (less : A → A → Bool) (o : IsWeakOrder less)
    (total : (a b : A) → less a b ≡ false → less b a ≡ false → a ≡ b) where
  less_trans : (x y z : A) → less x y ≡ true → less y z ≡ true → less x z ≡ true
  less_trans x y z h k = elim (Bool-cases (less x z)) [
    | inl e ↦ e
    | inr e ↦ cc (o.trans y z x (o.asym y z k) e)
  ]

  place-IsStrict :
      (x : A) (ys : List A) → (¬ In x ys) → IsStrict less ys → IsStrict less (place less x ys)
  unfolding place
  place-IsStrict x [] n s = (tt, tt)
  place-IsStrict x (y ∷ ys) n s = elim (Bool-cases (less y x)) [
    | inl l ↦ rw l (
      All-of (λ z. less y z ≡ true) (place less x ys)
          (λ z i. elim ((In-place less z x ys).0 i) [
            | inl e ↦ rw e l
            | inr j ↦ All_at (λ z. less y z ≡ true) ys z s.0 j
          ]),
      place-IsStrict x ys (λ i. n (inr i)) s.1,
    )
    | inr g ↦
        let xy : less x y ≡ true = elim (Bool-cases (less x y)) [
          | inl e ↦ e
          | inr e ↦ absurd (n (inl (total x y e g)))
        ] in
        rw g (
          (
            xy,
            All-of (λ z. less x z ≡ true) ys
                (λ z i. less_trans x y z xy (All_at (λ z. less y z ≡ true) ys z s.0 i)),
          ),
          s,
        )
  ]

  -- Sorting distinct elements by a total order gives a strictly increasing list.
  pub sort_by-IsStrict : (xs : List A) → IsDistinct xs → IsStrict less (sort_by less xs)
  unfolding sort_by
  sort_by-IsStrict [] d = tt
  sort_by-IsStrict (x ∷ xs) d =
      place-IsStrict x (sort_by less xs) (λ i. d.0 ((In-sort_by less x xs).0 i))
        (sort_by-IsStrict xs d.1)
