-- ===== src/Cli/Kinds/Resolve.antt =====
-- internal/cli/kinds.go: what an alias resolves to.
use mathlib.Core.List.{Perm}
use keleustes.Base.{
  map, subst, ◌<?◌, IsSorted, sort_by-perm, sort_by-IsSorted, <?-IsWeakOrder, ◌≡◌, ◌↔◌, refl, inl,
  inr, Bool, true, false, not, ◌&&◌, Bool-cases, Option-cases, none, some, Str, ◌==◌, ==_sound,
  ==_refl, to_lower, List, [], ◌∷◌, any, all, first, first_sound, any_of_In, In_of_any, all_at, In,
  arith,
}
use keleustes.Base.Result.{ok, err, ok-injective}
use keleustes.Cli.Kinds.{
  ResolvedKind, keleustes_kinds, has_alias, resolve_in, resolve_kind, last_alias, known_aliases,
  unknown_kind,
}

-- No alias of a kind is an alias of a later kind.
abbrev are_apart : List ResolvedKind → Bool
are_apart [] = true
are_apart (k ∷ ks) = all (λ a. not (any (has_alias a) ks)) k.aliases && are_apart ks

kinds_apart : are_apart keleustes_kinds ≡ true
unfolding keleustes_kinds ◌==◌
kinds_apart = refl

alias_of_any : (a : Str) (names : List Str) → any (λ x. x == a) names ≡ true → In a names
alias_of_any a names h =
    let (x, i, e) = In_of_any (λ x. x == a) names h in subst (λ y. In y names) (==_sound x a e) i

has_alias_of_In : (a : Str) (k : ResolvedKind) → In a k.aliases → has_alias a k ≡ true
has_alias_of_In a k i = any_of_In (λ x. x == a) a k.aliases i (==_refl a)

-- An alias of a later kind is none of the first.
later_alias :
    (a : Str) (j k : ResolvedKind) (ks : List ResolvedKind)
    → are_apart (j ∷ ks) ≡ true
    → In k ks
    → In a k.aliases
    → has_alias a j ≡ false
unfolding are_apart
later_alias a j k ks apart i m = elim (Bool-cases (has_alias a j)) [
  | inr n ↦ n
  | inl e ↦
      let d =
        all_at (λ x. not (any (has_alias x) ks)) a j.aliases (ground arith)
          (alias_of_any a j.aliases e) in
      let t = any_of_In (has_alias a) k ks i (has_alias_of_In a k m) in ground arith
]

first_apart :
    (a : Str) (k : ResolvedKind) (ks : List ResolvedKind)
    → are_apart ks ≡ true
    → In k ks
    → In a k.aliases
    → first (has_alias a) ks ≡ some k
first_apart a k [] apart i m = absurd i
first_apart a k (j ∷ ks) apart (inl e) m = let t = has_alias_of_In a k m in rw (← e, t) refl
first_apart a k (j ∷ ks) apart (inr i) m =
    rw (later_alias a j k ks apart i m) (first_apart a k ks (ground arith) i m)

-- A name resolves to a kind exactly if the kind is registered and the name, in lower case, is one
-- of its aliases.
pub resolve_kind_iff :
    (s : Str) (k : ResolvedKind)
    → (resolve_kind s ≡ ok k) ↔ (In k keleustes_kinds × In (to_lower s) k.aliases)
unfolding resolve_kind
resolve_kind_iff s k = (
  (λ h. elim (Option-cases (resolve_in (to_lower s) keleustes_kinds)) [
    | inl missing' ↦ cc (rw missing' at h)
    | inr (j, found') ↦
        let e : j ≡ k = ok-injective (rw found' at h) in
        let f = first_sound (has_alias (to_lower s)) keleustes_kinds found' in
        subst (λ l. In l keleustes_kinds × In (to_lower s) l.aliases) e
          (f.1, alias_of_any (to_lower s) j.aliases (f.0))
  ]),
  (λ h. rw (first_apart (to_lower s) k keleustes_kinds kinds_apart (h.0) (h.1)) refl),
)

not_found_in :
    (key : Str) (ks : List ResolvedKind)
    → ((k : ResolvedKind) → In k ks → ¬ In key k.aliases)
    → first (has_alias key) ks ≡ none
not_found_in key [] h = refl
not_found_in key (k ∷ ks) h = elim (Bool-cases (has_alias key k)) [
  | inl e ↦ absurd (h k (inl refl) (alias_of_any key k.aliases e))
  | inr n ↦ rw n (not_found_in key ks (λ j i. h j (inr i)))
]

last_is_resource :
    map (λ (k : ResolvedKind). last_alias k.aliases) keleustes_kinds
    ≡ map (λ (k : ResolvedKind). k.gvr.resource) keleustes_kinds
unfolding keleustes_kinds
last_is_resource = refl

-- A name that is, in lower case, no alias of any kind is refused; the message lists the plural
-- resource names of all kinds, in order.
pub resolve_kind_unknown :
    (s : Str)
    → ((k : ResolvedKind) → In k keleustes_kinds → ¬ In (to_lower s) k.aliases)
    → (names : List Str) × (resolve_kind s ≡ err (unknown_kind s names))
      × Perm names (map (λ (k : ResolvedKind). k.gvr.resource) keleustes_kinds)
      × IsSorted ◌<?◌ names
unfolding resolve_kind known_aliases
resolve_kind_unknown s h = (
  known_aliases,
  rw (not_found_in (to_lower s) keleustes_kinds h) refl,
  subst (λ l. Perm known_aliases l) last_is_resource
      (sort_by-perm ◌<?◌ (map (λ (k : ResolvedKind). last_alias k.aliases) keleustes_kinds)),
  sort_by-IsSorted ◌<?◌ <?-IsWeakOrder
      (map (λ (k : ResolvedKind). last_alias k.aliases) keleustes_kinds),
)
