-- ===== src/Cli/Describe/Writes.antt =====
-- internal/cli/describe.go: what reaches the writer of a description.
use keleustes.Base.{
  ◌≡◌, ◌⊎◌, inl, inr, refl, sym, ap, subst, Option, Option-cases, none, some, Str, List, [], ◌∷◌,
  ◌++◌,
}
use keleustes.Cli.Kinds.{ResolvedKind}
use keleustes.Cli.Describe.{
  ErrWriter, printf, print_all, Described, Layout, describe_lines, render_describe,
}

module _ {W : Type 0} (write : W → Str → W × Option Str) where
  -- The texts were written one after another, each without an error, from one state to another.
  pub data Written : W → List Str → W → Type 0 where
    none_left : {w : W} → Written w [] w
    wrote :
        {w v u : W} {text : Str} {texts : List Str}
        → write w text ≡ (v, none)
        → Written v texts u
        → Written w (text ∷ texts) u

  -- After the first error no call writes.
  printed_nothing :
      (w : W) (e : Str) (texts : List Str)
      → print_all write (record { w = w; error = some e }) texts ≡ record { w = w; error = some e }
  unfolding printf
  printed_nothing w e [] = refl
  printed_nothing w e (text ∷ texts) = printed_nothing w e texts

  -- All texts were written, or those before one whose write failed.
  abbrev pub WrittenUntil : W → List Str → ErrWriter W → Type 0
  WrittenUntil w texts ew =
      ((ew.error ≡ none) × Written w texts ew.w)
      ⊎ ((before : List Str) × (text : Str) × (after : List Str) × (v : W) × (e : Str) × (texts
            ≡ before ++ text ∷ after)
          × Written w before v
          × (write v text ≡ (ew.w, some e))
          × (ew.error ≡ some e))

  print_all-WrittenUntil :
      (w : W) (texts : List Str)
      → WrittenUntil w texts (print_all write (record { w = w; error = none }) texts)
  unfolding printf
  print_all-WrittenUntil w [] = inl (refl, none_left)
  print_all-WrittenUntil w (text ∷ texts) = elim (Option-cases (write w text).1) [
    | inl n ↦ subst Goal (sym n) (elim (print_all-WrittenUntil v texts) [
      | inl (z, all') ↦ inl (z, wrote (ap (λ e. (v, e)) n) all')
      | inr (before, t, after, u, e, split', first', fail', error') ↦ inr (
        text ∷ before,
        t,
        after,
        u,
        e,
        ap (λ ts. text ∷ ts) split',
        wrote (ap (λ e. (v, e)) n) first',
        fail',
        error',
      )
    ])
    | inr (e, s) ↦ subst Goal (sym s) (
        rw (printed_nothing v e texts)
          (inr ([], text, texts, w, e, refl, none_left, ap (λ f. (v, f)) s, refl)))
  ]
    where
      v : W
      v = (write w text).0

      Goal : Option Str → Type 0
      Goal e = WrittenUntil w (text ∷ texts) (print_all write (record { w = v; error = e }) texts)

  -- What reaches the writer of a description is its lines in their order: all of them, and no error
  -- is returned, or those before one whose write fails, and that error is returned; nothing is
  -- written after it.
  pub render_describe-WrittenUntil :
      (l : Layout) (kind : ResolvedKind) (obj : Described) (w : W)
      → WrittenUntil w (describe_lines l kind obj) (render_describe l write w kind obj)
  unfolding render_describe
  render_describe-WrittenUntil l kind obj w = print_all-WrittenUntil w (describe_lines l kind obj)
