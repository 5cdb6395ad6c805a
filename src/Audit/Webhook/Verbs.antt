-- ===== src/Audit/Webhook/Verbs.antt =====
-- internal/audit/webhook/handler.go: which operations are audited.
use keleustes.Base.{
  ◌≡◌, refl, sym, ◌⊎◌, inl, inr, Str, str, false, Bool-cases, none, some, ◌==◌, ==_sound, ne_of_==,
}
use keleustes.Audit.Types.{Verb}
use keleustes.Audit.Emitter.Pairs.{IsWriteVerb}
use keleustes.Audit.Webhook.{verb_for}

-- The operations that change an object.
abbrev pub IsWrite : Str → Type 0
IsWrite op = (op ≡ str "CREATE") ⊎ (op ≡ str "UPDATE") ⊎ (op ≡ str "DELETE")

not-IsWrite :
    (op : Str)
    → (op == str "CREATE") ≡ false
    → (op == str "UPDATE") ≡ false
    → (op == str "DELETE") ≡ false
    → ¬ IsWrite op
not-IsWrite op e f g (inl h) = ne_of_== op (str "CREATE") e (sym h)
not-IsWrite op e f g (inr (inl h)) = ne_of_== op (str "UPDATE") f (sym h)
not-IsWrite op e f g (inr (inr h)) = ne_of_== op (str "DELETE") g (sym h)

pub verb_for_cases :
    (op : Str)
    → (IsWrite op × (v : Verb) × (verb_for op ≡ some v) × IsWriteVerb v)
      ⊎ ((¬ IsWrite op) × (verb_for op ≡ none))
unfolding verb_for
verb_for_cases op = elim (Bool-cases (op == str "CREATE")) [
  | inl e ↦ inl (inl (==_sound op (str "CREATE") e), str "create", rw e, inl refl)
  | inr e ↦ elim (Bool-cases (op == str "UPDATE")) [
    | inl f ↦ inl (inr (inl (==_sound op (str "UPDATE") f)), str "edit", rw (e, f), inr (inl refl))
    | inr f ↦ elim (Bool-cases (op == str "DELETE")) [
      | inl g ↦
          inl (inr (inr (==_sound op (str "DELETE") g)), str "delete", rw (e, f, g), inr (inr refl))
      | inr g ↦ inr (not-IsWrite op e f g, rw (e, f, g))
    ]
  ]
]
