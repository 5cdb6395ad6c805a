-- ===== src/Audit/Emitter/Pairs.antt =====
-- internal/audit/emitter.go: the pairs of a verb and a payload.
use keleustes.Base.{
  ◌≡◌, ◌≢◌, refl, sym, ◌∙◌, ◌↔◌, ◌⊎◌, inl, inr, str, false, Bool-cases, Option, none, some, ◌==◌,
  ==_sound, ne_of_==, [],
}
use keleustes.Audit.Types.{Verb}
use keleustes.Audit.Payloads.{Payload, crd_write_v1, allowed_payload_type}
use keleustes.Audit.Emitter.{validate_payload_for_verb}

-- The verbs that write a custom resource.
abbrev pub IsWriteVerb : Verb → Type 0
IsWriteVerb v = (v ≡ str "create") ⊎ (v ≡ str "edit") ⊎ (v ≡ str "delete")

-- What the registry of the plan says, verb by verb.
abbrev pub IsRegistered : Verb → Option Payload → Type 0
IsRegistered v none = v ≡ str "view"
IsRegistered v (some p) = IsWriteVerb v × (p.audit_type ≡ crd_write_v1)

not-IsWriteVerb :
    (v : Verb)
    → (str "create" == v) ≡ false
    → (str "edit" == v) ≡ false
    → (str "delete" == v) ≡ false
    → ¬ IsWriteVerb v
not-IsWriteVerb v e f g (inl h) = ne_of_== (str "create") v e h
not-IsWriteVerb v e f g (inr (inl h)) = ne_of_== (str "edit") v f h
not-IsWriteVerb v e f g (inr (inr h)) = ne_of_== (str "delete") v g h

-- The look-up, in the order of the entries.
pub lookup_cases :
    (v : Verb)
    → (IsWriteVerb v × (allowed_payload_type v ≡ some crd_write_v1))
      ⊎ ((v ≡ str "view") × (allowed_payload_type v ≡ some []))
      ⊎ ((¬ IsWriteVerb v) × (v ≢ str "view") × (allowed_payload_type v ≡ none))
unfolding allowed_payload_type
lookup_cases v = elim (Bool-cases (str "create" == v)) [
  | inl e ↦ inl (inl (sym (==_sound (str "create") v e)), rw e)
  | inr e ↦ elim (Bool-cases (str "edit" == v)) [
    | inl f ↦ inl (inr (inl (sym (==_sound (str "edit") v f))), rw (e, f))
    | inr f ↦ elim (Bool-cases (str "delete" == v)) [
      | inl g ↦ inl (inr (inr (sym (==_sound (str "delete") v g))), rw (e, f, g))
      | inr g ↦ elim (Bool-cases (str "view" == v)) [
        | inl h ↦ inr (inl (sym (==_sound (str "view") v h), rw (e, f, g, h)))
        | inr h ↦ inr (inr (not-IsWriteVerb v e f g, ne_of_== (str "view") v h, rw (e, f, g, h)))
      ]
    ]
  ]
]

write_not_view : (v : Verb) → IsWriteVerb v → v ≢ str "view"
unfolding ◌==◌
write_not_view v (inl e) h = ne_of_== (str "view") (str "create") refl (sym e ∙ h)
write_not_view v (inr (inl e)) h = ne_of_== (str "view") (str "edit") refl (sym e ∙ h)
write_not_view v (inr (inr e)) h = ne_of_== (str "view") (str "delete") refl (sym e ∙ h)

pub validate_iff :
    (v : Verb) (p : Option Payload) → (validate_payload_for_verb v p ≡ none) ↔ IsRegistered v p
unfolding validate_payload_for_verb
validate_iff v none = elim (lookup_cases v) [
  | inl (w, e) ↦ rw e (λ h. cc, λ h. absurd (write_not_view v w h))
  | inr (inl (w, e)) ↦ rw e (λ h. w, λ h. refl)
  | inr (inr (w, n, e)) ↦ rw e (λ h. cc, λ h. absurd (n h))
]
validate_iff v (some p) = elim (lookup_cases v) [
  | inl (w, e) ↦ elim (Bool-cases (p.audit_type == crd_write_v1)) [
    | inl t ↦ rw (e, t) (λ h. (w, ==_sound p.audit_type crd_write_v1 t), λ h. refl)
    | inr t ↦ rw (e, t) (λ h. cc, λ h. absurd (ne_of_== p.audit_type crd_write_v1 t (sym h.1)))
  ]
  | inr (inl (w, e)) ↦ rw e (λ h. cc, λ h. absurd (write_not_view v h.0 w))
  | inr (inr (w, n, e)) ↦ rw e (λ h. cc, λ h. absurd (w h.0))
]
