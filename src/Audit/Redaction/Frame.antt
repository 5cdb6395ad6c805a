-- ===== src/Audit/Redaction/Frame.antt =====
-- internal/audit/redaction/redact.go: what the walk leaves alone.
use mathlib.Core.Path.{ap₂}
use keleustes.Base.{
  ◌≡◌, ◌≢◌, refl, ap, ◌∙◌, sym, subst, Str, str, true, Bool-cases, Option-cases, inl, inr, none,
  ◌==◌, ==_sound, List, [], ◌∷◌, ◌++◌, arith, length, split, split-append, split-ne-nil, In, All,
  All_at,
}
use keleustes.Json.{
  Json, null, bool, float64, string, marker, array, object, Items, nil, cons, Fields, end, field,
}
use keleustes.Audit.Redaction.{
  Rule, default_rules, unescape, segment_matches, segments_match, path_matches, match_rule,
  join_path, walk, walk_fields, walk_items, index_segment, walked, apply,
}
use keleustes.Audit.Redaction.Rules.{common_rules, first_rule_sound, Applies}

abbrev pub last : List Str → Str
last [] = []
last (p ∷ []) = p
last (p ∷ q ∷ ps) = last (q ∷ ps)

-- The last segments of the rules that are not for Secrets alone.
abbrev pub sensitive_words : List Str
sensitive_words =
    str "secret" ∷ str "secretRef" ∷ str "crt" ∷ str "key" ∷ str "token" ∷ str "bearerToken" ∷ []

-- The last dotted segment of the key is none of them.
abbrev pub IsPlainKey : Str → Type 0
IsPlainKey k = ¬ In (last (split b'.' k)) sensitive_words

abbrev mutual
  -- Every key, at every depth, is plain.
  pub IsPlain : Json → Type 0
  IsPlain (object fs) = ArePlainFields fs
  IsPlain (array vs) = ArePlainItems vs
  IsPlain v = Unit

  pub ArePlainItems : Items → Type 0
  ArePlainItems nil = Unit
  ArePlainItems (cons v vs) = IsPlain v × ArePlainItems vs

  pub ArePlainFields : Fields → Type 0
  ArePlainFields end = Unit
  ArePlainFields (field k v fs) = IsPlainKey k × IsPlain v × ArePlainFields fs

last-append : (ps qs : List Str) → qs ≢ [] → last (ps ++ qs) ≡ last qs
unfolding last
last-append [] qs h = refl
last-append (p ∷ []) [] h = absurd (h refl)
last-append (p ∷ []) (q ∷ qs) h = refl
last-append (p ∷ r ∷ ps) qs h = last-append (r ∷ ps) qs h

last_matches :
    (ps ts : List Str)
    → length ps ≡ length ts
    → ps ≢ []
    → segments_match ps ts ≡ true
    → segment_matches (last ps) (last ts) ≡ true
unfolding last segments_match
last_matches [] ts l n m = absurd (n refl)
last_matches (p ∷ ps) [] l n m = absurd (omega arith)
last_matches (p ∷ []) (t ∷ []) l n m = ground arith
last_matches (p ∷ []) (t ∷ u ∷ ts) l n m = absurd (omega arith)
last_matches (p ∷ q ∷ ps) (t ∷ []) l n m = absurd (omega arith)
last_matches (p ∷ q ∷ ps) (t ∷ u ∷ ts) l n m =
    last_matches (q ∷ ps) (u ∷ ts) (omega arith) (cc) (ground arith)

-- Each rule that is not for Secrets alone ends in a plain word of the list.
abbrev EndsInWord : Rule → Type 0
EndsInWord r =
    In (unescape (last (split b'.' r.field_path))) sensitive_words
    × (unescape (last (split b'.' r.field_path)) ≢ str "*")

common_words : All EndsInWord common_rules
unfolding unescape split last
common_words = (
  (inl refl, λ e. cc),
  (
    (inr (inl refl), λ e. cc),
    (
      (inr (inr (inl refl)), λ e. cc),
      (
        (inr (inr (inr (inl refl))), λ e. cc),
        (
          (inr (inr (inr (inr (inl refl)))), λ e. cc),
          ((inr (inr (inr (inr (inr (inl refl))))), λ e. cc), tt),
        ),
      ),
    ),
  ),
)

segment_eq : (p t : Str) → segment_matches p t ≡ true → unescape p ≢ str "*" → unescape p ≡ t
unfolding segment_matches
segment_eq p t m n = elim (Bool-cases (unescape p == str "*")) [
  | inl e ↦ absurd (n (==_sound (unescape p) (str "*") e))
  | inr e ↦ ==_sound (unescape p) t (ground arith)
]

path_length :
    (p t : Str)
    → path_matches p t ≡ true
    → (length (split b'.' p) ≡ length (split b'.' t))
      × (segments_match (split b'.' p) (split b'.' t) ≡ true)
unfolding path_matches
path_length p t h = ground arith

-- A rule that matches a path ends in the path's last segment.
common_last :
    (r : Rule) (path : Str)
    → In r common_rules
    → path_matches r.field_path path ≡ true
    → In (last (split b'.' path)) sensitive_words
common_last r path i m =
    let w = All_at EndsInWord common_rules r common_words i in
    let (l, s) = path_length r.field_path path m in
    let e =
      segment_eq (last (split b'.' r.field_path)) (last (split b'.' path))
        (last_matches (split b'.' r.field_path) (split b'.' path) l (split-ne-nil b'.' r.field_path)
          s)
        w.1 in
    subst (λ t. In t sensitive_words) e w.0

in_common :
    (kind : Str) (r : Rule)
    → kind ≢ str "Secret"
    → In r default_rules
    → Applies kind r
    → In r common_rules
in_common kind r n (inl e) (inl p) = cc
in_common kind r n (inl e) (inr p) = absurd (n (sym p ∙ ap (λ (s : Rule). s.parent_kind) e))
in_common kind r n (inr (inl e)) (inl p) = cc
in_common kind r n (inr (inl e)) (inr p) = absurd (n (sym p ∙ ap (λ (s : Rule). s.parent_kind) e))
in_common kind r n (inr (inr i)) a = i

-- No rule matches a path that ends in a plain segment.
pub plain_none :
    (kind path : Str)
    → kind ≢ str "Secret"
    → ¬ In (last (split b'.' path)) sensitive_words
    → match_rule kind path ≡ none
unfolding match_rule
plain_none kind path n h = elim (Option-cases (match_rule kind path)) [
  | inl e ↦ e
  | inr (c, e) ↦
      let (r, i, a, m, _) = first_rule_sound kind path default_rules e in
      absurd (h (common_last r path (in_common kind r n i a) m))
]

pub last-split : (p k : Str) → last (split b'.' (p ++ b'.' ∷ k)) ≡ last (split b'.' k)
last-split p k =
    ap last (split-append b'.' p k)
    ∙ last-append (split b'.' p) (split b'.' k) (split-ne-nil b'.' k)

last-join_path : (path k : Str) → last (split b'.' (join_path path k)) ≡ last (split b'.' k)
unfolding join_path
last-join_path path k = elim (Bool-cases (path == [])) [
  | inl e ↦ rw e
  | inr e ↦ rw e (last-split path k)
]

pub star_plain : ¬ In (last (split b'.' (str "*"))) sensitive_words
unfolding last split
star_plain h = ground arith

module _ (kind : Str) (n : kind ≢ str "Secret") where
  mutual
    unfolding walk walked

    walk_plain : (path : Str) (v : Json) → IsPlain v → walk kind path v ≡ v
    walk_plain path (object fs) h = ap object (walk_plain_fields path fs h)
    walk_plain path (array vs) h = ap array (walk_plain_items path vs h)
    walk_plain path null h = refl
    walk_plain path (bool b) h = refl
    walk_plain path (float64 s) h = refl
    walk_plain path (string s) h = refl
    walk_plain path (marker s) h = refl

    walk_plain_items : (path : Str) (vs : Items) → ArePlainItems vs → walk_items kind path vs ≡ vs
    walk_plain_items path nil h = refl
    walk_plain_items path (cons v vs) h =
        ap₂ cons (walk_plain (join_path path index_segment) v h.0) (walk_plain_items path vs h.1)

    walk_plain_fields :
        (path : Str) (fs : Fields) → ArePlainFields fs → walk_fields kind path fs ≡ fs
    walk_plain_fields path end h = refl
    walk_plain_fields path (field k v fs) h =
        let own = plain_none kind (join_path path k) n (rw (last-join_path path k) h.0) in
        let below =
          plain_none kind (join_path path k ++ str ".*") n
            (rw (last-split (join_path path k) (str "*")) star_plain) in
        rw (own, below)
          (ap₂ (field k) (walk_plain (join_path path k) v h.1) (walk_plain_fields path fs h.2))

-- An object that is no Secret and has no key, at any depth, whose last dotted segment is one of the
-- words secret, secretRef, crt, key, token and bearerToken, with which the rules for all kinds end, is
-- left as it is, whatever else it holds: also an Authorization header or a certificate in PEM form.
pub apply_plain : (kind : Str) (v : Json) → kind ≢ str "Secret" → IsPlain v → apply kind v ≡ v
unfolding apply
apply_plain kind v n h = walk_plain kind n [] v h
