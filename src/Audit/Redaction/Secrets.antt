-- ===== src/Audit/Redaction/Secrets.antt =====
-- internal/audit/redaction/redact.go: the values of Secrets and of webhooks under the walk.
use mathlib.Core.Option
use keleustes.Base.{
  ◌≡◌, refl, ap, ◌∙◌, Str, str, inl, inr, ◌⊎◌, none, some, ◌==◌, List, [], ◌∷◌, ◌++◌, sym, subst,
}
use keleustes.Json.{Json, Fields, get, get_path, get_path-step, object, marker}
use keleustes.Audit.Redaction.{
  match_rule, join_path, walk, walk_fields, mark_all, apply, class_secret_bytes,
  class_webhook_secret, first_rule, path_matches,
}
use keleustes.Audit.Redaction.Rules.{match_rule-none, match_rule-common}
use keleustes.Audit.Redaction.Lookup.{
  walk_at, walk_at-match, walk_at-container, walk_at-deep, get-walk_fields, get-mark_all,
}

pub get_path-walk :
    (kind path f : Str) (ks : List Str) (fs : Fields) {v : Json}
    → get f fs ≡ some v
    → get_path (f ∷ ks) (walk kind path (object fs)) ≡ get_path ks (walk_at kind path f v)
unfolding walk
get_path-walk kind path f ks fs {v} h =
    get_path-step f ks (walk_fields kind path fs)
      (get-walk_fields kind path f fs ∙ ap (Option.map (walk_at kind path f)) h)

secret_at :
    (f k : Str) (ds : Fields) (v : Json)
    → match_rule (str "Secret") (join_path [] f) ≡ none
    → match_rule (str "Secret") (join_path [] f ++ str ".*") ≡ some class_secret_bytes
    → get k ds ≡ some v
    → get_path (k ∷ []) (walk_at (str "Secret") [] f (object ds)) ≡ some (marker class_secret_bytes)
unfolding get_path
secret_at f k ds v e c h =
    ap (get_path (k ∷ [])) (walk_at-container (str "Secret") [] f ds e c)
    ∙ get_path-step k [] (mark_all class_secret_bytes ds)
        (get-mark_all class_secret_bytes k ds ∙ ap (Option.map (λ _. marker class_secret_bytes)) h)

-- Below the field every key is redacted.
abbrev IsBlanket : Str → Type 0
IsBlanket f =
    (match_rule (str "Secret") (join_path [] f) ≡ none)
    × (match_rule (str "Secret") (join_path [] f ++ str ".*") ≡ some class_secret_bytes)

data-IsBlanket : IsBlanket (str "data")
unfolding match_rule join_path ◌==◌
data-IsBlanket = (refl, refl)

string_data-IsBlanket : IsBlanket (str "stringData")
unfolding match_rule join_path ◌==◌
string_data-IsBlanket = (refl, refl)

of_field : (f : Str) → (f ≡ str "data") ⊎ (f ≡ str "stringData") → IsBlanket f
of_field f (inl e) = subst IsBlanket (sym e) data-IsBlanket
of_field f (inr e) = subst IsBlanket (sym e) string_data-IsBlanket

-- In a Secret every value under `data` or `stringData`, where that is a map, is replaced by the
-- marker for secret bytes, whatever its key.
pub apply_secret :
    (f k : Str) (fs ds : Fields) (v : Json)
    → (f ≡ str "data") ⊎ (f ≡ str "stringData")
    → get f fs ≡ some (object ds)
    → get k ds ≡ some v
    → get_path (f ∷ k ∷ []) (apply (str "Secret") (object fs)) ≡ some (marker class_secret_bytes)
unfolding apply
apply_secret f k fs ds v e h g =
    let b = of_field f e in
    get_path-walk (str "Secret") [] f (k ∷ []) fs h ∙ secret_at f k ds v b.0 b.1 g

-- A map at a path where no rule matches is entered.
pub deep_at :
    (kind path f g : Str) (ks : List Str) (ws : Fields) {v : Json}
    → match_rule kind (join_path path f) ≡ none
    → match_rule kind (join_path path f ++ str ".*") ≡ none
    → get g ws ≡ some v
    → get_path (g ∷ ks) (walk_at kind path f (object ws))
      ≡ get_path ks (walk_at kind (join_path path f) g v)
deep_at kind path f g ks ws d e h =
    ap (get_path (g ∷ ks)) (walk_at-deep kind path f (object ws) d e)
    ∙ get_path-walk kind (join_path path f) g ks ws h

spec_path : join_path [] (str "spec") ≡ str "spec"
unfolding join_path ◌==◌
spec_path = refl

webhook_path : join_path (join_path [] (str "spec")) (str "webhook") ≡ str "spec.webhook"
unfolding join_path ◌==◌
webhook_path = refl

no_spec_rule :
    (kind : Str)
    → (match_rule kind (str "spec") ≡ none)
      × (match_rule kind (str "spec.*") ≡ none)
      × (match_rule kind (str "spec.webhook") ≡ none)
      × (match_rule kind (str "spec.webhook.*") ≡ none)
unfolding path_matches ◌==◌
no_spec_rule kind = (
  match_rule-none kind _ refl,
  match_rule-none kind _ refl,
  match_rule-none kind _ refl,
  match_rule-none kind _ refl,
)

webhook_rule :
    (kind : Str)
    → (match_rule kind (str "spec.webhook.secret") ≡ some class_webhook_secret)
      × (match_rule kind (str "spec.webhook.secretRef") ≡ some class_webhook_secret)
unfolding first_rule ◌==◌
webhook_rule kind = (
  match_rule-common kind (str "spec.webhook.secret") refl refl,
  match_rule-common kind (str "spec.webhook.secretRef") refl refl,
)

secret_path : (s : Str) → join_path (str "spec.webhook") s ≡ str "spec.webhook." ++ s
unfolding join_path ◌==◌
secret_path s = refl

rule_of :
    (kind s : Str)
    → (s ≡ str "secret") ⊎ (s ≡ str "secretRef")
    → match_rule kind (str "spec.webhook." ++ s) ≡ some class_webhook_secret
rule_of kind s (inl e) =
    subst (λ t. match_rule kind (str "spec.webhook." ++ t) ≡ some class_webhook_secret) (sym e)
      (webhook_rule kind).0
rule_of kind s (inr e) =
    subst (λ t. match_rule kind (str "spec.webhook." ++ t) ≡ some class_webhook_secret) (sym e)
      (webhook_rule kind).1

-- In an object of any kind a value at `spec.webhook.secret` or `spec.webhook.secretRef` is
-- replaced by the marker for webhook secrets.
pub apply_webhook :
    (kind s : Str) (fs ws hs : Fields) (v : Json)
    → (s ≡ str "secret") ⊎ (s ≡ str "secretRef")
    → get (str "spec") fs ≡ some (object ws)
    → get (str "webhook") ws ≡ some (object hs)
    → get s hs ≡ some v
    → get_path (str "spec" ∷ str "webhook" ∷ s ∷ []) (apply kind (object fs))
      ≡ some (marker class_webhook_secret)
unfolding apply get_path
apply_webhook kind s fs ws hs v which h g e =
    let n = no_spec_rule kind in
    get_path-walk kind [] (str "spec") (str "webhook" ∷ s ∷ []) fs h
    ∙ deep_at kind [] (str "spec") (str "webhook") (s ∷ []) ws (rw spec_path n.0) (rw spec_path n.1)
        g
    ∙ deep_at kind (join_path [] (str "spec")) (str "webhook") s [] hs (rw webhook_path n.2)
        (rw webhook_path n.3) e
    ∙ ap some (
        walk_at-match kind (join_path (join_path [] (str "spec")) (str "webhook")) s v
          (rw (webhook_path, secret_path s) (rule_of kind s which)))
