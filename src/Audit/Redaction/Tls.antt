-- ===== src/Audit/Redaction/Tls.antt =====
-- The two rules for TLS material, whose patterns hold an escaped dot. The pattern is split at the
-- dot before the escape is undone, so it has three segments, the middle one `tls\`.
use keleustes.Base.{
  ◌≡◌, ◌≢◌, refl, ap, ◌∙◌, sym, subst, Str, str, inl, inr, ◌⊎◌, none, some, ◌==◌, [], ◌∷◌, ◌++◌, In,
}
use keleustes.Json.{string, object, Fields, get, get_path}
use keleustes.Audit.Redaction.{path_matches, match_rule, join_path, walk, apply}
use keleustes.Audit.Redaction.Rules.{match_rule-none}
use keleustes.Audit.Redaction.Lookup.{walk_at-deep}
use keleustes.Audit.Redaction.Secrets.{get_path-walk, deep_at}
use keleustes.Audit.Redaction.Frame.{sensitive_words, plain_none, star_plain, last-split}

abbrev IsTlsKey : Str → Type 0
IsTlsKey t = (t ≡ str "tls.crt") ⊎ (t ≡ str "tls.key")

abbrev data_path : Str
data_path = join_path [] (str "data")

-- No rule matches the key, nor the keys below it.
abbrev IsMissed : Str → Str → Type 0
IsMissed kind t =
    (match_rule kind (join_path data_path t) ≡ none)
    × (match_rule kind (join_path data_path t ++ str ".*") ≡ none)

missed : (kind t : Str) → IsTlsKey t → IsMissed kind t
unfolding path_matches join_path ◌==◌
missed kind t (inl e) =
    subst (IsMissed kind) (sym e) (match_rule-none kind _ refl, match_rule-none kind _ refl)
missed kind t (inr e) =
    subst (IsMissed kind) (sym e) (match_rule-none kind _ refl, match_rule-none kind _ refl)

data_missed :
    (kind : Str)
    → kind ≢ str "Secret"
    → (match_rule kind data_path ≡ none) × (match_rule kind (data_path ++ str ".*") ≡ none)
unfolding path_matches join_path ◌==◌
data_missed kind n = (
  match_rule-none kind _ refl,
  plain_none kind (str "data.*") n
      (subst (λ t. ¬ In t sensitive_words) (sym (last-split (str "data") (str "*"))) star_plain),
)

-- In an object that is no Secret a string at `data["tls.crt"]` or `data["tls.key"]` is left as it is:
-- neither of the rules for TLS material, nor any other rule, redacts it.
pub apply_tls_kept :
    (kind t s : Str) (fs ds : Fields)
    → kind ≢ str "Secret"
    → IsTlsKey t
    → get (str "data") fs ≡ some (object ds)
    → get t ds ≡ some (string s)
    → get_path (str "data" ∷ t ∷ []) (apply kind (object fs)) ≡ some (string s)
unfolding apply get_path walk
apply_tls_kept kind t s fs ds n k h g =
    let d = data_missed kind n in
    let m = missed kind t k in
    get_path-walk kind [] (str "data") (t ∷ []) fs h
    ∙ deep_at kind [] (str "data") t [] ds d.0 d.1 g
    ∙ ap some (walk_at-deep kind data_path t (string s) m.0 m.1)
