-- ===== src/Audit/Redaction/Tokens.antt =====
-- internal/audit/redaction/redact.go: bearer tokens one level below the root.
use mathlib.Core.Option
use keleustes.Base.{
  ◌≡◌, ◌≢◌, refl, ap, ◌∙◌, sym, subst, Str, str, true, Option-cases, inl, inr, ◌⊎◌, none, some,
  ◌==◌, ==_false, ==_refl, [], ◌∷◌, ◌++◌, Lacks, split, split_of_Lacks, split-append, In,
}
use keleustes.Json.{Json, Fields, get, get_path, get_path-step, object, marker}
use keleustes.Audit.Redaction.{
  match_rule, join_path, mark_all, apply, default_rules, path_matches, Rule, class_bearer_token,
}
use keleustes.Audit.Redaction.Rules.{match_rule-none, first_rule_complete}
use keleustes.Audit.Redaction.Lookup.{walk_at-match, walk_at-container, get-mark_all}
use keleustes.Audit.Redaction.Secrets.{get_path-walk, deep_at}

-- No rule matches a path of one segment.
no_rule_at_root : (kind a : Str) → Lacks b'.' a → match_rule kind a ≡ none
unfolding path_matches ◌==◌
no_rule_at_root kind a h = match_rule-none kind a (rw (split_of_Lacks b'.' a h))

split_child : (a t : Str) → Lacks b'.' a → split b'.' (a ++ (str "." ++ t)) ≡ a ∷ split b'.' t
split_child a t h = split-append b'.' a t ∙ ap (λ u. u ++ split b'.' t) (split_of_Lacks b'.' a h)

-- The paths that the two rules for tokens match.
abbrev token_rule : Str → Rule
token_rule t = record {
  parent_kind = [];
  field_path = str "*." ++ t;
  class_name = class_bearer_token;
}

token_matches :
    (a t : Str)
    → Lacks b'.' a
    → (t ≡ str "token") ⊎ (t ≡ str "bearerToken")
    → (path_matches (str "*." ++ t) (a ++ (str "." ++ t)) ≡ true) × In (token_rule t) default_rules
unfolding path_matches ◌==◌
token_matches a t h (inl e) =
    subst
      (λ u.
        (path_matches (str "*." ++ u) (a ++ (str "." ++ u)) ≡ true)
        × In (token_rule u) default_rules)
      (sym e) (rw (split_child a (str "token") h), inr (inr (inr (inr (inr (inr (inl refl)))))))
token_matches a t h (inr e) =
    subst
      (λ u.
        (path_matches (str "*." ++ u) (a ++ (str "." ++ u)) ≡ true)
        × In (token_rule u) default_rules)
      (sym e)
      (rw (split_child a (str "bearerToken") h), inr (inr (inr (inr (inr (inr (inr (inl refl))))))))

some_rule :
    (kind a t : Str)
    → Lacks b'.' a
    → (t ≡ str "token") ⊎ (t ≡ str "bearerToken")
    → (c : Str) × (match_rule kind (a ++ (str "." ++ t)) ≡ some c)
unfolding match_rule
some_rule kind a t h e =
    let (m, i) = token_matches a t h e in
    first_rule_complete kind (a ++ (str "." ++ t)) default_rules (token_rule t) i refl m

root_path : (a : Str) → join_path [] a ≡ a
unfolding join_path
root_path a = rw (==_refl [])

child_path : (a t : Str) → a ≢ [] → join_path a t ≡ a ++ (str "." ++ t)
unfolding join_path
child_path a t h = rw (==_false a [] h)

-- In an object of any kind a `token` or `bearerToken` in a map directly under the root is replaced
-- by a marker, where the map's key is not empty and has no dot.
pub apply_token :
    (kind a t : Str) (fs ts : Fields) (v : Json)
    → a ≢ []
    → Lacks b'.' a
    → (t ≡ str "token") ⊎ (t ≡ str "bearerToken")
    → get a fs ≡ some (object ts)
    → get t ts ≡ some v
    → (c : Str) × (get_path (a ∷ t ∷ []) (apply kind (object fs)) ≡ some (marker c))
unfolding apply get_path
apply_token kind a t fs ts v ne h e ga gt =
    let n : match_rule kind (join_path [] a) ≡ none = rw (root_path a) (no_rule_at_root kind a h) in
    let start = get_path-walk kind [] a (t ∷ []) fs ga in
    elim (Option-cases (match_rule kind (join_path [] a ++ str ".*"))) [
      | inr (c, whole) ↦ (
        c,
        start
            ∙ ap (get_path (t ∷ [])) (walk_at-container kind [] a ts n whole)
            ∙ get_path-step t [] (mark_all c ts)
                (get-mark_all c t ts ∙ ap (Option.map (λ _. marker c)) gt),
      )
      | inl deep ↦
          let (c, found) = some_rule kind a t h e in
          let path = ap (λ p. join_path p t) (root_path a) ∙ child_path a t ne in
          (
            c,
            start
                ∙ deep_at kind [] a t [] ts n deep gt
                ∙ ap some (walk_at-match kind (join_path [] a) t v (rw path found)),
          )
    ]
