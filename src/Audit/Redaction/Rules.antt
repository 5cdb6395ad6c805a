-- ===== src/Audit/Redaction/Rules.antt =====
-- Which rule the loop of `matchRule` takes.
use keleustes.Base.{
  ◌≡◌, ◌∙◌, get_or, drop, refl, Str, str, Bool, true, false, not, ◌&&◌, none, some, List, [], ◌∷◌,
  In, all, Bool-cases, inl, inr, ◌⊎◌, ◌==◌, ==_sound, ==_refl, arith,
}
use keleustes.Audit.Redaction.{Rule, default_rules, path_matches, first_rule, match_rule}

-- The rule is meant for objects of this kind.
abbrev pub Applies : Str → Rule → Type 0
Applies kind r = (r.parent_kind ≡ []) ⊎ (r.parent_kind ≡ kind)

Applies-of :
    (kind : Str) (r : Rule)
    → (not (r.parent_kind == []) && not (r.parent_kind == kind)) ≡ false
    → Applies kind r
Applies-of kind r h = elim (Bool-cases (r.parent_kind == [])) [
  | inl e ↦ inl (==_sound r.parent_kind [] e)
  | inr e ↦ inr (==_sound r.parent_kind kind (ground arith))
]

-- A class that is returned is the class of a listed rule for the kind that matches the path.
pub first_rule_sound :
    (kind path : Str) (rs : List Rule) {c : Str}
    → first_rule kind path rs ≡ some c
    → (r : Rule) × In r rs
      × Applies kind r
      × (path_matches r.field_path path ≡ true)
      × (r.class_name ≡ c)
unfolding first_rule
first_rule_sound kind path [] h = cc
first_rule_sound kind path (r ∷ rs) {c} h =
    elim (Bool-cases (not (r.parent_kind == []) && not (r.parent_kind == kind))) [
      | inl skip ↦
          let (s, i, a, m, e) = first_rule_sound kind path rs {c = c} (rw skip at h) in
          (s, inr i, a, m, e)
      | inr use' ↦ elim (Bool-cases (path_matches r.field_path path)) [
        | inl m ↦ (r, inl refl, Applies-of kind r use', m, ground arith)
        | inr m ↦
            let (s, i, a, n, e) = first_rule_sound kind path rs {c = c} (ground arith) in
            (s, inr i, a, n, e)
      ]
    ]

-- Rules whose patterns do not match are passed over, whatever the kind.
abbrev pub misses : Str → List Rule → Bool
misses path rs = all (λ r. not (path_matches r.field_path path)) rs

pub first_rule-miss :
    (kind path : Str) (r : Rule) (rs : List Rule)
    → path_matches r.field_path path ≡ false
    → first_rule kind path (r ∷ rs) ≡ first_rule kind path rs
unfolding first_rule
first_rule-miss kind path r rs h = ground arith

pub first_rule-none :
    (kind path : Str) (rs : List Rule) → misses path rs ≡ true → first_rule kind path rs ≡ none
unfolding first_rule
first_rule-none kind path [] h = refl
first_rule-none kind path (r ∷ rs) h = ground (arith, first_rule-none kind path rs)

pub match_rule-none :
    (kind path : Str) → misses path default_rules ≡ true → match_rule kind path ≡ none
unfolding match_rule
match_rule-none kind path h = first_rule-none kind path default_rules h

abbrev no_rule : Rule
no_rule = record { parent_kind = []; field_path = []; class_name = [] }

-- The rules that are for no kind in particular.
abbrev pub common_rules : List Rule
common_rules = drop 2 default_rules

-- The two rules for Secrets do not match the path.
pub match_rule-common :
    (kind path : Str)
    → path_matches (str "data.*") path ≡ false
    → path_matches (str "stringData.*") path ≡ false
    → match_rule kind path ≡ first_rule kind path common_rules
unfolding match_rule
match_rule-common kind path d s =
    first_rule-miss kind path (get_or default_rules 0 no_rule) (drop 1 default_rules) d
    ∙ first_rule-miss kind path (get_or default_rules 1 no_rule) common_rules s

-- A rule for all kinds whose pattern matches leads to some class.
pub first_rule_complete :
    (kind path : Str) (rs : List Rule) (r : Rule)
    → In r rs
    → r.parent_kind ≡ []
    → path_matches r.field_path path ≡ true
    → (c : Str) × (first_rule kind path rs ≡ some c)
unfolding first_rule
first_rule_complete kind path [] r i p m = absurd i
first_rule_complete kind path (s ∷ rs) r (inl e) p m =
    let applies : (s.parent_kind == []) ≡ true = rw (← e, p) (==_refl []) in
    let matches : path_matches s.field_path path ≡ true = rw (← e) m in
    (s.class_name, rw (applies, matches))
first_rule_complete kind path (s ∷ rs) r (inr i) p m =
    let (c, found) = first_rule_complete kind path rs r i p m in
    elim (Bool-cases (not (s.parent_kind == []) && not (s.parent_kind == kind))) [
      | inl skip ↦ (c, rw skip found)
      | inr use' ↦ elim (Bool-cases (path_matches s.field_path path)) [
        | inl hit ↦ (s.class_name, rw (use', hit))
        | inr miss ↦ (c, rw (use', miss) found)
      ]
    ]
