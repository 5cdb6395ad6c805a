-- ===== src/Audit/Redaction/Lookup.antt =====
-- What the walk leaves at a key of a map.
use mathlib.Core.Option
use keleustes.Base.{◌≡◌, refl, Str, str, Bool-cases, inl, inr, none, some, ◌==◌, ==_sound, ◌++◌}
use keleustes.Json.{Json, Fields, end, field, get, object, marker}
use keleustes.Audit.Redaction.{match_rule, join_path, walk, walk_fields, walked, mark_all}

-- What the walk stores for the value `v` of the key `k`.
unfoldable pub walk_at : Str → Str → Str → Json → Json
walk_at kind path k v =
    walked (match_rule kind (join_path path k)) (match_rule kind (join_path path k ++ str ".*")) v
      (walk kind (join_path path k) v)

pub get-walk_fields :
    (kind path k : Str) (fs : Fields)
    → get k (walk_fields kind path fs) ≡ Option.map (walk_at kind path k) (get k fs)
unfolding get walk
get-walk_fields kind path k end = refl
get-walk_fields kind path k (field j v fs) = elim (Bool-cases (j == k)) [
  | inl e ↦ rw e (unfold walk_at in cc (==_sound j k e))
  | inr e ↦ rw e (get-walk_fields kind path k fs)
]

pub get-mark_all :
    (cls k : Str) (fs : Fields) → get k (mark_all cls fs) ≡ Option.map (λ _. marker cls) (get k fs)
unfolding get mark_all
get-mark_all cls k end = refl
get-mark_all cls k (field j v fs) = elim (Bool-cases (j == k)) [
  | inl e ↦ rw e
  | inr e ↦ rw e (get-mark_all cls k fs)
]

module _ (kind path k : Str) where
  pub walk_at-match :
      (v : Json) {c : Str}
      → match_rule kind (join_path path k) ≡ some c
      → walk_at kind path k v ≡ marker c
  unfolding walk_at walked
  walk_at-match v h = rw h

  pub walk_at-container :
      (ds : Fields) {c : Str}
      → match_rule kind (join_path path k) ≡ none
      → match_rule kind (join_path path k ++ str ".*") ≡ some c
      → walk_at kind path k (object ds) ≡ object (mark_all c ds)
  unfolding walk_at walked
  walk_at-container ds h g = rw (h, g)

  pub walk_at-deep :
      (v : Json)
      → match_rule kind (join_path path k) ≡ none
      → match_rule kind (join_path path k ++ str ".*") ≡ none
      → walk_at kind path k v ≡ walk kind (join_path path k) v
  unfolding walk_at walked
  walk_at-deep v h g = rw (h, g)
