-- ===== src/Audit/Redaction/Idempotent.antt =====
-- internal/audit/redaction/redact.go: redacting a value that is redacted already.
use keleustes.Base.{◌≡◌, refl, ap, Str, ◌++◌, str, Option, none, some}
use mathlib.Core.Path.{ap₂}
use keleustes.Json.{
  Json, null, bool, float64, string, marker, array, object, Items, nil, cons, Fields, end, field,
}
use keleustes.Audit.Redaction.{
  match_rule, join_path, index_segment, mark_all, walked, walk, walk_items, walk_fields,
}

mark_all_idem : (cls : Str) (fs : Fields) → mark_all cls (mark_all cls fs) ≡ mark_all cls fs
unfolding mark_all
mark_all_idem cls end = refl
mark_all_idem cls (field k v fs) = ap (field k (marker cls)) (mark_all_idem cls fs)

-- What is stored at a key is stored there again.
walked_idem :
    (kind p : Str) (a b : Option Str) (v : Json)
    → walk kind p (walk kind p v) ≡ walk kind p v
    → walked a b (walked a b v (walk kind p v)) (walk kind p (walked a b v (walk kind p v)))
      ≡ walked a b v (walk kind p v)
unfolding walked walk
walked_idem kind p (some c) b v ih = refl
walked_idem kind p none none v ih = ih
walked_idem kind p none (some c) (object fs) ih = ap object (mark_all_idem c fs)
walked_idem kind p none (some c) null ih = refl
walked_idem kind p none (some c) (bool b) ih = refl
walked_idem kind p none (some c) (float64 s) ih = refl
walked_idem kind p none (some c) (string s) ih = refl
walked_idem kind p none (some c) (marker s) ih = refl
walked_idem kind p none (some c) (array vs) ih = ih

mutual
  unfolding walk

  walk_idem : (kind path : Str) (v : Json) → walk kind path (walk kind path v) ≡ walk kind path v
  walk_idem kind path (object fs) = ap object (walk_fields_idem kind path fs)
  walk_idem kind path (array vs) = ap array (walk_items_idem kind path vs)
  walk_idem kind path null = refl
  walk_idem kind path (bool b) = refl
  walk_idem kind path (float64 s) = refl
  walk_idem kind path (string s) = refl
  walk_idem kind path (marker s) = refl

  walk_items_idem :
      (kind path : Str) (vs : Items)
      → walk_items kind path (walk_items kind path vs) ≡ walk_items kind path vs
  walk_items_idem kind path nil = refl
  walk_items_idem kind path (cons v vs) =
      ap₂ cons (walk_idem kind (join_path path index_segment) v) (walk_items_idem kind path vs)

  walk_fields_idem :
      (kind path : Str) (fs : Fields)
      → walk_fields kind path (walk_fields kind path fs) ≡ walk_fields kind path fs
  walk_fields_idem kind path end = refl
  walk_fields_idem kind path (field k v fs) =
      ap₂ (field k)
        (walked_idem kind (join_path path k) (match_rule kind (join_path path k))
          (match_rule kind (join_path path k ++ str ".*")) v (walk_idem kind (join_path path k) v))
        (walk_fields_idem kind path fs)
