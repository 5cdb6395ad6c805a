-- ===== src/Json.antt =====
-- The values that the audit pipeline and the command line walk: Go's `any` as `encoding/json` fills
-- it, with the redaction marker of internal/audit/redaction/redact.go, a struct, among them. A
-- `map[string]any` is the list of its entries in the order of one iteration over it.
use keleustes.Base.{
  Bool, Option, none, some, Str, ◌==◌, ==_iff, if◌then◌else◌, List, [], ◌∷◌, ◌≡◌, refl, arith,
}

mutual
  pub data Json : Type 0 where
    null : Json
    bool : Bool → Json
    float64 : Str → Json
    string : Str → Json
    marker : Str → Json
    array : Items → Json
    object : Fields → Json

  pub data Items : Type 0 where
    nil : Items
    cons : Json → Items → Items

  pub data Fields : Type 0 where
    end : Fields
    field : Str → Json → Fields → Fields

-- `m[k]`.
unfoldable pub get : Str → Fields → Option Json
get k end = none
get k (field j v fs) = if j == k then some v else get k fs

-- The value behind a chain of keys, where every value on the way is a map.
unfoldable pub get_path : List Str → Json → Option Json
get_path [] v = some v
get_path (k ∷ ks) (object fs) = elim (get k fs) [ none ↦ none | some v ↦ get_path ks v ]
get_path (k ∷ ks) _ = none

pub get_path-step :
    (k : Str) (ks : List Str) (fs : Fields) {v : Json}
    → get k fs ≡ some v
    → get_path (k ∷ ks) (object fs) ≡ get_path ks v
unfolding get_path
get_path-step k ks fs h = rw (h, get_path)

-- `m[k] = v`: a new key goes to the end of the iteration order that the model fixes.
unfoldable pub put : Str → Json → Fields → Fields
put k v end = field k v end
put k v (field j w fs) = if j == k then field j v fs else field j w (put k v fs)

pub get-put :
    (k j : Str) (v : Json) (fs : Fields)
    → get j (put k v fs) ≡ (if k == j then some v else get j fs)
unfolding get put
get-put k j v end = refl
get-put k j v (field i w fs) = ground (arith, ==_iff k j, ==_iff i k, ==_iff i j, get-put k j v fs)
