-- ===== src/Audit/Redaction.antt =====
-- internal/audit/redaction/redact.go: the redaction rules and the walk that applies them. The walk
-- writes into the maps of its argument; the model returns the value that they then hold.
mod Lookup
mod Rules
pub mod Secrets
pub mod Tokens
pub mod Idempotent
pub mod Frame
pub mod Tls
use keleustes.Base.{
  Bool, true, false, ◌&&◌, ◌||◌, not, Option, none, some, Str, str, ◌==◌, if◌then◌else◌, List, [],
  ◌∷◌, ◌++◌, eqb, length, split,
}
use keleustes.Json.{
  Json, null, bool, float64, string, marker, array, object, Items, nil, cons, Fields, end, field,
}

-- The class names.
abbrev pub class_secret_bytes : Str
class_secret_bytes = str "secret-bytes"

abbrev pub class_bearer_token : Str
class_bearer_token = str "bearer-token"

abbrev pub class_tls_material : Str
class_tls_material = str "tls-material"

abbrev pub class_webhook_secret : Str
class_webhook_secret = str "webhook-secret"

pub record Rule : Type 0 where
  pub parent_kind : Str
  pub field_path : Str
  pub class_name : Str

abbrev rule : Str → Str → Str → Rule
rule k p c = record { parent_kind = k; field_path = p; class_name = c }

abbrev pub default_rules : List Rule
default_rules =
    rule (str "Secret") (str "data.*") class_secret_bytes
    ∷ rule (str "Secret") (str "stringData.*") class_secret_bytes
    ∷ rule [] (str "spec.webhook.secret") class_webhook_secret
    ∷ rule [] (str "spec.webhook.secretRef") class_webhook_secret
    ∷ rule [] (str "data.tls\\.crt") class_tls_material
    ∷ rule [] (str "data.tls\\.key") class_tls_material
    ∷ rule [] (str "*.token") class_bearer_token
    ∷ rule [] (str "*.bearerToken") class_bearer_token
    ∷ []

-- `strings.ReplaceAll(s, "\\.", ".")`.
unfoldable pub unescape : Str → Str
unescape [] = []
unescape (c ∷ []) = c ∷ []
unescape (c ∷ d ∷ s) =
    let replaced = b'.' ∷ unescape s in
    let kept = c ∷ unescape (d ∷ s) in if eqb c b'\\' && eqb d b'.' then replaced else kept

-- One round of the loop of `pathMatches`.
unfoldable pub segment_matches : Str → Str → Bool
unfolding unescape
segment_matches p t = let seg = unescape p in seg == str "*" || seg == t

-- The loop of `pathMatches`, over lists of one length.
unfoldable pub segments_match : List Str → List Str → Bool
unfolding segment_matches
segments_match (p ∷ ps) (t ∷ ts) = segment_matches p t && segments_match ps ts
segments_match _ _ = true

unfoldable pub path_matches : Str → Str → Bool
unfolding split segments_match
path_matches pattern path =
    let pp = split b'.' pattern in
    let tp = split b'.' path in
    if not (eqb (length pp) (length tp)) then false else segments_match pp tp

-- The loop of `matchRule`, over the rules that are left.
unfoldable pub first_rule : Str → Str → List Rule → Option Str
unfolding path_matches
first_rule kind path [] = none
first_rule kind path (r ∷ rs) =
    let rest = first_rule kind path rs in
    if not (r.parent_kind == []) && not (r.parent_kind == kind)
    then rest
    else if path_matches r.field_path path
    then some r.class_name
    else rest

unfoldable pub match_rule : Str → Str → Option Str
unfolding first_rule
match_rule kind path = first_rule kind path default_rules

unfoldable pub join_path : Str → Str → Str
join_path parent segment = if parent == [] then segment else parent ++ (str "." ++ segment)

abbrev pub index_segment : Str
index_segment = str "[]"

-- Every key of the map gets the marker.
unfoldable pub mark_all : Str → Fields → Fields
mark_all cls end = end
mark_all cls (field k v fs) = field k (marker cls) (mark_all cls fs)

-- What the loop over a map stores at a key, given the class that matches the key's path, the class
-- that matches the keys below it, the value, and the value walked.
unfoldable pub walked : Option Str → Option Str → Json → Json → Json
unfolding mark_all
walked (some cls) _ child deep = marker cls
walked none (some cls) (object fs) deep = object (mark_all cls fs)
walked none _ child deep = deep

unfoldable mutual
  pub walk : Str → Str → Json → Json
  walk kind path (object fs) = object (walk_fields kind path fs)
  walk kind path (array vs) = array (walk_items kind path vs)
  walk kind path v = v

  pub walk_items : Str → Str → Items → Items
  walk_items kind path nil = nil
  walk_items kind path (cons v vs) =
      cons (walk kind (join_path path index_segment) v) (walk_items kind path vs)

  pub walk_fields : Str → Str → Fields → Fields
  walk_fields kind path end = end
  walk_fields kind path (field k child fs) =
      field k
        (walked (match_rule kind (join_path path k))
          (match_rule kind (join_path path k ++ str ".*")) child
          (walk kind (join_path path k) child))
        (walk_fields kind path fs)

pub apply : Str → Json → Json
apply kind root = walk kind [] root
