-- ===== src/Audit/Payloads.antt =====
-- internal/audit/payload.go and internal/audit/payloads: the payload interface, the registry of
-- verbs, and the payload of the writes to custom resources.
use keleustes.Base.{Bool, true, Option, none, some, Str, str, ◌==◌, if◌then◌else◌, List, [], ◌∷◌}
use keleustes.Base.Result.{Result, ok}
use keleustes.Json.{Json, bool, array, object, Items, nil, cons, Fields, end, field}

-- What the code uses of a value of the interface `Payload`: its `AuditType()`, the error of its
-- `Validate()`, and the value that `json.Marshal` writes, or its error.
pub record Payload : Type 0 where
  pub audit_type : Str
  pub validate : Option Str
  pub marshal : Result Str Json

pub record CrdWriteV1 : Type 0 where
  pub patch : List Fields
  pub subresource_write : Bool
  pub dry_run : Bool

abbrev pub crd_write_v1 : Str
crd_write_v1 = str "crd.write.v1"

abbrev patch_items : List Fields → Items
patch_items [] = nil
patch_items (p ∷ ps) = cons (object p) (patch_items ps)

abbrev patch_field : List Fields → Fields → Fields
patch_field [] rest = rest
patch_field (p ∷ ps) rest = field (str "patch") (array (patch_items (p ∷ ps))) rest

-- A field of type `bool` with `omitempty`.
abbrev bool_field : Str → Bool → Fields → Fields
bool_field k b rest = if b then field k (bool true) rest else rest

-- `CRDWriteV1` as a `Payload`, its fields under their tags and left out where they are empty.
unfoldable pub crd_write_payload : CrdWriteV1 → Payload
crd_write_payload p = record {
  audit_type = crd_write_v1;
  validate = none;
  marshal = ok (
      object (
        patch_field p.patch (
          bool_field (str "subresourceWrite") p.subresource_write
            (bool_field (str "dryRun") p.dry_run end))));
}

-- The registry; the empty type means that the verb takes no payload.
abbrev pub registry : List (Str × Str)
registry =
    (str "create", crd_write_v1)
    ∷ (str "edit", crd_write_v1)
    ∷ (str "delete", crd_write_v1)
    ∷ (str "view", [])
    ∷ []

-- `Registry[verb]` with its `ok`.
unfoldable pub lookup : Str → List (Str × Str) → Option Str
lookup verb [] = none
lookup verb ((key, typ) ∷ entries) = if key == verb then some typ else lookup verb entries

-- `none` is `ok == false`.
unfoldable pub allowed_payload_type : Str → Option Str
unfolding lookup
allowed_payload_type verb = lookup verb registry
