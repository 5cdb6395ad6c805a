-- ===== src/Tests/Values.antt =====
-- Runs of internal/audit/redaction.
use keleustes.Base.{
  ◌≡◌, ◌≢◌, refl, inl, inr, true, some, Str, str, ◌==◌, ==_refl, Lacks, split, [], ◌∷◌,
}
use keleustes.Json.{Json, string, object, marker, Fields, end, field, get, get_path}
use keleustes.Audit.Redaction.{apply, class_secret_bytes}
use keleustes.Audit.Redaction.Secrets.{apply_secret}
use keleustes.Audit.Redaction.Tokens.{apply_token}
use keleustes.Audit.Redaction.Frame.{IsPlain, IsPlainKey, apply_plain}
use keleustes.Audit.Redaction.Tls.{apply_tls_kept}

abbrev one : Str → Json → Fields
one k v = field k v end

abbrev value : Json
value = string (str "v")

get-one : (k : Str) (v : Json) → (k == k) ≡ true → get k (one k v) ≡ some v
unfolding get
get-one k v e = rw e refl

apply_secret_example :
    get_path
      (str "data" ∷ str "k" ∷ [])
      (apply (str "Secret") (object (one (str "data") (object (one (str "k") value)))))
    ≡ some (marker class_secret_bytes)
apply_secret_example =
    apply_secret (str "data") (str "k") (one (str "data") (object (one (str "k") value)))
      (one (str "k") value) value (inl refl)
      (get-one (str "data") (object (one (str "k") value)) (==_refl (str "data")))
      (get-one (str "k") value (==_refl (str "k")))

abbrev webhook_hooks : Fields
webhook_hooks = one (str "secret") value

abbrev webhook_spec : Fields
webhook_spec = one (str "webhook") (object webhook_hooks)

auth_ne : str "auth" ≢ []
auth_ne e = cc

auth_Lacks : Lacks b'.' (str "auth")
auth_Lacks = ((λ e. cc), ((λ e. cc), ((λ e. cc), ((λ e. cc), tt))))

apply_token_example :
    (c : Str) × (get_path
        (str "auth" ∷ str "token" ∷ [])
        (apply (str "Git") (object (one (str "auth") (object (one (str "token") value)))))
      ≡ some (marker c))
apply_token_example =
    apply_token (str "Git") (str "auth") (str "token")
      (one (str "auth") (object (one (str "token") value))) (one (str "token") value) value auth_ne
      auth_Lacks (inl refl)
      (get-one (str "auth") (object (one (str "token") value)) (==_refl (str "auth")))
      (get-one (str "token") value (==_refl (str "token")))

abbrev tls_map : Fields
tls_map = one (str "data") (object (one (str "tls.crt") value))

map_not_secret : str "ConfigMap" ≢ str "Secret"
map_not_secret e = cc

apply_tls_kept_example :
    get_path (str "data" ∷ str "tls.crt" ∷ []) (apply (str "ConfigMap") (object tls_map))
    ≡ some value
apply_tls_kept_example =
    apply_tls_kept (str "ConfigMap") (str "tls.crt") (str "v") tls_map (one (str "tls.crt") value)
      map_not_secret (inl refl)
      (get-one (str "data") (object (one (str "tls.crt") value)) (==_refl (str "data")))
      (get-one (str "tls.crt") value (==_refl (str "tls.crt")))

name_IsPlainKey : IsPlainKey (str "name")
unfolding split
name_IsPlainKey (inl e) = cc
name_IsPlainKey (inr (inl e)) = cc
name_IsPlainKey (inr (inr (inl e))) = cc
name_IsPlainKey (inr (inr (inr (inl e)))) = cc
name_IsPlainKey (inr (inr (inr (inr (inl e))))) = cc
name_IsPlainKey (inr (inr (inr (inr (inr (inl e)))))) = cc
name_IsPlainKey (inr (inr (inr (inr (inr (inr e)))))) = absurd e

name-IsPlain : IsPlain (object (one (str "name") value))
name-IsPlain = (name_IsPlainKey, tt, tt)

apply_plain_example :
    apply (str "ConfigMap") (object (one (str "name") value)) ≡ object (one (str "name") value)
apply_plain_example =
    apply_plain (str "ConfigMap") (object (one (str "name") value)) map_not_secret name-IsPlain
