-- ===== src/Cli/Url.antt =====
-- internal/cli/apiclient.go: the base URL of the API server.
use keleustes.Base.{
  ◌≡◌, ◌≢◌, inl, inr, refl, sym, ap, ◌∙◌, Bool-cases, Bool, false, not, if◌then◌else◌, Option,
  Option-cases, none, some, Str, str, ◌==◌, ==_iff, eqb, [], all,
}

abbrev pub default_api_base_url : Str
default_api_base_url = str "http://localhost:8443/api/v1"

-- net/url: `url.Parse`, `none` where it fails, and `String`, `Host` and `Path` of a URL.
pub record Urls : Type 1 where
  pub Url : Type 0
  pub parse : Str → Option Url
  pub text : Url → Str
  pub host : Url → Str
  pub path : Url → Str
  pub with_path : Url → Str → Url

-- `strings.Trim(s, "/") == ""`.
unfoldable pub is_bare : Str → Bool
is_bare s = all (λ c. eqb c b'/') s

api_not_bare : is_bare (str "/api/v1") ≡ false
unfolding is_bare
api_not_bare = refl

module _ (u : Urls) where
  abbrev rooted : u.Url → u.Url
  rooted url = if is_bare (u.path url) then u.with_path url (str "/api/v1") else url

  abbrev normalized : Str → Option u.Url → Str
  normalized raw none = raw
  normalized raw (some url) = if u.host url == [] then raw else u.text (rooted url)

  unfoldable pub normalize_base_url : (raw : Str) → Str
  unfolding is_bare
  normalize_base_url raw = normalized raw (u.parse raw)

  -- `flag` is the flag `api-url`, if the command has it, and `env` is `KELEUSTES_API`.
  unfoldable pub api_base_url : (flag : Option Str) → (env : Str) → Str
  unfolding normalize_base_url
  api_base_url flag env =
      let by_env = if not (env == []) then env else default_api_base_url in
      normalize_base_url
        (elim flag [ none ↦ by_env | some v ↦ if not (v == []) then v else by_env ])

  -- What is documented of net/url: a URL with a host is read back from its text, with the text, the
  -- host and the path that it had, and its path can be replaced.
  pub record IsUrls : Type 0 where
    pub parse-text :
        (url : u.Url)
        → u.host url ≢ []
        → (v : u.Url) × (u.parse (u.text url) ≡ some v)
          × (u.text v ≡ u.text url)
          × (u.host v ≡ u.host url)
          × (u.path v ≡ u.path url)
    pub host-with_path : (url : u.Url) (p : Str) → u.host (u.with_path url p) ≡ u.host url
    pub path-with_path : (url : u.Url) (p : Str) → u.path (u.with_path url p) ≡ p

  -- The text of a URL with a host and a path is left alone.
  normalize-text :
      IsUrls
      → (url : u.Url) → (u.host url == []) ≡ false
      → is_bare (u.path url) ≡ false
      → normalize_base_url (u.text url) ≡ u.text url
  unfolding normalize_base_url
  normalize-text laws url h b =
      let (v, parsed, same, host', path') =
        laws.parse-text url (λ e. let y = (==_iff (u.host url) []).1 e in cc) in
      rw (parsed, host', h, path', b) same

  -- A base URL that was normalized is left alone: without a host or if it does not parse, since it
  -- is returned as it was, and else since it has a path then.
  pub normalize_base_url_idem :
      IsUrls → (raw : Str) → normalize_base_url (normalize_base_url raw) ≡ normalize_base_url raw
  unfolding normalize_base_url is_bare
  normalize_base_url_idem laws raw = elim (Option-cases (u.parse raw)) [
    | inl n ↦ rw (n, n) refl
    | inr (url, s) ↦ elim (Bool-cases (u.host url == [])) [
      | inl e ↦ rw (s, e, s, e) refl
      | inr e ↦ elim (Bool-cases (is_bare (u.path url))) [
        | inl b ↦
            let new = u.with_path url (str "/api/v1") in
            let once : normalize_base_url raw ≡ u.text new = rw (s, e, b) refl in
            ap normalize_base_url once
            ∙ normalize-text laws new (rw (laws.host-with_path url (str "/api/v1")) e)
                (rw (laws.path-with_path url (str "/api/v1")) api_not_bare)
            ∙ sym once
        | inr b ↦
            let once : normalize_base_url raw ≡ u.text url = rw (s, e, b) refl in
            ap normalize_base_url once ∙ normalize-text laws url e b ∙ sym once
      ]
    ]
  ]
