-- ===== src/Api/Server/Targets.antt =====
-- internal/api/server over either backend of cmd/apiserver: requests about one target.
use keleustes.Base.{
  ◌≡◌, ◌≢◌, ◌↔◌, ◌⊎◌, refl, Bool, sym, ap, ◌∙◌, subst, inl, inr, true, false, Option-cases, none,
  Str, str, ◌==◌, ==_sound, ==_refl, List, [], In, In-map, In-map_inv, first, first_sound,
  first-none, map,
}
use keleustes.Base.Result.{Result, Result-cases, ok, err, ok-injective}
use keleustes.Api.Resources
use keleustes.Api.Wire
use keleustes.Api.Wire.{git_live}
use keleustes.Api.Port.{ReadModel, ReadError, not_found}
use keleustes.Api.CrdSource.Mapping.{target_to_api}
use keleustes.Api.CrdSource.Reads as Crd
use keleustes.Api.CrdSource.Reads.{
  Source, listed, find_target, list_targets, get_target_health, get_target_drift,
}
use keleustes.Api.Fixtures.{Fixtures, targets_of}
use keleustes.Api.Fixtures as Corpus
use keleustes.Api.Fixtures.Model
use keleustes.Api.Fixtures.Synthesis
use keleustes.Api.Auth.{Authorizer}
use keleustes.Api.Server.Errors.{on_error, problem, classify, is_not_implemented, is_not_found}
use keleustes.Api.Server.Handlers.{
  get_targets_name_drift, get_targets_name_health, dispatch, respond, reply_of, failure, Response,
  diff_body, health_body, serve,
}
use keleustes.Api.Server.Checkpoint.{serve_granted}
use keleustes.Api.Server.Lookup.{missing_problem}

-- The backends between which `buildReadModel` chooses.
pub data Backend : Type 0 where
  fixtures : Fixtures → Backend
  crd : Source → Backend

abbrev pub read_model_of : Backend → ReadModel
read_model_of (fixtures f) = Model.read_model f
read_model_of (crd s) = Crd.read_model s

abbrev pub Absent : Str → List Wire.DeploymentTarget → Type 0
Absent name ts = (t : Wire.DeploymentTarget) → In t ts → t.name ≢ name

abbrev pub Present : Str → List Wire.DeploymentTarget → Type 0
Present name ts = (t : Wire.DeploymentTarget) × In t ts × (t.name ≡ name)

-- What a backend answers on the drift and the health of a target.
abbrev Looked :
    Result ReadError Wire.Diff
    → Result ReadError (List Wire.HealthCheck)
    → Str
    → List Wire.DeploymentTarget
    → Type 0
Looked drift health name ts =
    ((drift ≡ err not_found) × (health ≡ err not_found) × Absent name ts)
    ⊎ ((d : Wire.Diff) × (drift ≡ ok d) × Present name ts)

abbrev is_named : Str → Wire.DeploymentTarget → Bool
is_named name t = t.name == name

fixtures-Looked :
    (f : Fixtures) (name : Str)
    → Looked
        (Synthesis.get_target_drift f name)
        (Synthesis.get_target_health f name)
        name
        (targets_of f)
unfolding Synthesis.get_target_drift Synthesis.get_target_health Corpus.find_target
fixtures-Looked f name = elim (Option-cases (first (is_named name) (targets_of f))) [
  | inl e ↦ inl (
    rw (Synthesis.get_target_drift, e) refl,
    rw (Synthesis.get_target_health, e) refl,
    λ t i n.
        cc (first-none (is_named name) (targets_of f) t e i, ap (λ m. m == name) n, ==_refl name),
  )
  | inr (t, e) ↦
      let (p, i) = first_sound (is_named name) (targets_of f) e in
      inr (
        Synthesis.target_drift t (Synthesis.app_of name),
        rw (Synthesis.get_target_drift, e) refl,
        (t, i, ==_sound t.name name p),
      )
]

abbrev is_called : Str → Resources.DeploymentTarget → Bool
is_called name t = t.meta.name == name

kept_name :
    (s : Source) (t : Resources.DeploymentTarget) → (target_to_api s.find t).name ≡ t.meta.name
unfolding target_to_api
kept_name s t = refl

abbrev no_drift : Wire.Diff
no_drift = record { entries = []; left = none; mode = git_live; right = none; summary = none }

crd-Looked :
    (s : Source) (name : Str) (ts : List Resources.DeploymentTarget)
    → s.targets ≡ ok ts
    → Looked
        (get_target_drift s name)
        (get_target_health s name)
        name
        (map (target_to_api s.find) ts)
unfolding get_target_drift get_target_health find_target listed
crd-Looked s name ts got = elim (Option-cases (first (is_called name) ts)) [
  | inl e ↦ inl (
    rw (got, e) refl,
    rw (got, e) refl,
    λ w i n.
        let (t, j, m) = In-map_inv (target_to_api s.find) w ts i in
        cc (
          first-none (is_called name) ts t e j,
          ap (λ k. k == name)
              (sym (kept_name s t) ∙ ap (λ (v : Wire.DeploymentTarget). v.name) (sym m) ∙ n),
          ==_refl name,
        ),
  )
  | inr (t, e) ↦
      let (p, i) = first_sound (is_called name) ts e in
      inr (
        no_drift,
        rw (got, e) refl,
        (
          target_to_api s.find t,
          In-map (target_to_api s.find) t ts i,
          kept_name s t ∙ ==_sound t.meta.name name p,
        ),
      )
]

read_model_of-Looked :
    (b : Backend) (name : Str) (ts : List Wire.DeploymentTarget)
    → (read_model_of b).list_targets ≡ ok ts
    → Looked
        ((read_model_of b).get_target_drift name)
        ((read_model_of b).get_target_health name)
        name
        ts
unfolding Corpus.list_targets list_targets listed
read_model_of-Looked (fixtures f) name ts h =
    subst (Looked (Synthesis.get_target_drift f name) (Synthesis.get_target_health f name) name)
      (ok-injective h) (fixtures-Looked f name)
read_model_of-Looked (crd s) name ts h = elim (Result-cases s.targets) [
  | inl (list, got) ↦
      subst (Looked (get_target_drift s name) (get_target_health s name) name)
        (ok-injective (rw got at h)) (crd-Looked s name list got)
  | inr (e, failed) ↦ cc (rw failed at h)
]

replied_missing :
    {A : Type 0} (body : A → Response) (path : Str) (r : Result ReadError A)
    → r ≡ err not_found
    → reply_of path (respond body r) ≡ failure (missing_problem path, false)
unfolding on_error classify problem is_not_implemented is_not_found
replied_missing body path r h = rw h refl

replied_body :
    {A : Type 0} (body : A → Response) (path : Str) (r : Result ReadError A) (a : A)
    → r ≡ ok a
    → reply_of path (respond body r) ≢ failure (missing_problem path, false)
unfolding on_error
replied_body body path r a h = rw h (λ e. cc)

-- Over either backend, with the read granted and the targets listed: a request for the drift of a
-- target is answered with the 404 problem, and nothing for the log, exactly if no listed target has
-- the name; one for the health of a target is so answered, or a listed target has the name.
pub serve_target :
    (can : Authorizer) (b : Backend) (path name : Str) (ts : List Wire.DeploymentTarget)
    → can (str "read") (str "targets") [] ≡ true
    → (read_model_of b).list_targets ≡ ok ts
    → ((serve can (read_model_of b) path (get_targets_name_drift name)
          ≡ failure (missing_problem path, false))
        ↔ Absent name ts)
      × ((serve can (read_model_of b) path (get_targets_name_health name)
            ≡ failure (missing_problem path, false))
          ⊎ Present name ts)
unfolding dispatch
serve_target can b path name ts g h =
    let rm = read_model_of b in
    let drift = serve_granted can rm path (get_targets_name_drift name) g in
    let health = serve_granted can rm path (get_targets_name_health name) g in
    elim (read_model_of-Looked b name ts h) [
      | inl (d, q, absent) ↦ (
        ((λ _. absent), (λ _. drift ∙ replied_missing diff_body path (rm.get_target_drift name) d)),
        inl (health ∙ replied_missing health_body path (rm.get_target_health name) q),
      )
      | inr (d, e, present) ↦ (
        (
          (λ r.
              absurd (replied_body diff_body path (rm.get_target_drift name) d e (sym drift ∙ r))),
          (λ absent. let (t, i, n) = present in absurd (absent t i n)),
        ),
        inr present,
      )
    ]
