-- ===== src/Api/Auth.antt =====
-- internal/api/auth/auth.go: identities, the bearer token and the middleware that asks for it.
use keleustes.Base.{
  ℕ, leb, eqb, Bool, true, not, ◌||◌, Option, none, some, Str, str, ◌==◌, to_lower, if◌then◌else◌,
  List, [], ◌∷◌, take, drop, length,
}
use mathlib.Core.List.{reverse}
use mathlib.Core.Bool.{◌&&◌}
use keleustes.Audit.Types.{
  ActorType, actor_human, actor_ci, actor_agent, actor_system, Actor, direct,
}
use keleustes.Api.Wire.{Problem}

pub record Identity : Type 0 where
  pub identity_type : Str
  pub subject : Str
  pub subject_id : Str
  pub name : Str
  pub email : Str
  pub idp : Str
  pub groups : List Str

unfoldable pub actor_type : Str → ActorType
actor_type t =
    if t == actor_ci
    then actor_ci
    else if t == actor_agent
    then actor_agent
    else if t == actor_system
    then actor_system
    else actor_human

-- `Identity.Actor`.
unfoldable pub actor_of : Identity → Actor
unfolding actor_type
actor_of i = direct (record {
  actor_type = actor_type i.identity_type;
  subject = i.subject;
  subject_id = i.subject_id;
  identity_provider = i.idp;
  groups = i.groups;
})

abbrev pub stub_identity : Identity
stub_identity = record {
  identity_type = str "human";
  subject = str "u_stub";
  subject_id = [];
  name = str "Dev Operator";
  email = str "operator@keleustes.local";
  idp = str "stub-oidc";
  groups = [];
}

-- The interface `Authorizer`: `Can(verb, resource, scope)`.
abbrev pub Authorizer : Type 0
Authorizer = Str → Str → Str → Bool

unfoldable pub allow_all : Authorizer
allow_all verb resource scope = true

-- `strings.TrimSpace` on ASCII text.
abbrev is_space : ℕ → Bool
is_space c = eqb c b' ' || (leb 9 c && leb c 13)

unfoldable pub trim_left : Str → Str
trim_left [] = []
trim_left (c ∷ s) = let rest = trim_left s in if is_space c then rest else c ∷ s

unfoldable pub trim_space : Str → Str
unfolding trim_left
trim_space s = reverse (trim_left (reverse (trim_left s)))

abbrev pub bearer_prefix : Str
bearer_prefix = str "Bearer "

-- The token in the value of the `Authorization` header, empty where there is no header; `none` is
-- `ok == false`. `strings.EqualFold` compares without letter case.
unfoldable pub bearer_token : Str → Option Str
unfolding trim_space to_lower
bearer_token h =
    if leb (length h) (length bearer_prefix)
      || not (to_lower (take (length bearer_prefix) h) == to_lower bearer_prefix)
    then none
    else let tok = trim_space (drop (length bearer_prefix) h) in
      if tok == [] then none else some tok

unfoldable pub identity_from_token : Str → Identity
identity_from_token tok = stub_identity

unfoldable pub unauthenticated : Problem
unauthenticated = record {
  detail = some (str "authentication required");
  instance_path = none;
  resource = none;
  status = 401;
  title = str "Unauthenticated";
  problem_type = str "https://keleustes.skaphos.io/errors/unauthenticated";
  verb = none;
}

-- What the middleware does with a request: it answers by a problem, or it calls the next handler
-- with an identity in the context.
pub data Admission : Type 0 where
  rejected : Problem → Admission
  admitted : Identity → Admission

abbrev admission_of : Option Str → Admission
admission_of none = rejected unauthenticated
admission_of (some tok) = admitted (identity_from_token tok)

-- `Middleware(cfg)`: `required` is the field of the configuration.
unfoldable pub admit : Bool → Str → Admission
unfolding bearer_token identity_from_token
admit required header =
    if not required then admitted stub_identity else admission_of (bearer_token header)
