-- ===== src/Api/Server/Errors.antt =====
-- internal/api/server/errors.go: the classification of errors onto RFC 9457 problems.
use keleustes.Base.{
  ℕ, eqb, Bool, true, false, Option, none, some, Str, str, ◌==◌, if◌then◌else◌, [], ◌++◌,
}
use keleustes.Api.Port.{ReadError, not_found, forbidden, other}
use keleustes.Api.Wire.{Problem}

-- The error types that the generated router makes.
pub data ParamFault : Type 0 where
  required_param invalid_format too_many_values unmarshaling required_header : ParamFault
  unescaped_cookie : ParamFault

-- An error value: what the package and the port make, a fault of the router with its text, and an
-- error that wraps another.
pub data ServerError : Type 0 where
  not_implemented : ServerError
  read_error : ReadError → ServerError
  forbidden_error : (verb resource : Str) → ServerError
  param_error : ParamFault → Str → ServerError
  wrapped : Str → ServerError → ServerError

abbrev pub error_base_uri : Str
error_base_uri = str "https://keleustes.skaphos.io/errors/"

abbrev pub not_implemented_text : Str
not_implemented_text = str "write path not implemented: Git-mutation engine pending (ADR 0003)"

abbrev read_error_text : ReadError → Str
read_error_text not_found = str "readmodel: not found"
read_error_text forbidden = str "readmodel: forbidden"
read_error_text (other e) = e

-- `err.Error()`.
unfoldable pub error_text : ServerError → Str
error_text not_implemented = not_implemented_text
error_text (read_error e) = read_error_text e
error_text (forbidden_error verb resource) =
    str "forbidden: missing " ++ (verb ++ (str " on " ++ resource))
error_text (param_error _ e) = e
error_text (wrapped context e) = context ++ (str ": " ++ error_text e)

-- `errors.Is` and `errors.As` look for a target along the chain of wrapped errors.
unfoldable pub is_not_implemented : ServerError → Bool
is_not_implemented not_implemented = true
is_not_implemented (wrapped _ e) = is_not_implemented e
is_not_implemented _ = false

unfoldable pub is_not_found : ServerError → Bool
is_not_found (read_error not_found) = true
is_not_found (wrapped _ e) = is_not_found e
is_not_found _ = false

unfoldable pub is_forbidden : ServerError → Bool
is_forbidden (read_error forbidden) = true
is_forbidden (wrapped _ e) = is_forbidden e
is_forbidden _ = false

unfoldable pub as_forbidden : ServerError → Option (Str × Str)
as_forbidden (forbidden_error verb resource) = some (verb, resource)
as_forbidden (wrapped _ e) = as_forbidden e
as_forbidden _ = none

-- The types that `isParamError` asks for.
abbrev is_listed : ParamFault → Bool
is_listed unescaped_cookie = false
is_listed _ = true

unfoldable pub is_param_error : ServerError → Bool
is_param_error (param_error f _) = is_listed f
is_param_error (wrapped _ e) = is_param_error e
is_param_error _ = false

unfoldable pub problem : ℕ → Str → Str → Str → Problem
problem status slug title detail = record {
  detail = some detail;
  instance_path = none;
  resource = none;
  status = status;
  title = title;
  problem_type = error_base_uri ++ slug;
  verb = none;
}

unfoldable pub str_ptr_if_set : Str → Option Str
str_ptr_if_set s = if s == [] then none else some s

abbrev pub forbidden_problem : Problem
unfolding problem
forbidden_problem =
    problem 403 (str "forbidden") (str "Forbidden")
      (str "caller lacks the required verb on the resource")

abbrev pub degraded_problem : Problem
unfolding problem
degraded_problem = problem 500 (str "degraded") (str "Internal error") (str "internal error")

-- The cases below the switch of `classify`.
abbrev pub classify_forbidden : Option (Str × Str) → Bool → Problem
unfolding str_ptr_if_set
classify_forbidden (some (verb, resource)) _ = record forbidden_problem {
  verb = str_ptr_if_set verb;
  resource = str_ptr_if_set resource;
}
classify_forbidden none true = forbidden_problem
classify_forbidden none false = degraded_problem

unfoldable pub classify : ServerError → Problem
unfolding problem str_ptr_if_set error_text is_not_implemented is_not_found is_forbidden
    as_forbidden is_param_error
classify e =
    if is_not_implemented e
    then problem 501 (str "not_implemented") (str "Not implemented") (error_text e)
    else if is_not_found e
    then problem 404 (str "not_found") (str "Not found")
        (str "the requested resource does not exist")
    else if is_param_error e
    then problem 400 (str "invalid") (str "Invalid request") (error_text e)
    else classify_forbidden (as_forbidden e) (is_forbidden e)

-- `onError`: the problem that goes out, and whether the cause goes to the log.
unfoldable pub on_error : Str → ServerError → Problem × Bool
unfolding classify
on_error path e = let p = record (classify e) { instance_path = some path } in (p, eqb p.status 500)
