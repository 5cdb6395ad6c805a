-- ===== src/Api/Server/Problems.antt =====
-- internal/api/server/errors.go: which problem an error becomes.
use mathlib.Core.Path.{◌≡◌, refl, sym, ap, ◌∙◌}
use mathlib.Core.Logic.{inl, inr}
use keleustes.Base.{
  ℕ, Bool, true, false, eqb, Option, none, some, Str, str, List, [], ◌∷◌, ◌++◌, if◌then◌else◌, In,
}
use keleustes.Api.Wire.{Problem}
use keleustes.Api.Server.Errors.{
  ServerError, classify, on_error, problem, error_base_uri, degraded_problem, classify_forbidden,
  is_not_implemented, is_not_found, is_param_error, is_forbidden, as_forbidden, str_ptr_if_set,
  error_text,
}

-- The statuses and the types of the contract.
abbrev pub contract : List (ℕ × Str)
contract =
    (501, error_base_uri ++ str "not_implemented")
    ∷ (404, error_base_uri ++ str "not_found")
    ∷ (400, error_base_uri ++ str "invalid")
    ∷ (403, error_base_uri ++ str "forbidden")
    ∷ (500, error_base_uri ++ str "degraded")
    ∷ []

abbrev entry : Problem → ℕ × Str
entry p = (p.status, p.problem_type)

-- The switch of `classify`, on the answers of its tests.
abbrev switch : Str → Bool → Bool → Bool → Option (Str × Str) → Bool → Problem
unfolding problem str_ptr_if_set
switch text true _ _ _ _ = problem 501 (str "not_implemented") (str "Not implemented") text
switch text false true _ _ _ =
    problem 404 (str "not_found") (str "Not found") (str "the requested resource does not exist")
switch text false false true _ _ = problem 400 (str "invalid") (str "Invalid request") text
switch text false false false named readable = classify_forbidden named readable

switch_contract :
    (text : Str) (a b c : Bool) (named : Option (Str × Str)) (d : Bool)
    → In (entry (switch text a b c named d)) contract
unfolding problem str_ptr_if_set
switch_contract text true b c named d = inl refl
switch_contract text false true c named d = inr (inl refl)
switch_contract text false false true named d = inr (inr (inl refl))
switch_contract text false false false (some _) d = inr (inr (inr (inl refl)))
switch_contract text false false false none true = inr (inr (inr (inl refl)))
switch_contract text false false false none false = inr (inr (inr (inr (inl refl))))

classify-switch :
    (e : ServerError)
    → classify e
      ≡ switch
          (error_text e)
          (is_not_implemented e)
          (is_not_found e)
          (is_param_error e)
          (as_forbidden e)
          (is_forbidden e)
unfolding classify
classify-switch e = switch_eq (is_not_implemented e) (is_not_found e) (is_param_error e)
  where
    switch_eq :
        (a b c : Bool)
        → (if a
            then problem 501 (str "not_implemented") (str "Not implemented") (error_text e)
            else if b
            then problem 404
                (str "not_found")
                (str "Not found")
                (str "the requested resource does not exist")
            else if c
            then problem 400 (str "invalid") (str "Invalid request") (error_text e)
            else classify_forbidden (as_forbidden e) (is_forbidden e))
          ≡ switch (error_text e) a b c (as_forbidden e) (is_forbidden e)
    switch_eq true b c = refl
    switch_eq false true c = refl
    switch_eq false false true = refl
    switch_eq false false false = refl

-- Every error, wrapped ones too, becomes a problem whose status and type are one of the five pairs
-- of the contract.
pub classify_contract :
    (e : ServerError) → In ((classify e).status, (classify e).problem_type) contract
classify_contract e = rw (classify-switch e) (
    switch_contract (error_text e) (is_not_implemented e) (is_not_found e) (is_param_error e)
      (as_forbidden e) (is_forbidden e))

switch_hides :
    (text : Str) (a b c : Bool) (named : Option (Str × Str)) (d : Bool)
    → eqb (switch text a b c named d).status 500 ≡ true
    → switch text a b c named d ≡ degraded_problem
unfolding problem str_ptr_if_set
switch_hides text true b c named d h = cc
switch_hides text false true c named d h = cc
switch_hides text false false true named d h = cc
switch_hides text false false false (some _) d h = cc
switch_hides text false false false none true h = cc
switch_hides text false false false none false h = refl

-- Where the cause of an error goes to the log, the problem that goes out does not depend on the
-- error: it is the fixed one, on the path of the request.
pub on_error_hides :
    (path : Str) (e : ServerError)
    → (on_error path e).1 ≡ true
    → (on_error path e).0 ≡ record degraded_problem { instance_path = some path }
unfolding on_error
on_error_hides path e h =
    ap (λ (p : Problem). record p { instance_path = some path })
      (classify-switch e
        ∙ switch_hides (error_text e) (is_not_implemented e) (is_not_found e) (is_param_error e)
            (as_forbidden e) (is_forbidden e) (rw (sym (classify-switch e)) h))
