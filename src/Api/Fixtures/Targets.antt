-- ===== src/Api/Fixtures/Targets.antt =====
-- internal/api/readmodel/fixtures/fixtures.go: the targets that are gathered from the environments.
use keleustes.Base.{◌≡◌, ◌↔◌, refl, subst, ◌⊎◌, inl, inr, List, [], ◌∷◌, ◌++◌, In}
use keleustes.Base.Result.{ok, ok-injective}
use keleustes.Api.Wire.{DeploymentTarget, Environment, EnvCell}
use keleustes.Api.Fixtures.{
  Fixtures, cells_of, flatten_cells, flatten_targets, targets_of, list_targets, list_environments,
}

In-append : {A : Type 0} (a : A) (xs ys : List A) → In a (xs ++ ys) ↔ (In a xs ⊎ In a ys)
In-append a [] ys = ((λ i. inr i), (λ h. elim h [ inl i ↦ absurd i | inr i ↦ i ]))
In-append a (x ∷ xs) ys =
    let ih = In-append a xs ys in
    (
      (λ h. elim h [
        | inl e ↦ inl (inl e)
        | inr i ↦ elim (ih.0 i) [ inl j ↦ inl (inr j) | inr j ↦ inr j ]
      ]),
      (λ h. elim h [
        | inl (inl e) ↦ inl e
        | inl (inr i) ↦ inr (ih.1 (inl i))
        | inr j ↦ inr (ih.1 (inr j))
      ]),
    )

-- A target stands in one of the cells.
abbrev pub InCells : DeploymentTarget → List EnvCell → Type 0
InCells t cells = (c : EnvCell) × In c cells × In t c.targets

In-flatten_cells :
    (t : DeploymentTarget) (cells : List EnvCell) → In t (flatten_cells cells) ↔ InCells t cells
unfolding flatten_cells
In-flatten_cells t [] = ((λ i. absurd i), (λ (c, i, j). absurd i))
In-flatten_cells t (d ∷ cells) =
    let parts = In-append t d.targets (flatten_cells cells) in
    let ih = In-flatten_cells t cells in
    (
      (λ h. elim (parts.0 h) [
        | inl i ↦ (d, inl refl, i)
        | inr i ↦ let (c, j, k) = ih.0 i in (c, inr j, k)
      ]),
      (λ (c, i, k). elim i [
        | inl e ↦ parts.1 (inl (subst (λ (x : EnvCell). In t x.targets) e k))
        | inr j ↦ parts.1 (inr (ih.1 (c, j, k)))
      ]),
    )

In-flatten_targets :
    (t : DeploymentTarget) (envs : List Environment)
    → In t (flatten_targets envs) ↔ ((e : Environment) × In e envs × InCells t (cells_of e.cells))
unfolding flatten_targets
In-flatten_targets t [] = ((λ i. absurd i), (λ (e, i, k). absurd i))
In-flatten_targets t (d ∷ envs) =
    let parts = In-append t (flatten_cells (cells_of d.cells)) (flatten_targets envs) in
    let here' = In-flatten_cells t (cells_of d.cells) in
    let ih = In-flatten_targets t envs in
    (
      (λ h. elim (parts.0 h) [
        | inl i ↦ (d, inl refl, here'.0 i)
        | inr i ↦ let (e, j, k) = ih.0 i in (e, inr j, k)
      ]),
      (λ (e, i, k). elim i [
        | inl q ↦
            parts.1 (inl (here'.1 (subst (λ (x : Environment). InCells t (cells_of x.cells)) q k)))
        | inr j ↦ parts.1 (inr (ih.1 (e, j, k)))
      ]),
    )

-- The targets that are listed are exactly those that stand in a cell of an environment that is
-- listed.
pub list_targets_exact :
    (f : Fixtures) (ts : List DeploymentTarget) (envs : List Environment) (t : DeploymentTarget)
    → list_targets f ≡ ok ts
    → list_environments f ≡ ok envs
    → In t ts ↔ ((e : Environment) × In e envs × InCells t (cells_of e.cells))
unfolding list_targets list_environments
list_targets_exact f ts envs t h g =
    subst (λ l. In t l ↔ ((e : Environment) × In e envs × InCells t (cells_of e.cells)))
      (ok-injective h)
      (subst
        (λ l. In t (targets_of f) ↔ ((e : Environment) × In e l × InCells t (cells_of e.cells)))
        (ok-injective g) (In-flatten_targets t f.envs))
