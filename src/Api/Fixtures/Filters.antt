-- ===== src/Api/Fixtures/Filters.antt =====
-- internal/api/readmodel/fixtures/fixtures.go: what the filters of the fixtures backend let through.
use keleustes.Base.{
  ◌≡◌, ◌↔◌, sym, ap, subst, inl, inr, ◌⊎◌, Bool, true, ◌&&◌, Str, ◌==◌, ==_iff, [], any, keep, In,
  In-keep, any_of_In, In_of_any, arith,
}
use keleustes.Base.Result.{ok, ok-injective}
use keleustes.Api.Wire.{Application, MatrixRow, MatrixCell}
use keleustes.Api.Port.{ApplicationFilter, ApplicationsPage}
use keleustes.Api.Fixtures.{
  Fixtures, deref, app_matches_query, cell_matches, app_has_cell, app_matches, list_applications,
}

-- A field of the filter is empty, or it is the value.
abbrev Agrees : Str → Str → Type 0
Agrees field value = (field ≡ []) ⊎ (value ≡ field)

-- The matrix places the application in a cell of the environment and the region.
abbrev pub IsPlaced : Fixtures → Str → Str → Str → Type 0
IsPlaced f app env region =
    (row : MatrixRow) × In row f.matrix.rows
    × (row.application ≡ app)
    × ((c : MatrixCell) × In c row.cells
        × Agrees env (deref c.env)
        × Agrees region (deref c.region))

cell_matches_iff :
    (env region : Str) (c : MatrixCell)
    → (cell_matches env region c ≡ true)
      ↔ (Agrees env (deref c.env) × Agrees region (deref c.region))
unfolding cell_matches
cell_matches_iff env region c = grind (
  arith,
  ==_iff env [],
  ==_iff (deref c.env) env,
  ==_iff region [],
  ==_iff (deref c.region) region,
)

and_iff : (a b : Bool) → (a && b ≡ true) ↔ ((a ≡ true) × (b ≡ true))
and_iff a b = ground arith

app_has_cell_iff :
    (f : Fixtures) (app env region : Str)
    → (app_has_cell f app env region ≡ true) ↔ IsPlaced f app env region
unfolding app_has_cell
app_has_cell_iff f app env region = (
  (λ h.
      let (row, i, m) =
        In_of_any
          (λ (row : MatrixRow). row.application == app && any (cell_matches env region) row.cells)
          f.matrix.rows h in
      let (e, a) =
        (and_iff (row.application == app) (any (cell_matches env region) row.cells)).0 m in
      let (c, j, k) = In_of_any (cell_matches env region) row.cells a in
      let (agree, agree') = (cell_matches_iff env region c).0 k in
      (row, i, (==_iff row.application app).0 e, (c, j, agree, agree'))),
  (λ (row, i, e, (c, j, agree, agree')).
      any_of_In
        (λ (row : MatrixRow). row.application == app && any (cell_matches env region) row.cells) row
        f.matrix.rows i
        ((and_iff (row.application == app) (any (cell_matches env region) row.cells)).1 (
          (==_iff row.application app).1 e,
          any_of_In (cell_matches env region) c row.cells j
              ((cell_matches_iff env region c).1 (agree, agree')),
        ))),
)

-- The filter, field by field.
abbrev pub PassesFilter : Fixtures → ApplicationFilter → Application → Type 0
PassesFilter f flt a =
    Agrees flt.project (deref a.project)
    × ((flt.q ≡ []) ⊎ (app_matches_query a flt.q ≡ true))
    × (((flt.env ≡ []) × (flt.region ≡ [])) ⊎ IsPlaced f a.name flt.env flt.region)

-- The same with the answer of `appHasCell` in place of the cell.
tests_iff :
    (f : Fixtures) (a : Application) (flt : ApplicationFilter)
    → (app_matches f a flt ≡ true) ↔ (
        Agrees flt.project (deref a.project)
        × ((flt.q ≡ []) ⊎ (app_matches_query a flt.q ≡ true))
        × (((flt.env ≡ []) × (flt.region ≡ []))
            ⊎ (app_has_cell f a.name flt.env flt.region ≡ true)))
unfolding app_matches
tests_iff f a flt =
    let query = app_matches_query a flt.q in
    let placed = app_has_cell f a.name flt.env flt.region in
    grind (
      arith,
      ==_iff flt.project [],
      ==_iff (deref a.project) flt.project,
      ==_iff flt.q [],
      ==_iff flt.env [],
      ==_iff flt.region [],
    )

app_matches_iff :
    (f : Fixtures) (a : Application) (flt : ApplicationFilter)
    → (app_matches f a flt ≡ true) ↔ PassesFilter f flt a
app_matches_iff f a flt =
    let placed = app_has_cell_iff f a.name flt.env flt.region in
    let tests = tests_iff f a flt in
    (
      (λ m.
          let (project, query, where') = tests.0 m in
          (
            project,
            query,
            elim where' [ inl none' ↦ inl none' | inr here' ↦ inr (placed.0 here') ],
          )),
      (λ (project, query, where'). tests.1 (
        project,
        query,
        elim where' [ inl none' ↦ inl none' | inr here' ↦ inr (placed.1 here') ],
      )),
    )

-- The listing holds exactly the applications of the corpus that pass the filter: the project is the
-- one asked for, the query matches, and the matrix places the application in a cell of the
-- environment and the region, as far as these are asked for.
pub list_applications_exact :
    (f : Fixtures) (flt : ApplicationFilter) (page : ApplicationsPage) (a : Application)
    → list_applications f flt ≡ ok page
    → In a page.items ↔ (In a f.apps × PassesFilter f flt a)
unfolding list_applications
list_applications_exact f flt page a h =
    let items : keep (λ b. app_matches f b flt) f.apps ≡ page.items =
      ap (λ (p : ApplicationsPage). p.items) (ok-injective h) in
    let kept = In-keep (λ b. app_matches f b flt) a f.apps in
    let passes = app_matches_iff f a flt in
    (
      (λ i. let (m, j) = kept.0 (subst (λ l. In a l) (sym items) i) in (j, passes.0 m)),
      (λ (j, filter'). subst (λ l. In a l) items (kept.1 (passes.1 filter', j))),
    )
