-- ===== src/Api/CrdSource/Lookups.antt =====
-- internal/api/readmodel/crdsource/crdsource.go: reading one application and listing the fleet.
use keleustes.Base.{
  ◌≡◌, ◌≢◌, refl, ap, sym, ◌∙◌, subst, ◌↔◌, inl, inr, Bool, true, Bool-cases, Option-cases, none,
  some, Str, ◌==◌, ==_sound, ==_refl, ==_false, List, [], ◌∷◌, map, In, In-map, In-map_inv, In-keep,
  keep, first, first_sound, first-none,
}
use keleustes.Base.Result.{ok, err, Result-cases, ok-injective}
use keleustes.Api.Resources
use keleustes.Api.Wire
use keleustes.Api.Port.{not_found, ApplicationFilter, ApplicationsPage}
use keleustes.Api.CrdSource.Mapping.{application_to_api, project_of, str_ptr_or_nil}
use keleustes.Api.CrdSource.Reads.{
  Source, listed, list_applications, get_application, matches_application_filter,
}

-- A filter with no field set.
abbrev pub no_filter : ApplicationFilter
no_filter = record { project = []; env = []; region = []; q = [] }

no_filter_matches : (a : Resources.Application) → matches_application_filter a no_filter ≡ true
unfolding matches_application_filter ◌==◌
no_filter_matches a = refl

keep-true : {A : Type 0} (p : A → Bool) (xs : List A) → ((x : A) → p x ≡ true) → keep p xs ≡ xs
keep-true p [] h = refl
keep-true p (x ∷ xs) h = rw (h x) (ap (λ ys. x ∷ ys) (keep-true p xs h))

-- The listing with no filter is the whole fleet.
pub list_all :
    (s : Source) (apps : List Resources.Application)
    → s.applications ≡ ok apps
    → list_applications s no_filter
      ≡ ok (record { items = map (application_to_api s.find) apps; as_of = s.now })
unfolding list_applications listed
list_all s apps h =
    rw (h, keep-true (λ a. matches_application_filter a no_filter) apps no_filter_matches)

abbrev named : Str → Resources.Application → Bool
named name a = a.meta.name == name

name_kept :
    (s : Source) (a : Resources.Application) → (application_to_api s.find a).name ≡ a.meta.name
unfolding application_to_api
name_kept s a = refl

-- What `GetApplication` returns is an item of the listing with no filter, under the name asked for.
pub get_application_listed :
    (s : Source) (name : Str) (app : Wire.Application)
    → get_application s name ≡ ok app
    → (page : ApplicationsPage) × (list_applications s no_filter ≡ ok page)
      × In app page.items
      × (app.name ≡ name)
unfolding get_application listed
get_application_listed s name app h = elim (Result-cases s.applications) [
  | inr (e, failed) ↦ cc (rw failed at h)
  | inl (apps, got) ↦ elim (Option-cases (first (named name) apps)) [
    | inl missing ↦ cc (rw (got, missing) at h)
    | inr (a, hit) ↦
        let e : application_to_api s.find a ≡ app = ok-injective (rw (got, hit) at h) in
        let (p, i) = first_sound (named name) apps hit in
        (
          record { items = map (application_to_api s.find) apps; as_of = s.now },
          list_all s apps got,
          subst (λ w. In w (map (application_to_api s.find) apps)) e
              (In-map (application_to_api s.find) a apps i),
          ap (λ (w : Wire.Application). w.name) (sym e)
              ∙ name_kept s a
              ∙ ==_sound a.meta.name name p,
        )
  ]
]

project_shown :
    (s : Source) (f : ApplicationFilter) (a : Resources.Application)
    → f.project ≢ []
    → matches_application_filter a f ≡ true
    → (application_to_api s.find a).project ≡ some f.project
unfolding application_to_api matches_application_filter str_ptr_or_nil
project_shown s f a n m = elim (Bool-cases (project_of a.meta == f.project)) [
  | inl e ↦ rw (==_sound (project_of a.meta) f.project e, ==_false f.project [] n)
  | inr e ↦ cc (rw (==_false f.project [] n, e) at m)
]

listing_failed :
    (s : Source) (f : ApplicationFilter) (e : Str) (page : ApplicationsPage)
    → s.applications ≡ err e
    → list_applications s f ≢ ok page
unfolding list_applications listed
listing_failed s f e page failed h = cc (rw failed at h)

module _ (s : Source) (name : Str) (apps : List Resources.Application)
    (got : s.applications ≡ ok apps) where
  missing_of_none :
      first (named name) apps ≡ none
      → (get_application s name ≡ err not_found)
        × ((a : Resources.Application) → In a apps → a.meta.name ≢ name)
  unfolding get_application listed
  missing_of_none e = (
    rw (got, e),
    λ a i n. cc (first-none (named name) apps a e i, ap (λ t. t == name) n, ==_refl name),
  )

  found_of_some :
      (a : Resources.Application)
      → first (named name) apps ≡ some a
      → (get_application s name ≢ err not_found) × In a apps × (a.meta.name ≡ name)
  unfolding get_application listed
  found_of_some a e =
      let (p, i) = first_sound (named name) apps e in
      ((λ h. cc (rw (got, e) at h)), i, ==_sound a.meta.name name p)

-- With the listing readable, `GetApplication` answers that there is none exactly if no item of the
-- listing with no filter has the name.
pub get_application_missing :
    (s : Source) (name : Str) (page : ApplicationsPage)
    → list_applications s no_filter ≡ ok page
    → (get_application s name ≡ err not_found)
      ↔ ((app : Wire.Application) → In app page.items → app.name ≢ name)
get_application_missing s name page h = elim (Result-cases s.applications) [
  | inr (e, failed) ↦ absurd (listing_failed s no_filter e page failed h)
  | inl (apps, got) ↦
      let items =
        ap (λ (p : ApplicationsPage). p.items)
          (ok-injective {a = page} (sym h ∙ list_all s apps got)) in
      elim (Option-cases (first (named name) apps)) [
        | inl none' ↦
            let (miss, all) = missing_of_none s name apps got none' in
            (
              (λ _ app i n.
                  let (a, j, e) =
                    In-map_inv (application_to_api s.find) app apps
                      (subst (λ xs. In app xs) items i) in
                  all a j
                    (sym (name_kept s a) ∙ ap (λ (w : Wire.Application). w.name) (sym e) ∙ n)),
              (λ _. miss),
            )
        | inr (a, hit) ↦
            let (ne, i, n) = found_of_some s name apps got a hit in
            (
              (λ e. absurd (ne e)),
              (λ all. absurd (
                  all (application_to_api s.find a)
                    (subst (λ xs. In (application_to_api s.find a) xs) (sym items)
                      (In-map (application_to_api s.find) a apps i))
                    (name_kept s a ∙ n))),
            )
      ]
]

-- With a project in the filter every item that is listed shows that project.
pub list_applications_project :
    (s : Source) (f : ApplicationFilter) (page : ApplicationsPage) (app : Wire.Application)
    → f.project ≢ []
    → list_applications s f ≡ ok page
    → In app page.items
    → app.project ≡ some f.project
unfolding list_applications listed
list_applications_project s f page app n h i = elim (Result-cases s.applications) [
  | inr (e, failed) ↦ cc (rw failed at h)
  | inl (apps, got) ↦
      let items = ap (λ (p : ApplicationsPage). p.items) (ok-injective (rw got at h)) in
      let (a, j, e) =
        In-map_inv (application_to_api s.find) app (keep (λ a. matches_application_filter a f) apps)
          (subst (λ xs. In app xs) (sym items) i) in
      let (m, _) = (In-keep (λ a. matches_application_filter a f) a apps).0 j in
      ap (λ (w : Wire.Application). w.project) e ∙ project_shown s f a n m
]
