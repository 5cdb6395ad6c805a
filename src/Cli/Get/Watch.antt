-- ===== src/Cli/Get/Watch.antt =====
-- internal/cli/get.go: the rows of a watch against those of a list.
use keleustes.Base.{
  ◌≡◌, inl, inr, refl, ◌+◌, Option-cases, none, some, Str, str, to_upper, length, List, [], ◌∷◌,
  ◌++◌, map, length-map, arith,
}
use keleustes.Base.Result.{ok}
use keleustes.Cli.Kinds.{Column, ResolvedKind}
use keleustes.Cli.Output.{Unstructured, table_row, extract_column, format_age}
use keleustes.Cli.Get.{
  Machine, Dynamic, Event, scope, watch_row, watch_rows, watch_headers, run_watch,
}

-- The events with a resource, each with its resource.
abbrev pub with_resource : List Event → List (Event × Unstructured)
with_resource [] = []
with_resource (e ∷ events) = elim e.obj [
  | none ↦ with_resource events
  | some obj ↦ (e, obj) ∷ with_resource events
]

length-append : {A : Type 0} (xs ys : List A) → length (xs ++ ys) ≡ length xs + length ys
length-append [] ys = omega arith
length-append (x ∷ xs) ys = ground (arith, length-append xs ys)

module _ (m : Machine) (kind : ResolvedKind) where
  row_length :
      (e : Event) (obj : Unstructured)
      → length (watch_row m kind e obj) ≡ length (watch_headers m kind)
  row_length e obj =
      let cells =
        map (λ (c : Column). extract_column m.printing obj.fields c.json_path) kind.columns in
      let heads = map (λ (c : Column). to_upper c.header) kind.columns in
      rw
        (
          length-append cells (format_age e.seen_at obj.created ∷ []),
          length-append heads (str "AGE" ∷ []),
          length-map (λ (c : Column). extract_column m.printing obj.fields c.json_path)
              kind.columns,
          length-map (λ (c : Column). to_upper c.header) kind.columns,
        )
        refl

  rows_of :
      (events : List Event)
      → watch_rows m kind events
        ≡ map
            (λ (r : Event × Unstructured).
              r.0.event_type ∷ table_row m.printing r.0.seen_at kind r.1)
            (with_resource events)
  unfolding watch_rows
  rows_of [] = refl
  rows_of (e ∷ events) = elim (Option-cases e.obj) [
    | inl n ↦ rw (n, rows_of events) refl
    | inr (obj, s) ↦ rw (s, rows_of events) refl
  ]

  -- A watch that begins prints the header, and then, for every event with a resource, in their
  -- order, one row: the type of the event and the row that a list prints of the resource at the
  -- time. Such a row has as many cells as the header.
  pub run_watch_rows :
      (kc : Dynamic) (namespace : Str) (events : List Event)
      → kc.watch kind.gvr (scope namespace) ≡ ok events
      → (run_watch m kc kind namespace
          ≡ ok (
              watch_headers m kind
              ∷ map
                  (λ (r : Event × Unstructured).
                    r.0.event_type ∷ table_row m.printing r.0.seen_at kind r.1)
                  (with_resource events)))
        × ((e : Event) (obj : Unstructured)
            → length (e.event_type ∷ table_row m.printing e.seen_at kind obj)
              ≡ length (watch_headers m kind))
  unfolding run_watch
  run_watch_rows kc namespace events h = (rw (h, rows_of events) refl, row_length)
