-- ===== src/Cli/Get.antt =====
-- internal/cli/get.go: the command that lists, fetches or watches resources, and the documents of
-- internal/cli/output.go. What is printed is the lines, or the document that is encoded.
pub mod Watch
use keleustes.Base.{
  ◌≡◌, ◌≢◌, ◌⊎◌, inl, inr, refl, sym, ap, ◌∙◌, ℕ, suc, Bool, true, false, if◌then◌else◌, Option,
  none, some, Str, str, ◌==◌, join, to_upper, length, List, [], ◌∷◌, ◌++◌, map, length-map,
}
use keleustes.Base.Result.{Result, ok, err, ◌>>=◌}
use keleustes.Json.{Json, string, array, object, Items, nil, cons, Fields, end, field}
use keleustes.Cli.Kinds.{GroupVersionResource, Column, ResolvedKind, KindError, resolve_kind}
use keleustes.Cli.Output.{
  OutputFormat, output_table, output_wide, output_json, output_yaml, FormatError,
  parse_output_format, Printing, Unstructured, extract_column, format_age, render_table,
}

pub data Printed : Type 0 where
  printed_json printed_yaml : Json → Printed
  printed_lines : List Str → Printed

abbrev pub as_objects : List Unstructured → Items
as_objects [] = nil
as_objects (item ∷ items) = cons (object item.fields) (as_objects items)

-- The value that `renderJSON` and `renderYAML` encode.
unfoldable pub document : List Unstructured → Json
document (item ∷ []) = object item.fields
document items = object (
    field (str "apiVersion") (string (str "v1")) (
      field (str "kind") (string (str "List"))
        (field (str "items") (array (as_objects items)) end)))

-- An event of a watch: its type, its object if that is unstructured, and when it came.
pub record Event : Type 0 where
  pub event_type : Str
  pub obj : Option Unstructured
  pub seen_at : ℕ

-- The dynamic client of k8s.io/client-go for a resource; the namespace is `none` where the call has
-- none. A watch yields the events that come before it is closed or the context is done.
pub record Dynamic : Type 0 where
  pub list : GroupVersionResource → Option Str → Result Str (List Unstructured)
  pub get : GroupVersionResource → Str → Str → Result Str Unstructured
  pub watch : GroupVersionResource → Option Str → Result Str (List Event)

-- The errors of the command, less their texts, with what the texts name.
pub data GetError : Type 0 where
  bad_format : FormatError → GetError
  bad_kind : KindError → GetError
  no_context : Str → GetError
  watch_of_one : GetError
  not_found_in : (kind name namespace : Str) → GetError
  get_failed list_failed watch_failed : (resource cause : Str) → GetError

-- What the command reads besides its arguments, with `newKubeContext`.
pub record Machine : Type 0 where
  pub new_kube_context : (kubeconfig : Str) → Result Str Dynamic
  pub is_not_found : Str → Bool
  pub printing : Printing
  pub now : ℕ

pub record Flags : Type 0 where
  pub namespace : Str
  pub all_namespaces : Bool
  pub output : Str
  pub watch_mode : Bool
  pub kubeconfig : Str

abbrev with_error : {E F A : Type 0} → (E → F) → Result E A → Result F A
with_error f (ok a) = ok a
with_error f (err e) = err (f e)

abbrev pub scope : (namespace : Str) → Option Str
scope namespace = if namespace == [] then none else some namespace

module _ (m : Machine) where
  unfoldable pub render_list : ResolvedKind → List Unstructured → OutputFormat → Printed
  unfolding document render_table
  render_list kind items output_json = printed_json (document items)
  render_list kind items output_yaml = printed_yaml (document items)
  render_list kind items output_table = printed_lines (render_table m.printing m.now kind items)
  render_list kind items output_wide = printed_lines (render_table m.printing m.now kind items)

  unfoldable pub render_one : ResolvedKind → Unstructured → OutputFormat → Printed
  unfolding render_list
  render_one kind obj format = render_list kind (obj ∷ []) format

  unfoldable pub run_get_list :
      Dynamic → ResolvedKind → (namespace : Str) → OutputFormat → Result GetError Printed
  unfolding render_list
  run_get_list kc kind namespace format = do
    items ← with_error (list_failed kind.gvr.resource) (kc.list kind.gvr (scope namespace))
    ok (render_list kind items format)

  abbrev get_error : ResolvedKind → (namespace name : Str) → Str → GetError
  get_error kind namespace name e =
      if m.is_not_found e
      then not_found_in kind.gvk.kind name namespace
      else get_failed (kind.gvr.resource ++ (str "/" ++ name)) e

  unfoldable pub run_get_one :
      Dynamic → ResolvedKind → (namespace name : Str) → OutputFormat → Result GetError Printed
  unfolding render_one
  run_get_one kc kind namespace name format = do
    obj ← with_error (get_error kind namespace name) (kc.get kind.gvr namespace name)
    ok (render_one kind obj format)

  abbrev pub watch_row : ResolvedKind → Event → Unstructured → List Str
  watch_row kind e obj =
      e.event_type
      ∷ obj.name
      ∷ (map (λ (c : Column). extract_column m.printing obj.fields c.json_path) kind.columns
          ++ (format_age e.seen_at obj.created ∷ []))

  -- The loop of `runWatch`, which passes over an object of another type.
  unfoldable pub watch_rows : ResolvedKind → List Event → List (List Str)
  watch_rows kind [] = []
  watch_rows kind (e ∷ events) = elim e.obj [
    | none ↦ watch_rows kind events
    | some obj ↦ watch_row kind e obj ∷ watch_rows kind events
  ]

  abbrev pub watch_headers : ResolvedKind → List Str
  watch_headers kind =
      str "EVENT"
      ∷ str "NAME"
      ∷ (map (λ (c : Column). to_upper c.header) kind.columns ++ (str "AGE" ∷ []))

  unfoldable pub run_watch :
      Dynamic → ResolvedKind → (namespace : Str) → Result GetError (List (List Str))
  unfolding watch_rows
  run_watch kc kind namespace = do
    events ← with_error (watch_failed kind.gvr.resource) (kc.watch kind.gvr (scope namespace))
    ok (watch_headers kind ∷ watch_rows kind events)

  abbrev lines_of : List (List Str) → Printed
  lines_of rows = printed_lines (map (join (str "\t")) rows)

  abbrev run_kind :
      Flags → Dynamic → ResolvedKind → OutputFormat → Option Str → Result GetError Printed
  run_kind f kc kind format (some name) =
      let namespace = if f.all_namespaces then [] else f.namespace in
      let one = run_get_one kc kind namespace name format in
      if f.watch_mode then err watch_of_one else one
  run_kind f kc kind format none =
      let namespace = if f.all_namespaces then [] else f.namespace in
      let all_of = run_get_list kc kind namespace format in
      let watched = run_watch kc kind namespace >>= λ rows. ok (lines_of rows) in
      if f.watch_mode then watched else all_of

  -- `RunE` for the arguments, a kind and perhaps a name.
  unfoldable pub run_get : Flags → (kind : Str) → (name : Option Str) → Result GetError Printed
  unfolding run_get_one run_get_list run_watch
  run_get f kind_arg name = do
    format ← with_error bad_format (parse_output_format f.output)
    kind ← with_error bad_kind (resolve_kind kind_arg)
    kc ← with_error no_context (m.new_kube_context f.kubeconfig)
    run_kind f kc kind format name
