-- ===== src/Cli/Output.antt =====
-- internal/cli/output.go: the formats of the output, and the cells of a table of resources.
pub mod Paths
mod Units
pub mod Ages
use keleustes.Base.{
  ℕ, ◌+◌, ◌-◌, ◌*◌, ◌/◌, ◌^◌, ltb, eqb, Bool, true, false, ◌&&◌, if◌then◌else◌, Option, none, some,
  Str, str, ◌==◌, trim_prefix, split, cut, join, to_upper, ◌%◌, decimal, List, [], ◌∷◌, ◌++◌, map,
}
use keleustes.Base.Result.{Result, ok, err}
use keleustes.Base.Float.{float_one, float_sum, float_quotient, whole}
use keleustes.Json.{
  Json, null, bool, float64, string, array, object, Items, nil, cons, Fields, get, get_path,
}
use keleustes.Cli.Kinds.{Column, ResolvedKind}

pub data OutputFormat : Type 0 where
  output_table output_wide output_json output_yaml : OutputFormat

-- The error, less its text.
pub data FormatError : Type 0 where
  unsupported_format : Str → FormatError

unfoldable pub parse_output_format : Str → Result FormatError OutputFormat
parse_output_format s =
    if s == []
    then ok output_table
    else if s == str "wide"
    then ok output_wide
    else if s == str "json"
    then ok output_json
    else if s == str "yaml"
    then ok output_yaml
    else err (unsupported_format s)

-- `NestedFieldCopy` and `NestedSlice` of k8s.io/apimachinery, `none` where they return an error or
-- do not find, and what fmt prints for a number and, by `%v`, for a list or a map.
pub record Printing : Type 0 where
  pub nested_field : Fields → List Str → Option Json
  pub nested_slice : Fields → List Str → Option Items
  pub number : Str → Str
  pub value : Json → Str

-- `strings.Split(path, ".")`.
abbrev pub split_path : Str → List Str
split_path = split b'.'

abbrev pub unsupported : Str
unsupported = str "<unsupported>"

module _ (p : Printing) where
  unfoldable pub scalar_to_string : Json → Str
  scalar_to_string null = []
  scalar_to_string (string s) = s
  scalar_to_string (bool b) = if b then str "true" else str "false"
  scalar_to_string (float64 x) = p.number x
  scalar_to_string v = p.value v

  -- `scalarToString(m[k])`, where a missing key yields nil.
  unfoldable pub field_text : Str → Fields → Str
  unfolding scalar_to_string
  field_text k m = elim (get k m) [ none ↦ [] | some v ↦ scalar_to_string v ]

  -- `m["type"] == condType`.
  abbrev pub has_type : Str → Fields → Bool
  has_type cond_type m = elim (get (str "type") m) [ none ↦ false | some v ↦ is_text cond_type v ]
    where
      is_text : Str → Json → Bool
      is_text t (string s) = s == t
      is_text t _ = false

  -- The loop of `conditionField`.
  abbrev pub condition_loop : (cond_type field : Str) → Items → Str
  condition_loop cond_type field nil = []
  condition_loop cond_type field (cons (object m) rest) =
      let later = condition_loop cond_type field rest in
      if has_type cond_type m
      then (if field == [] then scalar_to_string (object m) else field_text field m)
      else later
  condition_loop cond_type field (cons _ rest) = condition_loop cond_type field rest

  unfoldable pub condition_field : Fields → (cond_path cond_type field : Str) → Str
  condition_field obj cond_path cond_type field = elim (p.nested_slice obj (split_path cond_path)) [
    | none ↦ []
    | some conds ↦ condition_loop cond_type field conds
  ]

  abbrev pub nested : Fields → List Str → Option Json
  nested m parts = get_path parts (object m)

  -- The loop of `arrayJoin`.
  abbrev pub array_parts : Str → Items → List Str
  array_parts suffix nil = []
  array_parts suffix (cons v rest) =
      let parts = array_parts suffix rest in
      if suffix == [] then scalar_to_string v ∷ parts else inner v ++ parts
    where
      inner : Json → List Str
      inner (object m) = elim (nested m (split_path suffix)) [
        | none ↦ []
        | some v ↦ scalar_to_string v ∷ []
      ]
      inner _ = []

  unfoldable pub array_join : Fields → (path suffix : Str) → Str
  array_join obj path suffix = elim (p.nested_slice obj (split_path path)) [
    | none ↦ []
    | some nil ↦ []
    | some (cons v rest) ↦ join (str ",") (array_parts suffix (cons v rest))
  ]

  unfoldable pub plain_field : Fields → Str → Str
  plain_field obj path = elim (p.nested_field obj (split_path path)) [
    | none ↦ []
    | some v ↦ scalar_to_string v
  ]

  -- The cases of `extractColumn`: behind a filter's bracket, by whether the filter ends; behind an
  -- array's bracket, or without one; and by whether there is a filter's bracket.
  abbrev pub filter_text : Fields → (prefix : Str) → Option (Str × Str) → Str
  filter_text obj prefix none = unsupported
  filter_text obj prefix (some (cond_type, after)) =
      condition_field obj prefix cond_type (trim_prefix (str ".") after)

  abbrev pub array_text : Fields → (path : Str) → Option (Str × Str) → Str
  array_text obj path none = plain_field obj path
  array_text obj path (some (prefix, after)) = array_join obj prefix (trim_prefix (str ".") after)

  abbrev pub path_text : Fields → (path : Str) → Option (Str × Str) → Str
  path_text obj path none = array_text obj path (cut (str "[*]") path)
  path_text obj path (some (prefix, filter)) = filter_text obj prefix (cut (str "')]") filter)

  abbrev pub column_text : Fields → Str → Str
  column_text obj [] = []
  column_text obj (c ∷ rest) = path_text obj (c ∷ rest) (cut (str "[?(@.type=='") (c ∷ rest))

  unfoldable pub extract_column : Fields → Str → Str
  extract_column obj path = column_text obj (trim_prefix (str ".") path)

-- `time.Since`, in nanoseconds: none where the time is still to come, and at most the longest
-- `time.Duration`.
abbrev pub since : (now t : ℕ) → Option ℕ
since now t =
    if ltb now t then none else if ltb (now - t) (2 ^ 63) then some (now - t) else some (2 ^ 63 - 1)

abbrev pub second : ℕ
second = 1000000000

abbrev pub minute : ℕ
minute = 60 * second

abbrev pub hour : ℕ
hour = 60 * minute

-- `Seconds`, `Minutes` and `Hours` of a duration: the whole units, and what is left as a fraction,
-- both in float64.
unfoldable pub in_units : (d unit : ℕ) → ℕ
in_units d unit = float_sum (d / unit * float_one) (float_quotient (d % unit * float_one) unit)

-- The switch of `formatAge`.
unfoldable pub duration_text : Option ℕ → Str
unfolding decimal in_units
duration_text none = str "0s"
duration_text (some d) =
    if ltb d minute
    then decimal (whole (in_units d second)) ++ str "s"
    else if ltb d hour
    then decimal (whole (in_units d minute)) ++ str "m"
    else if ltb d (24 * hour)
    then decimal (whole (in_units d hour)) ++ str "h"
    else decimal (whole (float_quotient (in_units d hour) 24)) ++ str "d"

unfoldable pub format_age : (now t : ℕ) → Str
format_age now t = if eqb t 0 then str "<unknown>" else duration_text (since now t)

-- `unstructured.Unstructured`: its object, and what `GetName` and `GetCreationTimestamp` return.
pub record Unstructured : Type 0 where
  pub name : Str
  pub created : ℕ
  pub fields : Fields

-- The lines that a table is made of, before the tabwriter aligns their cells.
abbrev pub table_lines : List Str → List (List Str) → List Str
table_lines headers [] = str "No resources found." ∷ []
table_lines headers (r ∷ rows) = join (str "\t") headers ∷ map (join (str "\t")) (r ∷ rows)

abbrev pub table_headers : ResolvedKind → List Str
table_headers kind =
    str "NAME" ∷ (map (λ (c : Column). to_upper c.header) kind.columns ++ (str "AGE" ∷ []))

module _ (p : Printing) (now : ℕ) (kind : ResolvedKind) where
  abbrev pub table_row : Unstructured → List Str
  table_row item =
      item.name
      ∷ (map (λ (c : Column). extract_column p item.fields c.json_path) kind.columns
          ++ (format_age now item.created ∷ []))

  unfoldable pub render_table : List Unstructured → List Str
  render_table items = table_lines (table_headers kind) (map table_row items)
