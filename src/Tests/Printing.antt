-- ===== src/Tests/Printing.antt =====
-- Runs of internal/cli.
use keleustes.Base.{
  decimal, ◌-◌, ◌≡◌, ◌⊎◌, refl, ◌<◌, ◌*◌, ◌^◌, ℕ, arith, Lacks, zero, suc, eqb, not, all, cut,
  trim_prefix, starts_with, split, true, Option, none, some, Str, str, ◌==◌, In, List, [], ◌∷◌,
  ◌++◌, map,
}
use keleustes.Base.Result.{ok, err}
use keleustes.Json.{
  Json, Items, string, array, object, nil, cons, Fields, end, field, get, get_path,
}
use keleustes.Api.Wire
use keleustes.Api.CrdSource.Mapping.{promotion_to_api}
use keleustes.Cli.Kinds.{ResolvedKind, gvk, gvr}
use keleustes.Cli.Output.{
  Printing, extract_column, condition_field, array_join, plain_field, format_age, since, minute,
  hour, duration_text, in_units, field_text, scalar_to_string,
}
use keleustes.Base.Float.{float_sum, float_quotient, round_float, round_bits, round_up}
use keleustes.Cli.Output.Ages.{ShowsAge, format_age_bounds}
use keleustes.Cli.Output.Paths.{extract_column_parts}
use keleustes.Cli.Describe.{Described, Layout, describe_lines, render_describe}
use keleustes.Cli.Describe.Writes.{WrittenUntil, render_describe-WrittenUntil}
use keleustes.Cli.Output.{table_lines}
use keleustes.Cli.Tables.{matrix_headers, kept_columns}
use keleustes.Cli.Commands.{Runtime, ApiClient, Reply, run_matrix}
use keleustes.Cli.Commands.Grid.{IsPrinted, run_matrix-get_matrix}
use keleustes.Cli.Url.{is_bare, Urls, IsUrls, normalize_base_url}
use keleustes.Tests.Fleet.Inbox.{shop_matrix, matrix_got}
use keleustes.Tests.Fleet.{fleet, shop, two_promotions}

-- One nanosecond before a day boundary: float64 rounds up where the hours are 4096 or more.
days_rounded :
    (duration_text (some (170 * (24 * hour) - 1)) ≡ str "169d")
    × (duration_text (some (171 * (24 * hour) - 1)) ≡ str "171d")
unfolding duration_text in_units float_sum float_quotient round_float round_bits round_up decimal
days_rounded = (refl, refl)

format_age_bounds_example :
    ((100 * minute < 5) × (format_age (100 * minute) 5 ≡ str "0s"))
    ⊎ ((d : ℕ) × (since (100 * minute) 5 ≡ some d)
        × (d < 2 ^ 63)
        × ShowsAge (format_age (100 * minute) 5) d)
format_age_bounds_example = format_age_bounds (100 * minute) 5 (omega arith)

-- The fields of a map by `get_path`.
abbrev slice_of : Option Json → Option Items
slice_of (some (array items)) = some items
slice_of _ = none

abbrev printing : Printing
printing = record {
  nested_field = λ fs path. get_path path (object fs);
  nested_slice = λ fs path. slice_of (get_path path (object fs));
  number = λ s. s;
  value = λ v. str "map";
}

abbrev accepted_fields : Fields
accepted_fields =
    field (str "status")
      (object (
        field (str "conditions")
          (array (
            cons
              (object (
                field (str "type") (string (str "Accepted"))
                  (field (str "status") (string (str "True")) end)))
              nil))
          end))
      end

lacks : (c : ℕ) (s : Str) → all (λ d. not (eqb d c)) s ≡ true → Lacks c s
lacks c [] h = tt
lacks c (d ∷ s) h = (ground arith, lacks c s (ground arith))

accepted_shown :
    extract_column printing accepted_fields (str ".status.conditions[?(@.type=='Accepted')].status")
    ≡ str "True"
unfolding extract_column trim_prefix cut starts_with condition_field split get_path get ◌==◌
    field_text scalar_to_string
accepted_shown = refl

extract_column_parts_example :
    (extract_column printing accepted_fields
        (str ".status.conditions[?(@.type=='Accepted')].status")
      ≡ condition_field printing accepted_fields
          (str "status.conditions")
          (str "Accepted")
          (str "status"))
    × (extract_column printing accepted_fields (str ".status.conditions[*].status")
        ≡ array_join printing accepted_fields (str "status.conditions") (str "status"))
    × (extract_column printing accepted_fields (str ".status.conditions[*]")
        ≡ array_join printing accepted_fields (str "status.conditions") [])
    × (extract_column printing accepted_fields (str ".status.conditions")
        ≡ plain_field printing accepted_fields (str "status.conditions"))
extract_column_parts_example =
    extract_column_parts printing accepted_fields (str "status.conditions") (str "Accepted")
      (str "status") (λ e. cc) (lacks b'[' (str "status.conditions") refl)
      (lacks b'\'' (str "Accepted") refl) (lacks b'[' (str "status") refl)

-- A writer of lines that has room for so many.
abbrev write_line : List Str × ℕ → Str → (List Str × ℕ) × Option Str
write_line (lines, zero) text = ((lines, zero), some (str "no space left"))
write_line (lines, suc room) text = ((lines ++ text ∷ [], room), none)

abbrev layout : Layout
layout = record {
  printing = printing;
  time_text = λ t. str "then";
  now = 100 * minute;
  marshal = λ v. ok (str "a: b\n");
}

abbrev app_kind : ResolvedKind
app_kind = record {
  gvk = gvk (str "Application");
  gvr = gvr (str "applications");
  aliases = str "app" ∷ [];
  columns = [];
}

abbrev described : Described
described = record {
  name = str "shop";
  namespace = str "ns";
  created = 5;
  generation = 2;
  labels = (str "b", str "2") ∷ (str "a", str "1") ∷ [];
  annotations = [];
  fields = accepted_fields;
}

render_describe-WrittenUntil_example :
    WrittenUntil write_line
      ([], 4)
      (describe_lines layout app_kind described)
      (render_describe layout write_line ([], 4) app_kind described)
render_describe-WrittenUntil_example =
    render_describe-WrittenUntil write_line layout app_kind described ([], 4)

abbrev matrix_reply : Reply Wire.Matrix
matrix_reply = record { status_code = 200; body = []; json200 = some shop_matrix }

abbrev blocked_proms : List Wire.Promotion
blocked_proms = map promotion_to_api two_promotions

abbrev proms_reply : Reply (List Wire.Promotion)
proms_reply = record { status_code = 200; body = []; json200 = some blocked_proms }

abbrev client : ApiClient
client = record {
  get_applications = err (str "refused");
  get_application = λ name. err (str "refused");
  get_matrix = λ name. ok matrix_reply;
  get_releases = λ name. err (str "refused");
  get_promotions = λ name. ok proms_reply;
  get_diff = λ params. err (str "refused");
}

abbrev runtime : Runtime
runtime = record {
  client = ok client;
  quote = λ s. s;
  time_text = λ t. str "then";
  unmarshal_problem = λ body. none;
}

run_matrix-get_matrix_example :
    (rows : List (List Str)) × (run_matrix runtime (str "shop" ∷ []) (str "prod")
      ≡ ok (
          (str "AS OF: " ++ str "then")
          ∷ table_lines (matrix_headers (kept_columns (str "prod") shop_matrix.columns)) rows))
    × ((row : List Str)
        → In row rows
        → IsPrinted fleet (shop ∷ []) (kept_columns (str "prod") shop_matrix.columns) row)
run_matrix-get_matrix_example =
    run_matrix-get_matrix runtime client matrix_reply fleet (str "shop") (str "prod") (shop ∷ [])
      shop_matrix refl refl refl matrix_got refl

-- URLs of a host of one byte, and a path.
abbrev parse_url : Str → Option (ℕ × Str)
parse_url [] = none
parse_url (c ∷ path) = some (c, path)

abbrev urls : Urls
urls = record {
  Url = ℕ × Str;
  parse = parse_url;
  text = λ url. url.0 ∷ url.1;
  host = λ url. url.0 ∷ [];
  path = λ url. url.1;
  with_path = λ url path. (url.0, path);
}

urls-IsUrls : IsUrls urls
urls-IsUrls = record {
  parse-text = λ url h. (url, refl, refl, refl, refl);
  host-with_path = λ url path. refl;
  path-with_path = λ url path. refl;
}

bare_host : normalize_base_url urls (str "h/") ≡ str "h/api/v1"
unfolding normalize_base_url is_bare ◌==◌
bare_host = refl
