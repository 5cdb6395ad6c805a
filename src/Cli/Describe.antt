-- ===== src/Cli/Describe.antt =====
-- internal/cli/describe.go: the arguments of the command, the writer that keeps its first error, and
-- the lines of a description.
pub mod Writes
pub mod Arguments
use keleustes.Base.{
  ℕ, ◌-◌, zero, suc, Bool, not, if◌then◌else◌, Option, none, some, Str, str, ◌==◌, ◌<?◌,
  starts_with, cut, split, decimal, length, sort_by, List, [], ◌∷◌, ◌++◌, map, keep,
}
use keleustes.Base.Result.{Result, ok, err}
use keleustes.Json.{Json, null, string, array, object, Items, nil, cons, Fields, end, field, get}
use keleustes.Api.CrdSource.Mapping.{get_string}
use keleustes.Cli.Kinds.{ResolvedKind}
use keleustes.Cli.Output.{Printing, field_text, format_age}

-- The error, less its text.
pub data DescribeError : Type 0 where
  requires_kind_and_name : DescribeError

-- The two parts of `strings.SplitN(s, "/", 2)`.
abbrev pub two_parts : Option (Str × Str) → Result DescribeError (Str × Str)
two_parts none = err requires_kind_and_name
two_parts (some ([], name)) = err requires_kind_and_name
two_parts (some (c ∷ kind, [])) = err requires_kind_and_name
two_parts (some (c ∷ kind, d ∷ name)) = ok (c ∷ kind, d ∷ name)

unfoldable pub split_describe_args : List Str → Result DescribeError (Str × Str)
unfolding cut
split_describe_args (arg ∷ []) = two_parts (cut (str "/") arg)
split_describe_args (kind ∷ name ∷ []) = ok (kind, name)
split_describe_args _ = err requires_kind_and_name

-- `errWriter` over an `io.Writer` in a state of `W`; `write` returns the error, if there is one.
pub record ErrWriter (W : Type 0) : Type 0 where
  pub w : W
  pub error : Option Str

module _ {W : Type 0} (write : W → Str → W × Option Str) where
  unfoldable pub printf : ErrWriter W → Str → ErrWriter W
  printf ew text = elim ew.error [
    | some e ↦ ew
    | none ↦ let (w, e) = write ew.w text in record { w = w; error = e }
  ]

  -- Calls of `printf` one after another.
  abbrev pub print_all : ErrWriter W → List Str → ErrWriter W
  print_all ew [] = ew
  print_all ew (text ∷ texts) = print_all (printf ew text) texts

-- What `renderDescribe` asks of the object, and of time and sigs.k8s.io/yaml.
pub record Described : Type 0 where
  pub name : Str
  pub namespace : Str
  pub created : ℕ
  pub generation : ℕ
  pub labels : List (Str × Str)
  pub annotations : List (Str × Str)
  pub fields : Fields

pub record Layout : Type 0 where
  pub printing : Printing
  pub time_text : ℕ → Str
  pub now : ℕ
  pub marshal : Json → Result Str Str

unfoldable pub sorted_keys : List (Str × Str) → List Str
unfolding ◌<?◌ sort_by
sorted_keys m = sort_by ◌<?◌ (map (λ (e : Str × Str). e.0) m)

-- `%-15s` and the like, by bytes.
abbrev spaces : ℕ → Str
spaces zero = []
spaces (suc n) = b' ' ∷ spaces n

abbrev pad : ℕ → Str → Str
pad width s = s ++ spaces (width - length s)

abbrev entry_line : List (Str × Str) → Str → Str
entry_line m k = str "  " ++ (k ++ (str "=" ++ (get_string k m ++ str "\n")))

abbrev pub label_lines : List (Str × Str) → List Str
label_lines [] = []
label_lines (e ∷ m) = str "Labels:\n" ∷ map (entry_line (e ∷ m)) (sorted_keys (e ∷ m))

abbrev pub annotation_lines : List (Str × Str) → List Str
annotation_lines [] = []
annotation_lines (e ∷ m) =
    str "Annotations:\n"
    ∷ map (entry_line (e ∷ m))
        (keep (λ k. not (starts_with (str "kubectl.kubernetes.io/") k)) (sorted_keys (e ∷ m)))

abbrev condition_line : Str → Str → Str → Str → Str
condition_line type status reason message =
    str "    "
    ++ (pad 15 type
        ++ (str " "
            ++ (pad 7 status
                ++ (str " " ++ (pad 25 reason ++ (str " " ++ (message ++ str "\n")))))))

-- `strings.TrimRight(s, "\n")`.
abbrev trim_newlines : Str → Str
trim_newlines [] = []
trim_newlines (c ∷ s) = elim (trim_newlines s) [
  | [] ↦ if (c ∷ []) == str "\n" then [] else c ∷ []
  | d ∷ t ↦ c ∷ d ∷ t
]

module _ (l : Layout) where
  unfoldable pub condition_lines : Items → List Str
  condition_lines nil = []
  condition_lines (cons (object m) rest) =
      condition_line (field_text l.printing (str "type") m) (field_text l.printing (str "status") m)
        (field_text l.printing (str "reason") m) (field_text l.printing (str "message") m)
      ∷ condition_lines rest
  condition_lines (cons _ rest) = condition_lines rest

  unfoldable pub render_conditions : Items → List Str
  render_conditions conds =
      str "  Conditions:\n"
      ∷ condition_line (str "TYPE") (str "STATUS") (str "REASON") (str "MESSAGE")
      ∷ condition_lines conds

  abbrev marshaled : (prefix : Str) → Result Str Str → List Str
  marshaled prefix (err e) = (prefix ++ (str "<marshal error: " ++ (e ++ str ">\n"))) ∷ []
  marshaled prefix (ok b) =
      map (λ line. prefix ++ (line ++ str "\n")) (split b'\n' (trim_newlines b))

  -- A value that is missing is nil.
  unfoldable pub indented_yaml : Option Json → (prefix : Str) → List Str
  indented_yaml none prefix = (prefix ++ str "<empty>\n") ∷ []
  indented_yaml (some null) prefix = (prefix ++ str "<empty>\n") ∷ []
  indented_yaml (some v) prefix = marshaled prefix (l.marshal v)

  abbrev generation_lines : Option Json → List Str
  generation_lines none = []
  generation_lines (some v) =
      (str "  ObservedGeneration: " ++ (l.printing.value v ++ str "\n")) ∷ []

  abbrev word_lines : Str → Option Json → List Str
  word_lines label (some (string (c ∷ s))) = (label ++ (c ∷ s ++ str "\n")) ∷ []
  word_lines label _ = []

  abbrev blocker_lines : Items → List Str
  blocker_lines nil = []
  blocker_lines (cons v rest) =
      (str "    - " ++ (l.printing.value v ++ str "\n")) ∷ blocker_lines rest

  abbrev status_conditions : Option Json → List Str
  status_conditions (some (array (cons v rest))) = render_conditions (cons v rest)
  status_conditions _ = []

  abbrev status_blockers : Option Json → List Str
  status_blockers (some (array (cons v rest))) = str "  Blockers:\n" ∷ blocker_lines (cons v rest)
  status_blockers _ = []

  unfoldable pub status_lines : Option Json → List Str
  status_lines (some (object (field k v rest))) =
      let status = field k v rest in
      str "Status:\n"
      ∷ (generation_lines (get (str "observedGeneration") status)
          ++ (word_lines (str "  Phase:              ") (get (str "phase") status)
              ++ (word_lines (str "  State:              ") (get (str "state") status)
                  ++ (status_conditions (get (str "conditions") status)
                      ++ status_blockers (get (str "blockers") status)))))
  status_lines _ = []

  -- What `renderDescribe` prints, call by call.
  unfoldable pub describe_lines : ResolvedKind → Described → List Str
  describe_lines kind obj =
      (str "Kind:        " ++ (kind.gvk.kind ++ str "\n"))
      ∷ (str "Name:        " ++ (obj.name ++ str "\n"))
      ∷ (str "Namespace:   " ++ (obj.namespace ++ str "\n"))
      ∷ (str "Created:     "
          ++ (l.time_text obj.created
              ++ (str " (" ++ (format_age l.now obj.created ++ str " ago)\n"))))
      ∷ (str "Generation:  " ++ (decimal obj.generation ++ str "\n"))
      ∷ (label_lines obj.labels
          ++ (annotation_lines obj.annotations
              ++ (str "Spec:\n"
                  ∷ (indented_yaml (get (str "spec") obj.fields) (str "  ")
                      ++ status_lines (get (str "status") obj.fields)))))

  unfoldable pub render_describe :
      {W : Type 0} → (W → Str → W × Option Str) → W → ResolvedKind → Described → ErrWriter W
  render_describe write w kind obj =
      print_all write (record { w = w; error = none }) (describe_lines kind obj)
