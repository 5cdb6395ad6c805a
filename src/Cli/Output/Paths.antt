-- ===== src/Cli/Output/Paths.antt =====
-- internal/cli/output.go: which formats are known, and how the paths of the columns are read.
use keleustes.Base.{
  ◌≡◌, ◌≢◌, ◌↔◌, ◌⊎◌, inl, inr, refl, sym, ap, ◌∙◌, Bool-cases, Str, str, ◌==◌, ==_sound, [], ◌∷◌,
  ◌++◌, Lacks, trim_prefix, trim_prefix-cons, cut-skip, starts_with, cut, cut-append, cut-none,
  arith, none,
}
use keleustes.Base.Result.{ok, err, ok-injective, err_ne_ok}
use keleustes.Json.{Fields}
use keleustes.Cli.Output.{
  OutputFormat, output_table, output_wide, output_json, output_yaml, parse_output_format,
  unsupported_format, Printing, extract_column, condition_field, array_join, plain_field,
  column_text, path_text, filter_text, array_text,
}

-- The word of each format.
abbrev pub format_word : OutputFormat → Str
format_word output_table = []
format_word output_wide = str "wide"
format_word output_json = str "json"
format_word output_yaml = str "yaml"

parse-word : (f : OutputFormat) → parse_output_format (format_word f) ≡ ok f
unfolding parse_output_format ◌==◌
parse-word output_table = refl
parse-word output_wide = refl
parse-word output_json = refl
parse-word output_yaml = refl

parse-cases :
    (s : Str)
    → ((f : OutputFormat) × (s ≡ format_word f) × (parse_output_format s ≡ ok f))
      ⊎ (parse_output_format s ≡ err (unsupported_format s))
unfolding parse_output_format
parse-cases s = elim (Bool-cases (s == [])) [
  | inl t ↦ inl (output_table, ==_sound _ _ t, rw t refl)
  | inr t ↦ elim (Bool-cases (s == str "wide")) [
    | inl w ↦ inl (output_wide, ==_sound _ _ w, rw (t, w) refl)
    | inr w ↦ elim (Bool-cases (s == str "json")) [
      | inl j ↦ inl (output_json, ==_sound _ _ j, rw (t, w, j) refl)
      | inr j ↦ elim (Bool-cases (s == str "yaml")) [
        | inl y ↦ inl (output_yaml, ==_sound _ _ y, rw (t, w, j, y) refl)
        | inr y ↦ inr (rw (t, w, j, y) refl)
      ]
    ]
  ]
]

refused_table : parse_output_format (str "table") ≡ err (unsupported_format (str "table"))
unfolding parse_output_format ◌==◌
refused_table = refl

-- A word is read as a format exactly where it is that format's word, so only the empty word, wide,
-- json and yaml are, and not `table`, which the shell completion offers; any other word is the
-- error with that word.
pub parse_output_format_iff :
    (s : Str)
    → ((f : OutputFormat) → (parse_output_format s ≡ ok f) ↔ (s ≡ format_word f))
      × (parse_output_format (str "table") ≡ err (unsupported_format (str "table")))
      × (((f : OutputFormat) × (s ≡ format_word f))
          ⊎ (parse_output_format s ≡ err (unsupported_format s)))
parse_output_format_iff s = (
  λ f. (λ h. read_word f h, λ e. rw e (parse-word f)),
  refused_table,
  elim (parse-cases s) [ inl (f, e, _) ↦ inl (f, e) | inr r ↦ inr r ],
)
  where
    read_word : (f : OutputFormat) → parse_output_format s ≡ ok f → s ≡ format_word f
    read_word f h = elim (parse-cases s) [
      | inl (g, e, q) ↦ let same : g ≡ f = ok-injective (sym q ∙ h) in e ∙ ap format_word same
      | inr r ↦ absurd (err_ne_ok (sym r ∙ h))
    ]

-- An array's bracket opens no filter.
no_filter : (t : Str) → Lacks b'[' t → cut (str "[?(@.type=='") (str "[*]" ++ t) ≡ none
unfolding cut starts_with
no_filter t h =
    rw (cut-none b'[' (str "?(@.type=='") (str "*]" ++ t) (omega arith, (omega arith, h))) refl

trim_prefix-nil : trim_prefix (str ".") [] ≡ []
unfolding trim_prefix starts_with
trim_prefix-nil = refl

module _ (p : Printing) (obj : Fields) where
  column_text-head : (s : Str) → s ≢ [] → extract_column p obj (str "." ++ s) ≡ column_text p obj s
  unfolding extract_column
  column_text-head s ne = ap (column_text p obj) (trim_prefix-cons b'.' s)

  -- The three forms of a path: in a path before the bracket of a filter there is no bracket, and in
  -- the type that it asks for no quote; in a path before the bracket of an array, and in the field
  -- after it, there is none; and a plain path has none. Each is read as its parts say, with the dot
  -- before it and before the field taken off.
  pub extract_column_parts :
      (prefix cond_type field : Str)
      → prefix ≢ []
      → Lacks b'[' prefix
      → Lacks b'\'' cond_type
      → Lacks b'[' field
      → (extract_column p obj
            (str "." ++ (prefix ++ (str "[?(@.type=='" ++ (cond_type ++ (str "')]." ++ field)))))
          ≡ condition_field p obj prefix cond_type field)
        × (extract_column p obj (str "." ++ (prefix ++ (str "[*]." ++ field)))
            ≡ array_join p obj prefix field)
        × (extract_column p obj (str "." ++ (prefix ++ str "[*]")) ≡ array_join p obj prefix [])
        × (extract_column p obj (str "." ++ prefix) ≡ plain_field p obj prefix)
  extract_column_parts [] cond_type field ne h q g = absurd (ne refl)
  extract_column_parts (c ∷ rest) cond_type field ne h q g = (
    column_text-head _ (λ e. cc)
        ∙ ap
            (path_text p obj (path ++ (str "[?(@.type=='" ++ (cond_type ++ (str "')]." ++ field)))))
            (cut-append b'[' (str "?(@.type=='") path (cond_type ++ (str "')]." ++ field)) h)
        ∙ ap (filter_text p obj path) (cut-append b'\'' (str ")]") cond_type (str "." ++ field) q)
        ∙ ap (condition_field p obj path cond_type) (trim_prefix-cons b'.' field),
    column_text-head _ (λ e. cc)
        ∙ array_cut (str "." ++ field) (omega arith, g)
        ∙ ap (array_join p obj path) (trim_prefix-cons b'.' field),
    column_text-head _ (λ e. cc) ∙ array_cut [] tt ∙ ap (array_join p obj path) trim_prefix-nil,
    column_text-head _ (λ e. cc)
        ∙ ap (path_text p obj path) (cut-none b'[' (str "?(@.type=='") path h)
        ∙ ap (array_text p obj path) (cut-none b'[' (str "*]") path h),
  )
    where
      path : Str
      path = c ∷ rest

      array_cut :
          (t : Str)
          → Lacks b'[' t
          → column_text p obj (path ++ (str "[*]" ++ t))
            ≡ array_join p obj path (trim_prefix (str ".") t)
      array_cut t l =
          ap (path_text p obj (path ++ (str "[*]" ++ t)))
            (cut-skip b'[' (str "?(@.type=='") path (str "[*]" ++ t) h (no_filter t l))
          ∙ ap (array_text p obj (path ++ (str "[*]" ++ t))) (cut-append b'[' (str "*]") path t h)
