-- ===== src/Cli/Describe/Arguments.antt =====
-- internal/cli/describe.go: which arguments name a resource.
use keleustes.Base.{
  ◌≡◌, refl, ap, Str, str, List, [], ◌∷◌, ◌++◌, Lacks, cut, cut-append, cut-none, starts_with, ℕ,
}
use keleustes.Base.Result.{ok, err}
use keleustes.Cli.Describe.{requires_kind_and_name, two_parts, split_describe_args}

-- For a kind that is not empty and has no slash: one argument of it, a slash and a name that is not
-- empty is read as the two, and the name may have slashes; the kind alone, and the kind and a
-- slash, are the error. Two arguments are read as they are. One argument that begins with a slash,
-- no argument, and three or more are the error.
pub split_describe_args_forms :
    (c d : ℕ) (kind name : Str)
    → Lacks b'/' (c ∷ kind)
    → (split_describe_args ((c ∷ kind ++ (str "/" ++ (d ∷ name))) ∷ []) ≡ ok (c ∷ kind, d ∷ name))
      × ((arg second : Str) → split_describe_args (arg ∷ second ∷ []) ≡ ok (arg, second))
      × (split_describe_args ((c ∷ kind) ∷ []) ≡ err requires_kind_and_name)
      × (split_describe_args ((c ∷ kind ++ str "/") ∷ []) ≡ err requires_kind_and_name)
      × ((rest : Str) → split_describe_args ((str "/" ++ rest) ∷ []) ≡ err requires_kind_and_name)
      × (split_describe_args [] ≡ err requires_kind_and_name)
      × ((arg second third : Str) (rest : List Str)
          → split_describe_args (arg ∷ second ∷ third ∷ rest) ≡ err requires_kind_and_name)
unfolding split_describe_args cut starts_with
split_describe_args_forms c d kind name h = (
  ap two_parts (cut-append b'/' [] (c ∷ kind) (d ∷ name) h),
  λ arg second. refl,
  ap two_parts (cut-none b'/' [] (c ∷ kind) h),
  ap two_parts (cut-append b'/' [] (c ∷ kind) [] h),
  λ rest. refl,
  refl,
  λ arg second third rest. refl,
)
