-- ===== src/Observability/Log.antt =====
-- internal/observability/labels.go and log.go: the keys and values that a logger is given. A value
-- is a string, or a generation.
use keleustes.Base.{not, ◌&&◌, if◌then◌else◌, Str, str, ◌==◌, List, [], ◌∷◌, ◌++◌}
use keleustes.Base.Int.{ℤ, pos, int_eq}
use keleustes.Controller.Runtime.{NamespacedName}

abbrev pub label_engine : Str
label_engine = str "engine"

abbrev pub label_kind : Str
label_kind = str "kind"

abbrev pub label_result : Str
label_result = str "result"

abbrev pub label_application : Str
label_application = str "application"

abbrev pub label_environment : Str
label_environment = str "environment"

abbrev pub label_target : Str
label_target = str "target"

abbrev pub label_region : Str
label_region = str "region"

abbrev pub log_field_reconcile_generation : Str
log_field_reconcile_generation = str "reconcileGeneration"

abbrev pub log_field_trace_id : Str
log_field_trace_id = str "traceId"

abbrev pub log_field_span_id : Str
log_field_span_id = str "spanId"

pub record LogFields : Type 0 where
  pub engine : Str
  pub kind : Str
  pub application : Str
  pub environment : Str
  pub target : Str
  pub region : Str
  pub reconcile_generation : ℤ
  pub trace_id : Str
  pub span_id : Str

pub data Value : Type 0 where
  text : Str → Value
  number : ℤ → Value

-- `if f.X != "" { kv = append(kv, key, f.X) }`.
abbrev text_pair : Str → Str → List (Str × Value)
text_pair key s = if not (s == []) then (key, text s) ∷ [] else []

abbrev number_pair : Str → ℤ → List (Str × Value)
number_pair key n = if not (int_eq n (pos 0)) then (key, number n) ∷ [] else []

-- The pairs that `WithFields` passes to `WithValues`.
unfoldable pub with_fields : LogFields → List (Str × Value)
with_fields f =
    text_pair label_engine f.engine
    ++ (text_pair label_kind f.kind
        ++ (text_pair label_application f.application
            ++ (text_pair label_environment f.environment
                ++ (text_pair label_target f.target
                    ++ (text_pair label_region f.region
                        ++ (number_pair log_field_reconcile_generation f.reconcile_generation
                            ++ (text_pair log_field_trace_id f.trace_id
                                ++ text_pair log_field_span_id f.span_id)))))))

-- `nn.String()` of k8s.io/apimachinery is `name_text`.
unfoldable pub with_resource :
    (name_text : NamespacedName → Str) → (engine kind : Str) → NamespacedName → List (Str × Value)
with_resource name_text engine kind nn =
    let out = (label_engine, text engine) ∷ (label_kind, text kind) ∷ [] in
    if nn.name == [] && nn.namespace == []
    then out
    else out ++ ((str "namespacedName", text (name_text nn)) ∷ [])
