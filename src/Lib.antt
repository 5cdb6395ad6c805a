-- ===== src/Lib.antt =====
-- keleustes: the audit pipeline, the read API, the reconcilers and the command line of the control
-- plane, modelled from the Go code.
--
-- The program's parts. A custom resource write reaches the admission webhook (internal/audit/webhook),
-- which decodes and redacts the object before and after the write (internal/audit/redaction), builds
-- an envelope (internal/audit) with an id (internal/audit/ulid.go), and calls `audit.Emit`, which
-- checks the pair of verb and payload against the registry (internal/audit/payloads) and calls an
-- emitter. Its answer decides whether the write is let through. The read API (internal/api/server)
-- authenticates a request (internal/api/auth), asks an authorizer for the permission of the
-- operation, calls a handler, which reads through a port (internal/api/readmodel/port.go), and maps
-- errors to problems. The two backends are internal/api/readmodel/crdsource, which lists the custom
-- resources of api/v1alpha1 and maps them to the wire types of internal/api/openapi/keleustes.gen.go,
-- and internal/api/readmodel/fixtures, which serves an embedded corpus of wire values. The manager
-- (cmd/manager) runs a reconciler for each of fifteen kinds of custom resources (internal/controller),
-- which marks a resource as accepted in its status; the read model shows that status. The command
-- line client (internal/cli) resolves the names of kinds by a registry, lists and describes the
-- custom resources themselves, and prints what the read API answers. internal/sync translates the
-- phases of the sync engine, and internal/observability keeps the metrics.
--
-- Files and sources.
--   Base and its children: strings as lists of bytes, lists, sorting, results, integers, and float64
--     as the ages of the command line use it.
--   Json: Go's `any` as `encoding/json` fills it.
--   Audit/Types: internal/audit/types.go, envelope.go. Audit/Payloads: payload.go, payloads/.
--   Audit/Ulid: internal/audit/ulid.go; its children are about the shape, the order and the reading
--     back of ids.
--   Audit/Redaction: internal/audit/redaction/redact.go (`Apply`, `walk`, `matchRule`, `pathMatches`).
--   Audit/Emitter: internal/audit/emitter.go (`Emit`, `validatePayloadForVerb`, `withType`, the
--     emitters). An emitter is a state with a step, so an emitter of any kind can stand for it.
--   Audit/Webhook: internal/audit/webhook/handler.go (`Handle`, `buildEnvelope`, `redactedSnapshot`);
--     FailClosed and Snapshots are about one request, Sequence about several, one after another.
--   Api/Resources: api/v1alpha1/*_types.go. Api/Wire: the generated wire types. Api/Port:
--     internal/api/readmodel/port.go, the interface between server and backend.
--   Api/CrdSource: internal/api/readmodel/crdsource; Mapping, Matrix and Topology are map.go, Reads
--     is crdsource.go, and the other children are about them.
--   Api/Fixtures: internal/api/readmodel/fixtures/fixtures.go; its children are about the inbox states
--     against the other backend, the filter of applications, the targets, the made-up answers
--     (Synthesis), the query of the activity log (Activity), and the read model (Model).
--   Api/Auth: internal/api/auth/auth.go.
--   Api/Server: internal/api/server; Errors, Authz, Handlers and Middleware are the files of these
--     names (Handlers also server.go), Routes is server.go with the probe listener and the choice of
--     the backend of cmd/apiserver/main.go; Problems, Checkpoint, Lookup and Recording are about
--     them, Targets about requests for a target over either backend, and Delivery and Answers about
--     what goes over the wire.
--   Controller: internal/controller; Runtime is what the reconcilers share and what they call,
--     Status what each makes of its status, Kinds the reconcilers and cmd/manager/main.go's list of
--     them; Settled, Converge and Generations are about one reconcile, several of one object, and
--     reconciles among other writes, Names about the names of the controllers. Api/Resources/Gates
--     and Runs are the other nine kinds.
--   Sync: internal/sync/engine.go. Observability: internal/observability (Log, Metrics).
--   Cli/Kinds: internal/cli/kinds.go; Resolve is about the look-up. Cli/Output: output.go, with Paths,
--     Units and Ages about it. Cli/Describe: describe.go, with Writes and Arguments about it. Cli/Get:
--     get.go, with Watch about it. Cli/Url: apiclient.go. Cli/Tables and Commands: commands.go, with
--     Grid and Inbox about the matrix and the blockers over the read model.
--   Tests: runs at concrete inputs.
--
-- State and results. The webhook's and the emitters' state is passed in and returned; a Go result
-- with an error is a `Result`; a pointer or a value that may be nil is an `Option`; a map is the
-- list of its entries in the order of one iteration. `sort.Slice` and `sort.Strings` are an
-- insertion sort, which is stable. Every loop is a recursion on its list; only the digits of a
-- number run on fuel, one more than the number, which `decimal-injective` shows to be enough, and
-- the rounding of float64, on 128, which is enough below 2 ^ 53 (`round_float-le`).
--
-- Parameters, code outside the repository: `json.Unmarshal` (Decoder), `json.Marshal` of envelopes
-- and problems, the clock and the source of entropy (Ambient), `FindStatusCondition` (Finder),
-- `apierrors.IsNotFound` and the lists of the Kubernetes client (Source), the authorizer, and the
-- generated router (the parameters `mux` and `route`), with the encoders of the API (Codec). For
-- the reconcilers: the manager's client, whose reads come from a cache that may be behind the API
-- server, `DeepEqual` and `SetStatusCondition` (Client, ConditionsApi). For the command line: the
-- dynamic client and the generated API client (Dynamic, ApiClient), `NestedFieldCopy` and
-- `NestedSlice`, YAML and the verbs of fmt for maps (Printing, Layout), net/url (Urls). The
-- constants of gitops-engine (OperationPhases) and prometheus (Prometheus). Laws of these are
-- documented ones, and fields of their records or of a record of laws (IsClient, IsUrls). The text
-- of errors from outside is kept as a string. Strings are ASCII where letter case or white space
-- matters.
--
-- Bounds: the ten digits of a timestamp hold 50 bits and drop the rest, as in the code; the format has
-- 48 bits, and the theorems that need a bound ask for that.
--
-- Not modelled: the flags, help texts and shell completion of the command line, the alignment of
-- tables and the errors of writing them, the wiring of the processes in cmd, and generated code
-- (routing, binding, the client, deep copies); logging; locks (a call of an emitter or a reconcile
-- is one step).
pub mod Base
pub mod Json
pub mod Audit
pub mod Api
pub mod Controller
pub mod Sync
pub mod Observability
pub mod Cli
pub mod Tests
