-- ===== src/Lib.antt =====
-- Free Model Router: a local gateway that serves chat requests from a pool of models on several
-- providers, and moves on to another route when one fails.
--
-- The parts and the files that model them, with paths from the root of the repository:
--   Model      internal/model: failures and the action each leads to, access classes, capabilities with
--              three states, routes, catalog snapshots and provider model ids.
--   Catalog    internal/catalog: the user's pool, the merge of a fresh catalog into it (Reconcile),
--              the store of both behind one lock, with the store part of Gateway.RefreshCatalog,
--              and the detection of access changes (Access).
--   Health     internal/health: cooldown and quota of each route, and the slots of each provider as a
--              step relation over all interleavings of the requests.
--   Latency    internal/latency: the averages of each route and which of them routing may use.
--   Router     internal/router/filter.go: eligibility (Filter) and order (Rank).
--   Gateway    internal/gateway: the failover policy (Policy), the decisions on errors (Errors), the
--              candidates of a request (Candidates), the choice of the next one and the loop over the
--              attempts (Attempts), one attempt (Attempt) over what the upstream delivers (Streaming), ChatHandler
--              over these (Chat, Serve), the usage collector (Usage), and the writes of the control
--              plane with what a start restores (Control).
--   Registry   internal/providers/registry: the catalog merged from the configured providers (Merge), and the
--              dispatch of a request to one of them.
--   Providers  internal/providers: what the clients send and how they read answers (Wire, Http), streams
--              (Sse) and lists of models (Catalog); OpenCode's client (Opencode), those with one key
--              (Keyed), and the adapter of a configured endpoint with its routes, and their way into the
--              registry (Compat).
--   Probe      internal/probe: the routes that a cycle probes (Eligible, Targets), one probe in any
--              interleaving with others (Reach, Once).
--   Security   internal/security: the addresses a server may listen on, and the bearer token.
--   Scoring    internal/scoring/cache.go: the snapshots of benchmark data, and their cached file.
--   Matcher    internal/matcher: how a model is bound to a record of benchmark data, uniquely (Choice, Unique) or
--              to the best one (Pick), and how the two agree (Agree).
--   Usage      internal/usage/usage.go: the request records, their retention, and the store over its
--              file, which a start reads back (Store), and the hub of internal/usage/events.go (Events).
--   Config     internal/config: the persisted configuration, its validation, and how it is loaded and
--              saved (Persisted).
--   Files      the calls of package os as an interface with laws, and the replacement of a file that
--              Scoring, Usage and Config share.
--   Prelude    the names and helpers that they share.
--   Examples   the theorems at concrete inputs, and two tests.
--
-- A catalog gives models and routes to the pool; a request filters the pool by catalog, health and
-- access, ranks what is left, and tries the candidates one after another. Each attempt takes a slot of
-- its provider, reads the upstream's events and reports to the health manager.
--
-- A pointer that may be nil is an Option, a Go error a Result or, in the gateway, a chain of errors as
-- errors.As and errors.Is walk it. A Go map is an association list, and its iteration order the order of
-- the list; a missing key reads as the zero value where the source reads it so. Strings are texts, `int`
-- and `int64` are integers with their wrap-around written out where the source increments them, and
-- times are nanoseconds with Go's zero time as 0. Each method of a locked object is one step on its
-- state. The clock, the client's context, the upstream and the firing of a timer are arguments, so that
-- a theorem holds for every way they may behave. The loop over attempts recurses on the attempts left,
-- and the loops over a stream on its reads, so no fuel is needed; a stream has finitely many reads.
-- The lines of the usage file are read with its length as a bound, since a line takes a byte at least. The
-- search for a free name of a corrupt configuration, which the source does not bound, has its bound as an
-- argument, and the theorems hold for every bound.
--
-- Any call on a file may fail, and one that fails changes nothing; so a program that stops midway is one
-- whose remaining calls all fail, and a theorem about a failing write is one about a crash too.
--
-- Not modelled: JSON, HTTP beyond one exchange and the order of the writes, the check of ChatHandler that
-- the writer can flush, the trimming of the path of the usage file, log files, the arithmetic of floats and the scores made of it, the measured durations (an attempt
-- lists the calls that it makes of the latency registry and the health manager), the start and stop of
-- the probe loop, the view of the state for the management API, and the packages that the manifest lists
-- as left out: the credential stores, the control server, the desktop shell,
-- packaging.
pub mod Prelude
pub mod Model
pub mod Catalog
pub mod Health
pub mod Latency
pub mod Router
pub mod Usage
pub mod Security
pub mod Scoring
pub mod Matcher
pub mod Files
pub mod Gateway
pub mod Config
pub mod Probe
pub mod Registry
pub mod Providers
pub mod Examples
