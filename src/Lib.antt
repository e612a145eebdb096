-- ===== src/Lib.antt =====
-- Verification library of goupter, a Go framework for micro-services: a service is an application
-- object that starts and stops its servers and clients, and its requests pass through middleware,
-- caches and limiters. The library models those parts of the framework that keep state or decide,
-- and proves what they promise. Paths are from the root of the repository.
--
-- Parts and their files
--
--   Prelude/       Shared types and lemmas: signed integers and 64-bit arithmetic with its wrap-around
--                  (Int, Word64), maps as association lists (Dict), the operations of float64 and what
--                  is relied on of them (Float), lists, texts and tests.
--   Cache/         pkg/cache. Cache/Memory.antt is memory.go: the map of entries with their expiry, one
--                  function for each method (Get is get, SetNX is set_nx, and so on), and the tick of
--                  the cleaner's loop as cleanup. Cache/Memory/Pattern.antt is Keys and matchPattern.
--                  Cache/Errors.antt is errors.go and the errors that IsNotFound looks through.
--                  Cache/Level.antt is the interface Cache of cache.go, as a record of operations on a
--                  state; Cache/Multi.antt is multi.go over any such record, and
--                  Cache/Memory/AsLevel.antt makes the in-memory cache one. The other files hold
--                  the lemmas, by what they are about.
--   RateLimit/     pkg/server/middleware/ratelimit.go: Window is SlidingWindowLimiter, Bucket is
--                  TokenBucket and IPRateLimiter, Middleware is RateLimitWithConfig, which asks one of
--                  them; WindowBounds and BucketBounds hold the lemmas.
--   Config/        pkg/config: Types is the structs of config.go; Validator and Rules are validator.go,
--                  a function for each section and each rule, over the values of Values. IsValid
--                  says what each section must be; Tests, Sections and Accepts relate the two.
--   App/           pkg/app: Health is HealthManager of health.go, with its cached responses; Lifecycle is
--                  Run and Shutdown of app.go, as the list of calls that they make on the hooks, the
--                  servers and the clients; Builder is the builder of options.go with the options and
--                  New of app.go, over what the constructors of the components answer.
--   Log/           pkg/log: Sampler is RateSampler and WindowSampler of sampler.go; Masker is DefaultMasker of
--                  masker.go, over the bytes of a text; Hook is HookManager and HookedLogger of hook.go,
--                  whose managers stand at addresses of a store that derived loggers share; Async is
--                  AsyncHook as a step relation between its goroutine and its callers; Named is the
--                  registry of named.go, one step for each of its locked sections.
--   Timeout/       pkg/server/middleware/timeout.go: Writer is bufferedResponseWriter, one function for
--                  each method; Machine is executeWithTimeout as a step relation between the goroutine
--                  of the handlers, the clock and the caller; Config is what is replied and which
--                  timeout a request gets. WriterLaws and Safety hold the lemmas.
--   Metrics/       pkg/server/middleware/metrics.go: Requests is RequestMetrics, Counts the lemmas.
--   Middleware/    pkg/server/middleware: Auth is auth.go, Cors is cors.go, Security is security.go, each
--                  as the calls that a handler makes on the context of gin (Gin); Compress is the writer of
--                  compress.go, with what goes through gzip and what goes past it.
--   Interceptor/   pkg/server/interceptor/interceptor.go: Handlers is recovery, authentication, timeout,
--                  rate limit and request id, Logging the log entries, Chain the chains; Types is what
--                  they share. An interceptor is a function of the context, the request and the
--                  handler, over a state that the handler, the logger and the clock change.
--   Errors/        pkg/errors and pkg/response: Codes is codes.go, Error is errors.go, Response is
--                  response.go.
--   Auth/          pkg/auth: Claims is auth.go, Registry is plugin.go, Jwt is jwt/jwt.go, whose blacklist is
--                  any cache of Cache/Level.antt.
--   Consul/        pkg/config/consul.go: Center is ConsulConfigCenter with its ConsulSource.
--   Codegen/       cmd/goupter/internal/gen/model.go: Types is the type maps, Table is getTableInfo on the rows
--                  of the database.
--                  Crud is crud.go, the fields of the request types and the file of routes to which a run
--                  appends. Paths, Routes and Httpbook are gen_httpbook.go of
--                  cmd/goupter/internal/cmd: the names read off a path, the two passes of
--                  parseRoutesFile as functions of a state and a line, and the text of the book.
--                  Strings is what these call of Go's package strings.
--   Mq/            pkg/mq: Message is the messages of mq.go and what nats.go makes of them; Nats is the
--                  map of subscriptions of nats.go, with the handles that were opened and ended.
--   Discovery/     pkg/discovery/consul.go: the watchers, the loop of one, the health of a service.
--   Database/      pkg/database/slow_query.go, as the records that it writes.
--   Geometry       pkg/model/geometry.go.
--   Examples/      Runs at concrete inputs, and each theorem at an input that meets its hypotheses.
--
-- How code is modelled
--
--   A method that holds a lock throughout is one step from a state to a state and an answer. The
--   clock is an argument, one for each reading of it, so nothing is assumed about how time
--   passes unless a theorem says so; where a memory cache stands behind the interface Cache
--   (Cache/Memory/AsLevel.antt), as a level or as a blacklist, one reading serves one call through the
--   interface, and the clock moves between such calls; times and durations are nanoseconds, as signed integers. The loop
--   of a cleaner is a step that may come between any two calls. A map is an association list whose
--   keys are distinct where that matters; where Go visits a map in no fixed order, the order of the
--   list is any order. Counters wrap around at 64 bits. Errors are values, and a panic is the answer
--   none or a text. Loops are recursions on the list that they visit, so no fuel is needed.
--
-- Parameters
--
--   encoding/json, time.ParseDuration, regexp, net.ParseIP, the printing of integers and float64 are
--   parameters; what is relied on of them stands in records (Cache/Json.antt, Config/Values.antt,
--   Prelude/Float.antt), with an instance in Examples. The hooks and clients of an application answer
--   by a parameter as well.
--   So are grpc's errors and codes, the library that signs and parses tokens (Auth/Jwt.antt, with what is
--   relied on of it in Auth/JwtLaws.antt), the matching of regular expressions in log
--   messages, viper's reading of a configuration, the naming of fields in generated code, and the answers of the Consul client. A character of a text
--   stands for a byte.
--   The regular expressions of gen_httpbook.go are a record of functions from a line to its submatches
--   (Codegen/Routes.antt), the constructors of the builder's components a record of answers
--   (App/Builder.antt); strings.ToLower and ToUpper are functions. What a hook and a logger do
--   outside is a change of a world that is threaded through the calls.
--
-- Not modelled
--
--   pkg/cache/redis.go, pkg/database/mysql.go, pkg/model/base_model.go and the adapters of pkg/log pass
--   calls on to client libraries. The servers of pkg/server, their TLS options and the loading of the
--   configuration set up gin, grpc-go and viper. The templates of the generators, the commands and the errors of
--   the file system are left. Left for later: the recovery and request log of
--   pkg/server/middleware and the built-in endpoints of pkg/app. Interleavings inside a method that
--   releases its lock are not modelled, but for the request timeout, the asynchronous hook and the
--   registry of named loggers: a call of the limiter by address, of the health manager, of Run, of
--   Load or of a turn of the watch is made with no other call in its middle.
pub mod App
pub mod Auth
pub mod Cache
pub mod Codegen
pub mod Config
pub mod Consul
pub mod Database
pub mod Discovery
pub mod Errors
pub mod Examples
pub mod Geometry
pub mod Interceptor
pub mod Log
pub mod Metrics
pub mod Middleware
pub mod Mq
pub mod Prelude
pub mod RateLimit
pub mod Timeout
