-- ===== src/Lib.antt =====
-- Pulse monitor: the checks of the monitored URLs, the limits they run under, and what the dashboard
-- and the database get to see of them.
--
-- The program and the files that model it. The command of cmd/server/main.go reads the configuration
-- (internal/config), builds a store on Postgres (internal/store), a limiter for each host
-- (internal/ratelimit), the counters (internal/metrics), the hub that feeds the open browser tabs
-- (internal/sse) and the pool that checks the targets (internal/monitor). A tick of the pool lists
-- the targets from the store, checks each in a goroutine of its own behind a semaphore, waits for
-- the limiter of the target's host before the request, writes every result to the store and gives
-- it to the publisher, which sends it through the hub.
--
-- - Prelude, Prelude/*: names of the libraries, Boolean tests, lists measured by native numbers,
--   signed integers, and 64-bit words with their wrap-around.
-- - Result, Text, Text/: Go's `(value, error)`; strings as lists of code points with what the
--   program uses of strings and strconv.
-- - Config/Env, Config/DotEnv, Config/Load: internal/config/config.go. The environment is an
--   association list; `load` is Load, `load_dot_env` is loadDotEnv, `validate`, `int_env` and
--   `seconds_env` are validate, intEnv and secondsEnv.
-- - RateLimit/Bucket: internal/ratelimit/bucket.go, as a machine. A move is one case taken in a
--   select of refill or Wait, a tick of the ticker, or Close.
-- - RateLimit/Manager: internal/ratelimit/manager.go. Wait is two acts, bucketFor under the lock and
--   the return of the bucket's Wait outside it. Manager/Pace puts times to the acts.
-- - Sse/Frame, Sse/Hub: internal/sse/hub.go. Sse/Frame/Reader describes the browser's EventSource
--   independently; Sse/Hub/World adds the receives of the channels' owners to the hub's calls;
--   Sse/Hub/Abstract is the hub as a set of channels, without the order of the clients.
-- - Metrics: internal/metrics/metrics.go, one step for each atomic addition, and readMetric of
--   cmd/loadtest/main.go.
-- - Monitor/Types, Monitor/Check, Monitor/Pool, Monitor/Tick: internal/monitor/monitor.go. `check_one`
--   is checkOne, Pool is Check with its goroutines, Tick is tick and Run. Pool/Totals puts the counters
--   of Metrics behind a run of Check.
-- - Store: internal/store/store.go, over the answers of the driver. Store/Window relates RecentStats
--   to the rows that the ticks of the monitor insert. Store/Database is the table `targets` as a
--   parameter, with the laws that the store relies on: an id has several spellings, of which Postgres writes
--   one, and a statement that answers with an error may have been committed.
-- - Handlers/Views, Handlers/Targets: internal/handlers/handlers.go. Views has the view models and
--   the Publish methods, Targets validateTargetURL and the handlers of the targets; each handler
--   takes the operations of the store, and gives the response, the hub and the store afterwards.
-- - Handlers/Writer: http.ResponseWriter, and Recover of internal/handlers/middleware.go.
-- - Handlers/Routes: New and Register, and the patterns that cmd/server/main.go registers.
-- - Handlers/Events: HandleEvents, as a session whose turns are the cases of its select and the calls
--   that others make of the hub in between. Events/Sessions relates it to the hub's histories.
-- - Server: cmd/server/main.go. `run` is the list of what run does, deferred calls included, by what
--   is answered outside.
-- - Dashboard: the wiring of cmd/server/main.go, the handlers as the monitor's publisher and the
--   manager of buckets as its limiter. Dashboard/Requests is the handlers on a database and a hub, one
--   after the other; Requests/Goroutines has them side by side: a handler is a turn up to its call of
--   Publish, and a turn from there to its end. Dashboard/TabStreams goes from a tick to the browser,
--   Dashboard/LimitedChecks has checkOne and its buckets in turns, with the redirects that client.Do
--   follows.
-- - LoadTest: cmd/loadtest/main.go, the statements of run and the numbers of its report. LoadTest/Polling
--   is waitForChecks, sampleMetrics and the rates, LoadTest/Cleanup what the statements do to the table.
-- - TargetServer: the handler of cmd/targetsrv/main.go.
--
-- Concurrency. A history is a list of steps in the order in which the scheduler lets them happen; a
-- step that is not ready gives no state. What is stated for every history holds for every schedule.
-- In Check, a goroutine calls checkOne in one step and returns from it in another, with the calls of the
-- metrics as steps of their own: its waits have the deadline of checkTimeout.
-- Dashboard/LimitedChecks splits it at its call of Wait.
--
-- Bounds and fuel. An int is 64 bits wide: the multiplication of secondsEnv and the additions to the
-- counters wrap. The printer of numbers has as fuel one more than the number, which is enough since
-- each digit makes it smaller; every other loop is structural recursion. The counters are taken to
-- count fewer than 600000000000000000 checks. Times and durations are in nanoseconds.
--
-- Outside the model. net/http, net/url, html/template, the clock, pgx and Postgres are parameters:
-- the records Outside of Monitor/Check and of Server and the records Driver and Database of Store hold
-- what they answer, and the handlers take what the templates write and how a URI parses. The
-- arithmetic of float64 is the record Float of LoadTest/Polling. A string is taken to be valid UTF-8, and a
-- .env file to be read up to its end or its first read error. Log lines of a tick are effects, those of
-- a check are left out. The choice of a route for a request, the parsing of flags and the layout of
-- the report of the load test, the text of the templates and the migrations are not modelled: they hold data for
-- libraries, or print.
pub mod Prelude
pub mod Result
pub mod Text
pub mod Config
pub mod Sse
pub mod RateLimit
pub mod Metrics
pub mod Monitor
pub mod Store
pub mod Handlers
pub mod Dashboard
pub mod Server
pub mod LoadTest
pub mod TargetServer
