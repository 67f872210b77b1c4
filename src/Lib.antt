-- ===== src/Lib.antt =====
-- A model of dnsbuffer, a local DNS forwarder that answers from custom hosts, an ad-block filter and
-- an optimistic cache, and otherwise asks upstream resolvers.
--
-- The parts and how they interact. A query comes to the pipeline. It asks the hosts, then the filter,
-- then the cache; a miss is prepared (client subnet out, configured subnet in) and sent to the
-- upstream, and a NoError response is put into the cache. An expired hit is answered at once and
-- starts a background refresh. A sampler watches the cache, and a recorder hands one event for each
-- query to the dashboard.
--
-- Which file models which code:
-- - Text: the string functions of the standard library that the code calls, and `normalize` of
--   src/hosts.rs and src/filter.rs; Text.Walk has the loops over the parents of a name. A text is a
--   list of character codes; case is that of ASCII, in which DNS names are presented.
-- - Message: the types of hickory-proto that the code reads, with the fields it uses. The operations
--   of that library are a record of functions, `Hickory`, and what the code relies on is the record
--   `IsDocumented` of laws; Tests.Fixtures has an instance.
-- - HashMap: a map as an association list and a set as a list; no result depends on their order.
-- - Resolver: src/resolver.rs. Local: the shape that answers given without an upstream share.
-- - Hosts: src/hosts.rs. `HostsMap::from_entries`, `find` and `lookup` keep their names.
-- - Filter: src/filter.rs. The world of `load_sources` (files, fetching, address literals) is a
--   record. A refresh is one turn of the loop in `spawn_updater`.
-- - Cache: src/cache.rs. The linked map is the list of its entries, the least recently used first.
--   The clock is an argument `now`, in milliseconds where the code has instants; the lock's
--   poisoning is a field; `try_reserve` is a function of the attempt, so it may fail at any point.
--   `used_bytes` is a 64-bit word that wraps, as a release build's does.
-- - Ecs: src/ecs.rs.
-- - Dashboard.Recorder: `QueryEvent` and `Recorder` of src/dashboard/mod.rs. Dashboard.Sampler:
--   src/dashboard/sampler.rs.
-- - Stats: src/stats.rs. Upstream.Selector, Upstream.Group, Upstream.Hedged: the files of these names
--   in src/upstream/. Floating point numbers are a type with a record of operations,
--   Upstream.Floats. The statistics count from the epoch on, which is what their clock gives. The
--   group takes the random numbers and what comes of each attempt as functions. The hedging loop is
--   a function on its variables, one poll of `select!` a step, and a query is a list of polls.
-- - Upstream.Transport: src/upstream/plain.rs and src/upstream/dot.rs, with a socket as a function
--   from what is sent to what comes back. Bootstrap: src/bootstrap.rs and `sort_by_family` of
--   src/upstream/mod.rs, with a resolver as a function. Fetch: src/fetch.rs, with the parsers, the
--   connections and the servers in a record `Net`. Config: `validate` and `split_domain_port` of
--   src/config.rs.
-- - Upstream.Doh3: src/upstream/doh3.rs. What one task does under the lock is a function on the shared
--   state, and a request runs its attempts between lists of such sections of other tasks; an `await`
--   that the caller's timeout cuts off is `pending`. Upstream.Doh: src/upstream/doh.rs, its HTTP/2
--   side with what others make of the shared sender as functions.
-- - Assembly: `build_pipeline` of src/lib.rs as far as it makes the groups, the fallback and the
--   metrics, `build_group`, `build_member`, and the constructors that they call, in
--   src/upstream/group.rs, src/upstream/plain.rs, src/upstream/dot.rs and src/bootstrap.rs.
--   Assembly.Network puts the layers together: the engines of src/upstream/hedged.rs join attempts,
--   which are calls of a group of src/upstream/group.rs, which tries the resolver of a member. What an
--   attempt meets on the network, and when, is a record of its own, with the resolver as it is by then.
-- - Server: src/server.rs. A run is a list of events: datagrams, handlers that finish or panic in any
--   order, a failure of the socket, or the shutdown.
-- - Pipeline: src/pipeline.rs. `handle` takes a world: what the upstream says within the timeout
--   (nothing: it timed out), the times, the allocator, and what other tasks make of the shared cache
--   while the upstream is asked. The result holds the response, the pipeline after it and the
--   refresh that starts, if any; `run_refresh` is the body of the task of `spawn_refresh`.
-- - Dashboard.Store: src/dashboard/store.rs. The tables of the database are a record; each SQL
--   statement of the source is a constructor of `Statement`, `apply` is what it does, and SQLite may
--   refuse any of them at any time (the parameter `refuses`). chrono is a function from a timestamp
--   to the start of its day, LIKE one from a pattern and a text. Dashboard.Store.Trend has the trend,
--   Queries the pages, whose three reads are not in a transaction and so take three states of the
--   tables, Search the escaping, Schema the creation, the upgrade and the validation of
--   the schema, Rankings the most frequent domains and the average response time, Warnings the limit
--   on logged failures with its atomic number, Worker the loop that drains the channel: a run is a
--   list of turns, which say what `select!` yields, what arrives and what the clocks say.
-- - Dashboard.Services: `Runtime::run_until` of src/dashboard/mod.rs. A run is a list of polls that say
--   what has finished, and what remains after the signal to shut down.
-- - Dashboard.Metrics: src/dashboard/upstreams.rs. The statistics of all members are a list of cells,
--   and a member holds the place of its cell.
-- - Dashboard.Http: src/dashboard/http.rs. Dashboard.Http.Handlers has the handlers of the query log
--   and of the trend, Figures the other ones, Dto the values that are sent. The extractor of axum is
--   a function.
-- - Prelude.Int: `i64`, over the native numbers.
--
-- Fuel: `walk` and `walk_any` take the length of the name as fuel. Each turn goes to a shorter name,
-- so it is enough.
-- `decimal_from` takes the number itself, which is at least the number of its digits.
-- `fetch_rounds`, `attempt_loop`, `request_from` and `h2_from` count down the rounds that the code's
-- own `for` loops count. All other loops are structural.
--
-- Not modelled: the wiring and logging of src/lib.rs and src/main.rs around the chain, the TLS
-- configuration (src/tls.rs), the journal mode of the store and the probe that `validate_schema`
-- rolls back, the threads that run and stop its worker, the pages of the dashboard, sockets, tasks
-- and channels themselves, TLS, HTTP and QUIC, SQLite, the deserialisation of the configuration and
-- the text of log lines.
pub mod Prelude
pub mod Text
pub mod Message
pub mod Resolver
pub mod HashMap
pub mod Local
pub mod Hosts
pub mod Filter
pub mod Cache
pub mod Ecs
pub mod Dashboard
pub mod Upstream
pub mod Config
pub mod Bootstrap
pub mod Fetch
pub mod Stats
pub mod Pipeline
pub mod Assembly
pub mod Server
mod Tests
