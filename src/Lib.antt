-- ===== src/Lib.antt =====
-- A verification library for go-clockwork, which collects what a Go service does for each request and
-- stores it for the Clockwork browser tools.
--
-- The program. A service (clockwork.go) makes a collector (collector.go) for each request. Middleware
-- and integrations call the collector to record queries, cache operations, log lines and timeline
-- events within the limits of the configuration (config.go). When the request is complete, the service
-- asks its data sources for more, takes a snapshot (metadata.go) and saves it in a storage
-- (storage.go): in memory (storage_memory.go), on memcached (storage/memcache) or on Redis
-- (storage/redis). Log lines reach a collector by its trace id, or without one when
-- exactly one trace is active. The middleware decides with a few helpers (middleware_helpers.go) which
-- requests are captured; there is one for each framework (middleware), with a route that gives the stored
-- metadata. The integrations copy log lines, cache operations and queries to a collector
-- (integrations). The configuration can be loaded from a file and the environment (config/load.go).
--
-- The files.
--   Prelude: tests, lists, texts, maps, state passing and machine integers.
--   Config: config.go; Config/Normalize: what normalising gives. Config/Load and
--     Config/Environment: config/load.go; Config/Load/Overrides: what the environment decides.
--   Metadata: metadata.go. Runtime, Frames, TableName: the helpers of collector.go for times, stack
--     frames and SQL queries; TableName/First: the name behind the first keyword.
--   Storage: storage.go. MemoryStorage: storage_memory.go, a function for each method; below it the
--     facts on list elements (Elements), the entries that eviction keeps (Window, Eviction), the
--     invariant (Invariant), each method (Store, Reads, Cleanup), the abstract storage (Spec) and the
--     refinement (Refinement).
--   Collector: collector.go, its data, limits, truncation and timeline; below it Sanitize, Methods and
--     Snapshot for the other functions, Calls for the methods as data, Quiet, Truncates, Entries,
--     Pushes and Names for what single steps keep, Sound, Recording, Invariant and Results for
--     sequences of calls.
--   Service: clockwork.go; below it Requests for log lines and completion, Traces and Counted for the
--     count of active traces, Actions for the methods as data, Logs for where log lines go, Complete
--     for completed requests, Races for the two atomic steps of RegisterTrace and unregisterTrace, with
--     Counting for the counter in every interleaving and Settling for when they are done.
--   Helpers: middleware_helpers.go; Helpers/Headers: the headers that are kept, Helpers/Capture: the
--     requests that are captured.
--   Backend: what the two remote storages share. Memcache: storage/memcache/memcache.go; below it the
--     hypotheses on the servers and the encoding (Laws), the abstract storage (Spec), the index (Index),
--     what the servers hold (Represents, Stores), the refinement (Refinement) and a service on top of it
--     (Completion). Redis: storage/redis/redis.go; below it Laws, Spec and Refinement.
--   Middleware: what the packages under middleware share; below it one module for each package (Http,
--     Chi, Gin, Echo, Fiber), Lookup for their metadata routes, Paths for the paths of these, Agreement
--     for the packages against each other, Completion for a request from its start to its lookup.
--   Integrations: integrations/cache/cache.go (Cache) and integrations/sql/sql.go (Sql); Recorded: what
--     the cache records.
--   Zap: integrations/zap/zap.go; Zap/Stack: its frames, Zap/Lines and Zap/Distinct: what is read of a
--     stack, Zap/TraceId and Zap/Context: the trace id and the context of a line, Zap/Routing: the
--     collector that a line reaches.
--   Tests: the definitions on small inputs.
--
-- How the code is read. A Go string is its list of bytes; the functions of package strings are exact
-- on ASCII text. A map is an association list; where the code ranges over a map, the order of the list
-- is the order of iteration. An int or int64 is an integer, and a sum or difference that could
-- overflow wraps (`add_int`, `sub_int`); lengths and the counters of dropped events do not. A time is
-- a number of nanoseconds and an argument of the method that reads the clock, one also for a method that
-- reads it twice; so are the statistics of memory and the frames of the stack. A mutex makes a method one step; the steps of the two methods of
-- the service that work without one are in Service/Races. A nil receiver, on which every method does
-- nothing, stands with the callers. Stored metadata is a value: the program does not change it. A
-- collector that the service shares is a pointer into a heap; an element of container/list has an
-- identity. What float64 and package fmt compute, and what encoding/json gives for a record, are
-- parameters of which nothing is assumed. A data source is a function from a collector to the calls
-- that it makes, so it is taken not to wait or to panic.
--
-- What is outside. A client of memcached or Redis is a record of the calls that the code makes, over a state
-- that stands for the servers; the code that handles its errors is there. The refinements assume servers
-- that answer and keep what they are given, as far as their documentation promises it: for memcached, keys
-- of at most 250 bytes without spaces and control bytes, a time to live of at most thirty days, and values
-- for which there is room; for Redis, one space of keys in which SET replaces an item of any kind, and a
-- command on an item of the wrong kind fails. The core under a zap core, the cache under a wrapped
-- one, viper and gotenv are such records too, of which nothing is assumed. A framework is what it says of
-- a request (`Incoming`, `FiberRequest`, a route), and the next handler a function on the response and
-- the world, so the work of other requests meanwhile is a part of it.
--
-- Fuel. The loop of evictLocked runs on as much fuel as the list has entries. A round that does not
-- end the loop removes an entry, so that is enough: Eviction states what the loop gives.
--
-- Not modelled: interleavings of the methods of the service other than RegisterTrace and
-- unregisterTrace; what OpenTelemetry does for TraceFromContext; the expiry of what memcached and Redis
-- hold, and interleavings of several processes on them; the calls that register routes with a framework,
-- and the logger that Gin's middleware is given. They are calls of third-party libraries without logic of
-- their own, or concern time that the models do not have.
pub mod Prelude
pub mod Config
pub mod Metadata
pub mod Runtime
pub mod Frames
pub mod TableName
pub mod Storage
pub mod MemoryStorage
pub mod Collector
pub mod Service
pub mod Helpers
pub mod Backend
pub mod Integrations
pub mod Memcache
pub mod Middleware
pub mod Redis
pub mod Tests
pub mod Zap
