-- ===== src/Lib.antt =====
-- A verification library for the job queue of this repository: its queue with a memory and a redis
-- backend, in Go, under api/, with its benchmark.
--
-- The parts, and where they are modelled. A field or function keeps its Go name, in snake case.
--   api/types.go     `Configuration` in Config, `Job` in Job, `Queue` in Queue, `registeredHandler`
--                    in Handler.
--   api/queue.go     `setConfigDefaults` in Config, `buildQueue` in Queue, the registry of handlers
--                    in Registry, `worker` and `runHandler` in Memory/Worker, the memory cases of
--                    `Dispatch`, `Depth` and `Close` in Memory/Dispatch, `Dispatch`, `DispatchIn` and
--                    `Depth` on both backends in Dispatch, with Stamping for what they share,
--                    `loadConfig`, `New` and `NewWithConfig` in Load, `Listen` and the redis case of
--                    `Close` in Pool, `UnmarshalPayload` in Cached.
--   api/memory.go    Memory.
--   api/redis.go     the keys in Key, `setRedisKey` and `getRedisValue` in Redis, `handleRedisJob` in
--                    Redis/Handle, `cursorScanRedisDb` in Redis/Scan. Redis/Visits follows the visits
--                    of workers to one key, and Redis/Steps makes a visit one command at a time.
--   api/reaper.go    `requeueExpiredLock` in Reaper, `runReaperTick` in Reaper/Run, `reapStaleLocks` in
--                    Reaper/Loop. Reaper/Orphan follows a job whose worker is lost.
--   provider.go      `Configure`, `Register` and `Boot` in Provider.
--   internal/bench/benchjobs   the handlers and constructors in Bench/Simple, Slow, Fail, Flaky and
--                    Edge over Bench, their payloads in Bench/Payloads, registry.go in Bench/Registry,
--                    stress.go in Bench/Stress.
--   cmd/queuebench   `bootstrapApplication`, the lookup and the batches in Bench/Harness, `main` and
--                    `listenForShutdown` in Bench/Harness/Command.
--   queue.go         Facade.
-- Conserved follows a job through `Dispatch`, the workers and the reaper together.
-- Base holds what they share: integers, texts and lists; Time the instants, durations and timestamp
-- texts; Database and Json the database session and the marshalling of a payload. The other files
-- of a part's folder hold its proofs, and Scenarios applies the theorems at concrete inputs.
--
-- How the parts interact. `buildQueue` makes the queue of a configuration that has its defaults. A
-- caller registers handlers and dispatches jobs. On the memory backend a dispatched job waits in a
-- goroutine until a worker receives it, runs its handler and records the outcome, which may put the
-- job to sleep for a retry; Memory/Steps lets these happen in any order. On the redis backend a
-- dispatched job is a hash under a pending key; a worker's scan claims it by renaming the key, runs
-- the handler of the registry and moves the hash on; the reaper resolves the locks that are too old.
--
-- Representation. An int is an integer within 64 bits, whose operations wrap (Base/Int). A text is
-- the list of its characters, where the code looks into it, and a string elsewhere. A timestamp text
-- is unset, the text of an instant, or a text that does not parse (Time). Handlers are functions on a
-- world of their own, which return, return an error or panic. The clock, the random ids, Unicode's
-- table of lower case, the YAML decoder, the JSON codec and the benchmark's floats are arguments. The
-- redis server, the database and the file system are records of operations with the laws that their
-- documentation gives (RedisApi in Redis, Database, FileSystem in Load); the theorems on the redis
-- backend that speak of a server that carries out its commands take this as the hypothesis
-- `IsReliable`. How long a redis worker sleeps is left out, and logging everywhere. The largest
-- capacity that the runtime can make a slice of is a parameter of `build_queue`.
--
-- Fuel. `reap_pages` and `scan_channel` follow the cursors of SCAN, of which nothing bounds the
-- number, and take fuel: a page each. A rank that falls from cursor to cursor, or the number of pages
-- itself, is enough. `life` takes a run of the job each, and `reap_stale_locks` a round of the reaper.
--
-- Not modelled: the time at which `Close` stops waiting; of the benchmark what it only prints; the
-- environment file, the framework with its `LoadProviders`, and the RPC server, which are other
-- packages and enter `main_command` by their errors and the providers they leave registered.
pub mod Base
pub mod Time
pub mod Handler
pub mod Job
pub mod Config
pub mod Queue
pub mod Registry
pub mod Database
pub mod Json
pub mod Stamping
pub mod Memory
pub mod Key
pub mod Redis
pub mod Dispatch
pub mod Conserved
pub mod Reaper
pub mod Load
pub mod Facade
pub mod Cached
pub mod Pool
pub mod Provider
pub mod Bench
pub mod Scenarios
