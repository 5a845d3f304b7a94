-- ===== src/Lib.antt =====
-- split-synchronizer keeps feature flags, segments and rule-based segments in step with a backend and
-- serves them to SDKs. As a producer it writes them to Redis; as a proxy it holds them in memory, with
-- a copy on disk, and answers the SDKs' requests itself. This library models the proxy's storage, its
-- cached responses and its deferred queue, the producer's pipeline from Redis to the backend, the
-- counters that both modes keep about themselves, and the flag-set filter. Paths are from the
-- repository's root; each module models the file of the same part:
--
--   Optimized.MySegments   splitio/proxy/storage/optimized/mysegments.go: keys to their segments
--   Optimized.Historic     splitio/proxy/storage/optimized/historic.go: flags sorted by change number,
--                          with the flag sets they joined and left
--   Optimized.RbHistoric   splitio/proxy/storage/optimized/rbshistoric.go: the same for rule-based segments
--   Persistent.Bolt        splitio/proxy/storage/persistent/boltdb.go and helpers.go: one bucket
--   Persistent.Segments, Persistent.Splits, Persistent.RuleBased
--                          segments.go, splits.go (with common.go) and rulebasedsegments.go beside it
--   Storage.Segments, Storage.Splits, Storage.RuleBased
--                          splitio/proxy/storage/segments.go, splits.go and rulebasedsegments.go: what
--                          the proxy's controllers read and its synchronization tasks write
--   Telemetry.Endpoints, Telemetry.StatusCodes, Telemetry.Latencies, Telemetry.TimeSlices
--                          splitio/proxy/storage/telemetry.go and telemetryts.go: counters for each
--                          endpoint, in total and by time slice
--   FlagSets               splitio/proxy/flagsets/flagsets.go: the sets that a request may name
--   Observability.SegmentTracker, Observability.SplitTracker
--                          splitio/provisional/observability: which segments and flags are in use
--   Health.ByPercentage, Health.Services
--                          splitio/provisional/healthcheck/services/counter/bypercentage.go and the
--                          reports of monitor.go: the services that the program calls
--   Health.Periodic, Health.Application
--                          splitio/provisional/healthcheck/application/counter/periodic.go and the
--                          reports of application/monitor.go: the program itself
--   Producer.Pipeline      splitio/producer/task/pipelined.go: the goroutines that fetch, process and post
--   Producer.Impressions, Producer.Events
--                          splitio/producer/task/impressions.go and events.go: bulks of what was fetched
--   Producer.EvictionMonitor
--                          splitio/producer/evcalc/evcalc.go: the rate of the evictions
--   Producer.TelemetryConsumer, Producer.TelemetryConfigs
--                          splitio/producer/storage/telemetry.go: telemetry of SDKs out of Redis
--   Producer.TelemetryWorker
--                          splitio/producer/worker/telemetry.go: the join of what was taken
--   Proxy.Caching          splitio/proxy/caching/caching.go and workers.go: keys and evictions
--   Proxy.Deferred         splitio/proxy/tasks/deferred.go: the bounded queue in front of the workers
--   Snapshots              splitio/common/snapshot/snapshot.go: the layout of a snapshot file
--   Prelude                shared types and lemmas: Go's maps, slices, strings, sort.Slice, sort.Search
--   Tests                  stand-ins for the libraries the program calls, and concrete runs
--
-- An update of the backend's data comes to `update` of a storage, which passes it to the in-memory
-- structure (`Optimized`), to the collection on disk (`Persistent`) and to the counts
-- (`Observability`), in the order of the code. A request comes to `changes_since`, which reads the
-- history for what changed and the snapshot for the flags themselves.
--
-- In the producer, the worker of a pipeline fetches raw items, tells the eviction monitor, and makes
-- bulks of the items that a processor hands to it; the sinkers post the bulks. The pipeline is a step
-- relation over the channel operations of its goroutines (`Producer.Pipeline.Step`), and so is the
-- deferred queue of the proxy (`Proxy.Deferred.Reached`): any goroutine that can move may be next.
--
-- State is a record that each operation takes and returns. The code guards each structure by a mutex,
-- so that an operation is one step and a run is a list of calls; the functions that build such runs
-- stand beside the theorems about them. A Go map is an association list, whose order the code may not
-- rely on; a string is its bytes; int64 change numbers are unbounded integers here, since the code
-- compares them and does no arithmetic on them; counters are natural numbers without a bound.
-- `sort.Slice`, which promises no order for equal elements, is a stable sort. The loop of `Sanitize`
-- runs on fuel, the length of its input, for which a theorem shows that more changes nothing, and so does
-- the loop of `filterFailed`, whose result a theorem describes. The loop of `PopConfigs` runs on fuel
-- too; one round more than the list in Redis has elements is enough, by a theorem. All other loops
-- are structural recursion.
--
-- Not in the repository, and so parameters with what the code relies on: the in-memory snapshots of
-- go-split-commons (`Snapshot`, `RbSnapshot`), gob and JSON (`Gob`, `Codec`, `RbCodec`), the answer of
-- bolt to a write (`accepts`), the latency counters (`LatencyCounter`), the clock, the impression manager,
-- the names of the SDK's methods, Redis (`RedisClient`, with `Works` for one whose calls succeed), the
-- cache of responses (`CacheFlusher`, with the laws of an eviction), the worker pool.
--
-- Not modelled: the HTTP controllers and middleware, the admin pages, configuration and start-up, the
-- memory pools of the producer (a slice or map out of a pool is a new one here), its worker of unique
-- keys, what a post answers, logging, the impression listener, reading and writing files, the tasks and
-- the threshold counter of the health check, and the reports made of the telemetry.
pub mod FlagSets
pub mod Health
pub mod Observability
pub mod Optimized
pub mod Persistent
pub mod Prelude
pub mod Producer
pub mod Proxy
pub mod Snapshots
pub mod Storage
pub mod Telemetry
pub mod Tests
