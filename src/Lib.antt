-- ===== src/Lib.antt =====
-- Tango: ingestion of ThinkingData log lines into MongoDB.
--
-- A line is parsed (internal/parser/talog), its document is tested by the reporting filter
-- (internal/parser/filter), its user is resolved (internal/dao/store/identity*.go) and it becomes a
-- write model (internal/dao/store/writemodel.go); internal/process/core puts these together. A
-- strategy, batch, single or pipeline under internal/process, gathers the models and writes them in
-- bulk (internal/dao/store/store.go). internal/cfgsync replaces the live filter from a central
-- document. The lines come from the files that internal/source/tailer finds and follows. The daemon
-- (internal/role/daemon) puts these together; the gateway (internal/role/gateway) takes lines,
-- central documents and requests in extended JSON (internal/dao/ejson) over HTTP.
--
-- What models which part, with the code's names in this library's spelling:
--   Value: what Go holds in an `any`; a map is the list of its entries in some order.
--   Filter, Filter.Rewrite: filter.go and config.go of internal/parser/filter. `keep` is `Keep`,
--     `rewrite_hash_refs` is `rewriteHashRefs` on code points.
--   Talog: parser.go and record.go of internal/parser/talog.
--   WriteModel: writemodel.go. WriteModel.Server takes what a server does with a guarded update as a
--     parameter.
--   Identity: `Resolve` and what it calls, on any driver (Identity.Mapping.Driver): what other pods
--     write between two calls is in the answers. The loop of `nextUserID` has its own bound of eight
--     attempts, so it takes no fuel. Identity.Memory is a driver for tests. Identity.Agreement is
--     about the pods that share the database.
--   Store: `bulkWrite`. `retries` is how often the backoff policy and the context allow another
--     attempt; the policy always gives up, so there is such a number.
--   Process.Core: `Process` and the counters. A call of the collector is an element of a list.
--   Process.Uploads: the calls of a strategy as an interface, its implementation by the modules
--     above, and the trace of the calls. Process.Batch, Process.Single, Process.Pipeline.Worker:
--     the loops, by recursion on what they receive until the source ends or the context is done.
--   Process.Pipeline: config.go, dynamicbatch.go, routing.go, dispatch.go, batch.go and worker.go of
--     internal/process/pipeline. Whether a channel takes a line, the length of a channel and the
--     clock are in the events that the loops receive. An int has 64 bits. Process.Pipeline.Pool is
--     `RunWorkers`: a step relation on the workers with their channels, the dispatcher and the
--     context, in any order.
--   Cfgsync: the version guard, the two backends, the registry with the filter's applier, the
--     validation and the publications. The reads and events that a backend meets until its context
--     is done are a list. `PublishAppend` has its own bound of eight attempts.
--
--   Process.Mode: `New` of internal/process and its settings.
--   Tailer: internal/source/tailer. Tailer.Segment is what is used of `filepath.Match` and
--     `strings.Split`, Tailer.Lines what is used of `bufio.Scanner`. Tailer.Glob is `globMatch`,
--     Tailer.Paths and Tailer.Discover are the paths and `discoverFiles` as built for Linux, with the
--     walk of the directories as a parameter. Tailer.Followed is the map of tailed files, as a step
--     relation of rescans and ends of goroutines. Tailer.Poll, Tailer.Events and Tailer.Hybrid are
--     the loops on one file: what the file holds at each read, what the watcher delivers and how
--     many sends succeed before the context is done are in the lists of rounds and phases.
--   Ejson: `Execute` and its actions, over any driver.
--   Role.Daemon: `Run` of the daemon with the watcher that runs beside it, the watchdog on open files
--     and `maskURI`. Role.Gateway: the handlers, over any engine. Role.Cli: internal/role/cli.
--     Role.Api: `Run` of the engine, as a relation, since the workers of the pipeline interleave.
--     Role.Settings: role.go and config.go of internal/role.
--   Process.Kept: what holds of the shared state in every strategy.
--   Source: the finite sources of internal/source; a text is the list of its bytes.
--
-- Parameters, as code that is not in the repository: expr-lang, json decoding, gjson, the MongoDB
-- driver, and float64 arithmetic, of which nothing is assumed.
--
-- Not modelled: the recovery from panics, logging, the atomicity of the filter's swap beyond the
-- choice of the filter that each read finds, internal/dao/sql, client and config: I/O,
-- facades, or parts that use those above.
pub mod Prelude
pub mod Value
pub mod Filter
pub mod Talog
pub mod WriteModel
pub mod Identity
pub mod Store
pub mod Process
pub mod Cfgsync
pub mod Tailer
pub mod Ejson
pub mod Role
pub mod Source
