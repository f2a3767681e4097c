-- ===== src/Lib.antt =====
-- A verification library for etcd-space-inspector.
--
-- The program analyses etcd snapshots offline: a task imports a database file, a runner takes it
-- through its stages, the MVCC revisions and the Kubernetes objects in it are decoded and
-- aggregated into a database of the task, and two finished tasks can be compared. The library
-- models the parts below, and proves the theorems listed at the end.
--
-- Parts and files:
-- - Prelude: shared names and tests on the native numbers; Prelude/Bytes (texts as lists of bytes, in
--   the order of Go's strings), Prelude/Word (int64 as bit patterns), Prelude/Strings (strings.Split,
--   Trim, TrimPrefix, Contains of Go's library), Prelude/Lists and
--   Prelude/Sums.
-- - Diff: internal/diff/calculator.go and internal/diff/model.go. Diff/Rows is what a `*sql.Rows`
--   will answer and nextObject, nextKey, nextPrefix, nextResource and nextNamespace. Diff/Aligner is
--   the merge loop, which compareObjects, compareKeys, mergePrefixes, compareResources and
--   compareNamespaces have in common: its column, its three ways to build an item and its test that
--   drops one are an `Aligner`. Diff/Delta has keyDelta and objectDelta with their aligners, and
--   Diff/Groups those of prefixes, resources and namespaces. Diff/Parts and Diff/Summary are comparePhysical,
--   compareMVCCSummary, compareKubernetesSummary and compatibleVersions. Diff/Compare is
--   Calculator.Compare with its calls of the sink. Diff/Join is the specification of the loop, a full
--   outer join. Diff/Lifecycle is the status table of a comparison.
-- - Version: internal/etcdversion/detector.go, Adapter.Supports of internal/mvcc/etcd34/adapter.go,
--   and in Version/Evidence the version fields that Service.Create of internal/task/service.go records.
-- - Revision: DecodeRevisionKey of internal/mvcc/etcd34/revision.go.
-- - Mvcc: Mvcc/Decode is decodeRecord of internal/mvcc/etcd34/revision.go. Mvcc/Pipeline is the part of
--   Pipeline.RunWithProgress in internal/mvcc/pipeline.go that runs at once: the scan, the decoders, the
--   goroutine that closes their channel and the loop that writes batches, as a step relation on one
--   state, an operation on a channel, a counter or the sink at a time. Mvcc/Run is the function
--   around them, from its gates to its last message.
-- - Kube/Registry: internal/kube/registry/parser.go.
-- - Kube/Fields: CompareFields and indexFields of internal/kube/diff.go.
-- - Ingest: CopyWithProgress of internal/ingest/file.go.
-- - Task/Lease: the lock file of internal/task/lease.go, with other processes at work between any two
--   calls.
-- - Task/Status: the statuses and ValidateTransition of internal/task/model.go. Task/Progress:
--   ProgressReporter.Report of internal/task/progress.go. Task/Work and Task/Runner: Runner.Start and fail of
--   internal/task/runner.go. Task/Manifest, Task/Paths, Task/Store and Task/Create are the task service
--   of internal/task/service.go: its data, the checks on ids and paths, what it reads and writes in the
--   directories of the tasks (Get, List, Save, SaveForRun, Cancel and the import requests), and Create
--   and PrepareImport.
-- - Worker: Worker/Protocol is internal/worker/protocol.go, the two files between the server and a worker
--   process, over a JSON that is a parameter. Worker/Manager has the decisions of internal/worker/manager.go (NewManager, when Start
--   admits a run, how wait ends it), and Worker/Manager/System lets calls, workers and ends of runs
--   interleave.
-- - Metrics: internal/metricsanalysis/evidence.go. Metrics/Curves makes curves of samples, with growth,
--   rates and peaks, Metrics/Histogram those of histogram buckets, and Metrics/Evidence is AnalyzeWindow and
--   downsample.
-- - App: App/Recovery is recoverTasks of internal/app/recovery.go, which looks at every task when the
--   application starts.
-- - Tests: small inputs, and the theorems at them.
--
-- How the parts interact: the runner gives its reporter a function that changes the task and saves
-- it, which is Task/Runner's send_report over Task/Progress's report; a stage is any function on the
-- runner's state. The version that Version/Evidence records decides, through Supports, whether the
-- MVCC stage runs, and through compatibleVersions whether two tasks are compared by key. Revision
-- keys come from the backend in the order that Revision/Order is about. The pipeline asks Supports
-- before it starts and calls decode_record in each decoder. Create copies with Ingest's copy, detects
-- the version with Version/Family and records it as Version/Evidence says. The supervisor reads and
-- saves manifests through Task/Store, over statuses of Task/Status, and holds a lease: of its file,
-- which Task/Lease models call by call, it knows the run in it. The recovery at start goes over Task/Store/Listing's list, asks
-- Task/Lease's lease_stale and saves through Task/Store.
--
-- State and errors: a function that changes state takes it and returns it. A context, a clock, a
-- database, a sink and a repository are functions of what has been done so far, so that a theorem
-- holds whatever they answer at each call. The rows of a query are a sequence of answers, which may
-- end in an error at any place. A float64 is abstract; where a proof needs facts about it, they are
-- named hypotheses on a record of operations.
--
-- Bounds and fuel: an int64 difference is kept modulo 2^64 (sub64, add64). The merge loop runs on
-- fuel, one more than the number of rows of both queries, which the loop never uses up, since each
-- turn takes a row. Other loops are structural. The goroutines of the pipeline have no fuel: a run is a
-- sequence of steps, and each step lowers a measure that starts at 12 for each record, 1 for each
-- decoder and 8.
--
-- Not modelled: the SQL text of internal/storage, the HTTP API, the command line, configuration, run
-- logs, reports and web assets, which are I/O; the parsers of logs, audit events and metrics and the
-- Kubernetes decoder, which stand on JSON, time and protobuf libraries; the analyzers, the diff
-- service and the recovery of comparisons at start, which are left for later; the branches for
-- Windows, the retries of a read, and the timers and heartbeats of the supervisor, in whose model any
-- lease may turn out to be stale at any time; the mutexes of the reporter and of the runner, under
-- which each operation that is modelled runs alone.
pub mod Prelude
pub mod Diff
pub mod Version
pub mod Revision
pub mod Kube
pub mod Task
pub mod Ingest
pub mod Mvcc
pub mod Worker
pub mod Metrics
pub mod App
pub mod Tests
