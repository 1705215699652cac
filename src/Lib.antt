-- ===== src/Lib.antt =====
-- s3nitor scans the objects of a bucket. `cmd/s3scanner` runs a pipeline of stages that are joined by
-- bounded channels (internal/pipeline): discovery filters the references of a source (a listing or a
-- broker) by the file records of the database, fetch downloads and hashes under a byte budget, dispatch
-- fans a payload out to one lane for each scanner, and publish batches the findings for a reporter and
-- then records the objects as handled. Scans that run elsewhere, in a sandbox, are handed off as
-- continuations, which `cmd/s3nitor-async` collects (internal/async). The database (internal/db) holds
-- the file records, the ledger of scan tasks and the cached verdicts of the intel providers.
--
-- Which file models which part:
-- - Prelude: shared names, lists and signed integers over native numbers, int64 and int32 wrap-around,
--   texts with NUL separators. Fallible: a value or an error. Bytes: the functions of package strings
--   over lists of bytes; TrimSpace, Fields and ToUpper know the ASCII characters only.
-- - Scanner (internal/scanner/types.go, scanner.go): ScanInput, Result, Finding, NewFindingFor, DocID,
--   ScanOne, RunScan, AsPending. Scanner.Ioc (ioc_scanner.go): Scan; Scanner.Ioc.Lists: the loading of
--   the lists. Scanner.Yara (yara_scanner.go): Scan, computeVersion, NewYaraScanner. Files, and what the
--   yara program answers, are arguments.
-- - Hashing (internal/hashing/hasher.go): Hasher, FileID. SHA-256 and the others are parameters.
-- - Table: what internal/db asks of gorm and SQL, as operations with the documented laws. Records
--   (file_record.go) and Ledger (scan_task.go) have a function for each function of those files.
-- - Limiter (internal/pipeline/limiter.go): FixedLimiter, ByteLimiter. A call of Acquire is a phase,
--   and a schedule is a list of atomic actions of any of the calls (Limiter.Admission). The semaphore of
--   golang.org/x/sync is the parameter Semaphore; the channel is written out (Limiter.Gate).
--   Limiter.Pace: RateLimiter, over the limiter of golang.org/x/time/rate, which is the parameter Pacer.
-- - Config (internal/config/config.go): the settings and Load, over an environment that is a function;
--   Config.Getters: the getters and ParseBytes. strconv.Atoi is written out; the parsers of floats and of
--   durations are the parameters Parsers.
-- - Source (internal/source/event.go): Items. The transport and the decoder are parameters.
--   Source.Minio (internal/source/decoder/minio.go): Decode and url.QueryUnescape; JSON and the form of
--   times are the parameters Readers. Source.Lister (internal/source/lister.go,
--   internal/s3fetcher/s3fetcher.go): Items and ListObjects over the pages that the client answers.
--   Source.Transports (internal/source/transport): what the two brokers' clients deliver.
-- - Pipeline (internal/pipeline/pipeline.go): Build (New), Discover (runDiscover, coverageGap), Fetch
--   (fetchOne, runFetch), Payload (payload, runDispatch, spill), Lane (buildLanes, runLane, handoff),
--   Publish (runPublish, estimateSize), Flush (flush, send), Delivery (runPublish with its flushes,
--   before a later run). A select is an event type with a step for each case; what a call of other code
--   answers is an argument; readings of the clock are arguments.
-- - Async.Continuation (continuation.go) and Async.Worker (worker.go): NewWorker, handle, finish,
--   reschedule, sweep (Async.Worker.Sweeps: what a tick publishes). The collectors, the sink and the texts of fmt are parameters.
--   Async.Worker.Polling: a continuation that is handled again and again. Async.Broker (kafka.go, and
--   Run of worker.go): the consumer's goroutine and the loop of Run, whose interleavings are lists of
--   moves.
-- - Sandbox (internal/sandbox/sandbox.go): New, Scan, Poll, Verdict over a backend; Sandbox.Cape
--   (cape.go) and Sandbox.Cuckoo (cuckoo.go) are the backends over an HTTP client that is a parameter
--   (Sandbox.Http: decodeJSON, snippet). Float64 is an abstract type with the comparison as a parameter.
-- - Intel (internal/intel/intel.go, internal/db/intel_cache.go): GetIntel, PutIntel, Scan, store,
--   fromCache. The provider, JSON and the texts of fmt are parameters. Intel.Providers (virustotal.go,
--   otx.go): the two providers.
-- - Reporters (internal/reporter): Reporters.Elasticsearch (elasticsearch.go) makes the requests of
--   Report and ReportBatch and reads their answers, and the server is a step on a state;
--   Reporters.Elasticsearch.Setup (elasticsearch.go, es_mapping.go): the client's TLS and the template;
--   Reporters.Plain (json.go, loki.go, factory.go). Elasticsearch is also the batch sink that
--   Pipeline.Flush takes.
-- - Dashboard (internal/dashboard): Dashboard.Json is the type of decoded JSON with dig, num and buckets;
--   Dashboard.Query (es.go) makes the query of the filters, Dashboard.Client (es.go) searches,
--   Dashboard.Requests and Dashboard.Api (api.go) are the views, Dashboard.Server (server.go) the
--   handlers. JSON's text and the cluster are the parameters Cluster.
-- - Programs (cmd): the choices that the programs make by the configuration; Programs.Sizes: humanBytes,
--   with a fuel of 7 for the at most 6 divisions of an int64 by 1024; Programs.Memory: PeakRSS
--   (internal/sysinfo/memory.go). Database (internal/db/db.go): NewDB's choices and sqliteDSN.
-- - Examples: a table in memory, a semaphore, an index and a sandbox, which meet the laws, and the
--   theorems at concrete inputs.
--
-- State is passed explicitly; an error that the code only logs leaves the state as it was. Times and
-- durations are integers of nanoseconds. Besides humanBytes, the only fuel is that of the loop over
-- chunks of ids in SeenFileIDs: it is the number of ids, and each turn takes at least one. Reference
-- counts wrap at 32 bits and sizes at 64.
--
-- Not modelled: the HTTP, broker and database clients and metrics, which are input and output; the text
-- of the index template, which is data; the opening of objects in S3; the wiring and the signals of the
-- programs under cmd; and the starting of goroutines and closing of channels in Pipeline.Run. A blocked
-- send is an answer that says whether it went through before the context ended.
mod Prelude
pub mod Scanner
mod Fallible
pub mod Bytes
pub mod Async
pub mod Hashing
pub mod Limiter
pub mod Table
pub mod Ledger
pub mod Records
pub mod Config
pub mod Source
pub mod Pipeline
pub mod Intel
pub mod Reporters
pub mod Sandbox
pub mod Dashboard
pub mod Programs
pub mod Database
mod Examples
