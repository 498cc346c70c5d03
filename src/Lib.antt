-- ===== src/Lib.antt =====
-- A model of the core of TitanOps: the export library (shared/titanops-export), the correlation engine
-- (correlation), the operator side of the gateway (gateway), the platform kernel
-- (shared/titanops-platform), the deception module EbeeControl (modules/ebeecontrol) and the verifier of
-- deployments (modules/ollinai), with the properties that make them correct.
--
-- How the parts interact. Modules hand telemetry events to the kernel, which starts the handlers whose
-- filters let them through and hands them to its emitter. The correlation engine ingests events,
-- drops repeats by their fingerprints, keeps a window, groups it by node, pod and namespace, and
-- reports an incident for each group of two modules or more, with a score, a narrative and perhaps an
-- automatic action; incidents and alerts leave through the exporter, which sends an event to all
-- enabled backends at once. Each backend has a retry buffer. Operators approve, reject, pause and
-- resume by the gateway, which writes each decision into the audit trail. EbeeControl deploys honeytokens
-- by a deployer, watches their paths by a monitor with a circular buffer, classifies each access, executes
-- a plan of responses with retries, and hands the outcome to a trainer. The OllinAI module checks the
-- signals of a changed workload, keeps a verdict, and publishes it by an emitter with a retry buffer.
--
-- The files.
--   Common: shared names; signed numbers (Int), Go maps as association lists (Dict), texts
--     (Text), the first items of a list (Take), float64 as an interface (Float).
--   Export.Event: `Event` of exporter.go. Export.Buffer: buffer.go, with Defs for the methods of
--     `RingBuffer` and Process for `ProcessBuffer`; the other files under it hold theorems.
--   Export.Multi: multi_exporter.go. Export.Validate: validate_events.go.
--   Correlation.Scoring, Dedup, Narrative: scoring.go, dedup.go, narrative.go. Correlation.Engine:
--     engine.go, with Types, Config, Ingest, Grouping, Correlate and Query for the code.
--   Gateway: Types, Stores and Overrides for types.go, stores.go, audit.go, overrides.go and
--     `handleOverrides` of handler.go.
--   Kernel: Types, Modules and Events for kernel.go.
--   EbeeControl: Types for types.go, Classifier, Planner, Executor, Monitor (Buffer for `EventBuffer`),
--     Deployer and Trainer for the files of those names (tetragon.go is Monitor), and Agent for agent.go,
--     with Registry, Workflow for `processAccessEvent` and Discovery for `executeDiscovery`; Config for
--     config.go.
--   OllinAi: Change, Verdict, Verifier, Emitter, Poller and Watcher for the files of those names.
--   Tests: each theorem at a concrete input.
-- A definition has the name of the function or type that it models, in snake case for functions; a
-- loop of a function has a name of its own and a comment that names the function.
--
-- Conventions. A method that runs under a mutex is one step. State goes in and out as a record; what
-- the source reads from a clock is an argument. A time is a number of nanoseconds from Go's zero time,
-- and a cutoff before it is 0, before which no time lies either. An `int` or a duration whose sign
-- matters is ℤ, and the one sum that can leave 64 bits, in the parser of risk labels, is taken modulo
-- 2 ^ 64. The floats of the backoff are exact here: products of a duration by a power of two; sums of
-- a clock reading and a duration are not bounded. The order in which Go walks a map, and the order in
-- which goroutines finish, are arguments. The narrative's bytes stand as code points.
--
-- Parameters. The backend's `Send`, the context, the clock, the executor of actions, the identifiers,
-- sort.Slice and fmt's decimal print and %q, the JSON decoder and the modules' `Start`, `Stop` and
-- `HealthCheck` are arguments or fields of records that stand for the outside world. So are the clients of
-- Kubernetes, Dynatrace and NATS, the source of the metrics, package strings, and float64, whose
-- comparisons are taken to order the numbers where a theorem says so. Where an answer can vary from call to
-- call it is a function of the calls before. The clock stands still inside an operation of the trainer,
-- the agent and the verifier. A slice of a text by bytes is taken by characters, for texts of one byte a
-- character.
--
-- A run of `process_buffer` is alone with its buffer: a `Push` by another goroutine while the backend is
-- called, when the mutex is free, is not among its steps. The source of the metrics answers by the
-- signal, the workload, the window and whether it is the first or the second query of a check.
--
-- Fuel. `process_buffer` runs on one round for each event and one more, since each round but the last
-- removes an event: see Export.Buffer.Drain.
--
-- The loops of the retries, the flush and the deployments recurse on what is left; the digits of a number
-- take at most as many rounds as the number.
--
-- Not modelled: log lines and metrics; the backends and the AI, Kubernetes and configuration libraries,
-- which are I/O over third-party packages; of EbeeControl the stream loop of the monitor, the Dynatrace
-- client and the goroutines of the agent; of OllinAI the webhook, the API client, the
-- DORA metrics and the health; the Earthworm module; the read handlers of the gateway; the
-- command, the dashboard and the deployment files.
pub mod Common
pub mod Correlation
pub mod EbeeControl
pub mod Export
pub mod Gateway
pub mod Kernel
pub mod OllinAi
pub mod Tests
