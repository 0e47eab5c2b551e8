-- ===== src/Lib.antt =====
-- Wireops: a server that deploys Docker Compose stacks to workers. This library models the parts of
-- the server that decide: what a worker's policy lets run, who may do what, when a deploy or a job
-- goes ahead and what becomes of it, what a deploy reports, which environment it gets, and how output
-- reaches the browsers; and of the worker how secrets are kept out of its output. The models are
-- translated from the Go code; the theorems are listed at the end.
--
-- The parts, and the files that model them:
-- - internal/policy/policy.go: Policy (WorkerPolicy and the Validate methods, one function each),
--   Policy/Load (Load and LoadGlobal: the merge of the global policy with a worker's own) and
--   Policy/Json (ToJSON).
-- - internal/policy/compose.go: Policy/Refs (extractComposeRefs: what is checked of a compose config)
--   and Policy/Compose (ValidateComposeConfig, which stops at the first violation, and
--   ComposeViolations, which reports all). Policy/Volumes, Images, Socket, Accepted, Agreement, Open
--   and Order hold the descriptions without loops, and what they mean for whole configs.
-- - internal/rbac/rbac.go: Rbac (roles, capabilities, ResolveActor, Require and RequireSuperuser).
-- - internal/termstream/broker.go and internal/logstream/broker.go: Stream (what the two brokers
--   share: the subscribers of a key and their channels), Stream/Terminal (the backlog of a terminal
--   session) and Stream/Logs (the live buffers of running commands).
-- - internal/sync/phase_tracker.go and internal/constants/deploy_phases.go: Phases.
--   Phases/Metrics is internal/deploymetrics/deploymetrics.go.
-- - internal/jobscheduler/scheduler.go: Jobs (the records of runs and the calls that change one),
--   Jobs/Sweep (the calls that look for runs whose end nobody reported), Jobs/Dispatch
--   (dispatchToWorker), Jobs/Execute (executeJob) and Jobs/Names. Jobs/Definition is
--   internal/job/parser.go, and Jobs/History the histories of all these calls.
-- - internal/sync/reconciler.go, what it writes of a deploy's outcome: Deploy. Deploy/Wait is
--   internal/sync/wait_jobs.go with internal/jobscheduler/active_jobs.go, Deploy/Converge
--   internal/sync/deploy_timeout.go, Deploy/Tickers the registrations of internal/sync/scheduler.go;
--   Deploy/Failures is about what a failure before the deploy's own sync log leaves.
-- - internal/sync/envfile.go: Env; worker/executor/redact.go: Env/Redact; internal/envvars and
--   overlaySopsEnv of internal/sync/reconciler.go: Env/Vars.
-- - internal/safepath/safepath.go: Paths.
-- - internal/compose/health.go: Health; internal/sync/postcheck.go: Health/PostCheck.
-- - internal/compose/limitedbuffer.go and internal/compose/linewriter.go: Capture.
-- - internal/depgraph/graph.go, with NormalizeToMap of internal/sync/renderer.go: Depgraph and
--   Depgraph/Build.
-- - Prelude holds the shared names and list lemmas. Go holds the parts of Go's standard library that
--   the code calls, written out: strings and filepath.Clean, filepath.Join and filepath.Match,
--   sort.Strings, maps, and decoded YAML or JSON as values.
--
-- How the parts interact. The deploy of a stack loads the policy of the stack's worker and checks the
-- rendered compose file with it; the tracker writes the timeline of the deploy, and the check after
-- the deploy asks the worker for the states of the containers, which the classifier of Health reads.
-- Before that it waits for the jobs of the stack's repository, whose runs are those of Jobs, and shows
-- the wait in a sync log and the timeline; a deploy that its time limit kills is judged by the check of
-- Health/PostCheck. A job's runs are checked with the same policy before they reach a worker, and its
-- definition with the checks of Paths. The environment that Env/Vars loads is written by Env and read by
-- the redaction of the worker. The brokers carry the output of deploys and terminals to the
-- subscribers that the gates of Rbac let in. The dependency graph reads the same compose files as the
-- policy.
--
-- How state and operations correspond. A Go struct is a record with the fields that the code reads,
-- an error is a value that names the text it is made with, and a method takes the state and returns
-- the new one. Maps that the code changes are lists of entries (Go/Assoc); a map that is ranged over
-- carries its order, and the theorems on order show where it does not matter. Channels are objects in
-- a store, since a reader and the broker hold the same one: a send on a closed channel and a second
-- close give none, which stands for the panic. The brokers hold their lock for the whole of a call,
-- so that a history of calls is a list of them. Calls of PocketBase, of the worker, of json.Unmarshal
-- and time.Parse, and the clock, are parameters: a store whose nth call may fail, an answer to the nth
-- attempt, a decoder that may leave anything in its target.
--
-- Bounds and fuel. Strings are lists of code points; lengths in bytes are computed from them where the
-- code limits bytes. The loops are structural recursion, but for the glob matcher of Go/Glob, which
-- runs on fuel one above the length of the pattern: each round of it consumes a part of the pattern.
-- The wait for jobs runs on fuel, one look for each unit: a wait with a deadline has enough with the
-- number of polls of five seconds that fit into the deadline, and one more. The retry loop of the post
-- check counts its three attempts down. The job scheduler's loops go through the records of a query.
-- Integers that are only stored and compared are unbounded; the sums of the metrics, the hash of a job's
-- id and the timeout of the wait wrap around.
--
-- Not modelled: decoding of YAML and JSON, the database and the HTTP server of PocketBase, the cron
-- library, git, Docker, and the parts of the reconciler, the renderer and the worker that drive them; the
-- lint rules, notifications, backups and the frontend. They are I/O and glue, or parts that can be added
-- beside these.
pub mod Prelude
pub mod Go
pub mod Policy
pub mod Rbac
pub mod Stream
pub mod Phases
pub mod Health
pub mod Deploy
pub mod Depgraph
pub mod Capture
pub mod Env
pub mod Jobs
pub mod Paths
