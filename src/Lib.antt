-- ===== src/Lib.antt =====
-- kubectl-safed: a drain of a Kubernetes node that restarts the workloads on it before it evicts
-- what is left.
--
-- The program. `Drainer.Run` (pkg/drain/drain.go) checks the node, finds the Deployments and
-- StatefulSets with pods on it (pkg/workload/workload.go), filters them, inspects them
-- (pkg/drain/preflight.go), cordons the node (pkg/drain/node.go), restarts the workloads one by one
-- or in batches (pkg/drain/workload_runner.go, pkg/drain/rollout.go), evicts the remaining pods
-- (pkg/drain/eviction.go), and keeps a checkpoint file for a later resumption
-- (pkg/drain/checkpoint.go). A failure after the cordon may uncordon the node again. The command
-- (cmd/drain.go) checks its arguments, and `Run` (internal/drainapp/app.go) reads the configuration
-- file (pkg/config/config.go), puts its defaults, a mode and a profile below the flags, validates
-- the options, finds the nodes, and drains them one by one or in batches.
--
-- The files.
--   Base        texts, lists, maps as association lists, and 64-bit integers with wrap-around
--   Cluster     the outside: Objects has the API objects' fields that the code reads; Calls the
--               requests, waits and file operations; Env what the outside answers; Exec the
--               functions with errors, with rules for what they keep and promise; Requests an
--               action per call; Reads those that change nothing; Poll the library's polls
--   Workload    pkg/workload/workload.go: Priority (parseDrainPriority), Finder (FindForNode)
--   Drain       pkg/drain: Options, Events, Node, Rollout, Checkpoint, WorkloadFilter, Runner,
--               Preflight, Eviction for the files of these names; Phases for drain_phases.go and
--               `Run` of drain.go; Coordinator for the interleavings of coordinator.go and
--               Runner/Batch for those of a batch; Printer for the lines of printer.go. Work,
--               DryRun, Uncordon and Phases/Completed are about whole runs
--   Config      pkg/config/config.go: the profiles, and Read for Load
--   App         internal/drainapp/app.go: the options and their validation; Nodes for the names of
--               the nodes; Layers for ApplyProfileValues and the built-in modes; Configure for
--               ApplyConfig; Resolved for RunResolved; Whole for Run
--   Commands    cmd/drain.go: the drain command and its options; Specs for cmd/drain_options.go
--   Tests       a small cluster, and the theorems at it
--
-- The state. An action takes a world to a value or an error and a world. A world has the calls
-- made so far, the files, and the workloads that the coordinator of this process has recorded as
-- restarted. The answers of the API server, of the clock and of the file system are functions of
-- the calls made so far, so that a theorem over all environments covers every sequence of answers,
-- errors, and changes that others make meanwhile.
--
-- The command runs before there is a world in its configuration: `apply_config` takes the home
-- directory, the variable, the files and time.ParseDuration as a record, and returns the options
-- as it leaves them, beside the error.
--
-- Bounds. wait.PollUntilContextCancel is an interface whose law is a relation of its runs
-- (Cluster/Poll); Cluster/Poll/Bounded fills it. The eviction loop of pkg/drain/eviction.go recurs
-- on the number of its timers that fire before its context ends, a number the environment gives:
-- at zero the select takes the branch of the context, so no run is cut short. The batches of the
-- runner recur on the number of workloads, and each takes one at least; so do the batches of nodes.
--
-- Not modelled. What a run prints (Drain/Printer has the lines alone), the texts of events and the
-- variable parts of error texts. JSON and
-- YAML are at the level of documents, and the values of a profile are decoded in the order of its
-- fields. In whole runs the goroutines of a batch, of workloads or of nodes, run in one schedule;
-- Drain/Runner/Batch has the other interleavings of those of workloads. In a run of one drainer the
-- coordinator is as that drainer sees it. A map that is ranged over is ranged in the
-- order of insertion. The texts of preflight patterns are over ASCII. The home directory is a clean
-- path, so that filepath.Join only joins. The parsing of the command line is the library's.
pub mod Base
pub mod Cluster
pub mod Workload
pub mod Drain
pub mod Config
pub mod App
pub mod Commands
pub mod Tests
