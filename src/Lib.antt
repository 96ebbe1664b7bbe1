-- ===== src/Lib.antt =====
-- GitLab Fleet Governor: the decisions of the governance engine, as functions over explicit state.
--
-- The program discovers the groups and projects of a GitLab instance, checks its license, and runs
-- the registered operations on each target, planning in a dry run and applying otherwise; it sums
-- up what happened. The files follow the packages of the repository, by their functions' names in
-- snake case:
-- - Common: lists, texts (lists of byte codes), integers, equality, association lists, sorting.
-- - Resources: what the program reads of projects and groups, and the targets made of them
--   (internal/discovery/discovery.go).
-- - Governance/Operation, Governance/Diff, Governance/Registry: internal/governance/operation.go,
--   diff.go and registry.go. An operation is a record of methods over a world, which stands for
--   all that the GitLab client and the context reach; the four loops of the registry are
--   `run_operations` with the calls and the results of each.
-- - Governance/ProtectedBranches: internal/governance/protectedbranches.go, one of the registered
--   operations, over a client that lists, protects, unprotects and updates branches; Rules compares
--   the rules with the live protections, Options makes the options of the calls.
-- - Governance/PipelineRetention: internal/governance/pipelineretention.go, over a client that reads
--   and sets the retention of a project; the seconds wrap around at 64 bits.
-- - Engine/Results, Engine/Execute: the result types, executeProject and executeGroup of
--   internal/engine/engine.go. Engine/Metrics: internal/engine/metrics.go. Engine/Run:
--   runWithOptions of engine.go, from the discovery and the license check to the sorted results.
--   Engine/Governor: the engine's constructors, Execute, Run, Plan and Apply.
-- - Engine/Pool: internal/engine/workerpool.go, a step relation over the queue, the workers at work
--   and the errors, where ParallelMap is any schedule that ends with the pool closed.
-- - Discovery/Filter: internal/discovery/projectfilter.go. Discovery/Groups,
--   Discovery/Roots: internal/discovery/grouptree.go. Discovery/Fleet, Discovery/Fleet/Lists,
--   Discovery/Coordinator: the accumulator, the sorted lists of a fleet and the coordinator of
--   internal/discovery/discovery.go.
-- - License/Version: pkg/version/version.go. License/Model, License/Token (ResolveToken),
--   License/Policy (GetBSLPolicy and the usage request) and License/Enforce (Enforce):
--   internal/license/enforcer.go, with what it uses of model.go and verifier.go.
-- - Gitlab/Pagination, Gitlab/Transport: internal/gitlab/pagination.go and ratelimit.go.
-- - Config/Envsubst: internal/config/envsubst.go. Config/Model: the settings and their defaults in
--   internal/config/model.go. Config/Validator: internal/config/validator.go, where the functions
--   return the errors that the code appends and a field is the path of its steps; its parameters
--   are url.ParseRequestURI, time.Parse, path.Clean and regexp.Compile.
-- - Examples: concrete runs.
--
-- Parameters stand for code that is not in the repository: regular expressions (compiled pattern
-- and match), Go's time, string and URL parsers, floating point, the answers of the GitLab server,
-- the license-go library, the file system and the environment. A Go map is an association list, a
-- map to true a list of keys; an error is a value. Identifiers are unbounded integers, since the code does no
-- arithmetic on them; counters are numbers.
--
-- Fuel: the walk over the groups (`walk`) and the stream (`stream_loop`) run on fuel, and answer
-- apart where it runs out; how much is enough is among the results. `list_pages` has no bound in
-- the code, so running out of fuel is an answer of its model; so do the listing of a page after
-- another of the top-level groups and of the protected branches. `expand_env_recursive` runs on the
-- levels that the code's own limit of depth leaves, with two to spare.
--
-- Left out: clock readings and durations, log lines, the rendering of diffs, metrics and reports,
-- the texts of the filter's reasons and of license errors. The scans of the discovery and the
-- targets of a run follow one after the other; how the pool interleaves tasks is modelled apart.
-- Not modelled: SubmitWithTimeout, Stop and ExecuteTasks of the pool, the transport's memory of
-- rate limits, the other reconcilers, the loader of the configuration, audit,
-- export, reports, the command line and the Lambda entry point.
pub mod Common
pub mod Resources
pub mod Governance
pub mod Engine
pub mod Discovery
pub mod License
pub mod Config
pub mod Gitlab
pub mod Examples
