-- ===== src/Lib.antt =====
-- A verification library for MultiAgentCom, a Go service that plans software projects, hands their
-- tasks to agents, runs the agents in sandboxes and collects what they deliver.
--
-- The parts of the program and the files that model them:
--
--   internal/domain/model.go: the records (Domain/Records), the task and its status machine
--     (Domain/Task: `NewTask`, `TransitionTo`, `isAllowedTransition`), the audit trail that the
--     transitions leave (Domain/Audit).
--   internal/service/service.go, the state: `Service`, `AppError`, `persistedServiceState`,
--     `capturePersistedStateLocked`, `restorePersistedStateLocked`, `rebuildIndexesLocked`,
--     `persistLocked` (Service/State); the logs (Service/Logs).
--   internal/service/service.go, the start of runs: `resolveTaskLocked`, `ensureTaskReadyLocked`
--     (Service/Tasks), `startTaskRunLocked`, `createPrivateSandboxLocked` (Service/Runs),
--     `ensureTokenBudgetAllowsRunLocked` and its estimates (Service/Budget), `StartRun`
--     (Service/Start), `StartParallelRun`, `resolveParallelTasksLocked` (Service/Parallel).
--   internal/service/service.go, a run: `snapshotForExecution`, `sandboxFailureForTask`,
--     `applyPendingHumanOverrideLocked`, `normalizeRuntimeUsage` (Service/Execution), `failRun` and
--     the last critical section of `executeRun` (Service/Finish).
--   internal/service/service.go, tasks: `DispatchTasks`, `RetryTask` (Service/Dispatch).
--   internal/service/service.go, the planning of a project: `CreateProject`, `AddRequirement`,
--     `buildPlan` (Service/Planning), `GeneratePlan`, `GenerateContract`, `ValidateContract`
--     (Service/Planning/Contracting), `buildContract` (Service/Contracts) and
--     `validateContractDefinition` (Service/Contracts/Validation).
--   internal/service/service.go, people and agents: the leases (Service/Leases),
--     `ApplyHumanOverride` and the queue of conflicts (Service/Overrides),
--     `ResolveConflictQueueEntry` (Service/Conflicts), `ApplyCodeLock` (Service/Locks) and the Go
--     symbol that a lock selects, `findGoSymbolMatch` (Service/Locks/Symbols), and the locks
--     that `applyProjectLocksToBundle` chooses (Service/Locks/Bundle).
--   internal/service/service.go, snapshots: the state of a project in a snapshot (Service/Snapshots),
--     `recordSnapshotWithWorkspaceLocked` and `resolveSnapshotStateLocked`
--     (Service/Snapshots/Records), the references to a workspace's commits, with `gitBranchName` of
--     internal/service/workspace_provider.go (Service/Snapshots/Refs), the workspace of a rollback
--     (Service/Rollback) and `RollbackToSnapshot` (Service/Rollback/Handler).
--   internal/service/concurrency.go: advisory locks and idempotency keys (Service/Concurrency).
--   internal/auth/auth.go: tokens, principals and roles (Auth).
--
-- Otherwise the folders below these files hold the proofs, named for what they prove; Base holds the shared
-- helpers, and Examples small states with each theorem applied to them.
--
-- A handler is a function from the state to the state and a result; a handler that starts runs also
-- says which runs it hands to the goroutine `executeRun`. Every critical section of the mutex is one
-- function, and Service/Machine makes them the steps of one transition system, in which the handlers
-- and the executors interleave freely. Service/Invariant holds the invariant of its states. A rollback
-- is no step of it, since the runs that it restores need not belong to the tasks of the present state.
--
-- How the program's values appear:
--
--   Times are numbers of nanoseconds, and 0 is the zero time. Costs are exact numbers of 10⁻¹² US
--   dollars, where the source has float64; prices and budgets of zero or less are 0. Token counts
--   are unbounded numbers. A map is a total function; a missing key of a map of pointers is `none`,
--   and of a map of lists the empty list. An object that a list and an index share by pointer stands
--   in both, and a write through the pointer changes both. Clones copy values and are identities.
--   Lists of pointers hold no nil, and maps no nil under a key (a snapshot file without a project would put one there). A text is a list of code points.
--
-- What comes from outside is an argument: the IDs of `nextID`, the times, the answers of the advisory
-- lock, of `SaveState` and of the repositories (`Answers`), the order in which `range` visits a map
-- (`Visits`), the workspace provider, the checksum and the formats of times and amounts (`World`), and
-- what a run produces between its critical sections (`Product`). The statements on the database
-- behind the advisory locks and the idempotency keys are fields of `LockStatements` and `KeyTable`,
-- and the hash, the files and the JSON of the tokens of `AuthWorld`; those of snapshots, and git, of
-- `SnapshotWorld` and `SharedWorkspace`. `filepath.Join` is the joining of its
-- parts by slashes. Loops are structural recursions over their lists, so no fuel is needed.
--
-- The diagram of the tasks is that of `isAllowedTransition`. docs/Spec-Refined.md, section 4.2, draws
-- another one: states for planning, review, merge and rework, HUMAN_OVERRIDE from any state, and a way
-- on from FAILED. The code has none of these.
--
-- Not modelled: HTTP routing, configuration, OIDC, SQL and object stores, agent runtimes,
-- workspace providers, alerts to webhooks, the writing of code locks into bundles,
-- previews, merges and delivery bundles, read-only views, and writing of logs and files.
pub mod Auth
pub mod Base
pub mod Domain
pub mod Service
pub mod Examples
