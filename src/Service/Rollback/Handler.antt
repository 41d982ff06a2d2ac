-- ===== src/Service/Rollback/Handler.antt =====
-- internal/service/service.go: `RollbackToSnapshot`.
use multi_agent_com.Base.{
  ℕ, ◌+◌, String, ◌==◌, ◌+++◌, Option, none, some, length, put, trim, is_empty, not, if◌then◌else◌,
}
use multi_agent_com.Domain.Records.{Sandbox, Snapshot}
use multi_agent_com.Service.State.{
  SnapshotState, Persisted, Service, World, Result, ok, err, plain, not_found_error,
  validation_error, or_fail, guard, persist, ◌>>=◌, ◌>>◌,
}
use multi_agent_com.Service.Logs.{record_alert, record_audit}
use multi_agent_com.Service.Start.{Answers}
use multi_agent_com.Service.Snapshots.{restore_project, clear_contexts}
use multi_agent_com.Service.Snapshots.Records.{
  SnapshotWorld, SnapshotRequest, current_branch, record_snapshot, resolve_state,
}
use multi_agent_com.Service.Rollback.{
  SharedWorkspace, RollbackSnapshotInput, RollbackWorkspaceResult, RollbackResult, RollbackIds,
  ResolvedRef, resolve_workspace_ref, add_sandbox, restore_sandbox, workspace_result,
}

-- `nextRollbackBranchLocked`: the name, and the number that it uses up.
unfoldable pub next_rollback_branch : World → Persisted → String → String → String × ℕ
unfolding current_branch
next_rollback_branch w p project_id base_branch =
    let base = trim base_branch in
    let next = p.branch_seq project_id + 1 in
    (
      (if is_empty base then current_branch p project_id else base)
          +++ ("-rollback-" +++ w.decimal next),
      next,
    )

-- The state with the snapshot put back, the contexts cleared and the project touched.
unfoldable pub rolled_back : String → SnapshotState → ℕ → ℕ → Service → Service × ℕ
unfolding restore_project clear_contexts
rolled_back project_id st seq now s =
    let numbered = record s {
      data' = record (s.data') { branch_seq = put s.data'.branch_seq project_id seq };
    } in
    let (t, cleared) = clear_contexts project_id (restore_project project_id st numbered) in
    (
      record t {
        data' = record (t.data') {
          projects = elim (t.data'.projects project_id) [
            | none ↦ t.data'.projects
            | some project ↦
                put t.data'.projects project_id (some (record project { updated_at = now }))
          ];
        };
      },
      cleared,
    )

-- What a rollback goes by, after its checks.
pub record RollbackPlan : Type 0 where
  pub snapshot : Snapshot
  pub state : SnapshotState
  pub ref : Option ResolvedRef

-- The checks of `rollbackToSnapshotLocked`.
unfoldable pub prepare_rollback :
    World → SnapshotWorld → String → String → Service → Result RollbackPlan
unfolding resolve_state resolve_workspace_ref
prepare_rollback w x project_id snapshot_id s = do
  snapshot ← or_fail (s.index.snapshot_index snapshot_id) (not_found_error "snapshot not found")
  guard (snapshot.project_id == project_id) (not_found_error "snapshot not found")
  st ← resolve_state x s.data' snapshot
  ref ← resolve_workspace_ref w x snapshot
  ok (record { snapshot = snapshot; state = st; ref = ref })

-- The request for the snapshot that a rollback leaves.
abbrev pub rollback_request :
    RollbackIds → Snapshot → String → String → Option Sandbox → SnapshotRequest
rollback_request ids from active_branch reason workspace = record {
  id = ids.snapshot;
  branch = active_branch;
  reason = reason;
  stable = from.stable;
  source_id = from.id;
  workspace = workspace;
}

abbrev pub sandbox_of : Option (Sandbox × RollbackWorkspaceResult) → Option Sandbox
sandbox_of none = none
sandbox_of (some (b, r)) = some b

abbrev pub result_of : Option (Sandbox × RollbackWorkspaceResult) → Option RollbackWorkspaceResult
result_of none = none
result_of (some (b, r)) = some r

-- The new snapshot, and the answer.
unfoldable pub finish_rollback :
    SnapshotWorld
    → RollbackIds
    → String
    → Snapshot
    → String
    → String
    → String
    → ℕ
    → Option (Sandbox × RollbackWorkspaceResult)
    → ℕ
    → Service
    → Service × Result RollbackResult
unfolding record_snapshot
finish_rollback x ids project_id from previous active reason cleared workspace now s =
    let (t, answer) =
      record_snapshot x (rollback_request ids from active reason (sandbox_of workspace)) project_id
        now s in
    (
      t,
      answer >>= λ snapshot. ok (record {
        snapshot = snapshot;
        restored_from = from;
        previous_branch = previous;
        active_branch = active;
        cleared_contexts = cleared;
        restored_tasks = length (t.data'.task_order project_id);
        workspace = result_of workspace;
        message = "project rolled back to snapshot " +++ from.id;
      }),
    )

-- What follows the checks of `rollbackToSnapshotLocked`. When the workspace cannot be restored, the
-- project has been rolled back all the same.
unfoldable pub apply_rollback :
    World
    → SnapshotWorld
    → SharedWorkspace
    → RollbackIds
    → String
    → RollbackPlan
    → String
    → ℕ
    → Service
    → Service × Result RollbackResult
unfolding next_rollback_branch rolled_back finish_rollback restore_sandbox workspace_result
apply_rollback w x y ids project_id plan reason now s =
    let previous = current_branch s.data' project_id in
    let (active, seq) = next_rollback_branch w s.data' project_id plan.snapshot.branch in
    let (t, cleared) = rolled_back project_id plan.state seq now s in
    elim plan.ref [
      | none ↦
          finish_rollback x ids project_id plan.snapshot previous active reason cleared none now t
      | some r ↦ elim (restore_sandbox w y ids.sandbox project_id active r now) [
        | err e ↦ (t, err e)
        | ok b ↦
            finish_rollback x ids project_id plan.snapshot previous active reason cleared
              (some (b, workspace_result b r)) now (add_sandbox project_id b t)
      ]
    ]

abbrev pub rollback_reason : String → String
rollback_reason reason = if is_empty (trim reason) then "manual snapshot rollback" else trim reason

-- The checks of `RollbackToSnapshot`, with those of `rollbackToSnapshotLocked`.
unfoldable pub check_rollback :
    World → SnapshotWorld → Answers → String → RollbackSnapshotInput → Service → Result RollbackPlan
unfolding prepare_rollback
check_rollback w x a project_id input s = elim a.lock [
  | some e ↦ err (plain e)
  | none ↦
      or_fail (s.data'.projects project_id) (not_found_error "project not found") >>= λ project.
      guard (not (is_empty (trim input.snapshot_id)))
        (validation_error "snapshotId is required for rollback")
      >> prepare_rollback w x project_id input.snapshot_id s
]

-- The alert, the audit log and `persistLocked`.
unfoldable pub report_rollback :
    Answers
    → RollbackIds
    → String
    → String
    → ℕ
    → Service × Result RollbackResult
    → Service × Result RollbackResult
unfolding record_alert record_audit persist
report_rollback a ids actor project_id now (s, err e) = (s, err e)
report_rollback a ids actor project_id now (s, ok r) = (
  record s {
    data' =
        record_audit ids.audit actor project_id "SNAPSHOT_ROLLBACK" "snapshot" r.snapshot.id
          r.message now
          (record_alert ids.alert project_id "WARN" "SNAPSHOT_ROLLBACK" r.snapshot.id r.message now
            s.data');
  },
  persist a.save >>= λ _. ok r,
)

-- `RollbackToSnapshot`
unfoldable pub rollback_to_snapshot :
    World
    → SnapshotWorld
    → SharedWorkspace
    → Answers
    → RollbackIds
    → String
    → String
    → RollbackSnapshotInput
    → ℕ
    → Service
    → Service × Result RollbackResult
unfolding check_rollback apply_rollback report_rollback
rollback_to_snapshot w x y a ids actor project_id input now s =
    elim (check_rollback w x a project_id input s) [
      | err e ↦ (s, err e)
      | ok plan ↦
          report_rollback a ids actor project_id now
            (apply_rollback w x y ids project_id plan (rollback_reason input.reason) now s)
    ]
