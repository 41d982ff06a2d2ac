-- ===== src/Service/Rollback.antt =====
-- internal/service/service.go: what `RollbackToSnapshot` takes and answers, and the workspace of a
-- snapshot. `git rev-parse` is taken to answer alike when the checks and the restore both ask it.
pub mod Handler
pub mod Parts
pub mod Restored
use multi_agent_com.Base.{
  ℕ, suc, ◌+◌, String, ◌==◌, ◌+++◌, Bool, true, false, not, ◌&&◌, ◌||◌, Option, none, some, List,
  [], ◌∷◌, length, Map, put, trim, starts_with, has_text, is_empty, if◌then◌else◌,
}
use multi_agent_com.Domain.Records.{Project, Sandbox, SandboxStatus, Snapshot}
use multi_agent_com.Service.State.{
  SnapshotState, Persisted, Indexes, Service, World, Result, ok, err, Error, plain, not_found_error,
  validation_error, conflict_error, or_fail, guard, persist, push, ◌>>=◌, ◌>>◌,
}
use multi_agent_com.Service.Logs.{record_alert, record_audit}
use multi_agent_com.Service.Start.{Answers}
use multi_agent_com.Service.Snapshots.{restore_project, clear_contexts}
use multi_agent_com.Service.Snapshots.Refs.{
  WorkspaceSnapshotRef, parse_ref, state_ref, git_branch_name,
}
use multi_agent_com.Service.Snapshots.Records.{
  SnapshotWorld, SnapshotRequest, current_branch, record_snapshot, resolve_state,
}

-- The part of `workspaceProvider` that restores the workspace of a snapshot, with what it sets in
-- the sandbox, and the writing of the workspace's manifest.
pub record SharedWorkspace : Type 0 where
  pub restore_shared : Sandbox → String → String → Result Sandbox
  pub write_manifest : Sandbox → Result (Unit {0})

pub record RollbackSnapshotInput : Type 0 where
  pub snapshot_id : String
  pub reason : String

pub record RollbackWorkspaceResult : Type 0 where
  pub restored : Bool
  pub sandbox : Sandbox
  pub branch : String
  pub head_ref : String
  pub state_ref : String
  pub original_ref : String

pub record RollbackResult : Type 0 where
  pub snapshot : Snapshot
  pub restored_from : Snapshot
  pub previous_branch : String
  pub active_branch : String
  pub cleared_contexts : ℕ
  pub restored_tasks : ℕ
  pub workspace : Option RollbackWorkspaceResult
  pub message : String

-- The IDs that a rollback draws.
pub record RollbackIds : Type 0 where
  pub sandbox : String
  pub snapshot : String
  pub alert : String
  pub audit : String

-- A reference that is there, and the commit that it resolves to.
pub record ResolvedRef : Type 0 where
  pub text : String
  pub commit : String

abbrev pub is_managed : String → Bool
is_managed branch = starts_with branch "multiagent/" && has_text branch "/shared/"

-- The checks of `resolveWorkspaceSnapshotRefLocked`, where there is a reference.
unfoldable pub resolve_ref : World → SnapshotWorld → Snapshot → String → Result ResolvedRef
unfolding parse_ref
resolve_ref w x snapshot text = do
  guard (x.equal_fold w.workspace.name "git")
      (conflict_error "git workspace snapshot restore requires git workspace provider")
  parsed ← parse_ref text
  guard (parsed.provider == "local") (conflict_error "unsupported workspace snapshot provider")
  guard (is_managed parsed.branch)
      (conflict_error "workspace snapshot branch is not a managed shared branch")
  guard (not (is_empty (trim snapshot.workspace_checksum)))
      (conflict_error "workspace snapshot checksum is required")
  commit ←
      or_fail (x.rev_parse (parsed.commit +++ "^{commit}"))
        (conflict_error "workspace snapshot commit is not available")
  checksum ←
      or_fail (x.rev_parse (trim snapshot.workspace_checksum +++ "^{commit}"))
        (conflict_error "workspace snapshot checksum is not available")
  guard (commit == checksum) (conflict_error "workspace snapshot checksum mismatch")
  ok (record { text = text; commit = commit })

-- `resolveWorkspaceSnapshotRefLocked`
unfoldable pub resolve_workspace_ref :
    World → SnapshotWorld → Snapshot → Result (Option ResolvedRef)
unfolding resolve_ref
resolve_workspace_ref w x snapshot =
    let text = trim snapshot.workspace_state_ref in
    if is_empty text then ok none else resolve_ref w x snapshot text >>= λ r. ok (some r)

-- The sandbox that `restoreWorkspaceSnapshotLocked` asks the provider for.
unfoldable pub rollback_sandbox : World → String → String → String → ℕ → Sandbox
rollback_sandbox w id project_id commit now =
    let root = w.config.sandbox_root +++ ("/shared/" +++ (project_id +++ ("/" +++ id))) in
    record {
      id = id;
      project_id = project_id;
      run_id = "";
      task_id = "";
      agent_type = "snapshot-rollback";
      scope = "SHARED";
      root_path = root;
      workspace_path = root +++ "/workspace";
      workspace_provider = "git";
      workspace_manifest_ref =
          "file://" +++ (root +++ "/workspace/.multiagent/workspace-manifest.json");
      workspace_branch = "";
      workspace_base_ref = commit;
      workspace_head_ref = "";
      workspace_cleanup_status = "";
      workspace_cleaned_at = 0;
      workspace_cleanup_reason = "";
      workspace_cleanup_error = "";
      workspace_worktree_gone = false;
      workspace_branch_gone = false;
      workspace_retained_ref = "";
      status = SandboxStatus.active;
      failure_reason = "";
      created_at = now;
      updated_at = now;
    }

abbrev pub add_sandbox : String → Sandbox → Service → Service
add_sandbox project_id b s = record {
  data' = record (s.data') { sandboxes = push s.data'.sandboxes project_id b };
  index = record (s.index) { sandbox_index = put s.index.sandbox_index b.id (some b) };
}

-- The provider's part: the restored sandbox, released again.
unfoldable pub restore_sandbox :
    World → SharedWorkspace → String → String → String → ResolvedRef → ℕ → Result Sandbox
unfolding git_branch_name rollback_sandbox
restore_sandbox w y id project_id active_branch r now = do
  b ←
      y.restore_shared (rollback_sandbox w id project_id r.commit now)
        (git_branch_name ("multiagent" ∷ project_id ∷ "rollback" ∷ active_branch ∷ id ∷ []))
        r.commit
  y.write_manifest b
  ok (record b { status = SandboxStatus.released; updated_at = now })

unfoldable pub workspace_result : Sandbox → ResolvedRef → RollbackWorkspaceResult
unfolding state_ref
workspace_result b r = record {
  restored = true;
  sandbox = b;
  branch = b.workspace_branch;
  head_ref = b.workspace_head_ref;
  state_ref = state_ref b.workspace_branch b.workspace_head_ref;
  original_ref = r.text;
}
