-- ===== src/Service/Snapshots/Records.antt =====
-- internal/service/service.go: the recording of snapshots, and the state that one stands for.
use multi_agent_com.Base.{
  ℕ, String, ◌+++◌, Bool, ◌||◌, Option, none, some, List, [], ◌∷◌, last?, put, trim, trim_prefix,
  starts_with, is_empty, if◌then◌else◌,
}
use multi_agent_com.Domain.Records.{Project, Sandbox, Snapshot}
use multi_agent_com.Service.State.{
  SnapshotState, Persisted, Service, Result, ok, err, not_found_error, conflict_error, or_fail,
  guard, push, ◌>>=◌, ◌>>◌,
}
use multi_agent_com.Service.Snapshots.{capture_project}
use multi_agent_com.Service.Snapshots.Refs.{state_ref}

-- What is outside the service when it records and reads snapshots: with a file store, the writer of
-- their files; the reading of a file, its SHA-256 in hexadecimal, the decoding of its JSON, the
-- comparison of texts without regard to case, and `git rev-parse`.
pub record SnapshotWorld : Type 0 where
  pub write_record : Option (Snapshot → SnapshotState → Result (String × String))
  pub read_file : String → Option String
  pub sha256_hex : String → String
  pub decode : String → Option SnapshotState
  pub equal_fold : String → String → Bool
  pub rev_parse : String → Option String

-- `currentBranchLocked`
unfoldable pub current_branch : Persisted → String → String
current_branch p project_id =
    let branch = trim (p.project_branch project_id) in if is_empty branch then "main" else branch

-- `latestSnapshotIDLocked`
unfoldable pub latest_snapshot_id : Persisted → String → String
latest_snapshot_id p project_id = elim (last? (p.snapshots project_id)) [
  | none ↦ ""
  | some snapshot ↦ snapshot.id
]

-- The last reference that is not blank.
abbrev pub last_checksum : List Snapshot → String
last_checksum [] = ""
last_checksum (s ∷ ss) =
    let later = last_checksum ss in if is_empty later then trim s.workspace_checksum else later

-- `latestWorkspaceHeadRefLocked`
unfoldable pub latest_workspace_head_ref : Persisted → String → String
latest_workspace_head_ref p project_id = last_checksum (p.snapshots project_id)

-- What `recordSnapshotWithWorkspaceLocked` is asked for.
pub record SnapshotRequest : Type 0 where
  pub id : String
  pub branch : String
  pub reason : String
  pub stable : Bool
  pub source_id : String
  pub workspace : Option Sandbox

-- The sandbox, if it has a head.
abbrev pub headed : Option Sandbox → Option Sandbox
headed none = none
headed (some b) = if is_empty (trim b.workspace_head_ref) then none else some b

unfoldable pub new_snapshot : SnapshotRequest → String → String → ℕ → Snapshot
unfolding state_ref
new_snapshot r project_id branch now = record {
  id = r.id;
  project_id = project_id;
  branch = branch;
  source_snapshot_id = trim r.source_id;
  reason = trim r.reason;
  state_ref = "memory://" +++ r.id;
  checksum = "";
  workspace_state_ref = elim (headed r.workspace) [
    | none ↦ ""
    | some b ↦ state_ref b.workspace_branch b.workspace_head_ref
  ];
  workspace_checksum = elim (headed r.workspace) [ none ↦ "" | some b ↦ trim b.workspace_head_ref ];
  stable = r.stable;
  created_at = now;
}

-- With a file store, the snapshot and the state are written first.
abbrev pub written : SnapshotWorld → Snapshot → SnapshotState → Result Snapshot
written x snapshot st = elim x.write_record [
  | none ↦ ok snapshot
  | some write ↦ write snapshot st >>= λ f. ok (record snapshot { state_ref = f.0; checksum = f.1 })
]

-- The new snapshot in the lists, the maps and the index.
unfoldable pub add_snapshot : String → Snapshot → SnapshotState → Service → Service
add_snapshot project_id snapshot st s =
    let p = s.data' in
    record {
      data' = record p {
        snapshots = push p.snapshots project_id snapshot;
        snapshot_state = put p.snapshot_state snapshot.id (some st);
        project_branch = put p.project_branch project_id snapshot.branch;
        stable_branch =
            if snapshot.stable then put p.stable_branch project_id snapshot.id else p.stable_branch;
      };
      index = record (s.index) {
        snapshot_index = put s.index.snapshot_index snapshot.id (some snapshot);
      };
    }

-- The branch that was asked for, or the present one.
unfoldable pub snapshot_branch : Persisted → String → SnapshotRequest → String
unfolding current_branch
snapshot_branch p project_id r =
    if is_empty (trim r.branch) then current_branch p project_id else r.branch

-- The snapshot in its file, if there is one, and in the state.
unfoldable pub store_snapshot :
    SnapshotWorld → Snapshot → String → SnapshotState → Service → Service × Result Snapshot
unfolding add_snapshot
store_snapshot x new project_id st s = elim (written x new st) [
  | err e ↦ (s, err e)
  | ok snapshot ↦ (add_snapshot project_id snapshot st s, ok snapshot)
]

-- With the project that was looked up.
abbrev pub or_missing :
    Service × Result Snapshot → Service → Option Project → Service × Result Snapshot
or_missing stored s none = (s, err (not_found_error "project not found"))
or_missing stored s (some project) = stored

-- `recordSnapshotWithWorkspaceLocked`; `recordSnapshotLocked` is the call without a sandbox.
unfoldable pub record_snapshot :
    SnapshotWorld → SnapshotRequest → String → ℕ → Service → Service × Result Snapshot
unfolding capture_project new_snapshot store_snapshot snapshot_branch
record_snapshot x r project_id now s =
    let new = new_snapshot r project_id (snapshot_branch s.data' project_id r) now in
    or_missing (store_snapshot x new project_id (capture_project project_id s.data') s) s
      (s.data'.projects project_id)

-- A state that a file holds.
abbrev pub state_of_file : SnapshotWorld → Snapshot → String → Result SnapshotState
state_of_file x snapshot path = do
  payload ← or_fail (x.read_file path) (not_found_error "snapshot file state not found")
  guard
      (is_empty (trim snapshot.checksum)
        || x.equal_fold (x.sha256_hex payload) (trim snapshot.checksum))
      (conflict_error "snapshot file checksum mismatch")
  or_fail (x.decode payload) (conflict_error "snapshot file state is invalid")

-- `resolveSnapshotStateLocked`, for a snapshot that is there.
unfoldable pub resolve_state : SnapshotWorld → Persisted → Snapshot → Result SnapshotState
resolve_state x p snapshot = elim (p.snapshot_state snapshot.id) [
  | some st ↦ ok st
  | none ↦
      let ref = trim snapshot.state_ref in
      if is_empty ref
      then err (not_found_error "snapshot state not found")
      else if starts_with ref "memory://"
      then or_fail (p.snapshot_state (trim_prefix ref "memory://"))
          (not_found_error "snapshot memory state not found")
      else if starts_with ref "file://"
      then state_of_file x snapshot (trim_prefix ref "file://")
      else if starts_with ref "repo://"
      then err (
          conflict_error
            "repo service-state restore is not implemented; Git workspace restore uses workspaceStateRef")
      else err (not_found_error "unsupported snapshot state ref")
]
