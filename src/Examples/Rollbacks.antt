-- ===== src/Examples/Rollbacks.antt =====
-- Tests and examples for snapshots and rollbacks.
use multi_agent_com.Base.{
  String, ◌==◌, ◌≡◌, refl, ap, Bool, true, false, ◌||◌, none, some, [], ◌∷◌, put, contains, trim,
  trim_left, trim_right, is_space, if◌then◌else◌,
}
use multi_agent_com.Domain.Records.{Snapshot}
use multi_agent_com.Domain.Task.{Task}
use multi_agent_com.Service.State.{SnapshotState, Service, ok, err, plain, persist}
use multi_agent_com.Service.Snapshots.{
  capture_project, restore_project, clear_project, put_project, clear_contexts,
}
use multi_agent_com.Service.Snapshots.Alike.{IsWhole, Alike, restore_project-capture_project}
use multi_agent_com.Service.Snapshots.Records.{
  SnapshotWorld, resolve_state, record_snapshot, snapshot_branch, store_snapshot, new_snapshot,
  add_snapshot, current_branch,
}
use multi_agent_com.Service.Rollback.{
  SharedWorkspace, RollbackSnapshotInput, RollbackResult, RollbackIds, resolve_workspace_ref,
}
use multi_agent_com.Service.Rollback.Handler.{
  check_rollback, prepare_rollback, apply_rollback, next_rollback_branch, rolled_back,
  finish_rollback, report_rollback, rollback_to_snapshot,
}
use multi_agent_com.Service.Rollback.Restored.{Rolled, rollback_to_snapshot-Rolled}
use multi_agent_com.Examples.{
  demo_world, demo_task, accepting, planned, planned_service, with_one_task, no_map,
}

only_one : (b : Bool) → (b || false) ≡ true → b ≡ true
only_one true h = refl
only_one false h = absurd (cc h)

only_task :
    (k : String)
    → contains ("task" ∷ []) k ≡ true
    → (t : Task) × (put no_map "task" (some demo_task) k ≡ some t)
only_task k h = (demo_task, ap (λ b. if b then some demo_task else none) (only_one ("task" == k) h))

one_task-IsWhole : IsWhole "proj" with_one_task.data'
one_task-IsWhole = record {
  has_tasks = only_task;
  has_runs = λ k h. absurd (cc h);
  has_artifacts = λ k h. absurd (cc h);
}

restore_project-capture_project_example :
    Alike "proj" with_one_task.data'
      (restore_project "proj" (capture_project "proj" with_one_task.data') planned_service).data'
restore_project-capture_project_example =
    restore_project-capture_project "proj" with_one_task.data' planned_service one_task-IsWhole

abbrev first_snapshot : Snapshot
first_snapshot = record {
  id = "snap";
  project_id = "proj";
  branch = "main";
  source_snapshot_id = "";
  reason = "before";
  state_ref = "memory://snap";
  checksum = "";
  workspace_state_ref = "";
  workspace_checksum = "";
  stable = true;
  created_at = 3;
}

-- A project with one task, and a snapshot from before the task.
abbrev with_snapshot : Service
with_snapshot = record with_one_task {
  data' = record (with_one_task.data') {
    snapshots = put (λ _. []) "proj" (first_snapshot ∷ []);
    snapshot_state = put no_map "snap" (some (capture_project "proj" planned));
  };
  index = record (with_one_task.index) { snapshot_index = put no_map "snap" (some first_snapshot) };
}

abbrev no_files : SnapshotWorld
no_files = record {
  write_record = none;
  read_file = λ path. none;
  sha256_hex = λ text. text;
  decode = λ text. none;
  equal_fold = λ s t. s == t;
  rev_parse = λ text. none;
}

abbrev no_workspace : SharedWorkspace
no_workspace = record {
  restore_shared = λ b branch commit. err (plain "no git");
  write_manifest = λ b. ok tt;
}

abbrev rollback_ids : RollbackIds
rollback_ids = record { sandbox = "rs"; snapshot = "snap2"; alert = "ra"; audit = "rl" }

abbrev back_to_first : RollbackSnapshotInput
back_to_first = record { snapshot_id = "snap"; reason = "" }

abbrev first_rollback : RollbackResult
first_rollback = record {
  snapshot = record {
    id = "snap2";
    project_id = "proj";
    branch = "main-rollback-1";
    source_snapshot_id = "snap";
    reason = "manual snapshot rollback";
    state_ref = "memory://snap2";
    checksum = "";
    workspace_state_ref = "";
    workspace_checksum = "";
    stable = true;
    created_at = 9;
  };
  restored_from = first_snapshot;
  previous_branch = "main";
  active_branch = "main-rollback-1";
  cleared_contexts = 0;
  restored_tasks = 0;
  workspace = none;
  message = "project rolled back to snapshot snap";
}

first_goes_back :
    (rollback_to_snapshot demo_world no_files no_workspace accepting rollback_ids "ann" "proj"
      back_to_first 9 with_snapshot).1
    ≡ ok first_rollback
unfolding rollback_to_snapshot check_rollback prepare_rollback apply_rollback report_rollback
    persist resolve_state resolve_workspace_ref next_rollback_branch rolled_back finish_rollback
    record_snapshot snapshot_branch store_snapshot new_snapshot add_snapshot current_branch
    capture_project clear_contexts restore_project clear_project put_project trim trim_left
    trim_right is_space
first_goes_back = refl

rollback_to_snapshot-Rolled_example :
    (from : Snapshot) × ((st : SnapshotState) × ((with_snapshot.index.snapshot_index "snap"
          ≡ some from)
        × ((from.project_id ≡ "proj")
            × ((resolve_state no_files with_snapshot.data' from ≡ ok st)
                × Rolled "proj" from st
                    (with_snapshot.data'.snapshots "proj")
                    (rollback_to_snapshot demo_world no_files no_workspace accepting rollback_ids
                      "ann" "proj" back_to_first 9 with_snapshot).0.data'
                    first_rollback))))
rollback_to_snapshot-Rolled_example =
    rollback_to_snapshot-Rolled demo_world no_files no_workspace accepting rollback_ids "ann" "proj"
      back_to_first 9 with_snapshot first_rollback first_goes_back
