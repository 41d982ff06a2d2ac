-- ===== src/Service/Conflicts.antt =====
-- internal/service/service.go: `ResolveConflictQueueEntry`.
pub mod Once
use multi_agent_com.Base.{
  ℕ, String, ◌==◌, ◌+++◌, none, some, put, trim, is_empty, update_first, if◌then◌else◌,
}
use multi_agent_com.Domain.Records.{Project, ConflictQueueEntry}
use multi_agent_com.Service.State.{
  Service, Result, ok, err, plain, not_found_error, conflict_error, persist, or_fail, guard, ◌>>=◌,
  ◌>>◌,
}
use multi_agent_com.Service.Logs.{record_audit}
use multi_agent_com.Service.Leases.{validate_length}
use multi_agent_com.Service.Start.{Answers}
use multi_agent_com.Service.Dispatch.{touch_project}

-- `ResolveConflictInput`
pub record ResolveInput : Type 0 where
  pub resolved_by : String
  pub resolution_note : String

pub record OpenConflict : Type 0 where
  pub project : Project
  pub conflict : ConflictQueueEntry

-- The checks of `ResolveConflictQueueEntry`, in their order.
unfoldable pub check_resolve : Service → String → String → ResolveInput → Result OpenConflict
check_resolve s project_id conflict_id input = do
  project ← or_fail (s.data'.projects project_id) (not_found_error "project not found")
  conflict ←
      or_fail (s.index.conflict_index (trim conflict_id)) (not_found_error "conflict not found")
  guard (conflict.project_id == project_id) (not_found_error "conflict not found")
  validate_length (trim input.resolved_by) "resolvedBy" (record { bytes = 256; digits = "256" })
  validate_length (trim input.resolution_note) "resolutionNote"
      (record { bytes = 4096; digits = "4096" })
  guard (conflict.status == "OPEN") (conflict_error "conflict is already resolved")
  ok (record { project = project; conflict = conflict })

-- Who resolves: the given name, or the actor of the context, or nobody in particular.
unfoldable pub resolver : String → String → String
resolver actor given =
    if is_empty (trim given) then if is_empty actor then "human-operator" else actor else trim given

unfoldable pub resolved : String → ResolveInput → ℕ → ConflictQueueEntry → ConflictQueueEntry
unfolding resolver
resolved actor input now conflict = record conflict {
  status = "RESOLVED";
  resolved_at = now;
  resolved_by = resolver actor input.resolved_by;
  resolution_note = trim input.resolution_note;
}

-- The conflict is changed in the list and in the index, which share it.
unfoldable pub record_resolved :
    String → String → String → String → Project → ConflictQueueEntry → ℕ → Service → Service
unfolding record_audit
record_resolved audit_id actor project_id conflict_id project closed now s = record {
  data' =
      record_audit audit_id actor project_id "HITL_CONFLICT_RESOLVED" "conflict" closed.id
        ("HITL conflict resolved for " +++ closed.scope) now
        (touch_project project project_id now (record s.data' {
          conflicts =
              put s.data'.conflicts project_id (
                update_first (λ x. x.id == closed.id) (λ _. closed) (s.data'.conflicts project_id));
        }));
  index = record s.index {
    conflict_index = put s.index.conflict_index (trim conflict_id) (some closed);
  };
}

-- `ResolveConflictQueueEntry`
unfoldable pub resolve_conflict :
    Answers
    → String
    → String
    → String
    → String
    → ResolveInput
    → ℕ
    → Service
    → Service × Result ConflictQueueEntry
unfolding check_resolve resolved record_resolved
resolve_conflict a audit_id actor project_id conflict_id input now s = elim a.lock [
  | some e ↦ (s, err (plain e))
  | none ↦ elim (check_resolve s project_id conflict_id input) [
    | err e ↦ (s, err e)
    | ok c ↦
        let closed = resolved actor input now c.conflict in
        (
          record_resolved audit_id actor project_id conflict_id c.project closed now s,
          persist a.save >>= λ _. ok closed,
        )
  ]
]
