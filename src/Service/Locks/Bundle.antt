-- ===== src/Service/Locks/Bundle.antt =====
-- internal/service/service.go: which code locks `applyProjectLocksToBundle` writes into a bundle, and
-- the conflicts that it queues for them.
use multi_agent_com.Base.{
  ℕ, suc, String, ◌==◌, ◌+++◌, Bool, ◌&&◌, ◌||◌, Option, none, some, List, [], ◌∷◌, Map, put, snoc,
  map, is_empty, if◌then◌else◌,
}
use multi_agent_com.Domain.Records.{CodeLock}
use multi_agent_com.Service.State.{Service, World}
use multi_agent_com.Service.Leases.{lease_active}
use multi_agent_com.Service.Dispatch.{touch_project}
use multi_agent_com.Service.Overrides.{new_conflict, enqueue_conflict}
use multi_agent_com.Service.Locks.{code_lock_scope, hitl_lock_owner}

-- A lock in force, for the task or for every task.
unfoldable pub applies : String → ℕ → CodeLock → Bool
applies task_id now l =
    lease_active now l.expires_at && (is_empty l.task_id || (l.task_id == task_id))

-- An earlier lock of a scope, and a later one that another one owns.
pub record Clash : Type 0 where
  pub existing : CodeLock
  pub requested : CodeLock

-- `activeScopes`, with the conflicts met so far.
pub record Chosen : Type 0 where
  pub locks : Map (Option CodeLock)
  pub clashes : List Clash

-- What a lock meets under its scope.
unfoldable pub met : Option CodeLock → CodeLock → List Clash → List Clash
met none l clashes = clashes
met (some e) l clashes =
    if hitl_lock_owner e == hitl_lock_owner l
    then clashes
    else snoc clashes (record { existing = e; requested = l })

unfoldable pub choose_lock : World → CodeLock → Chosen → Chosen
unfolding met
choose_lock w l c = record {
  locks = put c.locks (code_lock_scope w l) (some l);
  clashes = met (c.locks (code_lock_scope w l)) l c.clashes;
}

-- The loop over the locks of the project.
unfoldable pub choose_locks : World → String → ℕ → List CodeLock → Chosen → Chosen
unfolding choose_lock
choose_locks w task_id now [] c = c
choose_locks w task_id now (l ∷ ls) c =
    choose_locks w task_id now ls (if applies task_id now l then choose_lock w l c else c)

abbrev pub nothing_chosen : Chosen
nothing_chosen = record { locks = λ _. none; clashes = [] }

-- A line of `metadata/lock-conflicts.log`.
unfoldable pub clash_line : Clash → String
clash_line c =
    "conflicting active code locks for "
    +++ (c.requested.path
        +++ (" between "
            +++ (hitl_lock_owner c.existing
                +++ (" and "
                    +++ (hitl_lock_owner c.requested
                        +++ ("; latest lock " +++ (c.requested.id +++ " takes precedence")))))))

-- What `nextID` and the clock answer for one conflict.
pub record Stamp : Type 0 where
  pub conflict : String
  pub audit : String
  pub now : ℕ

-- `recordCodeLockApplyConflict`; a failure of `SaveState` is only logged.
unfoldable pub record_apply_conflict : World → Stamp → String → String → Clash → Service → Service
unfolding enqueue_conflict
record_apply_conflict w t project_id task_id c s =
    let conflict =
      new_conflict t.conflict project_id task_id "code_lock_apply" (code_lock_scope w c.requested)
        c.requested.id (hitl_lock_owner c.requested) (hitl_lock_owner c.existing)
        "active code locks with different owners matched the same scope" t.now in
    let queued = enqueue_conflict t.audit "" project_id conflict t.now s in
    elim (queued.data'.projects project_id) [
      | none ↦ queued
      | some project ↦ record queued { data' = touch_project project project_id t.now queued.data' }
    ]

unfoldable pub record_clashes :
    World → (ℕ → Stamp) → String → String → ℕ → List Clash → Service → Service
record_clashes w stamps project_id task_id n [] s = s
record_clashes w stamps project_id task_id n (c ∷ cs) s =
    record_clashes w stamps project_id task_id (suc n) cs
      (record_apply_conflict w (stamps n) project_id task_id c s)

-- What `applyProjectLocksToBundle` has, before it writes a file: the lock of each scope, the lines
-- on the conflicts, and the state with the conflicts queued.
pub record BundleLocks : Type 0 where
  pub state : Service
  pub locks : Map (Option CodeLock)
  pub lines : List String

unfoldable pub bundle_locks : World → (ℕ → Stamp) → String → String → ℕ → Service → BundleLocks
unfolding choose_locks record_clashes
bundle_locks w stamps project_id task_id now s =
    let c = choose_locks w task_id now (s.data'.locks project_id) nothing_chosen in
    record {
      state = record_clashes w stamps project_id task_id 0 c.clashes s;
      locks = c.locks;
      lines = map clash_line c.clashes;
    }
