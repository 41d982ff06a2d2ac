-- ===== src/Service/Overrides/Conflicted.antt =====
-- internal/service/service.go: when `ApplyHumanOverride` queues a conflict, and which one.
use multi_agent_com.Base.{
  ℕ, String, ◌==◌, ◌≡◌, ◌≢◌, refl, inl, inr, Bool-cases, none, some, true, Bool, Mem, snoc,
  put_self, trim, find_first-Mem, Mem-find_first, eq_iff, unequal,
}
use multi_agent_com.Domain.Records.{HumanOverride, ConflictQueueEntry}
use multi_agent_com.Service.State.{Service, World, ok, err, conflict_error, persist}
use multi_agent_com.Service.Logs.{record_audit}
use multi_agent_com.Service.Start.{Answers}
use multi_agent_com.Service.Leases.{hitl_override_owner, override_scope}
use multi_agent_com.Service.Execution.{is_pending}
use multi_agent_com.Service.Overrides.{
  OverrideInput, OverrideIds, OverrideReply, OverrideRequest, check_override, clashes,
  find_override_conflict, new_conflict, enqueue_conflict, override_conflict,
  queue_override_conflict, apply_human_override,
}

-- An override that waits for the request's task under the same scope, and belongs to another owner.
pub record Bars (w : World) (r : OverrideRequest) (now : ℕ) (o : HumanOverride) : Type 0 where
  pub waits : is_pending now r.task.id o ≡ true
  pub same_scope : override_scope w o.task_id o.lock_scope ≡ override_scope w r.task.id r.lock_scope
  pub other_owner : hitl_override_owner o ≢ r.owner

module _ (w : World) (r : OverrideRequest) (now : ℕ) where
  abbrev test : HumanOverride → Bool
  test = clashes w r.task.id (override_scope w r.task.id r.lock_scope) r.owner now

  Bars-clashes : (o : HumanOverride) → Bars w r now o → test o ≡ true
  unfolding clashes
  Bars-clashes o b = elim (Bool-cases (hitl_override_owner o == r.owner)) [
    | inl same ↦ absurd (b.other_owner ((eq_iff (hitl_override_owner o) r.owner).0 same))
    | inr other ↦
        rw
          (
            clashes,
            b.waits,
            other,
            (eq_iff (override_scope w o.task_id o.lock_scope)
                  (override_scope w r.task.id r.lock_scope)).1
                b.same_scope,
          )
          refl
  ]

  clashes-Bars : (o : HumanOverride) → test o ≡ true → Bars w r now o
  unfolding clashes
  clashes-Bars o h = elim (Bool-cases (is_pending now r.task.id o)) [
    | inr idle ↦ absurd (cc (rw (clashes, idle) at h))
    | inl waits ↦ elim (Bool-cases (hitl_override_owner o == r.owner)) [
      | inl same ↦ absurd (cc (rw (clashes, waits, same) at h))
      | inr other ↦ record {
        waits = waits;
        same_scope =
            (eq_iff (override_scope w o.task_id o.lock_scope)
                (override_scope w r.task.id r.lock_scope)).0
              (rw (clashes, waits, other) at h);
        other_owner = unequal (hitl_override_owner o) r.owner other;
      }
    ]
  ]

-- What the handler leaves of a request that is barred: an OPEN conflict, at the end of the queue and
-- in the index, over the override that is in the way and with both owners; and no other change to
-- overrides, tasks and runs.
pub record Conflicted (w : World) (project_id id : String) (r : OverrideRequest) (now : ℕ)
    (s : Service) (x : OverrideReply) : Type 0 where
  pub current : HumanOverride
  pub held : Mem current (s.data'.overrides project_id)
  pub bars : Bars w r now current
  pub entry : ConflictQueueEntry
  pub answered : x.conflict ≡ some entry
  pub refused : x.result ≡ err (conflict_error "human override lease conflict queued")
  pub queued : x.state.data'.conflicts project_id ≡ snoc (s.data'.conflicts project_id) entry
  pub indexed : x.state.index.conflict_index id ≡ some entry
  pub is_open : entry.status ≡ "OPEN"
  pub unresolved : (entry.resolved_at ≡ 0) × (entry.resolved_by ≡ "")
  pub over : (entry.resource_id ≡ trim current.id) × (entry.task_id ≡ trim r.task.id)
  pub asking : entry.requested_owner ≡ trim r.owner
  pub holding : entry.current_owner ≡ trim (hitl_override_owner current)
  pub same_overrides : x.state.data'.overrides ≡ s.data'.overrides
  pub same_tasks : x.state.data'.tasks ≡ s.data'.tasks
  pub same_runs : x.state.data'.runs ≡ s.data'.runs

-- Where the handler gets the lock and `SaveState` succeeds, and any override that waits for the task
-- under the same scope belongs to another owner than that of a checked request, `ApplyHumanOverride`
-- reports an error and queues a conflict: it is OPEN, names such an override, the owner who asks and
-- the one who holds the lease, and stands in the queue and in the index; no override, task or run
-- changes.
pub apply_human_override_conflict :
    (w : World) (a : Answers) (ids : OverrideIds) (project_id actor : String)
    (input : OverrideInput) (now : ℕ) (s : Service) (r : OverrideRequest) (o : HumanOverride)
    → a.lock ≡ none
    → a.save ≡ none
    → check_override s.data' project_id actor input now ≡ ok r
    → Mem o (s.data'.overrides project_id)
    → Bars w r now o
    → Conflicted w project_id ids.conflict r now s
        (apply_human_override w a ids project_id actor input now s)
unfolding apply_human_override find_override_conflict queue_override_conflict override_conflict
    new_conflict enqueue_conflict record_audit persist
apply_human_override_conflict w a ids project_id actor input now s r o free saved c m b =
    let (current, f) =
      Mem-find_first (test w r now) (s.data'.overrides project_id) o m (Bars-clashes w r now o b) in
    let (hit, held) = find_first-Mem (test w r now) (s.data'.overrides project_id) current f in
    rw (free, c, f, apply_human_override)
      (rw saved (record {
        current = current;
        held = held;
        bars = clashes-Bars w r now current hit;
        entry = override_conflict w ids.conflict project_id r current now;
        answered = refl;
        refused = refl;
        queued = put_self s.data'.conflicts project_id _;
        indexed = put_self s.index.conflict_index ids.conflict _;
        is_open = refl;
        unresolved = (refl, refl);
        over = (refl, refl);
        asking = refl;
        holding = refl;
        same_overrides = refl;
        same_tasks = refl;
        same_runs = refl;
      }))
