-- ===== src/Service/Rollback/Restored.antt =====
-- internal/service/service.go: what a rollback that succeeds leaves.
use multi_agent_com.Base.{
  ℕ, String, ◌==◌, ◌≡◌, refl, sym, ap, subst, ◌∙◌, ◌⊎◌, inl, inr, Option, none, some, List,
  put_self, snoc, length, trim, is_empty, Bool-cases, Option-cases, eq_iff,
}
use multi_agent_com.Domain.Records.{Sandbox, Snapshot}
use multi_agent_com.Service.State.{
  SnapshotState, Persisted, Service, World, Result, ok, err, Result-cases, ok-injective,
}
use multi_agent_com.Service.Logs.{record_alert, record_audit}
use multi_agent_com.Service.Start.{Answers}
use multi_agent_com.Service.Snapshots.{clear_project, put_project, restore_project, clear_contexts}
use multi_agent_com.Service.Snapshots.Records.{
  SnapshotWorld, current_branch, add_snapshot, record_snapshot, resolve_state,
}
use multi_agent_com.Service.Rollback.{
  SharedWorkspace, RollbackSnapshotInput, RollbackWorkspaceResult, RollbackResult, RollbackIds,
  resolve_workspace_ref, add_sandbox, restore_sandbox, workspace_result,
}
use multi_agent_com.Service.Rollback.Handler.{
  next_rollback_branch, rolled_back, RollbackPlan, prepare_rollback, rollback_request,
  finish_rollback, sandbox_of, apply_rollback, rollback_reason, check_rollback, report_rollback,
  rollback_to_snapshot,
}
use multi_agent_com.Service.Rollback.Parts.{Restores, rolled_back-Restores, record_snapshot_ok}

-- The state after a rollback, and its answer: the project is as in the snapshot that it went back
-- to, and ends with a new snapshot that names that one as its source.
pub record Rolled (project_id : String) (from : Snapshot) (st : SnapshotState)
    (before : List Snapshot) (p : Persisted) (r : RollbackResult) : Type 0 where
  pub restores : Restores project_id st p
  pub restored_from : r.restored_from ≡ from
  pub source : r.snapshot.source_snapshot_id ≡ trim from.id
  pub snapshots : p.snapshots project_id ≡ snoc before r.snapshot
  pub branch : p.project_branch project_id ≡ r.snapshot.branch
  pub counted : r.restored_tasks ≡ length st.task_order

finish_rollback-Rolled :
    (x : SnapshotWorld) (ids : RollbackIds) (project_id : String) (from : Snapshot)
    (previous active reason : String) (cleared : ℕ)
    (workspace : Option (Sandbox × RollbackWorkspaceResult)) (now : ℕ) (s : Service)
    (st : SnapshotState) (r : RollbackResult)
    → Restores project_id st s.data'
    → (finish_rollback x ids project_id from previous active reason cleared workspace now s).1
      ≡ ok r
    → Rolled project_id from st
        (s.data'.snapshots project_id)
        (finish_rollback x ids project_id from previous active reason cleared workspace now
          s).0.data'
        r
unfolding finish_rollback add_snapshot
finish_rollback-Rolled x ids project_id from previous active reason cleared workspace now s st r h
      e =
    let request = rollback_request ids from active reason (sandbox_of workspace) in
    elim (Result-cases (record_snapshot x request project_id now s).1) [
      | inr (m, failed) ↦ absurd (cc (rw (finish_rollback, failed) at e))
      | inl (sn, done) ↦
          let (left, source) = record_snapshot_ok x request project_id now s sn done in
          let state = ap (λ (z : Service). z.data') left in
          subst (Rolled project_id from st (s.data'.snapshots project_id) _)
            (ok-injective (rw (finish_rollback, done) at e))
            (record {
              restores = subst (Restores project_id st) (sym state) h;
              restored_from = refl;
              source = source;
              snapshots =
                  ap (λ (p : Persisted). p.snapshots project_id) state
                  ∙ put_self s.data'.snapshots project_id _;
              branch =
                  ap (λ (p : Persisted). p.project_branch project_id) state
                  ∙ put_self s.data'.project_branch project_id _;
              counted =
                  ap (λ (p : Persisted). length (p.task_order project_id)) state
                  ∙ ap length h.same_task_order;
            })
    ]

apply_rollback-Rolled :
    (w : World) (x : SnapshotWorld) (y : SharedWorkspace) (ids : RollbackIds) (project_id : String)
    (plan : RollbackPlan) (reason : String) (now : ℕ) (s : Service) (r : RollbackResult)
    → (apply_rollback w x y ids project_id plan reason now s).1 ≡ ok r
    → Rolled project_id plan.snapshot plan.state
        (s.data'.snapshots project_id)
        (apply_rollback w x y ids project_id plan reason now s).0.data'
        r
unfolding apply_rollback rolled_back clear_contexts restore_project clear_project put_project
apply_rollback-Rolled w x y ids project_id plan reason now s r e =
    let next = next_rollback_branch w s.data' project_id plan.snapshot.branch in
    let back = rolled_back-Restores project_id plan.state next.1 now s in
    let previous = current_branch s.data' project_id in
    let after = rolled_back project_id plan.state next.1 now s in
    elim (Option-cases plan.ref) [
      | inl bare ↦
          rw (apply_rollback, bare)
            (finish_rollback-Rolled x ids project_id plan.snapshot previous next.0 reason after.1
              none now after.0 plan.state r back (rw (apply_rollback, bare) at e))
      | inr (ref, there) ↦
          elim (Result-cases (restore_sandbox w y ids.sandbox project_id next.0 ref now)) [
            | inr (m, failed) ↦ absurd (cc (rw (apply_rollback, there, failed) at e))
            | inl (b, made) ↦
                rw (apply_rollback, there, made)
                  (finish_rollback-Rolled x ids project_id plan.snapshot previous next.0 reason
                    after.1 (some (b, workspace_result b ref)) now
                    (add_sandbox project_id b after.0) plan.state r back
                    (rw (apply_rollback, there, made) at e))
          ]
    ]

-- What the checks have found.
prepared :
    (w : World) (x : SnapshotWorld) (project_id snapshot_id : String) (s : Service)
    (plan : RollbackPlan)
    → prepare_rollback w x project_id snapshot_id s ≡ ok plan
    → (s.index.snapshot_index snapshot_id ≡ some plan.snapshot)
      × ((plan.snapshot.project_id ≡ project_id)
          × (resolve_state x s.data' plan.snapshot ≡ ok plan.state))
unfolding prepare_rollback
prepared w x project_id snapshot_id s plan e =
    elim (Option-cases (s.index.snapshot_index snapshot_id)) [
      | inl missing ↦ absurd (cc (rw (prepare_rollback, missing) at e))
      | inr (from, there) ↦ elim (Bool-cases (from.project_id == project_id)) [
        | inr foreign ↦ absurd (cc (rw (prepare_rollback, there, foreign) at e))
        | inl own ↦ elim (Result-cases (resolve_state x s.data' from)) [
          | inr (m, failed) ↦ absurd (cc (rw (prepare_rollback, there, own, failed) at e))
          | inl (st, resolved) ↦ elim (Result-cases (resolve_workspace_ref w x from)) [
            | inr (m, failed) ↦
                absurd (cc (rw (prepare_rollback, there, own, resolved, failed) at e))
            | inl (ref, good) ↦
                subst
                  (λ (q : RollbackPlan).
                    (s.index.snapshot_index snapshot_id ≡ some q.snapshot)
                    × ((q.snapshot.project_id ≡ project_id)
                        × (resolve_state x s.data' q.snapshot ≡ ok q.state)))
                  (ok-injective (rw (prepare_rollback, there, own, resolved, good) at e))
                  (there, ((eq_iff from.project_id project_id).0 own, resolved))
          ]
        ]
      ]
    ]

checked :
    (w : World) (x : SnapshotWorld) (a : Answers) (project_id : String)
    (input : RollbackSnapshotInput) (s : Service) (plan : RollbackPlan)
    → check_rollback w x a project_id input s ≡ ok plan
    → prepare_rollback w x project_id input.snapshot_id s ≡ ok plan
unfolding check_rollback
checked w x a project_id input s plan e = elim (Option-cases a.lock) [
  | inr (m, held) ↦ absurd (cc (rw (check_rollback, held) at e))
  | inl free ↦ elim (Option-cases (s.data'.projects project_id)) [
    | inl missing ↦ absurd (cc (rw (check_rollback, free, missing) at e))
    | inr (project, there) ↦ elim (Bool-cases (is_empty (trim input.snapshot_id))) [
      | inl blank ↦ absurd (cc (rw (check_rollback, free, there, blank) at e))
      | inr given ↦ rw (check_rollback, free, there, given) at e
    ]
  ]
]

report_rollback-Rolled :
    (a : Answers) (ids : RollbackIds) (actor project_id : String) (now : ℕ)
    (z : Service × Result RollbackResult) (r : RollbackResult) (from : Snapshot)
    (st : SnapshotState) (before : List Snapshot)
    → (report_rollback a ids actor project_id now z).1 ≡ ok r
    → ((z.1 ≡ ok r) → Rolled project_id from st before z.0.data' r)
    → Rolled project_id from st before (report_rollback a ids actor project_id now z).0.data' r
unfolding report_rollback record_audit record_alert
report_rollback-Rolled a ids actor project_id now (s, err m) r from st before e h = absurd (cc e)
report_rollback-Rolled a ids actor project_id now (s, ok q) r from st before e h =
    let k = h (kept (Option-cases a.save)) in
    record {
      restores = k.restores;
      restored_from = k.restored_from;
      source = k.source;
      snapshots = k.snapshots;
      branch = k.branch;
      counted = k.counted;
    }
  where
    kept : (a.save ≡ none) ⊎ ((m : String) × (a.save ≡ some m)) → ok q ≡ ok r
    kept (inl saved) = rw (report_rollback, saved) at e
    kept (inr (m, lost)) = absurd (cc (rw (report_rollback, lost) at e))

-- A rollback that succeeds went back to a snapshot of the project that the index has, and to the
-- state that this snapshot stands for: the project has its requirements, plans and contracts, its
-- orders and every task, run and artifact of them; its tasks have no contexts; the branch is that of
-- the new snapshot, which ends the project's list and names the old one as its source.
pub rollback_to_snapshot-Rolled :
    (w : World) (x : SnapshotWorld) (y : SharedWorkspace) (a : Answers) (ids : RollbackIds)
    (actor project_id : String) (input : RollbackSnapshotInput) (now : ℕ) (s : Service)
    (r : RollbackResult)
    → (rollback_to_snapshot w x y a ids actor project_id input now s).1 ≡ ok r
    → (from : Snapshot) × ((st : SnapshotState) × ((s.index.snapshot_index input.snapshot_id
            ≡ some from)
          × ((from.project_id ≡ project_id)
              × ((resolve_state x s.data' from ≡ ok st)
                  × Rolled project_id from st
                      (s.data'.snapshots project_id)
                      (rollback_to_snapshot w x y a ids actor project_id input now s).0.data'
                      r))))
unfolding rollback_to_snapshot
rollback_to_snapshot-Rolled w x y a ids actor project_id input now s r e =
    elim (Result-cases (check_rollback w x a project_id input s)) [
      | inr (m, failed) ↦ absurd (cc (rw (rollback_to_snapshot, failed) at e))
      | inl (plan, good) ↦
          let reason = rollback_reason input.reason in
          let (indexed, (own, resolved)) =
            prepared w x project_id input.snapshot_id s plan
              (checked w x a project_id input s plan good) in
          (
            plan.snapshot,
            (
              plan.state,
              (
                indexed,
                (
                  own,
                  (
                    resolved,
                    rw (rollback_to_snapshot, good)
                        (report_rollback-Rolled a ids actor project_id now
                          (apply_rollback w x y ids project_id plan reason now s) r plan.snapshot
                          plan.state (s.data'.snapshots project_id)
                          (rw (rollback_to_snapshot, good) at e)
                          (apply_rollback-Rolled w x y ids project_id plan reason now s r)),
                  ),
                ),
              ),
            ),
          )
    ]
