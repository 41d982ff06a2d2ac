-- ===== src/Service/Finish/Safety.antt =====
-- internal/service/service.go: the critical sections of an executing run and the invariant.
use multi_agent_com.Base.{
  ℕ, String, ◌≡◌, ◌≢◌, refl, sym, ap, subst, ◌∙◌, ◌⊎◌, inl, inr, Bool-cases, Option, some,
  Option-cases, arith, is_empty, find_last, trim,
}
use mathlib.Core.Option.{some-injective}
use multi_agent_com.Domain.Records.{AgentRun}
use multi_agent_com.Domain.Task.{Task, created, in_progress, is_human_override}
use multi_agent_com.Domain.Audit.{
  Edge-allowed, HasTrail, after_transition, after_transition-HasTrail, transition_to_ok, resume,
}
use multi_agent_com.Service.State.{
  Service, Persisted, World, ok, Error, Result-cases, persist, capture, restore,
}
use multi_agent_com.Service.Tasks.{store_task}
use multi_agent_com.Service.Runs.Safety.{IsSound}
use multi_agent_com.Service.Invariant.{keep_task, Inv, Carries}
use multi_agent_com.Service.Start.{Backend, in_process, repository, Answers}
use multi_agent_com.Service.Execution.{
  Snapshot, take_sandbox_failure, apply_pending_override, mark_applied, leave_override, is_pending,
}
use multi_agent_com.Service.Finish.{
  with_task, install, failed_run, fail_candidate, fail_changes, fail_run, succeeded_run,
  complete_candidate, complete_run, Product,
}
use multi_agent_com.Service.Finish.Endings.{
  end_run, fail_task_lem, finish_task_lem, is_human_override-eq,
}

pub install_data :
    (b : Backend) (a : Answers) (candidate : Persisted) (s : Service)
    → ((install b a candidate s).data' ≡ candidate) ⊎ ((install b a candidate s).data' ≡ s.data')
unfolding install restore
install_data in_process a candidate s = inl refl
install_data repository a candidate s = ground arith

-- Whether the candidate is installed or not.
pub install-IsSound :
    (b : Backend) (a : Answers) (candidate : Persisted) (s : Service)
    → IsSound s
    → Inv candidate.tasks candidate.runs
    → IsSound (install b a candidate s)
install-IsSound b a candidate s old new = elim (install_data b a candidate s) [
  | inl same ↦ subst (λ p. Inv p.tasks p.runs) (sym same) new
  | inr same ↦ subst (λ p. Inv p.tasks p.runs) (sym same) old
]

-- `failRun` keeps the state in order, whatever run it is called for and whatever the stores answer.
pub fail_run-IsSound :
    (b : Backend) (w : World) (a : Answers) (alert_id run_id : String) (failure : Error) (now : ℕ)
    (s : Service)
    → IsSound s
    → IsSound (fail_run b w a alert_id run_id failure now s)
unfolding fail_run fail_candidate fail_changes failed_run store_task capture
fail_run-IsSound b w a alert_id run_id failure now s inv =
    elim (Option-cases (s.data'.runs run_id)) [
      | inl e ↦ rw (e, fail_run) inv
      | inr (r, e) ↦
          let (t, found, c) = inv.started run_id r e in
          let (named, trail, begun) = fail_task_lem now t c.begun (inv.keyed r.task_id t found).1 in
          rw (e, fail_run)
            (install-IsSound b a _ s inv (
              rw (found, with_task)
                (end_run inv run_id r _ t _ e refl (λ h. cc) found named trail begun)))
    ]

-- The end of `executeRun` keeps the state in order, if the run's task is the one that the run was
-- prepared with.
pub complete_run-IsSound :
    (b : Backend) (w : World) (a : Answers) (run_id : String) (snap : Snapshot) (product : Product)
    (now : ℕ) (s : Service)
    → IsSound s
    → ((r : AgentRun) → s.data'.runs run_id ≡ some r → r.task_id ≡ snap.task.id)
    → IsSound (complete_run b w a run_id snap product now s)
unfolding complete_run complete_candidate succeeded_run store_task capture
complete_run-IsSound b w a run_id snap product now s inv own =
    elim (Option-cases (s.data'.tasks snap.task.id)) [
      | inl e ↦ rw (e, complete_run) inv
      | inr (t, there) ↦ elim (Option-cases (s.data'.runs run_id)) [
        | inl e ↦ rw (there, e, complete_run) inv
        | inr (r, e) ↦
            let found : s.data'.tasks r.task_id ≡ some t = ap s.data'.tasks (own r e) ∙ there in
            let (u, there', c) = inv.started run_id r e in
            let same : u ≡ t = some-injective _ _ (sym there' ∙ found) in
            let (named, trail, begun) =
              finish_task_lem product.artifact now t
                (subst (λ (x : Task). x.status ≢ created) same c.begun)
                (inv.keyed r.task_id t found).1 in
            rw (there, e, complete_run)
              (install-IsSound b a _ s inv
                (end_run inv run_id r _ t _ e refl (λ h. cc) found named trail begun))
      ]
    ]

-- A task leaves HUMAN_OVERRIDE at the checkpoint, and stays in work.
leave_override_lem :
    (now : ℕ) (t : Task)
    → (t' : Task) × (leave_override now t ≡ ok t')
      × (t'.id ≡ t.id)
      × (HasTrail t → HasTrail t')
      × ((q : AgentRun) → Carries q t → Carries q t')
leave_override_lem now t = elim (Bool-cases (is_human_override t.status)) [
  | inr other ↦ (t, rw other, refl, λ h. h, λ q c. c)
  | inl overridden ↦
      let status = is_human_override-eq t.status overridden in
      (
        after_transition t in_progress "human override applied at safety checkpoint" now,
        rw (
          overridden,
          transition_to_ok t in_progress "human override applied at safety checkpoint" now
              (rw status (Edge-allowed resume)),
        ),
        refl,
        λ h. after_transition-HasTrail t in_progress _ now (rw status resume) h,
        λ q c. record { begun = λ h. cc; busy = λ h. inl refl },
      )
]

-- The safety checkpoint keeps the state in order, whether or not an override waits there.
pub apply_pending_override-IsSound :
    (save : Option String) (run_id : String) (now : ℕ) (s : Service)
    → IsSound s
    → IsSound (apply_pending_override save run_id now s).0
unfolding apply_pending_override mark_applied store_task
apply_pending_override-IsSound save run_id now s inv = elim (Option-cases (s.data'.runs run_id)) [
  | inl e ↦ rw (e, apply_pending_override) inv
  | inr (r, e) ↦
      let (t, found, c) = inv.started run_id r e in
      let trail = (inv.keyed r.task_id t found).1 in
      elim (Option-cases (find_last (is_pending now t.id) (s.data'.overrides r.project_id))) [
        | inl none_waits ↦ rw (e, found, none_waits, apply_pending_override) inv
        | inr (o, waits) ↦
            let (t', left, named, trail', weaker) = leave_override_lem now t in
            let sound = keep_task inv r.task_id t t' found named (trail' trail) weaker in
            rw (e, found, waits, left, apply_pending_override)
              (elim (Result-cases (persist save)) [
                | inl (_, e') ↦ rw e' sound
                | inr (_, e') ↦ rw e' sound
              ])
      ]
]

-- Taking a sandbox fault touches neither tasks nor runs.
pub take_sandbox_failure-IsSound :
    (task_id : String) (s : Service) → IsSound s → IsSound (take_sandbox_failure task_id s).0
unfolding take_sandbox_failure
take_sandbox_failure-IsSound task_id s inv =
    elim (Bool-cases (is_empty (trim (s.data'.sandbox_faults task_id)))) [
      | inl e ↦ rw (e, take_sandbox_failure) inv
      | inr e ↦ rw (e, take_sandbox_failure) inv
    ]
