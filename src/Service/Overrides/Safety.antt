-- ===== src/Service/Overrides/Safety.antt =====
-- internal/service/service.go: `ApplyHumanOverride` and the invariant.
use multi_agent_com.Base.{
  ◌+++◌, ℕ, String, ◌≡◌, refl, sym, ap, ◌∙◌, inl, inr, Bool-cases, none, some, Option-cases, arith,
  true, ◌||◌,
}
use multi_agent_com.Domain.Records.{AgentRun, HumanOverride}
use multi_agent_com.Domain.Task.{
  Task, TaskStatus, in_progress, human_override, is_in_progress, is_human_override,
}
use multi_agent_com.Domain.Audit.{
  Edge-allowed, HasTrail, after_transition, after_transition-HasTrail, transition_to_ok, interrupt,
}
use multi_agent_com.Service.State.{
  Persisted, Service, World, ok, err, Error, Result-cases, plain, persist,
}
use multi_agent_com.Service.Logs.{record_communication, record_audit}
use multi_agent_com.Service.Tasks.{store_task, resolve_task}
use multi_agent_com.Service.Tasks.Ready.{resolve_task-stored}
use multi_agent_com.Service.Runs.Safety.{IsSound}
use multi_agent_com.Service.Invariant.{Carries, keep_task}
use multi_agent_com.Service.Start.{Answers}
use multi_agent_com.Service.Finish.Endings.{is_human_override-eq}
use multi_agent_com.Service.Overrides.{
  OverrideInput, OverrideIds, OverrideReply, OverrideRequest, check_override,
  find_override_conflict, override_conflict, new_conflict, enqueue_conflict, new_override,
  override_task, record_override, accept_override, queue_override_conflict, apply_human_override,
}

is_in_progress-eq : (s : TaskStatus) → is_in_progress s ≡ true → s ≡ in_progress
is_in_progress-eq in_progress h = refl
is_in_progress-eq _ h = cc

-- An accepted task is the old one or has moved along the edge to HUMAN_OVERRIDE.
pub override_task_lem :
    (r : OverrideRequest) (operator : String) (now : ℕ)
    → (t : Task) × (override_task r operator now ≡ ok t)
      × (t.id ≡ r.task.id)
      × (HasTrail r.task → HasTrail t)
      × ((q : AgentRun) → Carries q r.task → Carries q t)
      × ((is_in_progress r.task.status || is_human_override r.task.status) ≡ true
          → t.status ≡ human_override)
unfolding override_task
override_task_lem r operator now = elim (Bool-cases (is_in_progress r.task.status)) [
  | inr other ↦ (
    r.task,
    rw (other, override_task),
    refl,
    λ h. h,
    λ q c. c,
    λ h. is_human_override-eq r.task.status (rw other at h),
  )
  | inl working ↦
      let status = is_in_progress-eq r.task.status working in
      let reason : String = "human override requested by " +++ operator in
      let u : Task = after_transition r.task human_override reason now in
      (
        u,
        rw (
          working,
          override_task,
          transition_to_ok r.task human_override reason now (rw status (Edge-allowed interrupt)),
        ),
        refl,
        λ h. after_transition-HasTrail r.task human_override reason now (rw status interrupt) h,
        λ q c. record { begun = λ h. cc; busy = λ h. inr refl },
        λ h. refl,
      )
]

-- The task of a checked request is in work.
pub check_override_active :
    (p : Persisted) (project_id actor : String) (input : OverrideInput) (now : ℕ)
    (r : OverrideRequest)
    → check_override p project_id actor input now ≡ ok r
    → (is_in_progress r.task.status || is_human_override r.task.status) ≡ true
unfolding check_override
check_override_active p project_id actor input now r h =
    elim (Result-cases (resolve_task p project_id input.task_id)) [
      | inr (x, e) ↦ absurd (ground arith)
      | inl (t, e) ↦ elim (Bool-cases (is_in_progress t.status || is_human_override t.status)) [
        | inl active ↦
            let same : t ≡ r.task = ground arith in
            ap (λ (x : Task). is_in_progress x.status || is_human_override x.status) (sym same)
            ∙ active
        | inr idle ↦ absurd (ground arith)
      ]
    ]

-- The task of a checked request stands in the state.
check_override-stored :
    (p : Persisted) (project_id actor : String) (input : OverrideInput) (now : ℕ)
    (r : OverrideRequest)
    → check_override p project_id actor input now ≡ ok r
    → (k : String) × (p.tasks k ≡ some r.task)
unfolding check_override
check_override-stored p project_id actor input now r h =
    elim (Result-cases (resolve_task p project_id input.task_id)) [
      | inr (x, e) ↦ absurd (ground arith)
      | inl (t, e) ↦
          let (k, found) = resolve_task-stored p project_id input.task_id t e in
          let same : t ≡ r.task = ground arith in (k, found ∙ ap some same)
    ]

-- The handler refuses the request, queues a conflict, or accepts the override.
pub apply_human_override_cases {ℓ} :
    (w : World) (a : Answers) (ids : OverrideIds) (project_id actor : String)
    (input : OverrideInput) (now : ℕ) (s : Service) (P : OverrideReply → Type ℓ)
    → ((e : Error) → P (record { state = s; conflict = none; result = err e }))
    → ((r : OverrideRequest) (current : HumanOverride)
        → check_override s.data' project_id actor input now ≡ ok r
        → find_override_conflict w (s.data'.overrides project_id) r.task.id r.lock_scope r.owner now
          ≡ some current
        → P (queue_override_conflict w a ids project_id actor r current now s))
    → ((r : OverrideRequest)
        → check_override s.data' project_id actor input now ≡ ok r
        → find_override_conflict w (s.data'.overrides project_id) r.task.id r.lock_scope r.owner now
          ≡ none
        → P (accept_override w a ids project_id actor r now s))
    → P (apply_human_override w a ids project_id actor input now s)
unfolding apply_human_override
apply_human_override_cases w a ids project_id actor input now s P early queued accepted =
    elim (Option-cases a.lock) [
      | inr (e, locked) ↦ rw (locked, apply_human_override) (early (plain e))
      | inl free ↦ elim (Result-cases (check_override s.data' project_id actor input now)) [
        | inr (e, c) ↦ rw (free, c, apply_human_override) (early e)
        | inl (r, c) ↦
            elim (Option-cases (
              find_override_conflict w (s.data'.overrides project_id) r.task.id r.lock_scope r.owner
                now)) [
                  | inr (current, f) ↦ rw (free, c, f, apply_human_override) (queued r current c f)
                  | inl f ↦ rw (free, c, f, apply_human_override) (accepted r c f)
                ]
      ]
    ]

-- `ApplyHumanOverride` keeps the state in order, whether it refuses the request, queues a conflict
-- or accepts the override, and whatever `SaveState` answers.
pub apply_human_override-IsSound :
    (w : World) (a : Answers) (ids : OverrideIds) (project_id actor : String)
    (input : OverrideInput) (now : ℕ) (s : Service)
    → IsSound s
    → IsSound (apply_human_override w a ids project_id actor input now s).state
unfolding override_conflict new_conflict new_override queue_override_conflict accept_override
    enqueue_conflict record_override record_audit record_communication store_task
apply_human_override-IsSound w a ids project_id actor input now s inv =
    apply_human_override_cases w a ids project_id actor input now s (λ x. IsSound x.state)
      (λ e. inv)
      (λ r current c f. elim (Result-cases (persist a.save)) [
        | inl (_, e) ↦ rw (e, queue_override_conflict) inv
        | inr (_, e) ↦ rw (e, queue_override_conflict) inv
      ])
      (λ r c f.
        let (k, found) = check_override-stored s.data' project_id actor input now r c in
        let (t, moved_to, named, trail, weaker, stops) =
          override_task_lem r (new_override ids.override project_id r now).operator now in
        rw (moved_to, accept_override)
          (keep_task inv k r.task t found named (trail (inv.keyed k r.task found).1) weaker))
