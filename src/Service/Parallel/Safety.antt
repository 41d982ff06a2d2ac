-- ===== src/Service/Parallel/Safety.antt =====
-- internal/service/service.go: `StartParallelRun` and the invariant.
use multi_agent_com.Base.{
  ℕ, String, ◌≡◌, ◌≢◌, sym, ap, ◌∙◌, subst, inl, inr, Option, none, some, Option-cases, List, [],
  ◌∷◌, All, put, put_cases, put_other, arith, Map,
}
use mathlib.Core.Option.{some-injective}
use multi_agent_com.Domain.Task.{Task, created, in_progress, failed}
use multi_agent_com.Domain.Audit.{after_transition}
use multi_agent_com.Service.State.{
  Service, World, Result, ok, err, error_text, Result-cases, persist, store_result, capture,
  restore,
}
use multi_agent_com.Service.Logs.{record_communication}
use multi_agent_com.Service.Tasks.{store_task}
use multi_agent_com.Service.Runs.{StartIds, RunEnvelope, record_run, start_task_run}
use multi_agent_com.Service.Runs.Outcomes.{start_task_run_cases, no_workspace}
use multi_agent_com.Service.Runs.Safety.{IsSound, start_task_run-IsSound}
use multi_agent_com.Service.Start.{Backend, in_process, repository, Answers}
use multi_agent_com.Service.Parallel.{
  Selection, budgets_allow, current, start_all, prepare_parallel, finish_parallel,
  start_parallel_run, resolve_parallel_tasks,
}
use multi_agent_com.Service.Parallel.Selected.{IsStored, Sorted, resolve_parallel_tasks-Sorted}

-- Runs get different IDs, and none of them is in use.
pub record FreshRuns (ids : String → StartIds) (s : Service) : Type 0 where
  pub distinct : (j k : String) → (ids j).run ≡ (ids k).run → j ≡ k
  pub free : (k : String) → s.data'.runs (ids k).run ≡ none

-- The run of a task that may still start has an unused ID.
abbrev Unstarted : (String → StartIds) → Service → String → Type 0
Unstarted ids s k =
    (t : Task) → s.data'.tasks k ≡ some t → t.status ≡ created → s.data'.runs (ids k).run ≡ none

abbrev Exists : Service → String → Type 0
Exists s k = (t : Task) × (s.data'.tasks k ≡ some t)

All-map : (P Q : Task → Type 0) → ((t : Task) → P t → Q t) → (ts : List Task) → All P ts → All Q ts
All-map P Q f [] h = tt
All-map P Q f (t ∷ ts) (h, hs) = (f t h, All-map P Q f ts hs)

current-found :
    (s : Service) (task u : Task)
    → s.data'.tasks task.id ≡ some u
    → s.data'.tasks task.id ≡ some (current s task)
current-found s task u e = rw (e, current)

-- A CREATED task that is found after another one was written was there before.
waiting_before :
    (tasks : Map (Option Task)) (v : Task) (k : String) (t : Task)
    → v.status ≢ created
    → put tasks v.id (some v) k ≡ some t
    → t.status ≡ created
    → (v.id ≢ k) × (tasks k ≡ some t)
waiting_before tasks v k t begun e waiting = elim (put_cases tasks v.id (some v) k) [
  | inl (same, found) ↦
      absurd (begun (ap (λ (x : Task). x.status) (some-injective _ _ (sym found ∙ e)) ∙ waiting))
  | inr (other, found) ↦ (other, sym found ∙ e)
]

module _ (w : World) (ids : String → StartIds)
    (distinct : (j k : String) → (ids j).run ≡ (ids k).run → j ≡ k) (project_id : String) (now : ℕ)
    (reason : String) where
  abbrev begun_task : Task → Task
  begun_task task = after_transition task in_progress reason now

  abbrev aborted_task : Task → Task
  aborted_task task = after_transition (begun_task task) failed (error_text no_workspace) now

  start_task_run-Exists :
      (i : String) (s : Service) (task : Task) (k : String)
      → Exists s k
      → Exists (start_task_run w (ids i) project_id task now reason s).0 k
  unfolding store_task record_run record_communication
  start_task_run-Exists i s task k (u, there) =
      start_task_run_cases w (ids i) project_id task now reason s (λ x. Exists x.0 k)
        (λ e unready. (u, there))
        (λ ready.
          after_put (put s.data'.tasks task.id (some (begun_task task))) (aborted_task task)
            (after_put s.data'.tasks (begun_task task) (u, there)))
        (λ sandbox ready made. after_put s.data'.tasks (begun_task task) (u, there))
    where
      after_put :
          (tasks : Map (Option Task)) (v : Task)
          → ((t : Task) × (tasks k ≡ some t))
          → (t : Task) × (put tasks v.id (some v) k ≡ some t)
      after_put tasks v (t, e) = elim (put_cases tasks v.id (some v) k) [
        | inl (same, found) ↦ (v, found)
        | inr (other, found) ↦ (t, found ∙ e)
      ]

  start_task_run-Unstarted :
      (i : String) (s : Service) (task : Task) (k : String)
      → task.id ≡ i
      → Unstarted ids s k
      → Unstarted ids (start_task_run w (ids i) project_id task now reason s).0 k
  unfolding store_task record_run record_communication
  start_task_run-Unstarted i s task k same_id old =
      start_task_run_cases w (ids i) project_id task now reason s (λ x. Unstarted ids x.0 k)
        (λ e unready. old)
        (λ ready t e waiting.
          let (other, before) =
            waiting_before (put s.data'.tasks task.id (some (begun_task task))) (aborted_task task)
              k t (λ x. cc x) e waiting in
          old t (waiting_before s.data'.tasks (begun_task task) k t (λ x. cc x) before waiting).1
            waiting)
        (λ sandbox ready made t e waiting.
          let (other, before) =
            waiting_before s.data'.tasks (begun_task task) k t (λ x. cc x) e waiting in
          put_other s.data'.runs (ids i).run (ids k).run _
            (λ same. other (same_id ∙ distinct i k same))
          ∙ old t before waiting)

module _ (w : World) (ids : String → StartIds)
    (distinct : (j k : String) → (ids j).run ≡ (ids k).run → j ≡ k) (project_id : String)
    (now : ℕ) where
  start_all-IsSound :
      (tasks : List Task) (s : Service)
      → IsSound s
      → ((k : String) → Unstarted ids s k)
      → All (λ t. Exists s t.id) tasks
      → IsSound (start_all w ids project_id now s tasks).0
  unfolding start_all
  start_all-IsSound [] s inv unstarted there = inv
  start_all-IsSound (task ∷ tasks) s inv unstarted ((t, there_now), there) =
      let u : Task = current s task in
      let e = current-found s task t there_now in
      let reason : String = "parallel execution started" in
      let same : u.id ≡ task.id = (inv.keyed task.id u e).0 in
      let step = start_task_run w (ids task.id) project_id u now reason s in
      let sound : IsSound step.0 =
        start_task_run-IsSound w (ids task.id) project_id u now reason s task.id inv e
          (λ ready. unstarted task.id u e ready.waiting) in
      let unstarted' : (k : String) → Unstarted ids step.0 k = λ k.
        start_task_run-Unstarted w ids distinct project_id now reason task.id s u k same
          (unstarted k) in
      let there' : All (λ t. Exists step.0 t.id) tasks =
        All-map (λ t. Exists s t.id) (λ t. Exists step.0 t.id)
          (λ t. start_task_run-Exists w ids distinct project_id now reason task.id s u t.id) tasks
          there in
      elim (Result-cases step.1) [
        | inl (x, r) ↦ rw (r, start_all) (start_all-IsSound tasks step.0 sound unstarted' there')
        | inr (x, r) ↦ rw (r, start_all) sound
      ]

module _ (b : Backend) (w : World) (a : Answers) (ids : String → StartIds)
    (batch project_id : String) (task_ids : List String) (now : ℕ) (s : Service) where
  finish_parallel-IsSound :
      (blocked : List Task) (s' : Service) (r : Result (List RunEnvelope))
      → IsSound s
      → IsSound s'
      → IsSound (finish_parallel b a batch blocked s s' r).state
  unfolding finish_parallel restore capture persist
  finish_parallel-IsSound blocked s' (err e) old new = new
  finish_parallel-IsSound blocked s' (ok started) old new = by_backend b
    where
      by_backend :
          (c : Backend) → IsSound (finish_parallel c a batch blocked s s' (ok started)).state
      by_backend in_process = elim (Option-cases a.save) [
        | inl e ↦ rw (e, finish_parallel) new
        | inr (x, e) ↦ rw (e, finish_parallel) new
      ]
      by_backend repository = elim (Result-cases (store_result a.repo)) [
        | inl (x, e) ↦ rw (e, finish_parallel) new
        | inr (x, e) ↦ rw (e, finish_parallel) old
      ]

  prepare_parallel-Sorted :
      (sel : Selection) → prepare_parallel w s project_id task_ids ≡ ok sel → Sorted s.data' sel
  unfolding prepare_parallel
  prepare_parallel-Sorted sel h =
      elim (Result-cases (resolve_parallel_tasks s.data' project_id task_ids)) [
        | inr (x, e) ↦ absurd (ground arith)
        | inl (found, e) ↦ elim (Result-cases (budgets_allow w s project_id found.selected)) [
          | inr (x, e') ↦ absurd (ground arith)
          | inl (x, e') ↦
              let same : found ≡ sel = ground arith in
              subst (Sorted s.data') same
                (resolve_parallel_tasks-Sorted s.data' project_id task_ids found e).0
        ]
      ]

  -- Whatever the checks, the stores and the workspace provider answer, and over either backend, the
  -- state that `StartParallelRun` leaves is in order, if the runs get different and unused IDs.
  pub start_parallel_run-IsSound :
      IsSound s
      → FreshRuns ids s
      → IsSound (start_parallel_run b w a ids batch project_id task_ids now s).state
  unfolding start_parallel_run
  start_parallel_run-IsSound inv fresh = elim (Option-cases a.lock) [
    | inr (e, locked) ↦ rw (locked, start_parallel_run) inv
    | inl free ↦ elim (Result-cases (prepare_parallel w s project_id task_ids)) [
      | inr (e, r) ↦ rw (free, r, start_parallel_run) inv
      | inl (sel, r) ↦
          rw (free, r, start_parallel_run)
            (finish_parallel-IsSound sel.blocked _ _ inv (
              start_all-IsSound w ids fresh.distinct project_id now sel.selected s inv
                (λ k t e waiting. fresh.free k)
                (stored sel.selected (prepare_parallel-Sorted sel r).stored)))
    ]
  ]
    where
      stored : (ts : List Task) → All (IsStored s.data') ts → All (λ t. Exists s t.id) ts
      stored =
          All-map (IsStored s.data') (λ t. Exists s t.id)
            (λ t (k, e). (t, ap s.data'.tasks (inv.keyed k t e).0 ∙ e))
