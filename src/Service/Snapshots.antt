-- ===== src/Service/Snapshots.antt =====
-- internal/service/service.go: the state of a project in a snapshot, how it is captured, and how it
-- is put back in place of the present one.
pub mod Alike
pub mod Records
pub mod Refs
use multi_agent_com.Base.{
  ℕ, ◌+◌, String, Option, none, some, List, [], ◌∷◌, map, length, flat, Map, put, forget, fill,
}
use multi_agent_com.Domain.Records.{
  Project, Requirement, Plan, Contract, ContextInjection, Sandbox, HumanOverride, AgentRun,
  Artifact,
}
use multi_agent_com.Domain.Task.{Task}
use multi_agent_com.Service.State.{SnapshotState, Persisted, Indexes, Service, index_items}

-- A history that is not empty.
abbrev pub nonempty : List ContextInjection → Option (List ContextInjection)
nonempty [] = none
nonempty (x ∷ xs) = some (x ∷ xs)

-- `captureProjectSnapshotStateLocked`
unfoldable pub capture_project : String → Persisted → SnapshotState
capture_project project_id p =
    let tasks = p.task_order project_id in
    let runs = p.run_order project_id in
    let artifacts = p.artifact_order project_id in
    record {
      project = p.projects project_id;
      requirements = p.requirements project_id;
      plans = p.plans project_id;
      contracts = p.contracts project_id;
      contexts = fill some tasks (λ k. nonempty (p.contexts k)) (λ _. none);
      sandboxes = p.sandboxes project_id;
      tasks = fill some tasks p.tasks (λ _. none);
      task_order = tasks;
      runs = fill some runs p.runs (λ _. none);
      run_order = runs;
      artifacts = fill some artifacts p.artifacts (λ _. none);
      artifact_order = artifacts;
    }

-- The injections of the tasks.
abbrev pub injections : Persisted → List String → List ContextInjection
injections p keys = flat p.contexts keys

module _ {ℓ} {A : Type ℓ} (id : A → String) where
  -- `for _, item := range items { delete(index, item.ID) }`
  abbrev pub unindex : List A → Map (Option A) → Map (Option A)
  unindex items index = forget none (map id items) index

-- `clearProjectStateLocked`
unfoldable pub clear_project : String → Service → Service
clear_project project_id s =
    let p = s.data' in
    let x = s.index in
    let tasks = p.task_order project_id in
    record {
      data' = record p {
        requirements = put p.requirements project_id [];
        plans = put p.plans project_id [];
        contracts = put p.contracts project_id [];
        contexts = forget [] tasks p.contexts;
        overrides = put p.overrides project_id [];
        sandboxes = put p.sandboxes project_id [];
        sandbox_faults = forget "" tasks p.sandbox_faults;
        tasks = forget none tasks p.tasks;
        task_order = put p.task_order project_id [];
        runs = forget none (p.run_order project_id) p.runs;
        run_order = put p.run_order project_id [];
        artifacts = forget none (p.artifact_order project_id) p.artifacts;
        artifact_order = put p.artifact_order project_id [];
      };
      index = record x {
        plan_index = unindex (λ i. i.id) (p.plans project_id) x.plan_index;
        contract_index = unindex (λ i. i.id) (p.contracts project_id) x.contract_index;
        context_index = unindex (λ i. i.id) (injections p tasks) x.context_index;
        override_index = unindex (λ i. i.id) (p.overrides project_id) x.override_index;
        sandbox_index = unindex (λ i. i.id) (p.sandboxes project_id) x.sandbox_index;
      };
    }

-- The histories of a snapshot, in the order of its tasks.
abbrev pub kept_injections : SnapshotState → List String → List ContextInjection
kept_injections st keys = flat (λ k. elim (st.contexts k) [ none ↦ [] | some h ↦ h ]) keys

-- The writes of `restoreProjectFromSnapshotLocked`, after the old state has been cleared.
unfoldable pub put_project : String → SnapshotState → Service → Service
put_project project_id st s =
    let p = s.data' in
    let x = s.index in
    record {
      data' = record p {
        projects = put p.projects project_id st.project;
        requirements = put p.requirements project_id st.requirements;
        plans = put p.plans project_id st.plans;
        contracts = put p.contracts project_id st.contracts;
        contexts = fill (λ h. h) st.task_order st.contexts p.contexts;
        sandboxes = put p.sandboxes project_id st.sandboxes;
        tasks = fill some st.task_order st.tasks p.tasks;
        task_order = put p.task_order project_id st.task_order;
        runs = fill some st.run_order st.runs p.runs;
        run_order = put p.run_order project_id st.run_order;
        artifacts = fill some st.artifact_order st.artifacts p.artifacts;
        artifact_order = put p.artifact_order project_id st.artifact_order;
      };
      index = record x {
        plan_index = index_items (λ i. i.id) st.plans x.plan_index;
        contract_index = index_items (λ i. i.id) st.contracts x.contract_index;
        context_index = index_items (λ i. i.id) (kept_injections st st.task_order) x.context_index;
        sandbox_index = index_items (λ i. i.id) st.sandboxes x.sandbox_index;
      };
    }

-- `restoreProjectFromSnapshotLocked`
unfoldable pub restore_project : String → SnapshotState → Service → Service
unfolding clear_project put_project
restore_project project_id st s = put_project project_id st (clear_project project_id s)

-- The number of injections that a loop clears which deletes each history that it has counted.
abbrev pub count_cleared : List String → Map (List ContextInjection) → ℕ
count_cleared [] contexts = 0
count_cleared (k ∷ ks) contexts = length (contexts k) + count_cleared ks (put contexts k [])

-- `clearProjectContextsLocked`: the state, and the number of injections that were cleared.
unfoldable pub clear_contexts : String → Service → Service × ℕ
clear_contexts project_id s =
    let p = s.data' in
    let tasks = p.task_order project_id in
    (
      record {
        data' = record p { contexts = forget [] tasks p.contexts };
        index = record (s.index) {
          context_index = unindex (λ i. i.id) (injections p tasks) s.index.context_index;
        };
      },
      count_cleared tasks p.contexts,
    )
