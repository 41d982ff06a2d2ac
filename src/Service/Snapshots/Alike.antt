-- ===== src/Service/Snapshots/Alike.antt =====
-- internal/service/service.go: a project's state is put back as it was captured, and other projects
-- are left alone.
use multi_agent_com.Base.{
  String, ◌≡◌, ◌≢◌, refl, ◌∙◌, true, false, Option, none, some, List, Map, put_self, contains, fill,
  fill_lem, chosen,
}
use multi_agent_com.Domain.Records.{AgentRun, Artifact}
use multi_agent_com.Domain.Task.{Task}
use multi_agent_com.Service.State.{SnapshotState, Persisted, Service}
use multi_agent_com.Service.Snapshots.{capture_project, clear_project, put_project, restore_project}

-- Every task, run and artifact of a project's orders is there.
pub record IsWhole (project_id : String) (p : Persisted) : Type 0 where
  pub has_tasks :
      (k : String) → contains (p.task_order project_id) k ≡ true → (t : Task) × (p.tasks k ≡ some t)
  pub has_runs :
      (k : String)
      → contains (p.run_order project_id) k ≡ true
      → (r : AgentRun) × (p.runs k ≡ some r)
  pub has_artifacts :
      (k : String)
      → contains (p.artifact_order project_id) k ≡ true
      → (x : Artifact) × (p.artifacts k ≡ some x)

-- The project, its lists and its orders are the same in both states.
pub record SameLists (project_id : String) (p q : Persisted) : Type 0 where
  pub project : q.projects project_id ≡ p.projects project_id
  pub requirements : q.requirements project_id ≡ p.requirements project_id
  pub plans : q.plans project_id ≡ p.plans project_id
  pub contracts : q.contracts project_id ≡ p.contracts project_id
  pub sandboxes : q.sandboxes project_id ≡ p.sandboxes project_id
  pub task_order : q.task_order project_id ≡ p.task_order project_id
  pub run_order : q.run_order project_id ≡ p.run_order project_id
  pub artifact_order : q.artifact_order project_id ≡ p.artifact_order project_id

-- And the tasks, runs and artifacts that its orders name.
pub record Alike (project_id : String) (p q : Persisted) : Type 0 where
  pub lists : SameLists project_id p q
  pub tasks : (k : String) → contains (p.task_order project_id) k ≡ true → q.tasks k ≡ p.tasks k
  pub runs : (k : String) → contains (p.run_order project_id) k ≡ true → q.runs k ≡ p.runs k
  pub artifacts :
      (k : String) → contains (p.artifact_order project_id) k ≡ true → q.artifacts k ≡ p.artifacts k

-- The other projects are the same, with all tasks, runs and artifacts that neither the orders of the
-- project nor those of the snapshot name, and with the logs, alerts and snapshots of every project.
pub record Apart (project_id : String) (st : SnapshotState) (p q : Persisted) : Type 0 where
  pub others : (j : String) → project_id ≢ j → SameLists j p q
  pub tasks :
      (k : String)
      → contains st.task_order k ≡ false
      → contains (p.task_order project_id) k ≡ false
      → q.tasks k ≡ p.tasks k
  pub runs :
      (k : String)
      → contains st.run_order k ≡ false
      → contains (p.run_order project_id) k ≡ false
      → q.runs k ≡ p.runs k
  pub artifacts :
      (k : String)
      → contains st.artifact_order k ≡ false
      → contains (p.artifact_order project_id) k ≡ false
      → q.artifacts k ≡ p.artifacts k
  pub snapshots : q.snapshots ≡ p.snapshots
  pub communications : q.communications ≡ p.communications
  pub audit_logs : q.audit_logs ≡ p.audit_logs
  pub alerts : q.alerts ≡ p.alerts

chosen-none {ℓ} : {A : Type ℓ} (o : Option A) → chosen some o none ≡ o
chosen-none none = refl
chosen-none (some x) = refl

-- What a snapshot has of an entry.
captured {ℓ} :
    {A : Type ℓ} (ks : List String) (m : Map (Option A)) (k : String)
    → contains ks k ≡ true
    → fill some ks m (λ _. none) k ≡ m k
captured ks m k h = fill_lem some ks m (λ _. none) k ∙ rw h (chosen-none (m k))

-- An entry that is there comes back.
came_back {ℓ} :
    {A : Type ℓ} (ks : List String) (m : Map (Option A)) (old : Map (Option A)) (k : String) (x : A)
    → contains ks k ≡ true
    → m k ≡ some x
    → fill some ks (fill some ks m (λ _. none)) old k ≡ m k
came_back ks m old k x h e =
    fill_lem some ks (fill some ks m (λ _. none)) old k ∙ rw (h, captured ks m k h, e) refl

-- A project that is captured in one state and put back in any other, in which its tasks, runs and
-- artifacts may be others, is again as it was: the project, its requirements, plans, contracts and
-- sandboxes, the three orders and every entry of them. The orders must name no task, run or artifact
-- that was missing.
pub restore_project-capture_project :
    (project_id : String) (p : Persisted) (s : Service)
    → IsWhole project_id p
    → Alike project_id p (restore_project project_id (capture_project project_id p) s).data'
unfolding restore_project capture_project clear_project put_project
restore_project-capture_project project_id p s whole =
    let c = (clear_project project_id s).data' in
    record {
      lists = record {
        project = put_self c.projects project_id _;
        requirements = put_self c.requirements project_id _;
        plans = put_self c.plans project_id _;
        contracts = put_self c.contracts project_id _;
        sandboxes = put_self c.sandboxes project_id _;
        task_order = put_self c.task_order project_id _;
        run_order = put_self c.run_order project_id _;
        artifact_order = put_self c.artifact_order project_id _;
      };
      tasks = λ k h.
          let (x, e) = whole.has_tasks k h in
          came_back (p.task_order project_id) p.tasks c.tasks k x h e;
      runs = λ k h.
          let (x, e) = whole.has_runs k h in
          came_back (p.run_order project_id) p.runs c.runs k x h e;
      artifacts = λ k h.
          let (x, e) = whole.has_artifacts k h in
          came_back (p.artifact_order project_id) p.artifacts c.artifacts k x h e;
    }
