-- ===== src/Service/Rollback/Parts.antt =====
-- internal/service/service.go: a project with the state of a snapshot, and the recording of the
-- snapshot that follows.
use multi_agent_com.Base.{
  ℕ, String, ◌≡◌, refl, sym, ap, subst, ◌∙◌, inl, inr, true, Option, some, List, [], Map, put,
  put_self, contains, forget_lem, fill, fill_lem, trim, Option-cases,
}
use multi_agent_com.Domain.Records.{
  Requirement, Plan, Contract, ContextInjection, Snapshot, AgentRun, Artifact,
}
use multi_agent_com.Domain.Task.{Task}
use multi_agent_com.Service.State.{
  SnapshotState, Persisted, Service, ok, Result-cases, ok-injective,
}
use multi_agent_com.Service.Snapshots.{
  capture_project, clear_project, put_project, restore_project, clear_contexts,
}
use multi_agent_com.Service.Snapshots.Records.{
  SnapshotWorld, SnapshotRequest, snapshot_branch, new_snapshot, written, add_snapshot,
  store_snapshot, or_missing, record_snapshot,
}
use multi_agent_com.Service.Rollback.Handler.{rolled_back}

-- The parts of a state that a snapshot is put back into.
pub record Parts (project_id : String) (st : SnapshotState) (requirements : Map (List Requirement))
    (plans : Map (List Plan)) (contracts : Map (List Contract)) (tasks : Map (Option Task))
    (task_order : Map (List String)) (runs : Map (Option AgentRun)) (run_order : Map (List String))
    (artifacts : Map (Option Artifact)) (artifact_order : Map (List String))
    (contexts : Map (List ContextInjection)) : Type 0 where
  pub same_requirements : requirements project_id ≡ st.requirements
  pub same_plans : plans project_id ≡ st.plans
  pub same_contracts : contracts project_id ≡ st.contracts
  pub same_task_order : task_order project_id ≡ st.task_order
  pub same_run_order : run_order project_id ≡ st.run_order
  pub same_artifact_order : artifact_order project_id ≡ st.artifact_order
  pub same_tasks :
      (k : String) (x : Task)
      → contains st.task_order k ≡ true
      → st.tasks k ≡ some x
      → tasks k ≡ some x
  pub same_runs :
      (k : String) (x : AgentRun)
      → contains st.run_order k ≡ true
      → st.runs k ≡ some x
      → runs k ≡ some x
  pub same_artifacts :
      (k : String) (x : Artifact)
      → contains st.artifact_order k ≡ true
      → st.artifacts k ≡ some x
      → artifacts k ≡ some x
  pub no_contexts : (k : String) → contains st.task_order k ≡ true → contexts k ≡ []

-- The project has the lists, the orders and the entries of the snapshot, and its tasks have no
-- contexts.
abbrev pub Restores : String → SnapshotState → Persisted → Type 0
Restores project_id st p =
    Parts project_id st p.requirements p.plans p.contracts p.tasks p.task_order p.runs p.run_order
      p.artifacts p.artifact_order p.contexts

written_back {ℓ} :
    {A : Type ℓ} (ks : List String) (from old : Map (Option A)) (k : String) (x : A)
    → contains ks k ≡ true
    → from k ≡ some x
    → fill some ks from old k ≡ some x
written_back ks from old k x h e = fill_lem some ks from old k ∙ rw (h, e) refl

pub rolled_back-Restores :
    (project_id : String) (st : SnapshotState) (seq now : ℕ) (s : Service)
    → Restores project_id st (rolled_back project_id st seq now s).0.data'
unfolding rolled_back clear_contexts restore_project clear_project put_project
rolled_back-Restores project_id st seq now s =
    let c = (clear_project project_id s).data' in
    let order = put_self c.task_order project_id st.task_order in
    record {
      same_requirements = put_self c.requirements project_id _;
      same_plans = put_self c.plans project_id _;
      same_contracts = put_self c.contracts project_id _;
      same_task_order = order;
      same_run_order = put_self c.run_order project_id _;
      same_artifact_order = put_self c.artifact_order project_id _;
      same_tasks = λ k x h e. written_back st.task_order st.tasks c.tasks k x h e;
      same_runs = λ k x h e. written_back st.run_order st.runs c.runs k x h e;
      same_artifacts = λ k x h e. written_back st.artifact_order st.artifacts c.artifacts k x h e;
      no_contexts = λ k h.
          forget_lem [] (put c.task_order project_id st.task_order project_id) _ k
          ∙ rw (order, h) refl;
    }

written_source :
    (x : SnapshotWorld) (sn t : Snapshot) (st : SnapshotState)
    → written x sn st ≡ ok t
    → t.source_snapshot_id ≡ sn.source_snapshot_id
written_source x sn t st e = elim (Option-cases x.write_record) [
  | inl memory ↦ ap (λ (u : Snapshot). u.source_snapshot_id) (sym (ok-injective (rw memory at e)))
  | inr (write, file) ↦ elim (Result-cases (write sn st)) [
    | inr (m, failed) ↦ absurd (cc (rw (file, failed) at e))
    | inl (f, done) ↦
        ap (λ (u : Snapshot). u.source_snapshot_id) (sym (ok-injective (rw (file, done) at e)))
  ]
]

store_snapshot_ok :
    (x : SnapshotWorld) (new : Snapshot) (project_id : String) (st : SnapshotState) (s : Service)
    (sn : Snapshot)
    → (store_snapshot x new project_id st s).1 ≡ ok sn
    → ((store_snapshot x new project_id st s).0 ≡ add_snapshot project_id sn st s)
      × (sn.source_snapshot_id ≡ new.source_snapshot_id)
unfolding store_snapshot
store_snapshot_ok x new project_id st s sn e = elim (Result-cases (written x new st)) [
  | inr (m, failed) ↦ absurd (cc (rw (store_snapshot, failed) at e))
  | inl (t, done) ↦
      subst
        (λ u.
          ((store_snapshot x new project_id st s).0 ≡ add_snapshot project_id u st s)
          × (u.source_snapshot_id ≡ new.source_snapshot_id))
        (ok-injective (rw (store_snapshot, done) at e))
        (rw (store_snapshot, done) refl, written_source x new t st done)
]

-- A snapshot that was recorded.
pub record_snapshot_ok :
    (x : SnapshotWorld) (r : SnapshotRequest) (project_id : String) (now : ℕ) (s : Service)
    (sn : Snapshot)
    → (record_snapshot x r project_id now s).1 ≡ ok sn
    → ((record_snapshot x r project_id now s).0
        ≡ add_snapshot project_id sn (capture_project project_id s.data') s)
      × (sn.source_snapshot_id ≡ trim r.source_id)
unfolding record_snapshot new_snapshot
record_snapshot_ok x r project_id now s sn e =
    let st = capture_project project_id s.data' in
    let new = new_snapshot r project_id (snapshot_branch s.data' project_id r) now in
    let stored = store_snapshot x new project_id st s in
    elim (Option-cases (s.data'.projects project_id)) [
      | inl missing ↦ absurd (cc (sym (ap (λ o. (or_missing stored s o).1) missing) ∙ e))
      | inr (p, there) ↦
          let same = ap (or_missing stored s) there in
          let (left, source) =
            store_snapshot_ok x new project_id st s sn (sym (ap (λ z. z.1) same) ∙ e) in
          (ap (λ z. z.0) same ∙ left, source)
    ]
