-- ===== src/Service/Invariant.antt =====
-- What holds of the tasks and the runs between two critical sections of the service.
use multi_agent_com.Base.{
  String, ◌≡◌, refl, sym, subst, ◌∙◌, ap, ◌≢◌, ◌⊎◌, inl, inr, Option, none, some, Map, put,
  put_cases, put-Every, put_other,
}
use mathlib.Core.Option.{some-injective}
use multi_agent_com.Domain.Records.{AgentRun, RunStatus}
use multi_agent_com.Domain.Task.{Task, TaskStatus, created, in_progress, human_override}
use multi_agent_com.Domain.Audit.{HasTrail}

abbrev pub IsActive : TaskStatus → Type 0
IsActive s = (s ≡ in_progress) ⊎ (s ≡ human_override)

-- A task that a run of this status may have.
pub record Carries (r : AgentRun) (t : Task) : Type 0 where
  pub begun : t.status ≢ created
  pub busy : r.status ≡ RunStatus.running → IsActive t.status

-- Tasks stand under their IDs and have an audit trail; the task of a run exists and has begun, and
-- is in work while the run is RUNNING; and a task has one run at most.
pub record Inv (tasks : Map (Option Task)) (runs : Map (Option AgentRun)) : Type 0 where
  pub keyed : (k : String) (t : Task) → tasks k ≡ some t → (t.id ≡ k) × HasTrail t
  pub started :
      (k : String) (r : AgentRun)
      → runs k ≡ some r
      → (t : Task) × (tasks r.task_id ≡ some t) × Carries r t
  pub single :
      (k j : String) (r q : AgentRun)
      → runs k ≡ some r
      → runs j ≡ some q
      → r.task_id ≡ q.task_id
      → k ≡ j

module _ {tasks : Map (Option Task)} {runs : Map (Option AgentRun)} (inv : Inv tasks runs) where
  keyed_put :
      (t : Task)
      → HasTrail t
      → (k : String) (u : Task) → put tasks t.id (some t) k ≡ some u
      → (u.id ≡ k) × HasTrail u
  keyed_put t h = put-Every (λ k u. (u.id ≡ k) × HasTrail u) tasks t.id t inv.keyed (refl, h)

  -- A task that no run has may be added or changed at will.
  pub put_idle :
      (t : Task)
      → HasTrail t
      → ((k : String) (r : AgentRun) → runs k ≡ some r → r.task_id ≢ t.id)
      → Inv (put tasks t.id (some t)) runs
  put_idle t h idle = record {
    keyed = keyed_put t h;
    started = λ k r e.
        let (u, found, c) = inv.started k r e in
        (u, put_other tasks t.id r.task_id (some t) (λ same. idle k r e (sym same)) ∙ found, c);
    single = inv.single;
  }

  -- A task may change as long as it stays in work for its run.
  pub put_carried :
      (t : Task)
      → HasTrail t
      → ((k : String) (r : AgentRun) → runs k ≡ some r → r.task_id ≡ t.id → Carries r t)
      → Inv (put tasks t.id (some t)) runs
  put_carried t h carries = record {
    keyed = keyed_put t h;
    started = λ k r e. elim (put_cases tasks t.id (some t) r.task_id) [
      | inl (same, found) ↦ (t, found, carries k r e (sym same))
      | inr (other, found) ↦ let (u, there, c) = inv.started k r e in (u, found ∙ there, c)
    ];
    single = inv.single;
  }

  -- A new run of a task that had none.
  pub add_run :
      (k : String) (r : AgentRun) (t : Task)
      → runs k ≡ none
      → tasks r.task_id ≡ some t
      → Carries r t
      → ((j : String) (q : AgentRun) → runs j ≡ some q → q.task_id ≢ r.task_id)
      → Inv tasks (put runs k (some r))
  add_run k r t fresh found c idle = record {
    keyed = inv.keyed;
    started =
        put-Every (λ _ q. (u : Task) × (tasks q.task_id ≡ some u) × Carries q u) runs k r
          inv.started (t, found, c);
    single = λ i j p q ei ej same. elim (put_cases runs k (some r) i) [
      | inl (ki, vi) ↦ elim (put_cases runs k (some r) j) [
        | inl (kj, vj) ↦ sym ki ∙ kj
        | inr (kj, vj) ↦ absurd (
            idle j q (sym vj ∙ ej)
              (sym same ∙ ap (λ (x : AgentRun). x.task_id) (some-injective _ _ (sym ei ∙ vi))))
      ]
      | inr (ki, vi) ↦ elim (put_cases runs k (some r) j) [
        | inl (kj, vj) ↦ absurd (
            idle i p (sym vi ∙ ei)
              (same ∙ ap (λ (x : AgentRun). x.task_id) (some-injective _ _ (sym ej ∙ vj))))
        | inr (kj, vj) ↦ inv.single i j p q (sym vi ∙ ei) (sym vj ∙ ej) same
      ]
    ];
  }

  -- A run may change as long as it keeps its task, and the task carries it.
  pub put_run :
      (k : String) (r r' : AgentRun)
      → runs k ≡ some r
      → r'.task_id ≡ r.task_id
      → ((t : Task) → Carries r t → Carries r' t)
      → Inv tasks (put runs k (some r'))
  put_run k r r' e same weaker = record {
    keyed = inv.keyed;
    started =
        put-Every (λ _ q. (u : Task) × (tasks q.task_id ≡ some u) × Carries q u) runs k r'
          inv.started
          (let (u, found, c) = inv.started k r e in (u, ap tasks same ∙ found, weaker u c));
    single = λ i j p q ei ej tasks_same.
        inv.single i j (old i p ei).0 (old j q ej).0 (old i p ei).1 (old j q ej).1
          ((old i p ei).2 ∙ tasks_same ∙ sym (old j q ej).2);
  }
    where
      old :
          (i : String) (p : AgentRun)
          → put runs k (some r') i ≡ some p
          → (q : AgentRun) × (runs i ≡ some q) × (q.task_id ≡ p.task_id)
      old i p ei = elim (put_cases runs k (some r') i) [
        | inl (ki, vi) ↦ (
          r,
          sym (ap runs ki) ∙ e,
          sym same ∙ ap (λ (x : AgentRun). x.task_id) (some-injective _ _ (sym vi ∙ ei)),
        )
        | inr (ki, vi) ↦ (p, sym vi ∙ ei, refl)
      ]

-- A task may change as long as whatever run it carried it still carries.
pub keep_task :
    {tasks : Map (Option Task)} {runs : Map (Option AgentRun)} (inv : Inv tasks runs) (k : String)
    (t t' : Task)
    → tasks k ≡ some t
    → t'.id ≡ t.id
    → HasTrail t'
    → ((q : AgentRun) → Carries q t → Carries q t')
    → Inv (put tasks t'.id (some t')) runs
keep_task {tasks} {runs} inv k t t' found named trail weaker = put_carried inv t' trail carries
  where
    carries : (j : String) (q : AgentRun) → runs j ≡ some q → q.task_id ≡ t'.id → Carries q t'
    carries j q eq on_it =
        let (u, there, c) = inv.started j q eq in
        let own : t.id ≡ k = (inv.keyed k t found).0 in
        weaker q (
          subst (Carries q)
            (some-injective _ _ (sym there ∙ ap tasks (on_it ∙ named ∙ own) ∙ found)) c)
