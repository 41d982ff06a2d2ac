-- ===== src/Service/Finish/Endings.antt =====
-- How a run and its task end: the lemmas behind `failRun` and the end of `executeRun`.
use multi_agent_com.Base.{
  ℕ, String, ◌≡◌, ◌≢◌, refl, sym, subst, ◌∙◌, inl, inr, Bool-cases, true, Option, some, put,
  put_cases, Map,
}
use mathlib.Core.Option.{some-injective}
use multi_agent_com.Domain.Records.{AgentRun, RunStatus, Artifact}
use multi_agent_com.Domain.Task.{
  Task, TaskStatus, created, human_override, done, failed, is_human_override,
}
use multi_agent_com.Domain.Audit.{
  Edge, HasTrail, try_transition, try_transition_cases, try_transition-HasTrail,
}
use multi_agent_com.Service.Invariant.{Inv, Carries, put_carried, put_run}
use multi_agent_com.Service.Finish.{is_active, fail_task, finish_task}

pub try_transition_id :
    (t : Task) (next : TaskStatus) (reason : String) (now : ℕ)
    → (try_transition t next reason now).id ≡ t.id
try_transition_id t next reason now =
    try_transition_cases (λ u. u.id ≡ t.id) t next reason now (λ e. refl) refl

pub is_human_override-eq : (s : TaskStatus) → is_human_override s ≡ true → s ≡ human_override
is_human_override-eq human_override h = refl
is_human_override-eq _ h = cc

-- A task that is no longer CREATED never is again.
pub try_transition_begun :
    (t : Task) (next : TaskStatus) (reason : String) (now : ℕ)
    → t.status ≢ created
    → (try_transition t next reason now).status ≢ created
try_transition_begun t next reason now h =
    try_transition_cases (λ u. u.status ≢ created) t next reason now (λ e. no_way_back e) h
  where
    no_way_back : {a b : TaskStatus} → Edge a b → b ≢ created
    no_way_back Edge.start h' = cc
    no_way_back Edge.finish h' = cc
    no_way_back Edge.fail h' = cc
    no_way_back Edge.interrupt h' = cc
    no_way_back Edge.resume h' = cc
    no_way_back Edge.finish_overridden h' = cc
    no_way_back Edge.fail_overridden h' = cc

module _ {tasks : Map (Option Task)} {runs : Map (Option AgentRun)} (inv : Inv tasks runs) where
  -- A run ends, and its task becomes another one that has begun.
  pub end_run :
      (k : String) (r r' : AgentRun) (t t' : Task)
      → runs k ≡ some r
      → r'.task_id ≡ r.task_id
      → r'.status ≢ RunStatus.running
      → tasks r.task_id ≡ some t
      → t'.id ≡ t.id
      → HasTrail t'
      → t'.status ≢ created
      → Inv (put tasks t'.id (some t')) (put runs k (some r'))
  end_run k r r' t t' e same ended found named trail begun =
      put_carried
        (put_run inv k r r' e same
          (λ u c. record { begun = c.begun; busy = λ running. absurd (ended running) }))
        t' trail carries
    where
      own : t.id ≡ r.task_id
      own = (inv.keyed r.task_id t found).0

      carries :
          (j : String) (q : AgentRun)
          → put runs k (some r') j ≡ some q
          → q.task_id ≡ t'.id
          → Carries q t'
      carries j q eq on_it = elim (put_cases runs k (some r') j) [
        | inl (here, v) ↦
            subst (λ (x : AgentRun). Carries x t') (some-injective _ _ (sym v ∙ eq))
              (record { begun = begun; busy = λ running. absurd (ended running) })
        | inr (other, v) ↦
            absurd (other (inv.single k j r q e (sym v ∙ eq) (sym (on_it ∙ named ∙ own))))
      ]

pub fail_task_lem :
    (now : ℕ) (t : Task)
    → t.status ≢ created
    → HasTrail t
    → ((fail_task now t).id ≡ t.id)
      × HasTrail (fail_task now t)
      × ((fail_task now t).status ≢ created)
unfolding fail_task
fail_task_lem now t begun trail = elim (Bool-cases (is_active t.status)) [
  | inl active ↦
      rw (active, fail_task)
        (
          try_transition_id t failed _ now,
          try_transition-HasTrail t failed _ now trail,
          try_transition_begun t failed _ now begun,
        )
  | inr idle ↦ rw (idle, fail_task) (refl, trail, begun)
]

pub finish_task_lem :
    (artifact : Artifact) (now : ℕ) (t : Task)
    → t.status ≢ created
    → HasTrail t
    → ((finish_task artifact now t).id ≡ t.id)
      × HasTrail (finish_task artifact now t)
      × ((finish_task artifact now t).status ≢ created)
unfolding finish_task
finish_task_lem artifact now t begun trail =
    let u : Task = record t { output_ref = artifact.uri } in
    (
      try_transition_id u done _ now,
      try_transition-HasTrail u done _ now trail,
      try_transition_begun u done _ now begun,
    )
