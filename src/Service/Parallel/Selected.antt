-- ===== src/Service/Parallel/Selected.antt =====
-- internal/service/service.go: the tasks that `resolveParallelTasksLocked` selects and holds back.
use multi_agent_com.Base.{
  String, ◌==◌, ◌≡◌, ◌≢◌, refl, subst, inl, inr, Bool-cases, Option-cases, some, List, [], ◌∷◌,
  List-cases, All, contains, not, ◌||◌,
}
use multi_agent_com.Domain.Task.{Task, is_created}
use multi_agent_com.Service.State.{Persisted, Result, ok, err, Result-cases, ok-injective, ◌>>=◌}
use multi_agent_com.Service.Tasks.{resolve_task}
use multi_agent_com.Service.Tasks.Ready.{Ready, ensure_task_ready-Ready, resolve_task-stored}
use multi_agent_com.Service.Parallel.{
  Selection, add_task, no_tasks, select_given, select_ready, has_selected, resolve_parallel_tasks,
}

module _ (p : Persisted) where
  abbrev pub IsStored : Task → Type 0
  IsStored t = (k : String) × (p.tasks k ≡ some t)

  -- The selected tasks are ready, the blocked ones are not, and all of them exist.
  pub record Sorted (sel : Selection) : Type 0 where
    pub ready : All (Ready p) sel.selected
    pub unready : All (λ t. ¬ Ready p t) sel.blocked
    pub stored : All IsStored sel.selected

  no_tasks-Sorted : Sorted no_tasks
  no_tasks-Sorted = record { ready = tt; unready = tt; stored = tt }

  add_task-Sorted :
      (t : Task) (rest : Selection) → IsStored t → Sorted rest → Sorted (add_task p t rest)
  add_task-Sorted t rest there h = elim (ensure_task_ready-Ready p t) [
    | inl (r, ready) ↦
        rw (r, add_task)
          (record { ready = (ready, h.ready); unready = h.unready; stored = (there, h.stored) })
    | inr (unready, (e, r)) ↦
        rw (r, add_task)
          (record { ready = h.ready; unready = (unready, h.unready); stored = h.stored })
  ]

  select_ready-Sorted : (ids : List String) → Sorted (select_ready p ids)
  unfolding select_ready
  select_ready-Sorted [] = no_tasks-Sorted
  select_ready-Sorted (id ∷ ids) = elim (Option-cases (p.tasks id)) [
    | inl e ↦ rw (e, select_ready) (select_ready-Sorted ids)
    | inr (t, e) ↦ elim (Bool-cases ((t.type == "SPRINT1_EXECUTE") || not (is_created t.status))) [
      | inl b ↦ rw (e, b, select_ready) (select_ready-Sorted ids)
      | inr b ↦
          rw (e, b, select_ready)
            (add_task-Sorted t (select_ready p ids) (id, e) (select_ready-Sorted ids))
    ]
  ]

  -- What a result says of the selection that it holds.
  abbrev Says : (Selection → Type 0) → Result Selection → Type 0
  Says P r = (sel : Selection) → r ≡ ok sel → P sel

  select_given-Sorted :
      (project_id : String) (ids seen : List String)
      → Says Sorted (select_given p project_id seen ids)
  unfolding select_given
  select_given-Sorted project_id [] seen = λ sel h. subst Sorted (ok-injective h) no_tasks-Sorted
  select_given-Sorted project_id (id ∷ ids) seen =
      elim (Result-cases (resolve_task p project_id id)) [
        | inr (e, r) ↦ rw (r, select_given) (λ sel h. absurd (cc h))
        | inl (t, r) ↦ elim (Bool-cases (contains seen t.id)) [
          | inl b ↦ rw (r, b, select_given) (select_given-Sorted project_id ids seen)
          | inr b ↦
              rw (r, b, select_given)
                (added t (resolve_task-stored p project_id id t r) _
                  (select_given-Sorted project_id ids (t.id ∷ seen)))
        ]
      ]
    where
      added :
          (t : Task)
          → IsStored t
          → (r : Result Selection) → Says Sorted r
          → Says Sorted (r >>= λ rest. ok (add_task p t rest))
      added t there (ok rest) h sel e =
          subst Sorted (ok-injective e) (add_task-Sorted t rest there (h rest refl))
      added t there (err x) h sel e = absurd (cc e)

  -- A selection of ready tasks that is not empty.
  abbrev Filled : Selection → Type 0
  Filled sel = Sorted sel × (sel.selected ≢ [])

  has_selected-Filled :
      (sel : Selection) (message : String) → Sorted sel → Says Filled (has_selected sel message)
  has_selected-Filled sel message h = elim (List-cases sel.selected) [
    | inl e ↦ rw (e, has_selected) (λ sel' e'. absurd (cc e'))
    | inr (t, (ts, e)) ↦
        rw (e, has_selected)
          (λ sel' e'. subst Filled (ok-injective e') (h, λ none_left. cc (e, none_left)))
  ]

  -- When tasks are found to run in parallel, at least one is selected, every selected task exists
  -- and is ready, and no blocked task is ready.
  pub resolve_parallel_tasks-Sorted :
      (project_id : String) (ids : List String) (sel : Selection)
      → resolve_parallel_tasks p project_id ids ≡ ok sel
      → Sorted sel × (sel.selected ≢ [])
  unfolding resolve_parallel_tasks
  resolve_parallel_tasks-Sorted project_id [] =
      has_selected-Filled _ _ (select_ready-Sorted (p.task_order project_id))
  resolve_parallel_tasks-Sorted project_id (id ∷ ids) =
      elim (Result-cases (select_given p project_id [] (id ∷ ids))) [
        | inr (e, r) ↦ rw (r, resolve_parallel_tasks) (λ sel h. absurd (cc h))
        | inl (sel, r) ↦
            rw (r, resolve_parallel_tasks)
              (has_selected-Filled sel _ (select_given-Sorted project_id (id ∷ ids) [] sel r))
      ]
