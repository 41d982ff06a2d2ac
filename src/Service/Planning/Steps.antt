-- ===== src/Service/Planning/Steps.antt =====
-- internal/service/service.go: what each handler of the planning answers and leaves, where the stores
-- accept.
use multi_agent_com.Base.{
  ℕ, String, ◌≡◌, refl, ap, ◌∙◌, inl, inr, some, List, [], ◌∷◌, last?, All, subst, sym,
}
use multi_agent_com.Domain.Records.{Project, Requirement, Plan, Contract}
use multi_agent_com.Domain.Task.{Task, new_task}
use multi_agent_com.Service.State.{Persisted, Indexes, Service, World, Result, ok}
use multi_agent_com.Service.Start.{Backend, in_process, repository, Answers}
use multi_agent_com.Service.Dispatch.{
  DispatchIds, DispatchTasksResult, new_tasks, PlanAndContract, latest_plan_and_contract,
  dispatch_new, dispatch_tasks, find_dispatched, backend_task, frontend_task, integration_task,
}
use multi_agent_com.Service.Planning.{
  CreateProjectInput, check_project, new_project, add_project, create_project, AddRequirementInput,
  check_texts, check_requirement, new_requirement, append_requirement, add_requirement,
}
use multi_agent_com.Service.Planning.Contracting.{
  commit_indexed, PlanIds, plan_source, new_plan, with_plan, index_plan, generate_plan,
  resolve_requirement, contract_source, ContractSource, contract_from, with_contract,
  index_contract, generate_contract,
}
use multi_agent_com.Service.Planning.Serving.{Serves, HandsOut, team, find_dispatched-Serves}
use multi_agent_com.Service.Planning.Replies.{IsAccepting, commit_accepted}

commit_indexed_accepted :
    {A : Type 0} (b : Backend) (a : Answers) (enter : Indexes → Indexes)
    (change : Persisted → Persisted) (x : A) (s : Service)
    → IsAccepting a
    → ((commit_indexed b a enter change x s).1 ≡ ok x)
      × ((commit_indexed b a enter change x s).0.data' ≡ change s.data')
unfolding commit_indexed
commit_indexed_accepted in_process a enter change x s h =
    commit_accepted in_process a change x (record s { index = enter s.index }) h
commit_indexed_accepted repository a enter change x s h = commit_accepted repository a change x s h

-- What a handler answers and leaves, where it commits a change and the stores accept.
abbrev pub Leaves : {A : Type 0} → Service × Result A → A → Persisted → Type 0
Leaves x y p = (x.1 ≡ ok y) × (x.0.data' ≡ p)

module _ (b : Backend) (w : World) (a : Answers) (h : IsAccepting a) (now : ℕ) where
  pub created_Leaves :
      (actor : String) (id audit_id : String) (input : CreateProjectInput) (s : Service)
      → check_project input ≡ ok tt
      → let project = new_project id input now in
        Leaves
          (create_project b a id audit_id actor input now s)
          project
          (add_project audit_id actor project now s.data')
  unfolding create_project
  created_Leaves actor id audit_id input s good =
      let project = new_project id input now in
      rw (create_project, good)
        (commit_accepted b a (add_project audit_id actor project now) project s h)

  pub required_Leaves :
      (actor : String) (id audit_id project_id : String) (input : AddRequirementInput) (s : Service)
      (project : Project)
      → check_texts input ≡ ok tt
      → s.data'.projects project_id ≡ some project
      → let req = new_requirement id project_id input now in
        Leaves
          (add_requirement b a id audit_id actor project_id input now s)
          req
          (append_requirement audit_id actor project_id project req now s.data')
  unfolding add_requirement check_requirement
  required_Leaves actor id audit_id project_id input s project good there =
      let req = new_requirement id project_id input now in
      rw (add_requirement, check_requirement, good, there)
        (commit_accepted b a (append_requirement audit_id actor project_id project req now) req s h)

  pub planned_Leaves :
      (actor : String) (ids : PlanIds) (project_id : String) (s : Service) (project : Project)
      (req : Requirement)
      → s.data'.projects project_id ≡ some project
      → last? (s.data'.requirements project_id) ≡ some req
      → let made = new_plan w ids project_id req now s.data' in
        Leaves
          (generate_plan b w a ids actor project_id now s)
          made
          (with_plan ids actor project_id project made now s.data')
  unfolding generate_plan plan_source
  planned_Leaves actor ids project_id s project req there latest =
      let made = new_plan w ids project_id req now s.data' in
      rw (generate_plan, plan_source, h.free, there, latest)
        (commit_indexed_accepted b a (index_plan made.plan)
          (with_plan ids actor project_id project made now) made s h)

  pub contracted_Leaves :
      (id project_id : String) (s : Service) (project : Project) (plan : Plan) (req : Requirement)
      → s.data'.projects project_id ≡ some project
      → last? (s.data'.plans project_id) ≡ some plan
      → resolve_requirement (s.data'.requirements project_id) plan.requirement_id ≡ ok req
      → let from : ContractSource = record { project = project; plan = plan; requirement = req } in
        let contract = contract_from w id project_id from now s.data' in
        Leaves
          (generate_contract b w a id project_id now s)
          contract
          (with_contract project_id project contract now s.data')
  unfolding generate_contract contract_source
  contracted_Leaves id project_id s project plan req there latest found =
      let from : ContractSource = record { project = project; plan = plan; requirement = req } in
      let contract = contract_from w id project_id from now s.data' in
      rw (generate_contract, contract_source, h.free, there, latest, found)
        (commit_indexed_accepted b a (index_contract contract)
          (with_contract project_id project contract now) contract s h)

  dispatched_new :
      (ids : DispatchIds) (project_id : String) (pc : PlanAndContract) (s : Service) (l : List Task)
      → find_dispatched s.data'.tasks pc.plan.id pc.contract.id (s.data'.task_order project_id) ≡ l
      → let x = dispatch_new b w a ids project_id pc now s in
        (r : DispatchTasksResult) × ((x.1 ≡ ok r)
          × ((r.contract ≡ pc.contract) × HandsOut pc.plan.id pc.contract.id s x.0 r.tasks))
  unfolding dispatch_new backend_task frontend_task integration_task new_task
  dispatched_new ids project_id pc s (t ∷ ts) e =
      let serve =
        find_dispatched-Serves s.data'.tasks pc.plan.id pc.contract.id
          (s.data'.task_order project_id) in
      (
        record { contract = pc.contract; tasks = t ∷ ts },
        (
          rw (dispatch_new, e) refl,
          (
            refl,
            record {
              serve = subst (All (Serves pc.plan.id pc.contract.id)) e serve;
              whole = inr (λ n. cc n, rw (dispatch_new, e) refl);
            },
          ),
        ),
      )
  dispatched_new ids project_id pc s [] e = (
    new_tasks ids project_id pc now,
    (
      rw (dispatch_new, e) (commit_accepted b a _ (new_tasks ids project_id pc now) s h).0,
      (
        refl,
        record {
          serve = (
            record { for_plan = refl; for_contract = refl; kind = inl refl },
            (
              record { for_plan = refl; for_contract = refl; kind = inr (inl refl) },
              (record { for_plan = refl; for_contract = refl; kind = inr (inr refl) }, tt),
            ),
          );
          whole = inl (team _ _ _ refl refl refl refl);
        },
      ),
    ),
  )

  pub dispatched_ok :
      (ids : DispatchIds) (project_id : String) (s : Service) (project : Project) (plan : Plan)
      (contract : Contract)
      → s.data'.projects project_id ≡ some project
      → last? (s.data'.plans project_id) ≡ some plan
      → last? (s.data'.contracts project_id) ≡ some contract
      → let x = dispatch_tasks b w a ids project_id now s in
        (r : DispatchTasksResult) × ((x.1 ≡ ok r)
          × ((r.contract ≡ contract) × HandsOut plan.id contract.id s x.0 r.tasks))
  unfolding dispatch_tasks latest_plan_and_contract
  dispatched_ok ids project_id s project plan contract there latest agreed =
      let pc : PlanAndContract = record { project = project; plan = plan; contract = contract } in
      let (r, (said, (same, hands))) = dispatched_new ids project_id pc s _ refl in
      let opened : dispatch_tasks b w a ids project_id now s
          ≡ dispatch_new b w a ids project_id pc now s =
        simp (dispatch_tasks, latest_plan_and_contract, h.free, there, latest, agreed) in
      (
        r,
        (
          ap (λ x. x.1) opened ∙ said,
          (same, subst (λ x. HandsOut plan.id contract.id s x.0 r.tasks) (sym opened) hands),
        ),
      )
