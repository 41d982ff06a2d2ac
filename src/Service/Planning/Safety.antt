-- ===== src/Service/Planning/Safety.antt =====
-- internal/service/service.go: the handlers that plan a project, and the invariant.
use multi_agent_com.Base.{ℕ, String, ◌≡◌, inl, inr, none, List, [], ◌∷◌, Option-cases}
use multi_agent_com.Domain.Task.{new_task}
use multi_agent_com.Domain.Audit.{born}
use multi_agent_com.Service.State.{Persisted, Indexes, Service, World, Result-cases}
use multi_agent_com.Service.Logs.{record_audit}
use multi_agent_com.Service.Start.{Backend, in_process, repository, Answers}
use multi_agent_com.Service.Runs.Safety.{IsSound}
use multi_agent_com.Service.Invariant.{Inv, put_idle}
use multi_agent_com.Service.Dispatch.Safety.{commit-IsSound, unused_idle}
use multi_agent_com.Service.Contracts.Validation.{ContractValidationConflict}
use multi_agent_com.Service.Planning.{
  CreateProjectInput, check_project, create_project, AddRequirementInput, check_requirement,
  add_requirement,
}
use multi_agent_com.Service.Planning.Contracting.{
  commit_indexed, PlanIds, plan_source, new_plan, generate_plan, contract_source, generate_contract,
  ValidateContractInput, Validation, check_validation, remediation_task, settle_validation,
  validate_contract,
}

commit_indexed-IsSound :
    {A : Type 0} (b : Backend) (a : Answers) (enter : Indexes → Indexes)
    (change : Persisted → Persisted) (x : A) (s : Service)
    → IsSound s
    → Inv (change s.data').tasks (change s.data').runs
    → IsSound (commit_indexed b a enter change x s).0
unfolding commit_indexed
commit_indexed-IsSound in_process a enter change x s old new =
    commit-IsSound in_process a change x (record s { index = enter s.index }) old new
commit_indexed-IsSound repository a enter change x s old new =
    commit-IsSound repository a change x s old new

-- `CreateProject` and `AddRequirement` keep the state in order on every path.
pub create_project-IsSound :
    (b : Backend) (a : Answers) (id audit_id actor : String) (input : CreateProjectInput) (now : ℕ)
    (s : Service)
    → IsSound s
    → IsSound (create_project b a id audit_id actor input now s).0
unfolding create_project record_audit
create_project-IsSound b a id audit_id actor input now s inv =
    elim (Result-cases (check_project input)) [
      | inr (e, r) ↦ rw (create_project, r) inv
      | inl (x, r) ↦ rw (create_project, r) (commit-IsSound b a _ _ s inv inv)
    ]

pub add_requirement-IsSound :
    (b : Backend) (a : Answers) (id audit_id actor project_id : String)
    (input : AddRequirementInput) (now : ℕ) (s : Service)
    → IsSound s
    → IsSound (add_requirement b a id audit_id actor project_id input now s).0
unfolding add_requirement record_audit
add_requirement-IsSound b a id audit_id actor project_id input now s inv =
    elim (Result-cases (check_requirement s.data' project_id input)) [
      | inr (e, r) ↦ rw (add_requirement, r) inv
      | inl (x, r) ↦ rw (add_requirement, r) (commit-IsSound b a _ _ s inv inv)
    ]

-- `GeneratePlan` keeps the state in order on every path, if the ID of its task is not in use.
pub generate_plan-IsSound :
    (b : Backend) (w : World) (a : Answers) (ids : PlanIds) (actor project_id : String) (now : ℕ)
    (s : Service)
    → IsSound s
    → s.data'.tasks ids.task ≡ none
    → IsSound (generate_plan b w a ids actor project_id now s).0
unfolding generate_plan record_audit new_plan new_task
generate_plan-IsSound b w a ids actor project_id now s inv unused = elim (Option-cases a.lock) [
  | inr (e, held) ↦ rw (generate_plan, held) inv
  | inl free ↦ elim (Result-cases (plan_source s.data' project_id)) [
    | inr (e, r) ↦ rw (generate_plan, free, r) inv
    | inl (x, r) ↦
        rw (generate_plan, free, r)
          (commit_indexed-IsSound b a _ _ _ s inv (
            put_idle inv (new_plan w ids project_id x.requirement now s.data').task
              (born "task created" now)
              (unused_idle s.data'.tasks s.data'.runs ids.task inv unused)))
  ]
]

pub generate_contract-IsSound :
    (b : Backend) (w : World) (a : Answers) (id project_id : String) (now : ℕ) (s : Service)
    → IsSound s
    → IsSound (generate_contract b w a id project_id now s).0
unfolding generate_contract
generate_contract-IsSound b w a id project_id now s inv = elim (Option-cases a.lock) [
  | inr (e, held) ↦ rw (generate_contract, held) inv
  | inl free ↦ elim (Result-cases (contract_source s.data' project_id)) [
    | inr (e, r) ↦ rw (generate_contract, free, r) inv
    | inl (x, r) ↦ rw (generate_contract, free, r) (commit_indexed-IsSound b a _ _ _ s inv inv)
  ]
]

settle_validation-IsSound :
    (b : Backend) (w : World) (a : Answers) (id project_id : String) (v : Validation)
    (cs : List ContractValidationConflict) (now : ℕ) (s : Service)
    → IsSound s
    → s.data'.tasks id ≡ none
    → IsSound (settle_validation b w a id project_id v cs now s).0
unfolding settle_validation remediation_task new_task
settle_validation-IsSound b w a id project_id v [] now s inv unused = inv
settle_validation-IsSound b w a id project_id v (c ∷ cs) now s inv unused =
    commit-IsSound b a _ _ s inv (
      put_idle inv (remediation_task w id project_id v.contract now) (born "task created" now)
        (unused_idle s.data'.tasks s.data'.runs id inv unused))

-- `ValidateContract` keeps the state in order on every path, if the ID of a task that it may make
-- is not in use.
pub validate_contract-IsSound :
    (b : Backend) (w : World) (a : Answers) (id project_id : String) (input : ValidateContractInput)
    (now : ℕ) (s : Service)
    → IsSound s
    → s.data'.tasks id ≡ none
    → IsSound (validate_contract b w a id project_id input now s).0
unfolding validate_contract
validate_contract-IsSound b w a id project_id input now s inv unused =
    elim (Result-cases (check_validation s project_id input)) [
      | inr (e, r) ↦ rw (validate_contract, r) inv
      | inl (v, r) ↦
          rw (validate_contract, r)
            (settle_validation-IsSound b w a id project_id v _ now s inv unused)
    ]
