-- ===== src/Service/Planning/Atomic.antt =====
-- internal/service/service.go: the handlers that plan a project, over the repository: they succeed or
-- leave the state as it was.
use multi_agent_com.Base.{ℕ, String, inl, inr, false, some, List, [], ◌∷◌, Option-cases}
use multi_agent_com.Service.State.{
  Persisted, Service, World, Result, ok, err, Error, Result-cases, store_result,
}
use multi_agent_com.Service.Start.{repository, Answers}
use multi_agent_com.Service.Dispatch.{commit, touch_project, append_task}
use multi_agent_com.Service.Contracts.Validation.{ContractValidationConflict}
use multi_agent_com.Service.Planning.{
  CreateProjectInput, check_project, new_project, add_project, create_project, new_requirement,
  append_requirement, AddRequirementInput, check_requirement, add_requirement,
}
use multi_agent_com.Service.Planning.Contracting.{
  commit_indexed, PlanIds, plan_source, new_plan, with_plan, with_contract, generate_plan,
  contract_source, contract_from, generate_contract, ValidateContractInput, Validation,
  check_validation, remediation_task, settle_validation, validate_contract,
}

-- The outcome of a handler that succeeds, or fails and leaves the state.
pub data IsAtomic {A : Type 0} (s : Service) : Service × Result A → Type 0 where
  succeeds : (t : Service) (y : A) → IsAtomic s (t, ok y)
  fails : (e : Error) → IsAtomic s (s, err e)

pub commit-IsAtomic :
    {A : Type 0} (a : Answers) (change : Persisted → Persisted) (x : A) (s : Service)
    → IsAtomic s (commit repository a change x s)
unfolding commit
commit-IsAtomic a change x s = elim (Result-cases (store_result a.repo)) [
  | inl (u, kept) ↦ rw (commit, kept) (succeeds _ x)
  | inr (m, lost) ↦ rw (commit, lost) (fails m)
]

create_project-IsAtomic :
    (a : Answers) (id audit_id actor : String) (input : CreateProjectInput) (now : ℕ) (s : Service)
    → IsAtomic s (create_project repository a id audit_id actor input now s)
unfolding create_project
create_project-IsAtomic a id audit_id actor input now s =
    elim (Result-cases (check_project input)) [
      | inr (e, r) ↦ rw (create_project, r) (fails e)
      | inl (x, r) ↦
          rw (create_project, r)
            (commit-IsAtomic a (add_project audit_id actor (new_project id input now) now)
              (new_project id input now) s)
    ]

add_requirement-IsAtomic :
    (a : Answers) (id audit_id actor project_id : String) (input : AddRequirementInput) (now : ℕ)
    (s : Service)
    → IsAtomic s (add_requirement repository a id audit_id actor project_id input now s)
unfolding add_requirement
add_requirement-IsAtomic a id audit_id actor project_id input now s =
    elim (Result-cases (check_requirement s.data' project_id input)) [
      | inr (e, r) ↦ rw (add_requirement, r) (fails e)
      | inl (x, r) ↦
          rw (add_requirement, r)
            (let req = new_requirement id project_id input now in
              commit-IsAtomic a (append_requirement audit_id actor project_id x req now) req s)
    ]

generate_plan-IsAtomic :
    (w : World) (a : Answers) (ids : PlanIds) (actor project_id : String) (now : ℕ) (s : Service)
    → IsAtomic s (generate_plan repository w a ids actor project_id now s)
unfolding generate_plan commit_indexed
generate_plan-IsAtomic w a ids actor project_id now s = elim (Option-cases a.lock) [
  | inr (e, held) ↦ rw (generate_plan, held) (fails _)
  | inl free ↦ elim (Result-cases (plan_source s.data' project_id)) [
    | inr (e, r) ↦ rw (generate_plan, free, r) (fails e)
    | inl (x, r) ↦
        rw (generate_plan, free, r)
          (let made = new_plan w ids project_id x.requirement now s.data' in
            commit-IsAtomic a (with_plan ids actor project_id x.project made now) made s)
  ]
]

generate_contract-IsAtomic :
    (w : World) (a : Answers) (id project_id : String) (now : ℕ) (s : Service)
    → IsAtomic s (generate_contract repository w a id project_id now s)
unfolding generate_contract commit_indexed
generate_contract-IsAtomic w a id project_id now s = elim (Option-cases a.lock) [
  | inr (e, held) ↦ rw (generate_contract, held) (fails _)
  | inl free ↦ elim (Result-cases (contract_source s.data' project_id)) [
    | inr (e, r) ↦ rw (generate_contract, free, r) (fails e)
    | inl (x, r) ↦
        rw (generate_contract, free, r)
          (let contract = contract_from w id project_id x now s.data' in
            commit-IsAtomic a (with_contract project_id x.project contract now) contract s)
  ]
]

settle_validation-IsAtomic :
    (w : World) (a : Answers) (id project_id : String) (v : Validation)
    (cs : List ContractValidationConflict) (now : ℕ) (s : Service)
    → IsAtomic s (settle_validation repository w a id project_id v cs now s)
unfolding settle_validation
settle_validation-IsAtomic w a id project_id v [] now s = succeeds s _
settle_validation-IsAtomic w a id project_id v (c ∷ cs) now s =
    let task = remediation_task w id project_id v.contract now in
    commit-IsAtomic a (λ p. touch_project v.project project_id now (append_task project_id task p))
      (record {
        contract = v.contract;
        passed = false;
        conflicts = c ∷ cs;
        remediation_task = some task;
      })
      s

validate_contract-IsAtomic :
    (w : World) (a : Answers) (id project_id : String) (input : ValidateContractInput) (now : ℕ)
    (s : Service)
    → IsAtomic s (validate_contract repository w a id project_id input now s)
unfolding validate_contract
validate_contract-IsAtomic w a id project_id input now s =
    elim (Result-cases (check_validation s project_id input)) [
      | inr (e, r) ↦ rw (validate_contract, r) (fails e)
      | inl (v, r) ↦
          rw (validate_contract, r) (settle_validation-IsAtomic w a id project_id v _ now s)
    ]

-- Over the repository, each handler that plans a project succeeds, or it fails and leaves the state
-- as it was: the new project, the requirement, the plan, the contract and the validation.
pub planning-IsAtomic :
    (w : World) (a : Answers) (s : Service) (now : ℕ) (id other actor project_id : String)
    (ids : PlanIds) (project : CreateProjectInput) (requirement : AddRequirementInput)
    (validation : ValidateContractInput)
    → IsAtomic s (create_project repository a id other actor project now s)
      × (IsAtomic s (add_requirement repository a id other actor project_id requirement now s)
          × (IsAtomic s (generate_plan repository w a ids actor project_id now s)
              × (IsAtomic s (generate_contract repository w a id project_id now s)
                  × IsAtomic s (validate_contract repository w a id project_id validation now s))))
planning-IsAtomic w a s now id other actor project_id ids project requirement validation = (
  create_project-IsAtomic a id other actor project now s,
  (
    add_requirement-IsAtomic a id other actor project_id requirement now s,
    (
      generate_plan-IsAtomic w a ids actor project_id now s,
      (
        generate_contract-IsAtomic w a id project_id now s,
        validate_contract-IsAtomic w a id project_id validation now s,
      ),
    ),
  ),
)
