-- ===== src/Service/Planning/Contracting.antt =====
-- internal/service/service.go: `GeneratePlan`, `GenerateContract` and `ValidateContract`.
use multi_agent_com.Base.{
  ℕ, ◌+◌, String, ◌==◌, ◌+++◌, ◌||◌, not, Bool, true, false, Option, none, some, List, [], ◌∷◌,
  length, ltb, last?, find_first, put, is_empty, if◌then◌else◌,
}
use multi_agent_com.Domain.Records.{
  Project, Requirement, Plan, Contract, ContractEndpoint, ContractSchema,
}
use multi_agent_com.Domain.Task.{Task, new_task}
use multi_agent_com.Service.State.{
  Persisted, Indexes, Service, World, Result, ok, err, plain, not_found_error, validation_error,
  push, or_fail, guard, ◌>>=◌, ◌>>◌,
}
use multi_agent_com.Service.Logs.{record_audit}
use multi_agent_com.Service.Start.{Backend, in_process, repository, Answers}
use multi_agent_com.Service.Dispatch.{commit, touch_project, append_task, contract_ref}
use multi_agent_com.Service.Contracts.{build_contract}
use multi_agent_com.Service.Contracts.Validation.{
  ContractValidationConflict, validate_contract_definition,
}
use multi_agent_com.Service.Planning.{build_plan}

-- In process the handlers also enter the new record in its index; over the repository the indexes
-- are made again of the candidate.
unfoldable pub commit_indexed {ℓ} :
    {A : Type ℓ}
    → Backend
    → Answers
    → (Indexes → Indexes)
    → (Persisted → Persisted)
    → A
    → Service
    → Service × Result A
unfolding commit
commit_indexed in_process a enter change result s =
    commit in_process a change result (record s { index = enter s.index })
commit_indexed repository a enter change result s = commit repository a change result s

pub record PlanResult : Type 0 where
  pub plan : Plan
  pub task : Task

-- The checks of `GeneratePlan`.
pub record PlanSource : Type 0 where
  pub project : Project
  pub requirement : Requirement

unfoldable pub plan_source : Persisted → String → Result PlanSource
plan_source p project_id = do
  project ← or_fail (p.projects project_id) (not_found_error "project not found")
  requirement ←
      or_fail (last? (p.requirements project_id))
        (validation_error "no requirement available for plan generation")
  ok (record { project = project; requirement = requirement })

-- The IDs that `nextID` draws for a plan.
pub record PlanIds : Type 0 where
  pub plan : String
  pub task : String
  pub audit : String

-- The plan and its task.
unfoldable pub new_plan : World → PlanIds → String → Requirement → ℕ → Persisted → PlanResult
unfolding build_plan new_task
new_plan w ids project_id requirement now p =
    let plan = build_plan w ids.plan requirement (length (p.plans project_id) + 1) now in
    record {
      plan = plan;
      task =
          new_task ids.task project_id plan.id ("Implement " +++ requirement.title)
            "SPRINT1_EXECUTE" w.config.default_agent [] ("plan://" +++ plan.id) now;
    }

abbrev pub append_plan : String → Plan → Persisted → Persisted
append_plan project_id plan p = record p { plans = push p.plans project_id plan }

abbrev pub with_plan : PlanIds → String → String → Project → PlanResult → ℕ → Persisted → Persisted
with_plan ids actor project_id project made now p =
    record_audit ids.audit actor project_id "PLAN_GENERATE" "plan" made.plan.id
      "plan generated from latest requirement" now
      (touch_project project project_id now
        (append_task project_id made.task (append_plan project_id made.plan p)))

abbrev pub index_plan : Plan → Indexes → Indexes
index_plan plan index = record index { plan_index = put index.plan_index plan.id (some plan) }

-- `GeneratePlan`
unfoldable pub generate_plan :
    Backend
    → World
    → Answers
    → PlanIds
    → String
    → String
    → ℕ
    → Service
    → Service × Result PlanResult
unfolding plan_source new_plan commit_indexed record_audit
generate_plan b w a ids actor project_id now s = elim a.lock [
  | some e ↦ (s, err (plain e))
  | none ↦ elim (plan_source s.data' project_id) [
    | err e ↦ (s, err e)
    | ok from ↦
        let made = new_plan w ids project_id from.requirement now s.data' in
        commit_indexed b a (index_plan made.plan)
          (with_plan ids actor project_id from.project made now) made s
  ]
]

-- `resolveRequirementByID`
unfoldable pub resolve_requirement : List Requirement → String → Result Requirement
resolve_requirement items requirement_id =
    or_fail (find_first (λ (r : Requirement). r.id == requirement_id) items)
      (not_found_error "requirement not found for plan")

pub record ContractSource : Type 0 where
  pub project : Project
  pub plan : Plan
  pub requirement : Requirement

-- The checks of `GenerateContract`.
unfoldable pub contract_source : Persisted → String → Result ContractSource
unfolding resolve_requirement
contract_source p project_id = do
  project ← or_fail (p.projects project_id) (not_found_error "project not found")
  plan ←
      or_fail (last? (p.plans project_id))
        (validation_error "no plan available for contract generation")
  requirement ← resolve_requirement (p.requirements project_id) plan.requirement_id
  ok (record { project = project; plan = plan; requirement = requirement })

abbrev pub with_contract : String → Project → Contract → ℕ → Persisted → Persisted
with_contract project_id project contract now p =
    touch_project project project_id now
      (record p { contracts = push p.contracts project_id contract })

abbrev pub index_contract : Contract → Indexes → Indexes
index_contract contract index = record index {
  contract_index = put index.contract_index contract.id (some contract);
}

abbrev pub contract_from : World → String → String → ContractSource → ℕ → Persisted → Contract
contract_from w id project_id from now p =
    build_contract w id from.requirement from.plan (length (p.contracts project_id) + 1) now

-- `GenerateContract`
unfoldable pub generate_contract :
    Backend → World → Answers → String → String → ℕ → Service → Service × Result Contract
unfolding contract_source build_contract commit_indexed
generate_contract b w a id project_id now s = elim a.lock [
  | some e ↦ (s, err (plain e))
  | none ↦ elim (contract_source s.data' project_id) [
    | err e ↦ (s, err e)
    | ok from ↦
        let contract = contract_from w id project_id from now s.data' in
        commit_indexed b a (index_contract contract)
          (with_contract project_id from.project contract now) contract s
  ]
]

pub record ValidateContractInput : Type 0 where
  pub contract_id : String
  pub endpoints : List ContractEndpoint
  pub schemas : List ContractSchema

pub record ContractValidationResult : Type 0 where
  pub contract : Contract
  pub passed : Bool
  pub conflicts : List ContractValidationConflict
  pub remediation_task : Option Task

-- `resolveContractLocked`
unfoldable pub resolve_contract : Service → String → String → Result Contract
resolve_contract s project_id contract_id =
    if not (is_empty contract_id)
    then (do
      contract ← or_fail (s.index.contract_index contract_id) (not_found_error "contract not found")
      guard (contract.project_id == project_id) (not_found_error "contract not found")
      ok contract)
    else or_fail (last? (s.data'.contracts project_id))
        (validation_error "no contract available for validation")

pub record Validation : Type 0 where
  pub project : Project
  pub contract : Contract

abbrev pub has_payload : ValidateContractInput → Bool
has_payload input = ltb 0 (length input.endpoints) || ltb 0 (length input.schemas)

-- The checks of `ValidateContract`.
unfoldable pub check_validation : Service → String → ValidateContractInput → Result Validation
unfolding resolve_contract
check_validation s project_id input = do
  project ← or_fail (s.data'.projects project_id) (not_found_error "project not found")
  contract ← resolve_contract s project_id input.contract_id
  guard (has_payload input)
      (validation_error "validation payload must include endpoints or schemas")
  ok (record { project = project; contract = contract })

-- `buildContractRemediationTask`
unfoldable pub remediation_task : World → String → String → Contract → ℕ → Task
unfolding new_task
remediation_task w id project_id contract now =
    new_task id project_id contract.plan_id
      ("Resolve contract conflicts for v" +++ w.decimal contract.version) "CONTRACT_REWORK"
      w.config.default_agent [] (contract_ref contract.id) now

-- What `ValidateContract` makes of the conflicts: without any it changes nothing.
unfoldable pub settle_validation :
    Backend
    → World
    → Answers
    → String
    → String
    → Validation
    → List ContractValidationConflict
    → ℕ
    → Service
    → Service × Result ContractValidationResult
unfolding remediation_task commit
settle_validation b w a id project_id v [] now s = (
  s,
  ok (record { contract = v.contract; passed = true; conflicts = []; remediation_task = none }),
)
settle_validation b w a id project_id v (c ∷ cs) now s =
    let task = remediation_task w id project_id v.contract now in
    commit b a (λ p. touch_project v.project project_id now (append_task project_id task p))
      (record {
        contract = v.contract;
        passed = false;
        conflicts = c ∷ cs;
        remediation_task = some task;
      })
      s

-- `ValidateContract`
unfoldable pub validate_contract :
    Backend
    → World
    → Answers
    → String
    → String
    → ValidateContractInput
    → ℕ
    → Service
    → Service × Result ContractValidationResult
unfolding check_validation validate_contract_definition settle_validation
validate_contract b w a id project_id input now s = elim (check_validation s project_id input) [
  | err e ↦ (s, err e)
  | ok v ↦
      settle_validation b w a id project_id v
        (validate_contract_definition w v.contract input.endpoints input.schemas) now s
]
