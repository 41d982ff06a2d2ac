-- ===== src/Examples/Plans.antt =====
-- Tests and examples for projects, requirements, plans and contracts.
use multi_agent_com.Base.{
  ◌↔◌, ◌≡◌, refl, false, some, List, [], ◌∷◌, trim, trim_left, trim_right, is_space, distinct_by,
}
use multi_agent_com.Domain.Records.{Requirement, ContractEndpoint}
use multi_agent_com.Service.State.{ok, persist}
use multi_agent_com.Service.Start.{in_process, repository}
use multi_agent_com.Service.Dispatch.{commit}
use multi_agent_com.Service.Contracts.Validation.{
  validate_contract_definition, expected_endpoint, actual_endpoint, expected_schema, actual_schema,
  endpoint_key, has_endpoint, has_schema,
}
use multi_agent_com.Service.Contracts.Matches.{Conforms, validate_contract_definition-Conforms}
use multi_agent_com.Service.Contracts.Own.{build_contract-validate}
use multi_agent_com.Service.Contracts.{build_contract}
use multi_agent_com.Service.Planning.{
  CreateProjectInput, AddRequirementInput, compact_strings, create_project,
}
use multi_agent_com.Service.Planning.Contracting.{
  ValidateContractInput, ContractValidationResult, validate_contract, check_validation,
  resolve_contract, settle_validation, remediation_task,
}
use multi_agent_com.Service.Planning.Replies.{Checked, validate_contract-Checked}
use multi_agent_com.Service.Planning.Atomic.{IsAtomic, planning-IsAtomic}
use multi_agent_com.Service.Planning.Delivery.{DeliveryIds}
use multi_agent_com.Examples.{
  demo_contract, demo_world, planned_service, accepting, demo_plan, dispatch_ids,
}

abbrev shop : CreateProjectInput
shop = record { name = " Shop "; description = "" }

abbrev first_requirement : AddRequirementInput
first_requirement = record {
  title = "Checkout";
  content = "Sell things";
  constraints = [];
  acceptance_hints = " paid " ∷ "paid" ∷ "" ∷ [];
}

hints_are_compacted : compact_strings (" paid " ∷ "paid" ∷ "" ∷ []) ≡ "paid" ∷ []
unfolding compact_strings distinct_by trim trim_left trim_right is_space
hints_are_compacted = refl

abbrev shop_ids : DeliveryIds
shop_ids = record {
  project = "shop";
  project_audit = "a1";
  requirement = "req1";
  requirement_audit = "a2";
  plan = record { plan = "plan1"; task = "t1"; audit = "a3" };
  contract = "c1";
  dispatch = dispatch_ids;
}

-- An implementation with one endpoint that the contract does not have.
abbrev extra_endpoint : List ContractEndpoint
extra_endpoint = record { name = "Ping"; method = "GET"; path = "/ping"; description = "" } ∷ []

abbrev extra_input : ValidateContractInput
extra_input = record { contract_id = ""; endpoints = extra_endpoint; schemas = [] }

abbrev extra_result : ContractValidationResult
extra_result = record {
  contract = demo_contract;
  passed = false;
  conflicts = validate_contract_definition demo_world demo_contract extra_endpoint [];
  remediation_task = some (remediation_task demo_world "rework" "proj" demo_contract 5);
}

extra_found :
    (validate_contract in_process demo_world accepting "rework" "proj" extra_input 5
      planned_service).1
    ≡ ok extra_result
unfolding validate_contract check_validation resolve_contract validate_contract_definition
    expected_endpoint actual_endpoint expected_schema actual_schema endpoint_key has_endpoint
    has_schema settle_validation commit persist
extra_found = refl

validate_contract-Checked_example :
    Checked demo_world "proj" extra_input planned_service
      (validate_contract in_process demo_world accepting "rework" "proj" extra_input 5
        planned_service).0
      extra_result
validate_contract-Checked_example =
    validate_contract-Checked in_process demo_world accepting "rework" "proj" extra_input 5
      planned_service extra_result extra_found

validate_contract_definition-Conforms_example :
    (validate_contract_definition demo_world demo_contract [] [] ≡ [])
    ↔ Conforms demo_world demo_contract [] []
validate_contract_definition-Conforms_example =
    validate_contract_definition-Conforms demo_world demo_contract [] []

abbrev demo_requirement : Requirement
demo_requirement = record {
  id = "req";
  project_id = "proj";
  title = "A todo list";
  content = "Sell things";
  constraints = [];
  acceptance_hints = [];
  created_at = 1;
}

build_contract-validate_example :
    let c = build_contract demo_world "c" demo_requirement demo_plan 1 5 in
    validate_contract_definition demo_world c c.endpoints c.schemas ≡ []
build_contract-validate_example =
    build_contract-validate demo_world "c" demo_requirement demo_plan 1 5

planning-IsAtomic_example :
    IsAtomic planned_service
      (create_project repository accepting "shop" "a1" "ann" shop 5 planned_service)
planning-IsAtomic_example =
    (planning-IsAtomic demo_world accepting planned_service 5 "shop" "a1" "ann" "proj" shop_ids.plan
      shop first_requirement extra_input).0
