-- ===== src/Service/Contracts.antt =====
-- internal/service/service.go: the contract that is made of a plan, and the comparison of an
-- implementation's endpoints and schemas with it.
pub mod Validation
pub mod Matches
pub mod Own
use multi_agent_com.Base.{
  ℕ, String, ◌+++◌, Bool, true, false, ◌||◌, List, [], ◌∷◌, trim, is_empty, has_text, join,
  if◌then◌else◌,
}
use multi_agent_com.Domain.Records.{
  Requirement, Plan, ContractField, ContractSchema, ContractEndpoint, Contract,
}
use multi_agent_com.Service.State.{World}

pub record Resource : Type 0 where
  pub name : String
  pub path : String

-- `deriveContractResource`
unfoldable pub derive_contract_resource : World → Requirement → Plan → Resource
derive_contract_resource w req plan =
    let text = w.to_lower (join " " (req.title ∷ req.content ∷ plan.title ∷ plan.goal ∷ [])) in
    if has_text text "todo"
    then record { name = "Todo"; path = "todos" }
    else if has_text text "用户" || has_text text "user"
    then record { name = "User"; path = "users" }
    else if has_text text "任务" || has_text text "task"
    then record { name = "Task"; path = "tasks" }
    else record { name = "Item"; path = "items" }

-- The five endpoints of `buildContract`.
unfoldable pub resource_endpoints : World → Resource → List ContractEndpoint
resource_endpoints w r =
    record {
      name = "List" +++ r.name;
      method = "GET";
      path = "/api/" +++ r.path;
      description = "List " +++ (w.to_lower r.name +++ " resources for MVP review.");
    }
    ∷ record {
      name = "Get" +++ r.name;
      method = "GET";
      path = "/api/" +++ (r.path +++ "/{id}");
      description = "Load a single " +++ (w.to_lower r.name +++ " resource by id.");
    }
    ∷ record {
      name = "Create" +++ r.name;
      method = "POST";
      path = "/api/" +++ r.path;
      description = "Create a new " +++ (w.to_lower r.name +++ " resource.");
    }
    ∷ record {
      name = "Update" +++ r.name;
      method = "PUT";
      path = "/api/" +++ (r.path +++ "/{id}");
      description = "Update an existing " +++ (w.to_lower r.name +++ " resource.");
    }
    ∷ record {
      name = "Delete" +++ r.name;
      method = "DELETE";
      path = "/api/" +++ (r.path +++ "/{id}");
      description = "Delete an existing " +++ (w.to_lower r.name +++ " resource.");
    }
    ∷ []

abbrev pub field : String → String → Bool → String → ContractField
field name type required description = record {
  name = name;
  type = type;
  required = required;
  description = description;
}

-- The two schemas of `buildContract`.
unfoldable pub resource_schemas : World → String → Resource → List ContractSchema
resource_schemas w title r =
    record {
      name = r.name;
      description = "Primary resource model for " +++ (title +++ ".");
      fields =
          field "id" "string" true "Resource identifier"
          ∷ field "title" "string" true "Display title"
          ∷ field "completed" "boolean" true "Completion status"
          ∷ field "createdAt" "string(date-time)" true "Creation timestamp"
          ∷ [];
    }
    ∷ record {
      name = r.name +++ "Input";
      description = "Payload for creating or updating " +++ (w.to_lower r.name +++ ".");
      fields =
          field "title" "string" true "Display title"
          ∷ field "completed" "boolean" false "Optional completion flag"
          ∷ [];
    }
    ∷ []

-- `buildContract`
unfoldable pub build_contract : World → String → Requirement → Plan → ℕ → ℕ → Contract
unfolding derive_contract_resource resource_endpoints resource_schemas
build_contract w id req plan version now =
    let resource = derive_contract_resource w req plan in
    let title = if is_empty (trim plan.title) then resource.name else trim plan.title in
    record {
      id = id;
      project_id = req.project_id;
      requirement_id = req.id;
      plan_id = plan.id;
      version = version;
      name = title +++ " Contract";
      summary =
          "Contract-first API and schema definition for "
          +++ (title +++ (" (v" +++ (w.decimal version +++ ").")));
      endpoints = resource_endpoints w resource;
      schemas = resource_schemas w title resource;
      created_at = now;
    }
