-- ===== src/Service/Contracts/Validation.antt =====
-- internal/service/service.go: `validateContractDefinition`, the comparison of an implementation's
-- endpoints and schemas with a contract.
use multi_agent_com.Base.{
  String, ◌==◌, ◌+++◌, Bool, true, false, not, ◌||◌, Option, none, some, List, [], ◌∷◌, ◌++◌, Map,
  trim, is_empty, flat, if◌then◌else◌,
}
use multi_agent_com.Domain.Records.{ContractField, ContractSchema, ContractEndpoint, Contract}
use multi_agent_com.Service.State.{World, index_items}

pub record ContractValidationConflict : Type 0 where
  pub type : String
  pub location : String
  pub message : String
  pub expected : String
  pub actual : String

-- `contractEndpointKey`
unfoldable pub endpoint_key : World → String → String → String
endpoint_key w method path = w.to_upper (trim method) +++ (" " +++ trim path)

abbrev pub key_of_endpoint : World → ContractEndpoint → String
key_of_endpoint w e = endpoint_key w e.method e.path

-- `hasContractEndpoint`
unfoldable pub has_endpoint : World → List ContractEndpoint → String → String → Bool
unfolding endpoint_key
has_endpoint w [] method path = false
has_endpoint w (e ∷ es) method path =
    (key_of_endpoint w e == endpoint_key w method path) || has_endpoint w es method path

-- `hasContractSchema`
unfoldable pub has_schema : List ContractSchema → String → Bool
has_schema [] name = false
has_schema (s ∷ ss) name = (s.name == name) || has_schema ss name

-- `hasContractField`
unfoldable pub has_field : List ContractField → String → Bool
has_field [] name = false
has_field (f ∷ fs) name = (f.name == name) || has_field fs name

abbrev pub bool_text : Bool → String
bool_text true = "true"
bool_text false = "false"

abbrev pub same_flag : Bool → Bool → Bool
same_flag true b = b
same_flag false b = not b

-- A conflict of a kind, at a place, with the values expected and found.
abbrev pub conflict_of :
    String → String → String → String → String → List ContractValidationConflict
conflict_of type location message expected actual =
    record {
      type = type;
      location = location;
      message = message;
      expected = expected;
      actual = actual;
    }
    ∷ []

-- `endpointIndex`: the last endpoint of each key.
abbrev pub endpoint_index : World → List ContractEndpoint → Map (Option ContractEndpoint)
endpoint_index w es = index_items (key_of_endpoint w) es (λ _. none)

abbrev pub schema_index : List ContractSchema → Map (Option ContractSchema)
schema_index ss = index_items (λ s. s.name) ss (λ _. none)

abbrev pub field_index : List ContractField → Map (Option ContractField)
field_index fs = index_items (λ f. f.name) fs (λ _. none)

-- The loop over the endpoints of the contract.
unfoldable pub expected_endpoint :
    World → Map (Option ContractEndpoint) → ContractEndpoint → List ContractValidationConflict
unfolding endpoint_key
expected_endpoint w index e =
    let key = key_of_endpoint w e in
    elim (index key) [
      | none ↦
          conflict_of "MISSING_ENDPOINT" key
            "candidate implementation is missing a required endpoint"
            (e.method +++ (" " +++ e.path)) ""
      | some actual ↦
          if is_empty (trim actual.name)
          then conflict_of "INCOMPLETE_ENDPOINT" key "candidate endpoint must include a name" e.name
              ""
          else []
    ]

-- The loop over the endpoints given.
unfoldable pub actual_endpoint :
    World → List ContractEndpoint → ContractEndpoint → List ContractValidationConflict
unfolding endpoint_key has_endpoint
actual_endpoint w expected e =
    if not (has_endpoint w expected e.method e.path)
    then conflict_of "UNEXPECTED_ENDPOINT" (key_of_endpoint w e)
        "candidate implementation defines an endpoint not present in the contract" ""
        (e.method +++ (" " +++ e.path))
    else []

-- The loop over the fields of a schema of the contract.
unfoldable pub expected_field :
    String → Map (Option ContractField) → ContractField → List ContractValidationConflict
expected_field schema_name index f =
    let location = schema_name +++ ("." +++ f.name) in
    elim (index f.name) [
      | none ↦
          conflict_of "MISSING_FIELD" location
            "candidate implementation is missing a required field" (f.name +++ (":" +++ f.type)) ""
      | some actual ↦
          (if not (actual.type == f.type)
            then conflict_of "FIELD_TYPE_MISMATCH" location
                "candidate field type does not match the contract" f.type actual.type
            else [])
          ++ (if not (same_flag actual.required f.required)
              then conflict_of "FIELD_REQUIRED_MISMATCH" location
                  "candidate field required flag does not match the contract" (bool_text f.required)
                  (bool_text actual.required)
              else [])
    ]

-- The loop over the fields of a schema given.
unfoldable pub actual_field :
    String → List ContractField → ContractField → List ContractValidationConflict
unfolding has_field
actual_field schema_name expected f =
    if not (has_field expected f.name)
    then conflict_of "UNEXPECTED_FIELD" (schema_name +++ ("." +++ f.name))
        "candidate implementation defines a field not present in the contract" ""
        (f.name +++ (":" +++ f.type))
    else []

-- The loop over the schemas of the contract.
unfoldable pub expected_schema :
    Map (Option ContractSchema) → ContractSchema → List ContractValidationConflict
unfolding expected_field actual_field
expected_schema index s = elim (index s.name) [
  | none ↦
      conflict_of "MISSING_SCHEMA" s.name "candidate implementation is missing a required schema"
        s.name ""
  | some actual ↦
      flat (expected_field s.name (field_index actual.fields)) s.fields
      ++ flat (actual_field actual.name s.fields) actual.fields
]

-- The loop over the schemas given.
unfoldable pub actual_schema :
    List ContractSchema → ContractSchema → List ContractValidationConflict
unfolding has_schema
actual_schema expected s =
    if not (has_schema expected s.name)
    then conflict_of "UNEXPECTED_SCHEMA" s.name
        "candidate implementation defines a schema not present in the contract" "" s.name
    else []

-- `validateContractDefinition`
unfoldable pub validate_contract_definition :
    World → Contract → List ContractEndpoint → List ContractSchema → List ContractValidationConflict
unfolding expected_endpoint actual_endpoint expected_schema actual_schema
validate_contract_definition w contract endpoints schemas =
    flat (expected_endpoint w (endpoint_index w endpoints)) contract.endpoints
    ++ (flat (actual_endpoint w contract.endpoints) endpoints
        ++ (flat (expected_schema (schema_index schemas)) contract.schemas
            ++ flat (actual_schema contract.schemas) schemas))
