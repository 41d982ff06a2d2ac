-- ===== src/Service/Contracts/Own.antt =====
-- internal/service/service.go: a contract as `buildContract` makes it, compared with itself.
use multi_agent_com.Base.{
  inl, inr, ℕ, String, ◌==◌, ◌≡◌, refl, Bool, true, false, ◌||◌, none, some, List, [], ◌∷◌, map,
  trim, is_empty, contains, flat, All, All-map, if◌then◌else◌, Bool-cases, Option-cases, eq_refl,
  has_text, join, trim_left, trim_right, is_space,
}
use multi_agent_com.Domain.Records.{Requirement, Plan, ContractSchema, ContractEndpoint}
use multi_agent_com.Service.State.{World}
use multi_agent_com.Service.Contracts.{
  Resource, derive_contract_resource, resource_endpoints, resource_schemas, build_contract,
}
use multi_agent_com.Service.Contracts.Validation.{
  key_of_endpoint, has_field, schema_index, expected_schema, expected_field, actual_field,
  validate_contract_definition,
}
use multi_agent_com.Service.Contracts.Matches.{
  named, NamesOf, EndpointGiven, validate_contract_definition-Conforms, expected_schema_iff,
  SchemaGiven, flat_iff,
}

occurs :
    {A : Type 0} (name : A → String) (xs : List A) (k : String) (y : A)
    → named name xs k ≡ some y
    → NamesOf name xs k
occurs name [] k y e = absurd (cc e)
occurs name (x ∷ xs) k y e = elim (Bool-cases (name x == k)) [
  | inl same ↦ rw same refl
  | inr other ↦ elim (Option-cases (named name xs k)) [
    | inr (z, later) ↦ rw (other, occurs name xs k z later) refl
    | inl nowhere ↦ absurd (cc (rw (nowhere, other) at e))
  ]
]

no_occurrence :
    {A : Type 0} (name : A → String) (xs : List A) (k : String)
    → named name xs k ≡ none
    → contains (map name xs) k ≡ false
no_occurrence name [] k e = refl
no_occurrence name (x ∷ xs) k e = elim (Option-cases (named name xs k)) [
  | inr (z, later) ↦ absurd (cc (rw later at e))
  | inl nowhere ↦ elim (Bool-cases (name x == k)) [
    | inl same ↦ absurd (cc (rw (nowhere, same) at e))
    | inr other ↦ rw (other, no_occurrence name xs k nowhere) refl
  ]
]

-- Where a name occurs, the last element with it is found.
named_found :
    {A : Type 0} (P : A → Type 0) (name : A → String) (xs : List A) (k : String)
    → All P xs
    → NamesOf name xs k
    → (a : A) × ((named name xs k ≡ some a) × P a)
named_found P name [] k h c = absurd (cc c)
named_found P name (x ∷ xs) k h c = elim (Option-cases (named name xs k)) [
  | inr (y, later) ↦
      let (b, (found, good)) = named_found P name xs k h.1 (occurs name xs k y later) in
      (b, (rw found refl, good))
  | inl nowhere ↦ elim (Bool-cases (name x == k)) [
    | inl same ↦ (x, (rw (nowhere, same) refl, h.0))
    | inr other ↦ absurd (cc (rw (other) at c, no_occurrence name xs k nowhere))
  ]
]

own_names : {A : Type 0} (name : A → String) (xs : List A) → All (λ x. NamesOf name xs (name x)) xs
own_names name [] = tt
own_names name (x ∷ xs) = (
  rw (eq_refl (name x)) refl,
  All-map (λ y. NamesOf name xs (name y)) (λ y. NamesOf name (x ∷ xs) (name y))
      (λ y h. rw h (or_true (name x == name y))) xs (own_names name xs),
)
  where
    or_true : (b : Bool) → (b || true) ≡ true
    or_true true = refl
    or_true false = refl

abbrev HasName : ContractEndpoint → Type 0
HasName e = is_empty (trim e.name) ≡ false

own_endpoints :
    (w : World) (es : List ContractEndpoint) → All HasName es → All (EndpointGiven w es) es
own_endpoints w es h =
    All-map _ _ (λ e k. named_found HasName (key_of_endpoint w) es (key_of_endpoint w e) h k) es
      (own_names (key_of_endpoint w) es)

-- What is needed of a resource: the endpoints have names, and the schemas are among themselves.
abbrev Fits : World → String → Resource → Type 0
Fits w title r =
    All HasName (resource_endpoints w r)
    × (flat (expected_schema (schema_index (resource_schemas w title r)))
          (resource_schemas w title r)
        ≡ [])

abbrev named_resource : String → String → Resource
named_resource name path = record { name = name; path = path }

pick :
    (P : Resource → Type 0) (a b c : Bool) {t u v x : Resource}
    → P t
    → P u
    → P v
    → P x
    → P (if a then t else if b then u else if c then v else x)
pick P true b c h i j k = h
pick P false true c h i j k = i
pick P false false true h i j k = j
pick P false false false h i j k = k

Fits-derive :
    (w : World) (title : String) (req : Requirement) (plan : Plan)
    → Fits w title (derive_contract_resource w req plan)
unfolding derive_contract_resource resource_endpoints resource_schemas expected_schema
    expected_field actual_field has_field trim trim_left trim_right is_space
Fits-derive w title req plan =
    let text = w.to_lower (join " " (req.title ∷ req.content ∷ plan.title ∷ plan.goal ∷ [])) in
    pick (Fits w title) (has_text text "todo") (has_text text "用户" || has_text text "user")
      (has_text text "任务" || has_text text "task") {t = named_resource "Todo" "todos"}
      {u = named_resource "User" "users"} {v = named_resource "Task" "tasks"}
      {x = named_resource "Item" "items"} ((refl, (refl, (refl, (refl, (refl, tt))))), refl)
      ((refl, (refl, (refl, (refl, (refl, tt))))), refl)
      ((refl, (refl, (refl, (refl, (refl, tt))))), refl)
      ((refl, (refl, (refl, (refl, (refl, tt))))), refl)

-- A contract that `buildContract` makes has no conflicts with its own endpoints and schemas, for
-- whatever requirement and plan it is made.
pub build_contract-validate :
    (w : World) (id : String) (req : Requirement) (plan : Plan) (version now : ℕ)
    → let c = build_contract w id req plan version now in
      validate_contract_definition w c c.endpoints c.schemas ≡ []
unfolding build_contract
build_contract-validate w id req plan version now =
    let c = build_contract w id req plan version now in
    let resource = derive_contract_resource w req plan in
    let title = if is_empty (trim plan.title) then resource.name else trim plan.title in
    let fits = Fits-derive w title req plan in
    (validate_contract_definition-Conforms w c c.endpoints c.schemas).1 (record {
      endpoints_given = own_endpoints w c.endpoints fits.0;
      endpoints_known = own_names (key_of_endpoint w) c.endpoints;
      schemas_given =
          (flat_iff _ (SchemaGiven c.schemas) (expected_schema_iff c.schemas) c.schemas).0 fits.1;
      schemas_known = own_names (λ (x : ContractSchema). x.name) c.schemas;
    })
