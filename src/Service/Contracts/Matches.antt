-- ===== src/Service/Contracts/Matches.antt =====
-- internal/service/service.go: what an implementation without conflicts looks like.
use multi_agent_com.Base.{
  String, ◌==◌, ◌≡◌, refl, sym, ap, subst, ◌∙◌, ◌↔◌, Bool, true, false, not, Option, none, some,
  List, [], ◌∷◌, ◌++◌, map, Map, put, trim, is_empty, contains, find_last, flat, flat-All,
  append_nil, All, All-map, if◌then◌else◌, eq_iff,
}
use mathlib.Core.Option.{some-injective}
use multi_agent_com.Domain.Records.{ContractField, ContractSchema, ContractEndpoint, Contract}
use multi_agent_com.Service.State.{World, index_items}
use multi_agent_com.Service.Contracts.Validation.{
  endpoint_key, key_of_endpoint, has_endpoint, has_schema, has_field, same_flag, endpoint_index,
  schema_index, field_index, expected_endpoint, actual_endpoint, expected_field, actual_field,
  expected_schema, actual_schema, validate_contract_definition,
}

-- The last element with a name.
abbrev pub named {ℓ} : {A : Type ℓ} → (A → String) → List A → String → Option A
named name xs k = find_last (λ x. name x == k) xs

abbrev or_else {ℓ} : {A : Type ℓ} → Option A → Option A → Option A
or_else none y = y
or_else (some x) y = some x

index_items-named {ℓ} :
    {A : Type ℓ} (name : A → String) (xs : List A) (m : Map (Option A)) (k : String)
    → index_items name xs m k ≡ or_else (named name xs k) (m k)
index_items-named name [] m k = refl
index_items-named name (x ∷ xs) m k =
    index_items-named name xs (put m (name x) (some x)) k
    ∙ newer (named name xs k) (name x == k) (m k)
  where
    newer :
        (later : Option _) (same : Bool) (older : Option _)
        → or_else later (if same then some x else older)
          ≡ or_else (elim later [ some y ↦ some y | none ↦ if same then some x else none ]) older
    newer (some y) same older = refl
    newer none true older = refl
    newer none false older = refl

or_else-none {ℓ} : {A : Type ℓ} (o : Option A) → or_else o none ≡ o
or_else-none (some y) = refl
or_else-none none = refl

indexed {ℓ} :
    {A : Type ℓ} (name : A → String) (xs : List A) (k : String)
    → index_items name xs (λ _. none) k ≡ named name xs k
indexed name xs k = index_items-named name xs (λ _. none) k ∙ or_else-none (named name xs k)

-- The endpoint under the key of an endpoint of the contract has a name.
abbrev pub EndpointGiven : World → List ContractEndpoint → ContractEndpoint → Type 0
EndpointGiven w given e =
    (a : ContractEndpoint) × ((named (key_of_endpoint w) given (key_of_endpoint w e) ≡ some a)
      × (is_empty (trim a.name) ≡ false))

-- The field of the same name has the same type and is required or not alike.
abbrev pub FieldGiven : List ContractField → ContractField → Type 0
FieldGiven given f =
    (g : ContractField) × ((named (λ x. x.name) given f.name ≡ some g)
      × ((g.type ≡ f.type) × (g.required ≡ f.required)))

abbrev pub NamesOf {ℓ} : {A : Type ℓ} → (A → String) → List A → String → Type 0
NamesOf name xs k = contains (map name xs) k ≡ true

-- The schema of the same name has the fields of the contract, and no others.
abbrev pub SchemaGiven : List ContractSchema → ContractSchema → Type 0
SchemaGiven given s =
    (a : ContractSchema) × ((named (λ x. x.name) given s.name ≡ some a)
      × (All (FieldGiven a.fields) s.fields
          × All (λ g. NamesOf (λ x. x.name) s.fields g.name) a.fields))

-- An implementation that has what the contract says, and nothing else.
pub record Conforms (w : World) (c : Contract) (endpoints : List ContractEndpoint)
    (schemas : List ContractSchema) : Type 0 where
  pub endpoints_given : All (EndpointGiven w endpoints) c.endpoints
  pub endpoints_known :
      All (λ a. NamesOf (key_of_endpoint w) c.endpoints (key_of_endpoint w a)) endpoints
  pub schemas_given : All (SchemaGiven schemas) c.schemas
  pub schemas_known : All (λ a. NamesOf (λ x. x.name) c.schemas a.name) schemas

has_endpoint-contains :
    (w : World) (es : List ContractEndpoint) (m p : String)
    → has_endpoint w es m p ≡ contains (map (key_of_endpoint w) es) (endpoint_key w m p)
unfolding has_endpoint
has_endpoint-contains w [] m p = refl
has_endpoint-contains w (e ∷ es) m p = rw (has_endpoint-contains w es m p) refl

has_schema-contains :
    (ss : List ContractSchema) (n : String) → has_schema ss n ≡ contains (map (λ s. s.name) ss) n
unfolding has_schema
has_schema-contains [] n = refl
has_schema-contains (s ∷ ss) n = rw (has_schema-contains ss n) refl

has_field-contains :
    (fs : List ContractField) (n : String) → has_field fs n ≡ contains (map (λ f. f.name) fs) n
unfolding has_field
has_field-contains [] n = refl
has_field-contains (f ∷ fs) n = rw (has_field-contains fs n) refl

-- No conflict about what is given, where it is known.
known_iff :
    {A : Type 0} (b c : Bool) (x : A) → b ≡ c → ((if not b then x ∷ [] else []) ≡ []) ↔ (c ≡ true)
known_iff true c x e = (λ _. sym e, λ _. refl)
known_iff false c x e = (λ h. absurd (cc h), λ h. absurd (cc (e, h)))

-- A loop's round that looks a name up: no conflict where something is found that has none.
given_iff :
    {A C : Type 0} (o p : Option A) (x : C) (rest : A → List C) (Q : A → Type 0)
    → o ≡ p
    → ((a : A) → (rest a ≡ []) ↔ Q a)
    → ((elim o [ none ↦ x ∷ [] | some a ↦ rest a ]) ≡ []) ↔ ((a : A) × ((p ≡ some a) × Q a))
given_iff none p x rest Q e h = (λ k. absurd (cc k), λ g. absurd (cc (e, g.1.0)))
given_iff (some a) p x rest Q e h = (
  λ k. (a, (sym e, (h a).0 k)),
  λ g. (h a).1 (subst Q (sym (some-injective _ _ (e ∙ g.1.0))) g.1.1),
)

unnamed_iff : {C : Type 0} (b : Bool) (x : C) → ((if b then x ∷ [] else []) ≡ []) ↔ (b ≡ false)
unnamed_iff true x = (λ h. absurd (cc h), λ h. absurd (cc h))
unnamed_iff false x = (λ h. refl, λ h. refl)

expected_endpoint_iff :
    (w : World) (given : List ContractEndpoint) (e : ContractEndpoint)
    → (expected_endpoint w (endpoint_index w given) e ≡ []) ↔ EndpointGiven w given e
unfolding expected_endpoint
expected_endpoint_iff w given e =
    given_iff (endpoint_index w given (key_of_endpoint w e)) _ _ _
      (λ a. is_empty (trim a.name) ≡ false)
      (indexed (key_of_endpoint w) given (key_of_endpoint w e))
      (λ a. unnamed_iff (is_empty (trim a.name)) _)

same_flag_iff : (a b : Bool) → (same_flag a b ≡ true) ↔ (a ≡ b)
same_flag_iff true b = (λ h. sym h, λ h. sym h)
same_flag_iff false true = (λ h. absurd (cc h), λ h. absurd (cc h))
same_flag_iff false false = (λ h. refl, λ h. refl)

-- The two tests on a field that was found.
both_iff :
    {C : Type 0} (b c : Bool) (x y : C)
    → (((if not b then x ∷ [] else []) ++ (if not c then y ∷ [] else [])) ≡ [])
      ↔ ((b ≡ true) × (c ≡ true))
both_iff true true x y = (λ h. (refl, refl), λ h. refl)
both_iff true false x y = (λ h. absurd (cc h), λ h. absurd (cc h.1))
both_iff false c x y = (λ h. absurd (cc h), λ h. absurd (cc h.0))

expected_field_iff :
    (name : String) (given : List ContractField) (f : ContractField)
    → (expected_field name (field_index given) f ≡ []) ↔ FieldGiven given f
unfolding expected_field
expected_field_iff name given f =
    given_iff (field_index given f.name) _ _ _ (λ g. (g.type ≡ f.type) × (g.required ≡ f.required))
      (indexed (λ x. x.name) given f.name)
      (λ g.
        let both = both_iff (g.type == f.type) (same_flag g.required f.required) _ _ in
        let types = eq_iff g.type f.type in
        let flags = same_flag_iff g.required f.required in
        (
          λ h. let (t, r) = both.0 h in (types.0 t, flags.0 r),
          λ h. both.1 (types.1 h.0, flags.1 h.1),
        ))

All-iff :
    {A : Type 0} (P Q : A → Type 0) → ((x : A) → P x ↔ Q x) → (xs : List A) → All P xs ↔ All Q xs
All-iff P Q f xs = (All-map P Q (λ x. (f x).0) xs, All-map Q P (λ x. (f x).1) xs)

-- A loop without conflicts.
pub flat_iff :
    {A C : Type 0} (f : A → List C) (Q : A → Type 0)
    → ((x : A) → (f x ≡ []) ↔ Q x)
    → (xs : List A) → (flat f xs ≡ []) ↔ All Q xs
flat_iff f Q h xs =
    let here = flat-All f xs in
    let there = All-iff (λ x. f x ≡ []) Q h xs in (λ e. there.0 (here.0 e), λ a. here.1 (there.1 a))

append_iff :
    {C : Type 0} {P Q : Type 0} (xs ys : List C)
    → (xs ≡ []) ↔ P
    → (ys ≡ []) ↔ Q
    → (xs ++ ys ≡ []) ↔ (P × Q)
append_iff xs ys p q = (
  λ e. let (a, b) = append_nil xs ys e in (p.0 a, q.0 b),
  λ h. ap (λ zs. zs ++ ys) (p.1 h.0) ∙ q.1 h.1,
)

pub expected_schema_iff :
    (given : List ContractSchema) (s : ContractSchema)
    → (expected_schema (schema_index given) s ≡ []) ↔ SchemaGiven given s
unfolding expected_schema actual_field
expected_schema_iff given s =
    given_iff (schema_index given s.name) _ _ _ _ (indexed (λ x. x.name) given s.name) (λ a.
      append_iff (flat (expected_field s.name (field_index a.fields)) s.fields)
        (flat (actual_field a.name s.fields) a.fields)
        (flat_iff _ _ (expected_field_iff s.name a.fields) s.fields)
        (flat_iff _ _ (λ g. known_iff _ _ _ (has_field-contains s.fields g.name)) a.fields))

-- No conflict is reported by `validateContractDefinition` exactly where the implementation
-- conforms: every
-- endpoint of the contract is given under its key, with a name; every schema is given under its
-- name, with every field of the contract in the same type and required or not alike, and no others;
-- and no endpoint or schema is given that the contract does not have.
pub validate_contract_definition-Conforms :
    (w : World) (c : Contract) (endpoints : List ContractEndpoint) (schemas : List ContractSchema)
    → (validate_contract_definition w c endpoints schemas ≡ []) ↔ Conforms w c endpoints schemas
unfolding validate_contract_definition actual_endpoint actual_schema
validate_contract_definition-Conforms w c endpoints schemas =
    let all = append_iff _ _ (flat_iff _ _ (expected_endpoint_iff w endpoints) c.endpoints) (
      append_iff _ _
        (flat_iff _ _ (λ a. known_iff _ _ _ (has_endpoint-contains w c.endpoints a.method a.path))
          endpoints)
        (append_iff _ _ (flat_iff _ _ (expected_schema_iff schemas) c.schemas)
          (flat_iff _ _ (λ a. known_iff _ _ _ (has_schema-contains c.schemas a.name)) schemas))) in
    (
      λ e.
          let (ends, (known, (given, names))) = all.0 e in
          record {
            endpoints_given = ends;
            endpoints_known = known;
            schemas_given = given;
            schemas_known = names;
          },
      λ h. all.1 (h.endpoints_given, (h.endpoints_known, (h.schemas_given, h.schemas_known))),
    )
