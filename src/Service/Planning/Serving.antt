-- ===== src/Service/Planning/Serving.antt =====
-- internal/service/service.go: what a dispatch hands out.
use multi_agent_com.Base.{
  String, ◌==◌, ◌≡◌, refl, inl, inr, Bool, true, List, [], ◌∷◌, Bool-cases, eq_iff, ◌+++◌, ◌⊎◌, ◌≢◌,
  All, Option, Option-cases, Map, false, ◌||◌, ◌&&◌,
}
use multi_agent_com.Domain.Task.{Task}
use multi_agent_com.Service.State.{Service}
use multi_agent_com.Service.Dispatch.{find_dispatched, is_dispatched, is_dispatch_type}

-- A task of a dispatch: it is for the plan, its input is the contract, and it is one of the three
-- types of work.
pub record Serves (plan_id contract_id : String) (t : Task) : Type 0 where
  pub for_plan : t.plan_id ≡ plan_id
  pub for_contract : t.input_ref ≡ "contract://" +++ contract_id
  pub kind :
      (t.type ≡ "BACKEND_IMPLEMENTATION")
      ⊎ ((t.type ≡ "FRONTEND_IMPLEMENTATION") ⊎ (t.type ≡ "INTEGRATION_REVIEW"))

-- One task of each type; the integration waits for the other two.
pub data IsTeam : List Task → Type 0 where
  team :
      (x y z : Task)
      → x.type ≡ "BACKEND_IMPLEMENTATION"
      → y.type ≡ "FRONTEND_IMPLEMENTATION"
      → z.type ≡ "INTEGRATION_REVIEW"
      → z.depends_on ≡ x.id ∷ y.id ∷ []
      → IsTeam (x ∷ y ∷ z ∷ [])

-- What a dispatch hands out: tasks that serve the plan and the contract, and that are a new team, or
-- were there before, some at least, and nothing changes.
pub record HandsOut (plan_id contract_id : String) (s t : Service) (ts : List Task) : Type 0 where
  pub serve : All (Serves plan_id contract_id) ts
  pub whole : IsTeam ts ⊎ ((ts ≢ []) × (t ≡ s))

both : (x y : Bool) → (x && y) ≡ true → (x ≡ true) × (y ≡ true)
both true y h = (refl, h)
both false y h = absurd (cc h)

either : (x y : Bool) → (x || y) ≡ true → (x ≡ true) ⊎ (y ≡ true)
either true y h = inl refl
either false y h = inr h

is_dispatched-Serves :
    (plan_id contract_id : String) (t : Task)
    → is_dispatched plan_id contract_id t ≡ true
    → Serves plan_id contract_id t
unfolding is_dispatch_type
is_dispatched-Serves plan_id contract_id t h =
    let plan_test = t.plan_id == plan_id in
    let source_test = t.input_ref == ("contract://" +++ contract_id) in
    let (tests, kinds) = both (plan_test && source_test) (is_dispatch_type t.type) h in
    let (plan, source) = both plan_test source_test tests in
    record {
      for_plan = (eq_iff t.plan_id plan_id).0 plan;
      for_contract = (eq_iff t.input_ref ("contract://" +++ contract_id)).0 source;
      kind =
          elim (either
            ((t.type == "BACKEND_IMPLEMENTATION") || (t.type == "FRONTEND_IMPLEMENTATION")) _
            kinds) [
              | inr e ↦ inr (inr ((eq_iff t.type "INTEGRATION_REVIEW").0 e))
              | inl more ↦ elim (either (t.type == "BACKEND_IMPLEMENTATION") _ more) [
                | inl e ↦ inl ((eq_iff t.type "BACKEND_IMPLEMENTATION").0 e)
                | inr e ↦ inr (inl ((eq_iff t.type "FRONTEND_IMPLEMENTATION").0 e))
              ]
            ];
    }

-- Tasks that are found serve the plan and the contract.
pub find_dispatched-Serves :
    (tasks : Map (Option Task)) (plan_id contract_id : String) (ids : List String)
    → All (Serves plan_id contract_id) (find_dispatched tasks plan_id contract_id ids)
unfolding find_dispatched is_dispatch_type
find_dispatched-Serves tasks plan_id contract_id [] = tt
find_dispatched-Serves tasks plan_id contract_id (id ∷ ids) =
    let rest = find_dispatched-Serves tasks plan_id contract_id ids in
    elim (Option-cases (tasks id)) [
      | inl missing ↦ rw (missing, All, find_dispatched) rest
      | inr (t, there) ↦ elim (Bool-cases (is_dispatched plan_id contract_id t)) [
        | inr other ↦ rw (there, other, All, find_dispatched) rest
        | inl hit ↦
            rw (there, hit, All, find_dispatched)
              (is_dispatched-Serves plan_id contract_id t hit, rest)
      ]
    ]
