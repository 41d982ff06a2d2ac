-- ===== src/Service/Planning/Delivery.antt =====
-- internal/service/service.go: a project from its creation to the dispatch of its tasks.
use multi_agent_com.Base.{ℕ, String, ◌≡◌}
use multi_agent_com.Domain.Records.{Project, Requirement, Contract}
use multi_agent_com.Service.State.{Service, World, Result, ok}
use multi_agent_com.Service.Start.{Backend, Answers}
use multi_agent_com.Service.Dispatch.{DispatchIds, DispatchTasksResult, dispatch_tasks}
use multi_agent_com.Service.Planning.{
  CreateProjectInput, create_project, AddRequirementInput, add_requirement,
}
use multi_agent_com.Service.Planning.Contracting.{
  PlanIds, PlanResult, generate_plan, generate_contract,
}
use multi_agent_com.Service.Planning.Serving.{HandsOut}

-- The IDs that are drawn on the way.
pub record DeliveryIds : Type 0 where
  pub project : String
  pub project_audit : String
  pub requirement : String
  pub requirement_audit : String
  pub plan : PlanIds
  pub contract : String
  pub dispatch : DispatchIds

module _ (b : Backend) (w : World) (a : Answers) (ids : DeliveryIds) (actor : String)
    (project : CreateProjectInput) (requirement : AddRequirementInput) (now : ℕ) (s : Service) where
  -- The five handlers, each on the state that the one before leaves.
  abbrev pub after_project : Service × Result Project
  after_project = create_project b a ids.project ids.project_audit actor project now s

  abbrev pub after_requirement : Service × Result Requirement
  after_requirement =
      add_requirement b a ids.requirement ids.requirement_audit actor ids.project requirement now
        after_project.0

  abbrev pub after_plan : Service × Result PlanResult
  after_plan = generate_plan b w a ids.plan actor ids.project now after_requirement.0

  abbrev pub after_contract : Service × Result Contract
  after_contract = generate_contract b w a ids.contract ids.project now after_plan.0

  abbrev pub after_dispatch : Service × Result DispatchTasksResult
  after_dispatch = dispatch_tasks b w a ids.dispatch ids.project now after_contract.0

  -- All five succeed: the plan is made for the requirement, the contract for the plan, and every task
  -- that is handed out for that plan and that contract.
  pub record Delivered : Type 0 where
    pub created : Project
    pub required : Requirement
    pub planned : PlanResult
    pub agreed : Contract
    pub handed_out : DispatchTasksResult
    pub answers_project : after_project.1 ≡ ok created
    pub answers_requirement : after_requirement.1 ≡ ok required
    pub answers_plan : after_plan.1 ≡ ok planned
    pub answers_contract : after_contract.1 ≡ ok agreed
    pub answers_dispatch : after_dispatch.1 ≡ ok handed_out
    pub for_requirement : planned.plan.requirement_id ≡ required.id
    pub for_plan : agreed.plan_id ≡ planned.plan.id
    pub for_contract : handed_out.contract ≡ agreed
    pub hands_out :
        HandsOut planned.plan.id agreed.id after_contract.0 after_dispatch.0 handed_out.tasks
