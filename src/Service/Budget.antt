-- ===== src/Service/Budget.antt =====
-- internal/service/service.go: token estimates, costs and the token budget.
use multi_agent_com.Base.{
  ℕ, ◌+◌, ◌*◌, ◌/◌, String, ◌==◌, ◌+++◌, Bool, Option, none, some, List, [], ◌∷◌, length, trim,
  is_empty, eqb, leb, ltb, if◌then◌else◌, false, ◌&&◌,
}
use multi_agent_com.Domain.Records.{Plan, CommunicationLog}
use multi_agent_com.Domain.Task.{Task}
use multi_agent_com.Service.State.{
  Persisted, Service, World, Config, Result, ok, err, conflict_error,
}

-- `communicationCountForTaskLocked`
unfoldable pub communications_of : String → List CommunicationLog → ℕ
communications_of task_id [] = 0
communications_of task_id (item ∷ items) =
    let rest = communications_of task_id items in if item.task_id == task_id then rest + 1 else rest

unfoldable pub communication_count : Persisted → String → String → ℕ
unfolding communications_of
communication_count p project_id task_id =
    if is_empty (trim task_id) then 0 else communications_of task_id (p.communications project_id)

pub record Tokens : Type 0 where
  pub prompt : ℕ
  pub completion : ℕ
  pub total : ℕ

-- The share of the task's type in the estimate.
unfoldable pub type_tokens : String → ℕ × ℕ
type_tokens kind =
    if kind == "BACKEND_IMPLEMENTATION"
    then (160, 240)
    else if kind == "FRONTEND_IMPLEMENTATION"
    then (140, 220)
    else if kind == "INTEGRATION_REVIEW"
    then (120, 180)
    else (100, 140)

abbrev plan_prompt : Option Plan → ℕ
plan_prompt none = 0
plan_prompt (some plan) = length plan.scope * 42 + length plan.constraints * 28

abbrev plan_completion : Option Plan → ℕ
plan_completion none = 0
plan_completion (some plan) = length plan.acceptance_criteria * 30

abbrev task_prompt : Option Task → ℕ
task_prompt none = 0
task_prompt (some task) = length task.depends_on * 32 + (type_tokens task.type).0

abbrev task_completion : Option Task → ℕ
task_completion none = 0
task_completion (some task) = (type_tokens task.type).1

-- `estimateRunTokens`
unfoldable pub estimate_run_tokens : Option Task → Option Plan → ℕ → Bool → Tokens
estimate_run_tokens task plan count failed =
    let prompt = 220 + count * 36 + plan_prompt plan + task_prompt task in
    let full = 180 + count * 24 + plan_completion plan + task_completion task in
    let completion = if failed then full / 2 else full in
    record { prompt = prompt; completion = completion; total = prompt + completion }

-- `estimateCostFromTokens` and `estimateCostFromPricing`: 1.5 and 2.5 dollars where no price is set.
unfoldable pub estimate_cost : Config → ℕ → ℕ → ℕ
estimate_cost cfg prompt completion =
    prompt * (if eqb cfg.token_prompt_price 0 then 1_500_000 else cfg.token_prompt_price)
    + completion * (if eqb cfg.token_output_price 0 then 2_500_000 else cfg.token_output_price)

-- `budgetStatus`
unfoldable pub budget_status : ℕ → ℕ → ℕ → String
budget_status cost warn block =
    if ltb 0 block && leb block cost
    then "blocked"
    else if ltb 0 warn && leb warn cost
    then "warning"
    else "ok"

-- The loop over the runs of the project.
unfoldable pub spent : Persisted → List String → ℕ
spent p [] = 0
spent p (id ∷ ids) =
    let rest = spent p ids in
    elim (p.runs id) [ none ↦ rest | some run ↦ run.estimated_cost + rest ]

-- The cost of the project once the task has run.
unfoldable pub projected_cost : World → Service → String → Task → ℕ
unfolding spent estimate_run_tokens estimate_cost communication_count
projected_cost w s project_id task =
    let tokens =
      estimate_run_tokens (some task) (s.index.plan_index task.plan_id)
        (communication_count s.data' project_id task.id) false in
    spent s.data' (s.data'.run_order project_id)
    + estimate_cost w.config tokens.prompt tokens.completion

-- `ensureTokenBudgetAllowsRunLocked`
unfoldable pub ensure_token_budget : World → Service → String → Task → Result (Unit {0})
ensure_token_budget w s project_id task =
    let block = w.config.token_budget_block in
    let projected = projected_cost w s project_id task in
    if eqb block 0
    then ok tt
    else if leb block projected
    then err (
        conflict_error (
          "token budget block threshold exceeded: projected "
          +++ (w.format_usd projected +++ (" USD >= " +++ (w.format_usd block +++ " USD")))))
    else ok tt
