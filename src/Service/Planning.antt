-- ===== src/Service/Planning.antt =====
-- internal/service/service.go: `CreateProject`, `AddRequirement`, `GeneratePlan`,
-- `GenerateContract` and `ValidateContract`, over the in-process stores and over the repository.
pub mod Contracting
pub mod Safety
pub mod Replies
pub mod Atomic
pub mod Serving
pub mod Steps
pub mod Delivery
use multi_agent_com.Base.{
  ℕ, suc, String, ◌==◌, ◌+++◌, ◌||◌, ◌&&◌, not, Bool, true, false, Option, none, some, List, [],
  ◌∷◌, ◌++◌, length, snoc, last?, find_first, Map, put, trim, is_empty, byte_length, has_text,
  distinct_by, leb, if◌then◌else◌,
}
use multi_agent_com.Domain.Records.{
  Project, Requirement, Plan, Contract, ContractEndpoint, ContractSchema,
}
use multi_agent_com.Domain.Task.{Task, new_task}
use multi_agent_com.Service.State.{
  Persisted, Indexes, Service, World, Result, ok, err, Error, plain, not_found_error,
  validation_error, persist, store_result, capture, restore, push, or_fail, guard, ◌>>=◌, ◌>>◌,
}
use multi_agent_com.Service.Logs.{record_audit}
use multi_agent_com.Service.Leases.{Limit, limit_256, validate_length}
use multi_agent_com.Service.Start.{Backend, in_process, repository, Answers}
use multi_agent_com.Service.Dispatch.{commit, touch_project, append_task, contract_ref}
use multi_agent_com.Service.Contracts.{build_contract}
use multi_agent_com.Service.Contracts.Validation.{
  ContractValidationConflict, validate_contract_definition,
}

-- `compactStrings`
unfoldable pub compact_strings : List String → List String
unfolding distinct_by
compact_strings items = distinct_by trim [] items

-- `trimSentence`
unfoldable pub trim_sentence : World → String → String
trim_sentence w input =
    let text = trim input in
    if is_empty text
    then "Untitled Requirement"
    else if leb (byte_length text) 60
    then text
    else w.first_bytes 60 text +++ "..."

-- `deriveScope`
unfoldable pub derive_scope : World → String → List String
derive_scope w content =
    let lower = w.to_lower content in
    if has_text content "增删改查" || has_text lower "crud"
    then "梳理需求目标与验收口径" ∷ "拆出创建、查询、更新、删除四类基本能力" ∷ "准备最小交付包与 README 模板" ∷ []
    else if has_text content "仪表盘" || has_text content "dashboard"
    then "定义关键指标与展示范围" ∷ "输出结构化需求与最小视图范围" ∷ "生成首轮交付包用于后续实现" ∷ []
    else "提炼业务目标与 MVP 边界" ∷ "确认约束、假设与验收标准" ∷ "生成首轮任务与可下载交付包" ∷ []

-- The acceptance criteria of a plan: the hints of the requirement, or three of its own.
abbrev pub or_default : List String → List String
or_default [] = "系统可生成结构化 PRD" ∷ "任务可从 CREATED 流转到 DONE" ∷ "执行完成后可导出交付包" ∷ []
or_default (x ∷ xs) = x ∷ xs

-- `buildPlan`
unfoldable pub build_plan : World → String → Requirement → ℕ → ℕ → Plan
unfolding compact_strings trim_sentence derive_scope
build_plan w id req version now =
    let title = if is_empty req.title then trim_sentence w req.content else req.title in
    record {
      id = id;
      project_id = req.project_id;
      requirement_id = req.id;
      version = version;
      title = title;
      goal = "将需求“" +++ (title +++ "”收敛为可执行的 Sprint 1 交付闭环。");
      scope = derive_scope w req.content;
      constraints =
          compact_strings ("优先跑通 Sprint 1 最小闭环" ∷ ("当前版本使用内存存储与单 Agent 串行模式" ∷ req.constraints));
      acceptance_criteria = or_default (compact_strings req.acceptance_hints);
      assumptions = "第一个周期优先验证主链路，不引入并行调度与持久化依赖" ∷ "生成产物以可审阅、可下载、可追踪为核心目标" ∷ [];
      created_at = now;
    }

abbrev pub limit_512 : Limit
limit_512 = record { bytes = 512; digits = "512" }

abbrev pub limit_4096 : Limit
limit_4096 = record { bytes = 4096; digits = "4096" }

abbrev pub limit_65536 : Limit
limit_65536 = record { bytes = 65536; digits = "65536" }

pub record CreateProjectInput : Type 0 where
  pub name : String
  pub description : String

-- The checks of `CreateProject`.
unfoldable pub check_project : CreateProjectInput → Result (Unit {0})
unfolding validate_length
check_project input = do
  guard (not (is_empty (trim input.name))) (validation_error "project name is required")
  validate_length (trim input.name) "project name" limit_256
  validate_length (trim input.description) "project description" limit_4096

unfoldable pub new_project : String → CreateProjectInput → ℕ → Project
new_project id input now = record {
  id = id;
  name = trim input.name;
  description = trim input.description;
  created_at = now;
  updated_at = now;
}

abbrev pub add_project : String → String → Project → ℕ → Persisted → Persisted
add_project audit_id actor project now p =
    record_audit audit_id actor project.id "PROJECT_CREATE" "project" project.id "project created"
      now
      (record p {
        projects = put p.projects project.id (some project);
        project_branch = put p.project_branch project.id "main";
      })

-- `CreateProject`
unfoldable pub create_project :
    Backend
    → Answers
    → String
    → String
    → String
    → CreateProjectInput
    → ℕ
    → Service
    → Service × Result Project
unfolding check_project new_project commit record_audit
create_project b a id audit_id actor input now s = elim (check_project input) [
  | err e ↦ (s, err e)
  | ok _ ↦
      let project = new_project id input now in
      commit b a (add_project audit_id actor project now) project s
]

pub record AddRequirementInput : Type 0 where
  pub title : String
  pub content : String
  pub constraints : List String
  pub acceptance_hints : List String

-- The checks of `AddRequirement` on the texts, and the one on the project, which comes last.
unfoldable pub check_texts : AddRequirementInput → Result (Unit {0})
unfolding validate_length
check_texts input = do
  guard (not (is_empty (trim input.title))) (validation_error "requirement title is required")
  guard (not (is_empty (trim input.content))) (validation_error "requirement content is required")
  validate_length (trim input.title) "requirement title" limit_512
  validate_length (trim input.content) "requirement content" limit_65536

unfoldable pub check_requirement : Persisted → String → AddRequirementInput → Result Project
unfolding check_texts
check_requirement p project_id input =
    check_texts input >> or_fail (p.projects project_id) (not_found_error "project not found")

unfoldable pub new_requirement : String → String → AddRequirementInput → ℕ → Requirement
unfolding compact_strings
new_requirement id project_id input now = record {
  id = id;
  project_id = project_id;
  title = trim input.title;
  content = trim input.content;
  constraints = compact_strings input.constraints;
  acceptance_hints = compact_strings input.acceptance_hints;
  created_at = now;
}

abbrev pub append_requirement :
    String → String → String → Project → Requirement → ℕ → Persisted → Persisted
append_requirement audit_id actor project_id project req now p =
    record_audit audit_id actor project_id "REQUIREMENT_ADD" "requirement" req.id
      "requirement added" now
      (touch_project project project_id now
        (record p { requirements = push p.requirements project_id req }))

-- `AddRequirement`
unfoldable pub add_requirement :
    Backend
    → Answers
    → String
    → String
    → String
    → String
    → AddRequirementInput
    → ℕ
    → Service
    → Service × Result Requirement
unfolding check_requirement new_requirement commit record_audit
add_requirement b a id audit_id actor project_id input now s =
    elim (check_requirement s.data' project_id input) [
      | err e ↦ (s, err e)
      | ok project ↦
          let req = new_requirement id project_id input now in
          commit b a (append_requirement audit_id actor project_id project req now) req s
    ]
