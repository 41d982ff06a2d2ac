-- ===== src/Examples.antt =====
-- Concrete states and tests: each theorem of the library at work on a small project.
pub mod Witnesses
pub mod Endings
pub mod Leases
mod Locks
pub mod Plans
pub mod Access
pub mod Rollbacks
use multi_agent_com.Base.{ℕ, String, ◌+++◌, ◌≡◌, refl, Option, none, some, List, [], ◌∷◌, Map, put}
use multi_agent_com.Domain.Records.{Project, Plan, Contract, HumanOverride, Artifact}
use multi_agent_com.Base.Int.{pos}
use multi_agent_com.Service.Finish.{Product}
use multi_agent_com.Service.Overrides.{OverrideIds, OverrideInput}
use multi_agent_com.Domain.Task.{Task, TaskStatus, new_task, in_progress}
use multi_agent_com.Service.State.{
  Persisted, Indexes, Service, Visits, Config, Workspace, World, Stored,
}
use multi_agent_com.Service.Runs.{StartIds}
use multi_agent_com.Service.Start.{Answers}
use multi_agent_com.Service.Dispatch.{DispatchIds}

abbrev pub no_map {ℓ} : {A : Type ℓ} → Map (Option A)
no_map _ = none

abbrev pub no_lists {ℓ} : {A : Type ℓ} → Map (List A)
no_lists _ = []

abbrev pub no_texts : Map String
no_texts _ = ""

abbrev pub demo_project : Project
demo_project = record {
  id = "proj";
  name = "Shop";
  description = "";
  created_at = 1;
  updated_at = 1;
}

abbrev pub demo_plan : Plan
demo_plan = record {
  id = "plan";
  project_id = "proj";
  requirement_id = "req";
  version = 1;
  title = "Checkout";
  goal = "Sell";
  scope = "cart" ∷ [];
  constraints = [];
  acceptance_criteria = "paid" ∷ "shipped" ∷ [];
  assumptions = [];
  created_at = 2;
}

abbrev pub demo_contract : Contract
demo_contract = record {
  id = "contract";
  project_id = "proj";
  requirement_id = "req";
  plan_id = "plan";
  version = 1;
  name = "API";
  summary = "";
  endpoints = [];
  schemas = [];
  created_at = 3;
}

-- A project with a plan and a contract, and no tasks.
abbrev pub planned : Persisted
planned = record {
  projects = put no_map "proj" (some demo_project);
  requirements = no_lists;
  plans = put no_lists "proj" (demo_plan ∷ []);
  contracts = put no_lists "proj" (demo_contract ∷ []);
  contexts = no_lists;
  overrides = no_lists;
  locks = no_lists;
  conflicts = no_lists;
  previews = no_lists;
  communications = no_lists;
  audit_logs = no_lists;
  alerts = no_lists;
  sandboxes = no_lists;
  sandbox_faults = no_texts;
  snapshots = no_lists;
  snapshot_state = no_map;
  project_branch = no_texts;
  stable_branch = no_texts;
  branch_seq = λ _. 0;
  tasks = no_map;
  task_order = no_lists;
  runs = no_map;
  run_order = no_lists;
  artifacts = no_map;
  artifact_order = no_lists;
}

abbrev pub demo_indexes : Indexes
demo_indexes = record {
  plan_index = put no_map "plan" (some demo_plan);
  contract_index = put no_map "contract" (some demo_contract);
  context_index = no_map;
  override_index = no_map;
  lock_index = no_map;
  conflict_index = no_map;
  preview_index = no_map;
  sandbox_index = no_map;
  snapshot_index = no_map;
}

abbrev pub planned_service : Service
planned_service = record { data' = planned; index = demo_indexes }

abbrev pub demo_visits : Visits
demo_visits = record {
  plans = "proj" ∷ [];
  contracts = "proj" ∷ [];
  contexts = [];
  overrides = [];
  locks = [];
  conflicts = [];
  previews = [];
  sandboxes = "proj" ∷ [];
  snapshots = [];
}

-- All stores accept what they get.
abbrev pub accepting : Answers
accepting = record { lock = none; save = none; repo = Stored.stored; visits = demo_visits }

-- `SaveState` fails.
abbrev pub losing : Answers
losing = record { lock = none; save = some "disk full"; repo = Stored.stored; visits = demo_visits }

-- A budget of one dollar, and a workspace provider that always delivers.
abbrev pub demo_world : World
demo_world = record {
  config = record {
    default_agent = "agent";
    sandbox_root = "/sandboxes";
    runtime_provider = "local";
    token_prompt_price = 1000000;
    token_output_price = 2000000;
    token_budget_warn = 500000000000;
    token_budget_block = 1000000000000;
    registry_default = none;
  };
  workspace = record { name = "filesystem"; create_private = λ sandbox task. some sandbox };
  checksum = λ text. "0badcafe";
  format_time = λ now. "2026-01-01T00:00:00Z";
  format_usd = λ amount. "0.000000";
  decimal = λ n. "1";
  to_lower = λ text. text;
  to_upper = λ text. text;
  first_bytes = λ n text. text;
}

-- The same, with a workspace provider that fails.
abbrev pub broken_world : World
broken_world = record demo_world {
  workspace = record { name = "filesystem"; create_private = λ sandbox task. none };
}

abbrev pub demo_task : Task
unfolding new_task
demo_task =
    new_task "task" "proj" "plan" "Build the cart" "BACKEND_IMPLEMENTATION" "go-backend-agent" []
      "contract://contract" 4

-- A project with one task.
abbrev pub with_one_task : Service
with_one_task = record planned_service {
  data' = record planned {
    tasks = put no_map "task" (some demo_task);
    task_order = put no_lists "proj" ("task" ∷ []);
  };
}

abbrev pub demo_ids : StartIds
demo_ids = record { sandbox = "sandbox"; run = "run"; communication = "comm" }

abbrev pub dispatch_ids : DispatchIds
dispatch_ids = record {
  backend = "b";
  frontend = "f";
  integration = "i";
  backend_log = "lb";
  frontend_log = "lf";
  integration_log = "li";
}

abbrev pub demo_override : HumanOverride
demo_override = record {
  id = "override";
  project_id = "proj";
  task_id = "task";
  operator = "ann";
  owner = "ann";
  instruction = "use the new API";
  lock_scope = "";
  expires_at = 100;
  created_at = 5;
  applied_at = 0;
}

abbrev pub demo_artifact : Artifact
demo_artifact = record {
  id = "artifact";
  project_id = "proj";
  task_id = "task";
  run_id = "run";
  kind = "DELIVERY_BUNDLE";
  uri = "file:///bundle.zip";
  checksum = "0badcafe";
  size_bytes = 10;
  created_at = 9;
}

abbrev pub demo_product : Product
demo_product = record {
  artifact = demo_artifact;
  summary = "built";
  response = record {
    output = "all done";
    model = "";
    prompt_tokens = pos 10;
    completion_tokens = pos 20;
    total_tokens = pos 0;
  };
  applied = none;
  sandbox = none;
}

-- The IDs of a batch: the run of a task has the ID of the task.
abbrev pub batch_ids : String → StartIds
batch_ids task_id = record {
  sandbox = "s" +++ task_id;
  run = task_id;
  communication = "c" +++ task_id;
}

abbrev pub override_ids : OverrideIds
override_ids = record {
  conflict = "conflict";
  override = "new";
  communication = "comm";
  audit = "audit";
}

-- Bob asks to override the task for a minute.
abbrev pub bob_asks : OverrideInput
bob_asks = record {
  task_id = "task";
  operator = "bob";
  owner = "";
  instruction = "stop";
  lock_scope = "";
  ttl_seconds = pos 60;
}
