-- ===== src/Domain/Task.antt =====
-- internal/domain/model.go: `Task`, `NewTask`, `TransitionTo`, `isAllowedTransition`.
use Prim.Native.String.{◌++◌}
use multi_agent_com.Base.{
  ℕ, String, Bool, true, false, ◌||◌, Option, none, some, List, [], ◌∷◌, if◌then◌else◌, snoc,
}

pub data TaskStatus : Type 0 where
  created in_progress human_override done failed : TaskStatus

-- The constants' texts.
unfoldable pub status_text : TaskStatus → String
status_text created = "CREATED"
status_text in_progress = "IN_PROGRESS"
status_text human_override = "HUMAN_OVERRIDE"
status_text done = "DONE"
status_text failed = "FAILED"

-- `next == TaskStatusX`
abbrev pub is_created : TaskStatus → Bool
is_created created = true
is_created _ = false

abbrev pub is_in_progress : TaskStatus → Bool
is_in_progress in_progress = true
is_in_progress _ = false

abbrev pub is_human_override : TaskStatus → Bool
is_human_override human_override = true
is_human_override _ = false

abbrev pub is_done : TaskStatus → Bool
is_done done = true
is_done _ = false

abbrev pub is_failed : TaskStatus → Bool
is_failed failed = true
is_failed _ = false

-- The empty `From` of the first entry is `none`.
pub record TaskTransition : Type 0 where
  pub from : Option TaskStatus
  pub to : TaskStatus
  pub reason : String
  pub at : ℕ

pub record Task : Type 0 where
  pub id : String
  pub project_id : String
  pub plan_id : String
  pub name : String
  pub type : String
  pub status : TaskStatus
  pub assignee_agent : String
  pub depends_on : List String
  pub input_ref : String
  pub output_ref : String
  pub audit : List TaskTransition
  pub created_at : ℕ
  pub updated_at : ℕ

unfoldable pub new_task :
    String → String → String → String → String → String → List String → String → ℕ → Task
new_task id project_id plan_id name task_type assignee_agent depends_on input_ref now = record {
  id = id;
  project_id = project_id;
  plan_id = plan_id;
  name = name;
  type = task_type;
  status = created;
  assignee_agent = assignee_agent;
  depends_on = depends_on;
  input_ref = input_ref;
  output_ref = "";
  audit = record { from = none; to = created; reason = "task created"; at = now } ∷ [];
  created_at = now;
  updated_at = now;
}

unfoldable pub is_allowed_transition : TaskStatus → TaskStatus → Bool
is_allowed_transition created next = is_in_progress next
is_allowed_transition in_progress next = is_done next || is_failed next || is_human_override next
is_allowed_transition human_override next = is_in_progress next || is_done next || is_failed next
is_allowed_transition done next = false
is_allowed_transition failed next = false

pub data TransitionResult : Type 0 where
  moved : Task → TransitionResult
  refused : String → TransitionResult

unfoldable pub transition_to : Task → TaskStatus → String → ℕ → TransitionResult
unfolding is_allowed_transition
transition_to t next reason now =
    if is_allowed_transition t.status next
    then moved (record t {
      status = next;
      updated_at = now;
      audit = snoc t.audit (record { from = some t.status; to = next; reason = reason; at = now });
    })
    else refused
        ("invalid task transition: " ++ (status_text t.status ++ (" -> " ++ status_text next)))
