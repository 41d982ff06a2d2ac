-- ===== src/Domain/Records.antt =====
-- internal/domain/model.go: the plain records. Costs are exact, in 10⁻¹² US dollars, where the
-- source has a float64; the clones of service.go copy these values, so they are identities here.
use multi_agent_com.Base.{ℕ, String, Bool, List}

pub record Project : Type 0 where
  pub id : String
  pub name : String
  pub description : String
  pub created_at : ℕ
  pub updated_at : ℕ

pub record Requirement : Type 0 where
  pub id : String
  pub project_id : String
  pub title : String
  pub content : String
  pub constraints : List String
  pub acceptance_hints : List String
  pub created_at : ℕ

pub record Plan : Type 0 where
  pub id : String
  pub project_id : String
  pub requirement_id : String
  pub version : ℕ
  pub title : String
  pub goal : String
  pub scope : List String
  pub constraints : List String
  pub acceptance_criteria : List String
  pub assumptions : List String
  pub created_at : ℕ

pub record ContractField : Type 0 where
  pub name : String
  pub type : String
  pub required : Bool
  pub description : String

pub record ContractSchema : Type 0 where
  pub name : String
  pub description : String
  pub fields : List ContractField

pub record ContractEndpoint : Type 0 where
  pub name : String
  pub method : String
  pub path : String
  pub description : String

pub record Contract : Type 0 where
  pub id : String
  pub project_id : String
  pub requirement_id : String
  pub plan_id : String
  pub version : ℕ
  pub name : String
  pub summary : String
  pub endpoints : List ContractEndpoint
  pub schemas : List ContractSchema
  pub created_at : ℕ

pub record ContextSource : Type 0 where
  pub kind : String
  pub ref : String
  pub version : String

pub record ContextSection : Type 0 where
  pub title : String
  pub items : List String

pub record ContextInjection : Type 0 where
  pub id : String
  pub project_id : String
  pub task_id : String
  pub role : String
  pub version : ℕ
  pub summary : String
  pub sources : List ContextSource
  pub sections : List ContextSection
  pub created_at : ℕ

pub data SandboxStatus : Type 0 where
  active released failed : SandboxStatus

pub record Sandbox : Type 0 where
  pub id : String
  pub project_id : String
  pub run_id : String
  pub task_id : String
  pub agent_type : String
  pub scope : String
  pub root_path : String
  pub workspace_path : String
  pub workspace_provider : String
  pub workspace_manifest_ref : String
  pub workspace_branch : String
  pub workspace_base_ref : String
  pub workspace_head_ref : String
  pub workspace_cleanup_status : String
  pub workspace_cleaned_at : ℕ
  pub workspace_cleanup_reason : String
  pub workspace_cleanup_error : String
  pub workspace_worktree_gone : Bool
  pub workspace_branch_gone : Bool
  pub workspace_retained_ref : String
  pub status : SandboxStatus
  pub failure_reason : String
  pub created_at : ℕ
  pub updated_at : ℕ

pub record Snapshot : Type 0 where
  pub id : String
  pub project_id : String
  pub branch : String
  pub source_snapshot_id : String
  pub reason : String
  pub state_ref : String
  pub checksum : String
  pub workspace_state_ref : String
  pub workspace_checksum : String
  pub stable : Bool
  pub created_at : ℕ

pub record HumanOverride : Type 0 where
  pub id : String
  pub project_id : String
  pub task_id : String
  pub operator : String
  pub owner : String
  pub instruction : String
  pub lock_scope : String
  pub expires_at : ℕ
  pub created_at : ℕ
  pub applied_at : ℕ

pub record CodeLock : Type 0 where
  pub id : String
  pub project_id : String
  pub task_id : String
  pub path : String
  pub content : String
  pub lock_mode : String
  pub language : String
  pub symbol_kind : String
  pub symbol_name : String
  pub created_by : String
  pub owner : String
  pub expires_at : ℕ
  pub created_at : ℕ

pub record ConflictQueueEntry : Type 0 where
  pub id : String
  pub project_id : String
  pub task_id : String
  pub kind : String
  pub scope : String
  pub resource_id : String
  pub requested_owner : String
  pub current_owner : String
  pub reason : String
  pub status : String
  pub created_at : ℕ
  pub resolved_at : ℕ
  pub resolved_by : String
  pub resolution_note : String

pub record Preview : Type 0 where
  pub id : String
  pub project_id : String
  pub sandbox_id : String
  pub status : String
  pub url : String
  pub revision : String
  pub created_at : ℕ
  pub updated_at : ℕ

pub record CommunicationLog : Type 0 where
  pub id : String
  pub project_id : String
  pub version : String
  pub from : String
  pub to : String
  pub type : String
  pub task_id : String
  pub payload_ref : String
  pub checksum : String
  pub timestamp : ℕ

pub record AuditLog : Type 0 where
  pub id : String
  pub project_id : String
  pub actor : String
  pub action : String
  pub resource_type : String
  pub resource_id : String
  pub summary : String
  pub timestamp : ℕ

pub record Alert : Type 0 where
  pub id : String
  pub project_id : String
  pub severity : String
  pub type : String
  pub resource_id : String
  pub message : String
  pub timestamp : ℕ

pub data RunStatus : Type 0 where
  pending running succeeded failed : RunStatus

pub record AgentRun : Type 0 where
  pub id : String
  pub project_id : String
  pub task_id : String
  pub agent_type : String
  pub model : String
  pub sandbox_id : String
  pub status : RunStatus
  pub prompt_tokens : ℕ
  pub completion_tokens : ℕ
  pub total_tokens : ℕ
  pub estimated_cost : ℕ
  pub result_summary : String
  pub error : String
  pub artifact_ids : List String
  pub started_at : ℕ
  pub ended_at : ℕ

pub record Artifact : Type 0 where
  pub id : String
  pub project_id : String
  pub task_id : String
  pub run_id : String
  pub kind : String
  pub uri : String
  pub checksum : String
  pub size_bytes : ℕ
  pub created_at : ℕ
