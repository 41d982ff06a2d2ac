-- ===== src/Service/Logs.antt =====
-- internal/service/service.go: communication logs, audit logs and alerts. The webhook that an alert
-- notifies is left out.
use multi_agent_com.Base.{ℕ, String, [], ◌∷◌, trim, is_empty, join, if◌then◌else◌}
use multi_agent_com.Domain.Records.{CommunicationLog, AuditLog, Alert}
use multi_agent_com.Service.State.{Persisted, World, push}

unfoldable pub new_communication_log :
    World → String → String → String → String → String → String → String → ℕ → CommunicationLog
new_communication_log w id project_id from to kind task_id payload_ref now = record {
  id = id;
  project_id = project_id;
  version = "v1";
  from = trim from;
  to = trim to;
  type = trim kind;
  task_id = trim task_id;
  payload_ref = trim payload_ref;
  checksum = w.checksum (
      join "|" (
        "v1"
        ∷ trim from
        ∷ trim to
        ∷ trim kind
        ∷ trim task_id
        ∷ trim payload_ref
        ∷ w.format_time now
        ∷ []));
  timestamp = now;
}

-- `recordCommunicationLocked`
unfoldable pub record_communication :
    World → String → String → String → String → String → String → String → ℕ → Persisted → Persisted
record_communication w id project_id from to kind task_id payload_ref now p = record p {
  communications =
      push p.communications project_id
        (new_communication_log w id project_id from to kind task_id payload_ref now);
}

-- `newAuditLog`, for the actor of the context (`ActorFromContext`).
unfoldable pub new_audit_log :
    String → String → String → String → String → String → String → ℕ → AuditLog
new_audit_log id actor project_id action resource_type resource_id summary now = record {
  id = id;
  project_id = project_id;
  actor = if is_empty actor then "system" else actor;
  action = trim action;
  resource_type = trim resource_type;
  resource_id = trim resource_id;
  summary = trim summary;
  timestamp = now;
}

-- `recordAuditLocked`
unfoldable pub record_audit :
    String → String → String → String → String → String → String → ℕ → Persisted → Persisted
record_audit id actor project_id action resource_type resource_id summary now p = record p {
  audit_logs =
      push p.audit_logs project_id
        (new_audit_log id actor project_id action resource_type resource_id summary now);
}

unfoldable pub new_alert : String → String → String → String → String → String → ℕ → Alert
new_alert id project_id severity kind resource_id message now = record {
  id = id;
  project_id = project_id;
  severity = trim severity;
  type = trim kind;
  resource_id = trim resource_id;
  message = trim message;
  timestamp = now;
}

-- `recordAlertLocked`
unfoldable pub record_alert :
    String → String → String → String → String → String → ℕ → Persisted → Persisted
unfolding new_alert
record_alert id project_id severity kind resource_id message now p = record p {
  alerts = push p.alerts project_id (new_alert id project_id severity kind resource_id message now);
}
