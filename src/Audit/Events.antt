-- ===== src/Audit/Events.antt =====
-- audit/audit.types.ts and the row of database/schema/audit.schema.ts: what an audit event says.
-- Times are in milliseconds.
use typescript_starter.Common.{ℕ, String, Option, List, [], ◌∷◌}
use typescript_starter.Audit.Redaction.{Value, Fields}

pub data ActorType : Type 0 where
  user api_key system anonymous : ActorType

pub data Outcome : Type 0 where
  attempted succeeded failed denied : Outcome

pub data Severity : Type 0 where
  info warning high critical : Severity

pub data Source : Type 0 where
  rest graphql auth job : Source

pub record Actor : Type 0 where
  pub type : ActorType
  pub id : Option String
  pub role : Option String
  pub impersonator_user_id : Option String

pub record RequestContext : Type 0 where
  pub request_id : String
  pub correlation_id : Option String
  pub source : Source
  pub method : Option String
  pub route : Option String
  pub graphql_operation : Option String
  pub ip_network : Option String
  pub ip_fingerprint : Option String
  pub user_agent : Option String
  pub actor : Actor

pub record EventError : Type 0 where
  pub code : Option String
  pub message : Option String

pub record EventInput : Type 0 where
  pub id : Option String
  pub occurred_at : Option ℕ
  pub category : String
  pub action : String
  pub severity : Option Severity
  pub outcome : Outcome
  pub actor : Option Actor
  pub target_type : Option String
  pub target_id : Option String
  pub reason : Option String
  pub before : Option Fields
  pub after : Option Fields
  pub changed_fields : Option (List String)
  pub metadata : Option Fields
  pub error : Option EventError
  pub correlation_id : Option String
  pub source : Option Source

-- A row of the table `audit_event`, without the time at which the database stored it.
pub record EventRow : Type 0 where
  pub sequence : ℕ
  pub id : String
  pub version : ℕ
  pub occurred_at : ℕ
  pub category : String
  pub action : String
  pub severity : Severity
  pub outcome : Outcome
  pub actor_type : ActorType
  pub actor_id : Option String
  pub actor_role : Option String
  pub impersonator_user_id : Option String
  pub target_type : Option String
  pub target_id : Option String
  pub reason : Option String
  pub before : Option Value
  pub after : Option Value
  pub changed_fields : List String
  pub metadata : Option Value
  pub error : Option EventError
  pub request_id : Option String
  pub correlation_id : Option String
  pub source : Source
  pub method : Option String
  pub route : Option String
  pub graphql_operation : Option String
  pub ip_network : Option String
  pub ip_fingerprint : Option String
  pub user_agent : Option String

abbrev pub high_risk_reason_actions : List String
high_risk_reason_actions =
    "admin.user.role_changed" ∷ "admin.user.ban_changed" ∷ "admin.user.deleted"
    ∷ "admin.user.impersonation_started" ∷ "api_key.elevated_permission_changed"
    ∷ "gtfs.ingest.attempted" ∷ "history.backfill.attempted" ∷ "history.purge.attempted"
    ∷ "cache.flush.attempted" ∷ "admin.notification.test" ∷ "admin.notification.service_alert"
    ∷ "admin.notification.line_alert_resolved" ∷ "admin.notification.device_link_code_created" ∷ []
