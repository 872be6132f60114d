-- ===== src/Database.antt =====
-- The tables of the three services (migrations/001_init.sql and
-- 002_operation_event_outbox.sql), as lists of rows in order of insertion. NULL is `none`.
use sde_thp.Prelude.{ℕ, Bool, String, Option, List}
use sde_thp.Domain.{OperationStatus}

-- access.tenants.
pub record TenantRow : Type 0 where
  pub id : String
  pub name : String
  pub slug : String
  pub monthly_quota : ℕ
  pub concurrency_limit : ℕ
  pub created_at : ℕ

-- access.users.
pub record UserRow : Type 0 where
  pub id : String
  pub tenant_id : Option String
  pub email : String
  pub password_hash : String
  pub role : String
  pub created_at : ℕ

-- access.api_keys.
pub record ApiKeyRow : Type 0 where
  pub id : String
  pub tenant_id : String
  pub name : String
  pub prefix : String
  pub key_hash : String
  pub last_used_at : Option ℕ
  pub revoked_at : Option ℕ
  pub created_at : ℕ

-- operations.operations.
pub record OperationRow : Type 0 where
  pub id : String
  pub tenant_id : String
  pub task_type : String
  pub execution_mode : String
  pub target_url : String
  pub payload : String
  pub status : OperationStatus
  pub attempt : ℕ
  pub max_attempts : ℕ
  pub deadline : Option ℕ
  pub lease_owner : Option String
  pub lease_expires_at : Option ℕ
  pub result : Option String
  pub error_code : Option String
  pub error_message : Option String
  pub ai_explanation : Option String
  pub idempotency_key : String
  pub version : ℕ
  pub created_at : ℕ
  pub updated_at : ℕ

-- operations.transition_log.
pub record TransitionRow : Type 0 where
  pub operation_id : String
  pub tenant_id : String
  pub from_status : Option OperationStatus
  pub to_status : OperationStatus
  pub reason : String
  pub created_at : ℕ

-- usage.ledger.
pub record LedgerRow : Type 0 where
  pub tenant_id : String
  pub operation_id : String
  pub event_key : String
  pub units : ℕ
  pub metadata : String
  pub created_at : ℕ

-- The `status` of operations.event_outbox.
pub data OutboxStatus : Type 0 where
  outbox_pending outbox_delivered : OutboxStatus

-- operations.event_outbox; its key `event_key` stands for the generated `id` too.
pub record EventRow : Type 0 where
  pub event_key : String
  pub event_type : String
  pub operation_id : String
  pub tenant_id : String
  pub units : ℕ
  pub payload : String
  pub status : OutboxStatus
  pub attempt : ℕ
  pub next_attempt_at : ℕ
  pub last_error : Option String
  pub created_at : ℕ
  pub delivered_at : Option ℕ

-- usage.webhook_endpoints.
pub record EndpointRow : Type 0 where
  pub id : String
  pub tenant_id : String
  pub url : String
  pub secret : String
  pub enabled : Bool
  pub created_at : ℕ

-- The `status` of usage.webhook_outbox.
pub data WebhookStatus : Type 0 where
  webhook_pending webhook_in_flight webhook_delivered webhook_dead_lettered : WebhookStatus

-- usage.webhook_outbox.
pub record WebhookRow : Type 0 where
  pub id : String
  pub tenant_id : String
  pub endpoint_id : String
  pub event_type : String
  pub operation_id : String
  pub payload : String
  pub status : WebhookStatus
  pub attempt : ℕ
  pub next_attempt_at : ℕ
  pub last_error : Option String
  pub created_at : ℕ
  pub delivered_at : Option ℕ

-- One PostgreSQL database; `now` is what its `now()` returns.
pub record Database : Type 0 where
  pub tenants : List TenantRow
  pub users : List UserRow
  pub api_keys : List ApiKeyRow
  pub operations : List OperationRow
  pub transition_log : List TransitionRow
  pub ledger : List LedgerRow
  pub webhook_endpoints : List EndpointRow
  pub webhook_outbox : List WebhookRow
  pub event_outbox : List EventRow
  pub now : ℕ
