-- ===== src/Contracts.antt =====
-- internal/contracts/contracts.go: the messages that the processes exchange. A JSON document is
-- kept as its text, a time as nanoseconds since a fixed origin, a nil pointer as `none`.
use sde_thp.Prelude.{ℕ, String, Option, ℤ}

pub record Principal : Type 0 where
  pub tenant_id : String
  pub user_id : String
  pub role : String

pub record QueueEnvelope : Type 0 where
  pub operation_id : String
  pub tenant_id : String
  pub task_type : String
  pub target_url : String
  pub payload : String
  pub attempt : ℕ
  pub max_attempts : ℕ
  pub deadline : Option ℕ
  pub execution_mode : String
  pub not_before : Option ℕ

pub record OperationEvent : Type 0 where
  pub event_key : String
  pub event_type : String
  pub operation_id : String
  pub tenant_id : String
  pub units : ℤ
  pub payload : String
  pub occurred_at : ℕ

pub record Problem : Type 0 where
  pub kind : String
  pub title : String
  pub status : ℕ
  pub detail : String
  pub instance_path : String
  pub request_id : String
