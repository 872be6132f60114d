-- ===== src/Usage/Reply.antt =====
-- What the handlers of cmd/usage/main.go answer.
use sde_thp.Prelude.{ℕ, Bool, String, List}

pub record TenantUsage : Type 0 where
  pub tenant_id : String
  pub name : String
  pub quota : ℕ
  pub used : ℕ

pub record Webhook : Type 0 where
  pub id : String
  pub url : String
  pub enabled : Bool
  pub created_at : ℕ

pub data Page : Type 0 where
  nothing : Page
  usage : (used quota remaining : ℕ) → (period_start : String) → Page
  tenants : List TenantUsage → Page
  created : (id url : String) → Page
  webhooks : List Webhook → Page

-- `c.JSON(code, body)` and `c.NoContent(code)`.
pub record Reply : Type 0 where
  pub code : ℕ
  pub body : Page

abbrev pub reply : ℕ → Page → Reply
reply code body = record { code = code; body = body }
