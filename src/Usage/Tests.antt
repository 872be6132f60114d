-- ===== src/Usage/Tests.antt =====
-- Concrete tables of the usage service, and the theorems on them.
use mathlib.Core.Option.{some-injective}
use sde_thp.Prelude.{◌≡◌, refl, sym, ap, true, String, none, some, List, [], ◌∷◌, pos}
use sde_thp.Contracts.{OperationEvent}
use sde_thp.Database.{
  Database, TenantRow, EndpointRow, WebhookRow, webhook_pending, webhook_delivered,
}
use sde_thp.Effect.Hoare.{Hoare, Keeps}
use sde_thp.Operations.Reply.{Headers}
use sde_thp.Operations.Leases.{IsRefused}
use sde_thp.Operations.Outbox.{HttpResult, response}
use sde_thp.Usage.Reply.{reply, nothing}
use sde_thp.Usage.Statements.{is_enabled_for}
use sde_thp.Usage.Record.{record_event, is_incomplete}
use sde_thp.Usage.Charging.{
  Recorded, Charged, Untouched, ledger_row, webhook_rows, record_event-Recorded,
}
use sde_thp.Usage.Calls.{Wire, charge_batch}
use sde_thp.Usage.Once.{IsOnce}
use sde_thp.Usage.Once.Rounds.{charge_batch-IsOnce}
use sde_thp.Usage.Deliveries.{Delivery, dispatch_batch}
use sde_thp.Usage.Sending.{Progressed}
use sde_thp.Usage.Sending.Rounds.{dispatch_batch-Progress}
use sde_thp.Usage.Webhooks.{delete_webhook}
use sde_thp.Usage.Deletion.{Deleted, Either, delete_webhook-Deleted}
use sde_thp.Usage.Removal.{delete_webhook-IsRefused}
use sde_thp.Usage.Subscribers.{
  HubStep, joins, publishes, receives, IsFed, hub_after, hub_after-IsFed,
}
use sde_thp.Prelude.{All}

abbrev account : TenantRow
account = record {
  id = "acme";
  name = "Acme";
  slug = "acme";
  monthly_quota = 100;
  concurrency_limit = 2;
  created_at = 1;
}

abbrev hook : EndpointRow
hook = record {
  id = "hook-1";
  tenant_id = "acme";
  url = "https://example.com/hook";
  secret = "0123456789abcdef";
  enabled = true;
  created_at = 3;
}

abbrev waiting : WebhookRow
waiting = record {
  id = "delivery-1";
  tenant_id = "acme";
  endpoint_id = "hook-1";
  event_type = "operation.succeeded";
  operation_id = "op-1";
  payload = "{}";
  status = webhook_pending;
  attempt = 2;
  next_attempt_at = 10;
  last_error = some "webhook returned 500";
  created_at = 4;
  delivered_at = none;
}

abbrev arrived : WebhookRow
arrived = record waiting { id = "delivery-0"; status = webhook_delivered; delivered_at = some 9 }

abbrev tables : Database
tables = record {
  tenants = account ∷ [];
  users = [];
  api_keys = [];
  operations = [];
  transition_log = [];
  ledger = [];
  webhook_endpoints = hook ∷ [];
  webhook_outbox = arrived ∷ waiting ∷ [];
  event_outbox = [];
  now = 50;
}

abbrev event : OperationEvent
event = record {
  event_key = "op-2:operation.succeeded:1";
  event_type = "operation.succeeded";
  operation_id = "op-2";
  tenant_id = "acme";
  units = pos 1;
  payload = "{}";
  occurred_at = 40;
}

abbrev new_id : String → String
new_id endpoint = "delivery-2"

abbrev marshal : OperationEvent → String
marshal e = e.event_key

record_event-Recorded_example :
    Hoare
      (λ d. d ≡ tables)
      (record_event new_id marshal (some event))
      (λ r d. (r ≡ reply 202 nothing) × Charged new_id tables event d)
      (Untouched new_id tables event)
unfolding is_incomplete
record_event-Recorded_example = record_event-Recorded new_id tables event marshal refl

abbrev wire : Wire
wire = record {
  received = λ e. some e;
  broken = "connection refused";
  new_id = λ key endpoint. key;
  marshal = marshal;
}

whole : (e e' : OperationEvent) → some e ≡ some e' → e'.event_key ≡ e.event_key
whole e e' h = ap (λ x. x.event_key) (sym (some-injective e e' h))

charge_batch-IsOnce_example : Keeps IsOnce (charge_batch wire)
charge_batch-IsOnce_example = charge_batch-IsOnce wire whole

abbrev sign : String → String → String
sign secret payload = "sha256=0"

abbrev accepting : Delivery → String → HttpResult
accepting x signature = response 200

dispatch_batch-Progress_example :
    Hoare
      (λ d. d ≡ tables)
      (dispatch_batch sign accepting)
      (λ _. Progressed tables sign accepting)
      (Progressed tables sign accepting)
dispatch_batch-Progress_example =
    dispatch_batch-Progress tables sign accepting ((refl, tt), (tt, tt))

abbrev headers : Headers
headers = record { tenant = "acme"; role = "customer"; idempotency_key = "" }

abbrev charged : Database
charged = record tables {
  ledger = ledger_row new_id tables event ∷ [];
  webhook_outbox = arrived ∷ waiting ∷ webhook_rows new_id tables event;
}

is_charged : Recorded new_id tables event charged
is_charged = record { is_new = refl; tables = refl }

delete_webhook-IsRefused_example : IsRefused charged (delete_webhook "hook-1" headers)
unfolding is_enabled_for
delete_webhook-IsRefused_example =
    delete_webhook-IsRefused new_id tables event "hook-1" headers refl refl charged is_charged

delete_webhook-Deleted_example :
    Hoare
      (λ d. d ≡ tables)
      (delete_webhook "hook-1" headers)
      (λ r d. (r ≡ reply 204 nothing) × Deleted tables "hook-1" "acme" d)
      (Either tables "hook-1" headers)
delete_webhook-Deleted_example = delete_webhook-Deleted tables "hook-1" headers

abbrev history : List HubStep
history = receives 1 ∷ publishes "acme" "{}" ∷ publishes "other" "[]" ∷ joins 1 "acme" ∷ []

hub_after-IsFed_example : All (IsFed history) (hub_after history)
hub_after-IsFed_example = hub_after-IsFed history
