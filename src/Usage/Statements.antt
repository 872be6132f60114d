-- ===== src/Usage/Statements.antt =====
-- The SQL statements of cmd/usage/main.go as functions on the tables.
use sde_thp.Prelude.{
  ℕ, Bool, true, ◌&&◌, String, Option, none, some, List, [], ◌∷◌, ◌++◌, ℤ, pos, pos_part, ltb_ℤ,
  ◌==◌, any, map, count_where, select_where, if◌then◌else◌,
}
use sde_thp.Prelude.{not}
use sde_thp.Database.{Database, LedgerRow, EndpointRow, WebhookRow, webhook_pending}
use sde_thp.Effect.{Statement}

abbrev pub has_event_key : String → LedgerRow → Bool
has_event_key key l = l.event_key == key

-- `INSERT INTO usage.ledger … ON CONFLICT(event_key) DO NOTHING`. A negative number of units is
-- refused by the table's CHECK, and so is a tenant that does not exist.
unfoldable pub insert_ledger : String → String → String → ℤ → String → Statement ℕ
insert_ledger tenant_id operation_id event_key units metadata d =
    if ltb_ℤ units (pos 0)
    then none
    else if any (has_event_key event_key) d.ledger
    then some (0, d)
    else if any (λ t. t.id == tenant_id) d.tenants
    then some (
      1,
      record d {
        ledger =
            d.ledger
            ++ record {
              tenant_id = tenant_id;
              operation_id = operation_id;
              event_key = event_key;
              units = pos_part units;
              metadata = metadata;
              created_at = d.now;
            }
              ∷ [];
      },
    )
    else none

-- `tenant_id=$1 AND enabled=true`.
unfoldable pub is_enabled_for : String → EndpointRow → Bool
is_enabled_for tenant_id e = e.tenant_id == tenant_id && e.enabled

abbrev pub has_webhook_id : String → WebhookRow → Bool
has_webhook_id id o = o.id == id

-- The row of one endpoint in the INSERT … SELECT; `gen_random_uuid()` gives `id`.
unfoldable pub new_webhook :
    String → String → String → String → ℕ → EndpointRow → String → WebhookRow
new_webhook tenant_id event_type operation_id payload now e id = record {
  id = id;
  tenant_id = tenant_id;
  endpoint_id = e.id;
  event_type = event_type;
  operation_id = operation_id;
  payload = payload;
  status = webhook_pending;
  attempt = 0;
  next_attempt_at = now;
  last_error = none;
  created_at = now;
  delivered_at = none;
}

-- The rows are inserted one after the other; an identifier in use is refused.
unfoldable pub append_webhooks : List WebhookRow → List WebhookRow → Option (List WebhookRow)
append_webhooks rows [] = some rows
append_webhooks rows (o ∷ os) =
    let rest = append_webhooks (rows ++ o ∷ []) os in
    if any (has_webhook_id o.id) rows then none else rest

unfoldable pub with_outbox : Database → Option (List WebhookRow) → Option (Unit {0} × Database)
with_outbox d none = none
with_outbox d (some rows) = some (tt, record d { webhook_outbox = rows })

unfoldable pub insert_webhooks :
    (String → String) → String → String → String → String → Statement (Unit {0})
unfolding append_webhooks with_outbox
insert_webhooks new_id tenant_id event_type operation_id payload d = with_outbox d (
    append_webhooks d.webhook_outbox (
      map (λ e. new_webhook tenant_id event_type operation_id payload d.now e (new_id e.id))
        (select_where (is_enabled_for tenant_id) d.webhook_endpoints)))

-- `id=$1 AND tenant_id=$2`.
unfoldable pub is_endpoint : String → String → EndpointRow → Bool
is_endpoint id tenant_id e = e.id == id && e.tenant_id == tenant_id

-- `INSERT INTO usage.webhook_endpoints`: the tenant must exist and the identifier be new.
unfoldable pub insert_endpoint : String → String → String → String → Statement (Unit {0})
insert_endpoint id tenant_id url secret d =
    if any (λ e. e.id == id) d.webhook_endpoints
    then none
    else if any (λ t. t.id == tenant_id) d.tenants
    then some (
      tt,
      record d {
        webhook_endpoints =
            d.webhook_endpoints
            ++ record {
              id = id;
              tenant_id = tenant_id;
              url = url;
              secret = secret;
              enabled = true;
              created_at = d.now;
            }
              ∷ [];
      },
    )
    else none

-- `DELETE FROM usage.webhook_endpoints WHERE …`: a row of the outbox that names the endpoint
-- forbids it (the outbox's foreign key).
unfoldable pub delete_endpoint : String → String → Statement ℕ
delete_endpoint id tenant_id d =
    if any (λ o. any (λ e. is_endpoint id tenant_id e && e.id == o.endpoint_id) d.webhook_endpoints)
      d.webhook_outbox
    then none
    else some (
      count_where (is_endpoint id tenant_id) d.webhook_endpoints,
      record d {
        webhook_endpoints =
            select_where (λ e. not (is_endpoint id tenant_id e)) d.webhook_endpoints;
      },
    )
