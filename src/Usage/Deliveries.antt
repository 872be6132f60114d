-- ===== src/Usage/Deliveries.antt =====
-- `dispatchBatch` and `deliver` of cmd/usage/main.go. What an HTTP call with a delivery and its
-- signature brings back is an argument, and so is the HMAC.
use Prim.Native.Nat.{min}
use Prim.Native.String.{◌++◌}
use sde_thp.Prelude.{
  ℕ, ◌+◌, ◌*◌, ◌^◌, Bool, true, false, ◌&&◌, ◌||◌, String, Option, none, some, List, [], ◌∷◌, leb,
  ltb, ◌==◌, decimal, take, any, first_where, select_where, update_where, if◌then◌else◌,
}
use sde_thp.Domain.{second}
use sde_thp.Database.{
  Database, EndpointRow, WebhookRow, WebhookStatus, webhook_pending, webhook_in_flight,
  webhook_delivered, webhook_dead_lettered,
}
use sde_thp.Effect.{M, pure, ◌>>=◌, ◌>>◌, exec, Statement, commit, transaction}
use sde_thp.Operations.Reply.{ignore}
use sde_thp.Operations.Outbox.{HttpResult, no_response, response}
use sde_thp.Usage.Statements.{has_webhook_id}

unfoldable pub is_waiting : WebhookStatus → Bool
is_waiting webhook_pending = true
is_waiting _ = false

unfoldable pub is_in_flight : WebhookStatus → Bool
is_in_flight webhook_in_flight = true
is_in_flight _ = false

-- `o.status='PENDING' AND o.next_attempt_at<=now()`.
unfoldable pub is_due : ℕ → WebhookRow → Bool
unfolding is_waiting
is_due now o = is_waiting o.status && leb o.next_attempt_at now

-- `ORDER BY o.created_at`.
unfoldable pub insert_created : WebhookRow → List WebhookRow → List WebhookRow
insert_created o [] = o ∷ []
insert_created o (x ∷ xs) =
    let rest = insert_created o xs in if ltb x.created_at o.created_at then x ∷ rest else o ∷ x ∷ xs

unfoldable pub by_created : List WebhookRow → List WebhookRow
by_created [] = []
by_created (x ∷ xs) = insert_created x (by_created xs)

-- `WITH picked AS …`.
unfoldable pub picked : Database → List WebhookRow
unfolding by_created insert_created is_due
picked d = take 20 (by_created (select_where (is_due d.now) d.webhook_outbox))

-- `type delivery struct`.
pub record Delivery : Type 0 where
  pub id : String
  pub tenant_id : String
  pub url : String
  pub secret : String
  pub event_type : String
  pub operation_id : String
  pub payload : String
  pub attempt : ℕ

unfoldable pub delivery_of : WebhookRow → EndpointRow → Delivery
delivery_of o e = record {
  id = o.id;
  tenant_id = o.tenant_id;
  url = e.url;
  secret = e.secret;
  event_type = o.event_type;
  operation_id = o.operation_id;
  payload = o.payload;
  attempt = o.attempt;
}

unfoldable pub add_delivery : WebhookRow → Option EndpointRow → List Delivery → List Delivery
unfolding delivery_of
add_delivery o none xs = xs
add_delivery o (some e) xs = delivery_of o e ∷ xs

-- The rows that the UPDATE returns: those whose endpoint is there.
unfoldable pub joined : List EndpointRow → List WebhookRow → List Delivery
unfolding add_delivery
joined es [] = []
joined es (o ∷ os) = add_delivery o (first_where (λ e. e.id == o.endpoint_id) es) (joined es os)

unfoldable pub has_endpoint : List EndpointRow → WebhookRow → Bool
has_endpoint es o = any (λ e. e.id == o.endpoint_id) es

-- `o.id=picked.id AND e.id=o.endpoint_id`.
unfoldable pub is_picked : Database → WebhookRow → Bool
unfolding has_endpoint
is_picked d o = any (has_webhook_id o.id) (picked d) && has_endpoint d.webhook_endpoints o

unfoldable pub set_in_flight : WebhookRow → WebhookRow
set_in_flight o = record o { status = webhook_in_flight }

unfoldable pub pick : Statement (List Delivery)
unfolding joined delivery_of
pick d = some (
  joined d.webhook_endpoints (picked d),
  record d { webhook_outbox = update_where (is_picked d) set_in_flight d.webhook_outbox },
)

-- The error of one delivery; `none` is success.
unfoldable pub delivery_error : HttpResult → Option String
delivery_error (no_response message) = some message
delivery_error (response code) =
    if ltb code 200 || leb 300 code then some ("webhook returned " ++ decimal code) else none

-- `WHERE id=$1 AND status='IN_FLIGHT'`.
unfoldable pub is_sent : String → WebhookRow → Bool
unfolding is_in_flight
is_sent id o = has_webhook_id id o && is_in_flight o.status

unfoldable pub update_webhook : String → (ℕ → WebhookRow → WebhookRow) → Statement (Unit {0})
unfolding is_sent
update_webhook id set d =
    some (tt, record d { webhook_outbox = update_where (is_sent id) (set d.now) d.webhook_outbox })

unfoldable pub set_delivered : ℕ → WebhookRow → WebhookRow
set_delivered now o = record o {
  status = webhook_delivered;
  delivered_at = some now;
  attempt = o.attempt + 1;
}

unfoldable pub set_dead_lettered : ℕ → String → ℕ → WebhookRow → WebhookRow
set_dead_lettered attempt message now o = record o {
  status = webhook_dead_lettered;
  attempt = attempt;
  last_error = some message;
}

unfoldable pub set_postponed : ℕ → String → ℕ → WebhookRow → WebhookRow
set_postponed attempt message now o = record o {
  status = webhook_pending;
  attempt = attempt;
  last_error = some message;
  next_attempt_at = now + 2 ^ min attempt 8 * second;
}

-- The UPDATE after an HTTP call; its own error is dropped.
unfoldable pub settle_delivery : Delivery → Option String → M (Unit {0})
settle_delivery x none = ignore (exec (update_webhook x.id set_delivered))
settle_delivery x (some message) =
    if leb 8 (x.attempt + 1)
    then ignore (exec (update_webhook x.id (set_dead_lettered (x.attempt + 1) message)))
    else ignore (exec (update_webhook x.id (set_postponed (x.attempt + 1) message)))

module _ (sign : String → String → String) (post : Delivery → String → HttpResult) where
  unfoldable pub deliver : Delivery → M (Unit {0})
  unfolding settle_delivery delivery_error
  deliver x = settle_delivery x (delivery_error (post x (sign x.secret x.payload)))

  unfoldable pub deliver_all : List Delivery → M (Unit {0})
  unfolding deliver
  deliver_all [] = pure tt
  deliver_all (x ∷ xs) = deliver x >> deliver_all xs

  unfoldable pub dispatch_batch : M (Unit {0})
  unfolding deliver_all
  dispatch_batch = do
    items ← transaction (exec pick >>= λ items. pure (commit items))
    deliver_all items
