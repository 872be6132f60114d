-- ===== src/Usage/Sending.antt =====
-- The webhook outbox of cmd/usage/main.go: what `dispatchBatch` may do to a row.
pub mod Picking
pub mod Rounds
use sde_thp.Prelude.{
  ℕ, ◌≤◌, ◌≡◌, refl, sym, ap, ◌∙◌, Bool, true, false, ◌||◌, String, Option, none, some, List, [],
  ◌∷◌, All, Extends, ◌==◌, first_where, update_where, if◌then◌else◌,
}
use sde_thp.Database.{
  Database, EndpointRow, WebhookRow, WebhookStatus, webhook_pending, webhook_in_flight,
  webhook_delivered, webhook_dead_lettered,
}
use sde_thp.Operations.Outbox.{HttpResult}
use sde_thp.Usage.Deliveries.{Delivery, delivery_of, delivery_error, is_waiting}

abbrev pub has_arrived : WebhookStatus → Bool
has_arrived webhook_delivered = true
has_arrived _ = false

abbrev pub is_open : WebhookStatus → Bool
is_open webhook_pending = true
is_open webhook_in_flight = true
is_open _ = false

-- Eight attempts at most, and one is left where the row is not settled.
pub record IsBounded (o : WebhookRow) : Type 0 where
  pub all : o.attempt ≤ 8
  pub left : is_open o.status ≡ true → o.attempt ≤ 7

abbrev pub same_id : WebhookRow → WebhookRow → Bool
same_id o x = o.id == x.id

module _ (start : Database) where
  -- The delivery of a waiting row to its endpoint.
  pub record IsFor (o : WebhookRow) (x : Delivery) : Type 0 where
    pub waiting : is_waiting o.status ≡ true
    pub endpoint : EndpointRow
    pub found : first_where (λ e. e.id == o.endpoint_id) start.webhook_endpoints ≡ some endpoint
    pub made : x ≡ delivery_of o endpoint

  module _ (sign : String → String → String) (post : Delivery → String → HttpResult) where
    -- The endpoint has answered by a code from 200 to 299 to the payload with its signature.
    pub record HasArrived (o : WebhookRow) : Type 0 where
      pub delivery : Delivery
      pub addressed : IsFor o delivery
      pub accepted : delivery_error (post delivery (sign delivery.secret delivery.payload)) ≡ none

    -- A later state of a row: a row that was not waiting has not changed, the content of the others
    -- is the same, the attempts stay bounded, and a row that has become delivered has arrived.
    pub record Progress (o o' : WebhookRow) : Type 0 where
      pub idle : is_waiting o.status ≡ false → o' ≡ o
      pub same : o' ≡ record o {
        status = o'.status;
        attempt = o'.attempt;
        next_attempt_at = o'.next_attempt_at;
        last_error = o'.last_error;
        delivered_at = o'.delivered_at;
      }
      pub bounded : IsBounded o → IsBounded o'
      pub arrived : has_arrived o.status ≡ false → has_arrived o'.status ≡ true → HasArrived o

    abbrev pub Progressed : Database → Type 0
    Progressed d = Extends Progress start.webhook_outbox d.webhook_outbox

    pub Progress-refl : (o : WebhookRow) → Progress o o
    Progress-refl o = record {
      idle = λ _. refl;
      same = refl;
      bounded = λ h. h;
      arrived = λ h k. cc;
    }

-- An update of the later rows, under what is known of the earlier ones.
pub Extends-updated :
    {A : Type 0} (R : A → A → Type 0) (C : A → Type 0) (p : A → Bool) (f : A → A)
    → ((x y : A) → C x → R x y → p y ≡ true → R x (f y))
    → (xs ys : List A) → All C xs
    → Extends R xs ys
    → Extends R xs (update_where p f ys)
Extends-updated R C p f k [] ys c h = tt
Extends-updated R C p f k (x ∷ xs) [] c h = h
Extends-updated {A} R C p f k (x ∷ xs) (y ∷ ys) c h =
    (updated (p y) refl, Extends-updated R C p f k xs ys c.1 h.1)
  where
    updated : (b : Bool) → p y ≡ b → R x (if b then f y else y)
    updated true e = k x y c.0 h.0 e
    updated false e = h.0

-- An update of a table, under what is known of its rows.
pub Extends-struck :
    {A : Type 0} (R : A → A → Type 0) (C : A → Type 0) (p : A → Bool) (f : A → A)
    → ((x : A) → R x x)
    → ((x : A) → C x → p x ≡ true → R x (f x))
    → (xs : List A) → All C xs
    → Extends R xs (update_where p f xs)
Extends-struck R C p f r k [] c = tt
Extends-struck {A} R C p f r k (x ∷ xs) c = (struck (p x) refl, Extends-struck R C p f r k xs c.1)
  where
    struck : (b : Bool) → p x ≡ b → R x (if b then f x else x)
    struck true e = k x c.0 e
    struck false e = r x
