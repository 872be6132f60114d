-- ===== src/Usage/Charging.antt =====
-- `recordEvent` of cmd/usage/main.go: what one event adds to the tables.
use mathlib.Core.Path.{subst}
use mathlib.Core.Option.{some-injective}
use sde_thp.Prelude.{
  ℕ, ◌≡◌, ◌⊎◌, inl, inr, refl, sym, ap, ◌∙◌, true, false, String, some, List, [], ◌∷◌, ◌++◌, pos,
  pos_part, ltb_ℤ, ◌==◌, any, map, arith, append-nil, append_assoc, select_where, nat_eq,
  Bool-cases, Option-cases, if◌then◌else◌,
}
use sde_thp.Contracts.{OperationEvent}
use sde_thp.Database.{Database, LedgerRow, WebhookRow}
use sde_thp.Effect.Hoare.{
  Hoare, Hoare-imply, Done, refuse, wrote, Ends, Hoare-bind, Hoare-exec, Hoare-pure, Hoare-if,
  Done-imply, Keeps-clock, Keeps-announce, Hoare-if, Done-imply,
}
use sde_thp.Effect.Steps.{transaction_at, lift_ok, pass_guard}
use sde_thp.Operations.Reply.{bound}
use sde_thp.Usage.Reply.{reply, nothing}
use sde_thp.Usage.Statements.{
  has_event_key, has_webhook_id, insert_ledger, insert_webhooks, append_webhooks, is_enabled_for,
  new_webhook,
}
use sde_thp.Usage.Record.{
  with_defaults, is_incomplete, announce_to, charge, record_checked, record_event,
}

append_webhooks_lem :
    (rows os rows' : List WebhookRow) → append_webhooks rows os ≡ some rows' → rows' ≡ rows ++ os
unfolding append_webhooks
append_webhooks_lem rows [] rows' e = sym (some-injective rows rows' e) ∙ sym (append-nil rows)
append_webhooks_lem rows (o ∷ os) rows' e = elim (Bool-cases (any (has_webhook_id o.id) rows)) [
  | inl old ↦ cc
  | inr fresh ↦ append_webhooks_lem (rows ++ o ∷ []) os rows' (cc) ∙ append_assoc rows (o ∷ []) os
]

module _ (new_id : String → String) (start : Database) (event : OperationEvent) where
  abbrev pub payload : String
  payload = if event.payload == "" then "{}" else event.payload

  -- The charge of the event.
  abbrev pub ledger_row : LedgerRow
  ledger_row = record {
    tenant_id = event.tenant_id;
    operation_id = event.operation_id;
    event_key = event.event_key;
    units = pos_part event.units;
    metadata = payload;
    created_at = start.now;
  }

  -- One waiting delivery for each enabled endpoint of the tenant.
  abbrev pub webhook_rows : List WebhookRow
  webhook_rows =
      map
        (λ e.
          new_webhook event.tenant_id event.event_type event.operation_id payload start.now e
            (new_id e.id))
        (select_where (is_enabled_for event.tenant_id) start.webhook_endpoints)

  -- The event was new, and is charged and announced once.
  pub record Recorded (d : Database) : Type 0 where
    pub is_new : any (has_event_key event.event_key) start.ledger ≡ false
    pub tables : d ≡ record start {
      ledger = start.ledger ++ ledger_row ∷ [];
      webhook_outbox = start.webhook_outbox ++ webhook_rows;
    }

  abbrev pub Repeated : Database → Type 0
  Repeated d = (any (has_event_key event.event_key) start.ledger ≡ true) × (d ≡ start)

  abbrev pub Charged : Database → Type 0
  Charged d = Repeated d ⊎ Recorded d

  abbrev pub Untouched : Database → Type 0
  Untouched d = (d ≡ start) ⊎ Recorded d

  abbrev with_row : Database
  with_row = record start { ledger = start.ledger ++ ledger_row ∷ [] }

  -- After the INSERT into the ledger.
  abbrev Inserted : ℕ → Database → Type 0
  Inserted rows d =
      ((rows ≡ 0) × (any (has_event_key event.event_key) start.ledger ≡ true) × (d ≡ start))
      ⊎ ((rows ≡ 1) × (any (has_event_key event.event_key) start.ledger ≡ false) × (d ≡ with_row))

  insert_ledger-Inserted :
      Done Inserted
        (insert_ledger event.tenant_id event.operation_id event.event_key event.units payload start)
  unfolding insert_ledger
  insert_ledger-Inserted = elim (Bool-cases (ltb_ℤ event.units (pos 0))) [
    | inl negative ↦ rw negative refuse
    | inr positive ↦
        rw positive (elim (Bool-cases (any (has_event_key event.event_key) start.ledger)) [
          | inl old ↦ rw old (wrote (inl (refl, old, refl)))
          | inr fresh ↦
              rw fresh (elim (Bool-cases (any (λ t. t.id == event.tenant_id) start.tenants)) [
                | inl known ↦ rw known (wrote (inr (refl, fresh, refl)))
                | inr unknown ↦ rw unknown refuse
              ])
        ])
  ]

  insert_webhooks-Recorded :
      any (has_event_key event.event_key) start.ledger ≡ false
      → Done
          (λ _ d. Recorded d)
          (insert_webhooks new_id event.tenant_id event.event_type event.operation_id payload
            with_row)
  unfolding insert_webhooks
  insert_webhooks-Recorded fresh =
      elim (Option-cases (append_webhooks start.webhook_outbox webhook_rows)) [
        | inl clash ↦ rw clash refuse
        | inr (rows, fits) ↦ rw fits (
            wrote (record {
              is_new = fresh;
              tables =
                  ap
                    (λ r. record start {
                      ledger = start.ledger ++ ledger_row ∷ [];
                      webhook_outbox = r;
                    })
                    (append_webhooks_lem start.webhook_outbox webhook_rows rows fits);
            }))
      ]

  Untouched-of : (d : Database) → Charged d → Untouched d
  Untouched-of d (inl c) = inl c.1
  Untouched-of d (inr r) = inr r

  module _ (marshal_event : OperationEvent → String) (now : ℕ) where
    Hoare-announce_to :
        (rows : ℕ)
        → Hoare
            (Inserted rows)
            (announce_to new_id marshal_event (with_defaults now event) rows)
            (λ _. Charged)
            (λ _. Unit)
    unfolding announce_to with_defaults
    Hoare-announce_to rows =
        Hoare-if _ _ _ (λ none_new. Hoare-pure _ (λ d c. repeated none_new d c))
          (λ one_new.
            Hoare-exec _ λ d c. let q = recorded one_new d c in (q, Done-imply (λ _ _ _. tt) q, tt))
      where
        repeated : nat_eq rows 0 ≡ true → (d : Database) → Inserted rows d → Charged d
        repeated e d (inl c) = inl (c.1, c.2)
        repeated e d (inr c) = (let one = c.0 in ground arith)

        recorded :
            nat_eq rows 0 ≡ false
            → (d : Database) → Inserted rows d
            → Done
                (λ _. Charged)
                (insert_webhooks new_id event.tenant_id event.event_type event.operation_id payload
                  d)
        recorded e d (inl c) = (let zero = c.0 in ground arith)
        recorded e d (inr c) =
            subst
              (λ x.
                Done (λ _. Charged)
                  (insert_webhooks new_id event.tenant_id event.event_type event.operation_id
                    payload x))
              (sym c.2) (Done-imply (λ _ _. inr) (insert_webhooks-Recorded c.1))

    Hoare-charge :
        Hoare
          (λ d. d ≡ start)
          (charge new_id marshal_event (with_defaults now event))
          (Ends (λ _. Charged) Untouched start)
          (λ _. Unit)
    unfolding charge with_defaults
    Hoare-charge =
        Hoare-bind {R = Inserted} _ _
          (Hoare-exec _ λ d e.
            let q =
              subst
                (λ x. Done Inserted (
                  insert_ledger event.tenant_id event.operation_id event.event_key event.units
                    payload x))
                (sym e) insert_ledger-Inserted in
            (q, Done-imply (λ _ _ _. tt) q, tt))
          (λ rows.
            Hoare-bind {R = λ _. Charged} _ _ (Hoare-announce_to rows)
              λ _. Hoare-pure _ (λ d c. (c, Untouched-of d c)))

  module _ (marshal_event : OperationEvent → String) where
    -- One event that names its key, operation and tenant, whichever calls fail: if it is answered,
    -- the answer is 202, and either the ledger had its key and no table has changed, or the key
    -- was new and the ledger has one more row, with the event's units, and the outbox one waiting
    -- delivery for each enabled endpoint of the tenant; if it fails, the tables are as before or
    -- all of that is written.
    pub record_event-Recorded :
        is_incomplete event ≡ false
        → Hoare
            (λ d. d ≡ start)
            (record_event new_id marshal_event (some event))
            (λ r d. (r ≡ reply 202 nothing) × Charged d)
            Untouched
    unfolding record_event record_checked bound
    record_event-Recorded complete = lift_ok _ _ (
        pass_guard _ _ _ complete (
          Hoare-bind {R = λ _ d. d ≡ start} _ _
            (Hoare-imply _ (λ d p. p) (λ d p. inl p) Keeps-clock)
            λ now.
              Hoare-bind {R = λ _. Charged} _ _
                (transaction_at start _ (inl refl) (Hoare-charge marshal_event now))
                λ _.
                  Hoare-bind _ _ (Hoare-imply _ (λ d p. p) Untouched-of (Keeps-announce _))
                    λ _. Hoare-pure _ (λ d c. (refl, c))))
