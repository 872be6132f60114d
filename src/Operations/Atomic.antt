-- ===== src/Operations/Atomic.antt =====
-- `workerComplete` of cmd/operations/main.go: the row and its event, both or neither.
use mathlib.Core.Path.{subst}
use Prim.Native.String
use sde_thp.Prelude.{
  ℕ, ◌+◌, ◌≡◌, ◌⊎◌, inl, inr, refl, sym, Bool, true, false, not, ◌||◌, String, Option, none, some,
  List, [], ◌∷◌, ◌++◌, any, update_where, ◌==◌, Option-cases, Bool-cases, decimal, if◌then◌else◌,
}
use sde_thp.Domain.{succeeded}
use mathlib.Core.Option
use sde_thp.Database.{Database, OperationRow, EventRow, outbox_pending}
use sde_thp.Effect.{pure, ◌>>=◌, commit}
use sde_thp.Effect.Hoare.{Hoare, Done, refuse, wrote, Ends, Hoare-bind, Hoare-pure, Hoare-exec}
use sde_thp.Effect.Steps.{transaction_at, exec_at, lift_ok, lift_err}
use sde_thp.Operations.Json.{Json}
use sde_thp.Operations.Rows.{is_leased_in, set_succeeded}
use sde_thp.Operations.Statements.{find_operation, update_returning, insert_outbox}
use sde_thp.Operations.Reply.{Headers, or_http, bound}
use sde_thp.Operations.Leases.{idle_returning}
use sde_thp.Operations.Finish.{
  CompleteInput, event_key_of, insert_event, recorded_payload, worker_complete,
}

abbrev pub has_event : String → EventRow → Bool
has_event key e = e.event_key == key

-- The operation, the kind of the event and the attempt, with colons between them.
abbrev pub attempt_key : String → String → ℕ → String
attempt_key id kind attempt =
    String.◌++◌ id (String.◌++◌ ":" (String.◌++◌ kind (String.◌++◌ ":" (decimal attempt))))

-- A new event for the usage service, one unit.
abbrev pub event_row : String → String → String → String → String → ℕ → EventRow
event_row key kind id tenant payload now = record {
  event_key = key;
  event_type = kind;
  operation_id = id;
  tenant_id = tenant;
  units = 1;
  payload = payload;
  status = outbox_pending;
  attempt = 0;
  next_attempt_at = now;
  last_error = none;
  created_at = now;
  delivered_at = none;
}

-- The outbox has the event at its end, and all else as it was; or it is as it was, and had an
-- event with that key.
abbrev pub IsAnnounced : List EventRow → EventRow → List EventRow → Type 0
IsAnnounced es e es' =
    ((any (has_event e.event_key) es ≡ false) × (es' ≡ es ++ e ∷ []))
    ⊎ ((any (has_event e.event_key) es ≡ true) × (es' ≡ es))

-- A payload that is empty or no JSON is recorded as an empty document.
abbrev pub document : Json → String → String
document json text = if text == "" || not (json.valid text) then "{}" else text

-- The operation that the worker had leased is SUCCEEDED with the worker's result and explanation,
-- its lease and its error are gone, the event of its success with the result is in the outbox,
-- and nothing else has changed.
pub record Completed (json : Json) (start : Database) (tenant id : String) (done : CompleteInput)
    (d : Database) : Type 0 where
  pub row : OperationRow
  pub leased : find_operation (is_leased_in tenant id done.worker_id) start ≡ some row
  pub outbox : List EventRow
  pub announced :
      IsAnnounced start.event_outbox
        (event_row
          (attempt_key id "operation.succeeded" row.attempt)
          "operation.succeeded"
          id
          tenant
          (document json (Option.get_or done.result ""))
          start.now)
        outbox
  pub tables : d ≡ record start {
    operations =
        update_where
          (is_leased_in tenant id done.worker_id)
          (λ o. record o {
            status = succeeded;
            result = done.result;
            ai_explanation = some done.ai_explanation;
            error_code = none;
            error_message = none;
            lease_owner = none;
            lease_expires_at = none;
            version = o.version + 1;
            updated_at = start.now;
          })
          start.operations;
    event_outbox = outbox;
  }

-- The outbox is announced to, and no other table changes.
abbrev pub Inserted : EventRow → Database → Database → Type 0
Inserted e d d' =
    (es : List EventRow) × (IsAnnounced d.event_outbox e es × (d' ≡ record d { event_outbox = es }))

-- The INSERT of an event changes the outbox only.
pub insert_outbox-Done :
    (key kind id tenant payload : String) (d : Database)
    → Done
        (λ _. Inserted (event_row key kind id tenant payload d.now) d)
        (insert_outbox key kind id tenant payload d)
unfolding insert_outbox
insert_outbox-Done key kind id tenant payload d =
    elim (Bool-cases (any (has_event key) d.event_outbox)) [
      | inl e ↦ rw e (wrote (d.event_outbox, (inr (e, refl), refl)))
      | inr e ↦ rw e (
          wrote (
            d.event_outbox ++ event_row key kind id tenant payload d.now ∷ [],
            (inl (e, refl), refl),
          ))
    ]

module _ (json : Json) (start : Database) (headers : Headers) (id : String)
    (done : CompleteInput) where
  abbrev pub Either : Database → Type 0
  Either d = (d ≡ start) ⊎ Completed json start headers.tenant id done d

  abbrev selects : OperationRow → Bool
  selects = is_leased_in headers.tenant id done.worker_id

  abbrev updated : Database
  updated = record start {
    operations =
        update_where selects (set_succeeded done.result done.ai_explanation start.now)
          start.operations;
  }

  -- What is left of the transaction once the UPDATE has returned its row.
  recorded :
      (row : OperationRow)
      → find_operation selects start ≡ some row
      → Hoare
          (λ d. d ≡ updated)
          (insert_event json
              (event_key_of id "operation.succeeded" row.attempt)
              "operation.succeeded"
              id
              headers.tenant
              (Option.get_or done.result "")
            >>= λ n. pure (commit tt))
          (Ends (λ _. Completed json start headers.tenant id done) Either start)
          (λ _. Unit)
  unfolding insert_event recorded_payload event_key_of set_succeeded
  recorded row leased =
      Hoare-bind {R = λ _. Completed json start headers.tenant id done} _ _
        (Hoare-exec _ λ d e. let q = at d e in (finished q, ended q, tt))
        (λ n. Hoare-pure _ (λ d c. (c, inr c)))
    where
      key : String
      key = event_key_of id "operation.succeeded" row.attempt

      insert : Database → Option (ℕ × Database)
      insert =
          insert_outbox key "operation.succeeded" id headers.tenant
            (document json (Option.get_or done.result ""))

      e : EventRow
      e =
          event_row key "operation.succeeded" id headers.tenant
            (document json (Option.get_or done.result "")) start.now

      at : (d : Database) → d ≡ updated → Done (λ _. Inserted e updated) (insert d)
      at d same =
          subst (λ x. Done (λ _. Inserted e updated) (insert x)) (sym same)
            (insert_outbox-Done key "operation.succeeded" id headers.tenant _ updated)

      finished :
          {o : Option (ℕ × Database)}
          → Done (λ _. Inserted e updated) o
          → Done (λ _. Completed json start headers.tenant id done) o
      finished refuse = refuse
      finished (wrote q) =
          wrote
            (record { row = row; leased = leased; outbox = q.0; announced = q.1.0; tables = q.1.1 })

      ended : {o : Option (ℕ × Database)} → Done (λ _. Inserted e updated) o → Done (λ _ _. Unit) o
      ended refuse = refuse
      ended (wrote q) = wrote tt

  returned :
      (row : OperationRow)
      → find_operation selects start ≡ some row
      → update_returning selects (set_succeeded done.result done.ai_explanation) start
        ≡ some (some (set_succeeded done.result done.ai_explanation start.now row), updated)
  unfolding update_returning find_operation
  returned row leased i =
      some
        (Option.map (set_succeeded done.result done.ai_explanation start.now) (leased i), updated)

  -- A private worker's report of success, whichever calls fail. If it is answered: the operation
  -- that the worker had leased is SUCCEEDED with the reported result and explanation and without
  -- lease and error, the outbox has an event of the success with the result (a new one at its
  -- end, unless it had one under that key), and nothing else has changed. If it fails: either that
  -- holds or no table has changed.
  pub worker_complete-atomic :
      Hoare
        (λ d. d ≡ start)
        (worker_complete json headers id (some done))
        (λ _. Completed json start headers.tenant id done)
        Either
  unfolding worker_complete bound or_http set_succeeded
  worker_complete-atomic = lift_ok _ _ (
      Hoare-bind _ _
        (transaction_at start _ (inl refl) (elim (Option-cases (find_operation selects start)) [
          | inl absent ↦
              exec_at start _ _ none start (idle_returning start selects absent _) tt tt
                (lift_err _ _ (λ d q. tt))
          | inr (row, leased) ↦
              exec_at start _ _ _ updated (returned row leased) tt tt
                (lift_ok _ _ (recorded row leased))
        ]))
        (λ _. Hoare-pure _ (λ d c. c)))
