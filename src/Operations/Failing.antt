-- ===== src/Operations/Failing.antt =====
-- `workerFail` of cmd/operations/main.go: the row, its event, and the decision to retry.
use sde_thp.Prelude.{
  ℕ, ◌+◌, ◌≤◌, ◌<◌, ◌≡◌, ◌⊎◌, inl, inr, refl, sym, true, false, ◌&&◌, String, Option, none, some,
  List, update_where, Option-cases, Bool-cases, ltb, arith,
}
use mathlib.Core.Path.{subst}
use sde_thp.Domain.{OperationStatus, retrying, dead_lettered, status_text, status_eq}
use sde_thp.Database.{Database, OperationRow, EventRow}
use sde_thp.Effect.{pure, ◌>>=◌, commit}
use sde_thp.Effect.Hoare.{
  Hoare, Hoare-imply, Keeps, Done, refuse, wrote, Ends, Hoare-bind, Hoare-guard, Hoare-pure,
  Hoare-exec, keeps_rules,
}
use sde_thp.Effect.Steps.{transaction_at, query_at, exec_at, lift_ok, lift_err}
use sde_thp.Operations.Json.{Json}
use sde_thp.Operations.Rows.{is_leased_in, set_failed}
use sde_thp.Operations.Statements.{find_operation, update_operations, insert_outbox}
use sde_thp.Operations.Reply.{Headers, or_http, bound}
use sde_thp.Operations.Finish.{
  FailInput, event_key_of, insert_event, recorded_payload, failure_status, failure_event, retry_if,
  worker_fail_row, worker_fail,
}
use sde_thp.Operations.Atomic.{
  attempt_key, event_row, document, IsAnnounced, Inserted, insert_outbox-Done,
}

-- To be retried, and announced as failed, where the failure is retryable and attempts are left; else
-- dead-lettered, and announced as such.
abbrev pub IsVerdict : FailInput → OperationRow → OperationStatus → String → Type 0
IsVerdict input row status kind =
    (((input.retryable ≡ true) × (row.attempt < row.max_attempts))
      × ((status ≡ retrying) × (kind ≡ "operation.failed")))
    ⊎ (((input.retryable ≡ false) ⊎ (row.max_attempts ≤ row.attempt))
        × ((status ≡ dead_lettered) × (kind ≡ "operation.dead_lettered")))

-- The row that the worker had leased has the status of the verdict, the worker's code, message and
-- explanation and no lease, the event of that is in the outbox, and nothing else has changed.
pub record Reported (json : Json) (start : Database) (tenant id : String) (input : FailInput)
    (d : Database) : Type 0 where
  pub row : OperationRow
  pub leased : find_operation (is_leased_in tenant id input.worker_id) start ≡ some row
  pub status : OperationStatus
  pub kind : String
  pub verdict : IsVerdict input row status kind
  pub outbox : List EventRow
  pub announced :
      IsAnnounced start.event_outbox
        (event_row
          (attempt_key row.id kind row.attempt)
          kind
          row.id
          tenant
          (document json (
            json.marshal_failure
              (status_text status)
              input.error_code
              input.error_message
              input.retryable))
          start.now)
        outbox
  pub tables : d ≡ record start {
    operations =
        update_where
          (is_leased_in tenant row.id input.worker_id)
          (λ o. record o {
            status = status;
            error_code = some input.error_code;
            error_message = some input.error_message;
            ai_explanation = some input.ai_explanation;
            lease_owner = none;
            lease_expires_at = none;
            version = o.version + 1;
            updated_at = start.now;
          })
          start.operations;
    event_outbox = outbox;
  }

decided :
    (input : FailInput) (row : OperationRow)
    → IsVerdict input row (failure_status input row) (failure_event (failure_status input row))
unfolding failure_status failure_event status_eq
decided input row = elim (Bool-cases (input.retryable && ltb row.attempt row.max_attempts)) [
  | inl e ↦ rw e (inl (ground (arith, e), (refl, refl)))
  | inr e ↦ rw e (inr (ground (arith, e), (refl, refl)))
]

module _ (json : Json) (start : Database) (headers : Headers) (id : String)
    (input : FailInput) where
  abbrev Settled : Database → Type 0
  Settled = Reported json start headers.tenant id input

  abbrev pub Intact : Database → Type 0
  Intact d = (d ≡ start) ⊎ Reported json start headers.tenant id input d

  module _ (row : OperationRow)
      (leased : find_operation (is_leased_in headers.tenant id input.worker_id) start
        ≡ some row) where
    abbrev updated : Database
    updated = record start {
      operations =
          update_where (is_leased_in headers.tenant row.id input.worker_id)
            (set_failed (failure_status input row) input.error_code input.error_message
              input.ai_explanation start.now)
            start.operations;
    }

    abbrev key : String
    key = event_key_of row.id (failure_event (failure_status input row)) row.attempt

    abbrev kind : String
    kind = failure_event (failure_status input row)

    abbrev payload : String
    payload =
        json.marshal_failure (status_text (failure_status input row)) input.error_code
          input.error_message input.retryable

    abbrev event : EventRow
    event = event_row key kind row.id headers.tenant (document json payload) start.now

    abbrev insert : Database → Option (ℕ × Database)
    insert = insert_outbox key kind row.id headers.tenant (document json payload)

    inserted : (d : Database) → d ≡ updated → Done (λ _. Inserted event updated) (insert d)
    inserted d same =
        subst (λ x. Done (λ _. Inserted event updated) (insert x)) (sym same)
          (insert_outbox-Done key kind row.id headers.tenant (document json payload) updated)

    finished :
        {o : Option (ℕ × Database)} → Done (λ _. Inserted event updated) o → Done (λ _. Settled) o
    unfolding event_key_of set_failed
    finished refuse = refuse
    finished (wrote q) = wrote (record {
      row = row;
      leased = leased;
      status = failure_status input row;
      kind = kind;
      verdict = decided input row;
      outbox = q.0;
      announced = q.1.0;
      tables = q.1.1;
    })

    ended :
        {o : Option (ℕ × Database)} → Done (λ _. Inserted event updated) o → Done (λ _ _. Unit) o
    ended refuse = refuse
    ended (wrote q) = wrote tt

    recorded :
        Hoare
          (λ d. d ≡ updated)
          (insert_event json key kind row.id headers.tenant payload >>= λ n. pure (commit tt))
          (Ends (λ _. Settled) Intact start)
          (λ _. Unit)
    unfolding insert_event recorded_payload
    recorded =
        Hoare-bind {R = λ _. Settled} _ _
          (Hoare-exec _ λ d e. let q = inserted d e in (finished q, ended q, tt))
          (λ n. Hoare-pure _ (λ d c. (c, inr c)))

    retry_if-Keeps : Keeps Settled (retry_if (failure_status input row) row)
    unfolding retry_if
    retry_if-Keeps = search keeps_rules

    worker_fail_row-Reported :
        Hoare (λ d. d ≡ start) (worker_fail_row json headers id input row) (λ _. Settled) Intact
    unfolding worker_fail_row update_operations
    worker_fail_row-Reported =
        Hoare-bind {R = λ _. Settled} _ _
          (transaction_at start _ (inl refl) (
            exec_at start _ _ _ updated refl tt tt (Hoare-guard _ _ _ (λ d e. tt) (λ _. recorded))))
          (λ _.
            Hoare-imply _ (λ d p. p) (λ d p. inr p)
              (Hoare-bind _ _ retry_if-Keeps (λ _. Hoare-pure _ (λ d c. c))))

  -- A private worker's report of failure, whichever calls fail. If it is answered: the operation
  -- that the worker had leased is RETRYING where the failure is retryable and attempts are left,
  -- else DEAD_LETTERED, with the reported code, message and explanation and without lease; the
  -- outbox has the event of that with the report (a new one at its end, unless it had one under that
  -- key), and nothing else has changed. If it fails: either that holds or no table has changed.
  pub worker_fail-Reported :
      Hoare
        (λ d. d ≡ start)
        (worker_fail json headers id (some input))
        (λ _. Reported json start headers.tenant id input)
        Intact
  unfolding worker_fail bound or_http
  worker_fail-Reported = lift_ok _ _ (
      query_at start _ _ (inl refl)
        (elim (Option-cases
          (find_operation (is_leased_in headers.tenant id input.worker_id) start)) [
            | inl absent ↦ rw absent (lift_err _ _ (λ d e. inl e))
            | inr (row, leased) ↦ rw leased (lift_ok _ _ (worker_fail_row-Reported row leased))
          ]))
