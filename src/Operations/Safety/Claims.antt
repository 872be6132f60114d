-- ===== src/Operations/Safety/Claims.antt =====
-- Claims: the transaction that starts an operation, its handlers, and the poll of a private
-- worker.
use sde_thp.Prelude.{
  ℕ, ◌≡◌, ◌∙◌, Bool, true, false, String, Option, none, some, List, [], ◌∷◌, leb, arith,
  update_where,
}
use sde_thp.Contracts.{QueueEnvelope}
use sde_thp.Database.{Database, OperationRow, TenantRow}
use sde_thp.Effect.{M, ok}
use sde_thp.Effect.Hoare.{
  Hoare, Keeps, wrote, Hoare-bind, Hoare-query, Hoare-lift, Hoare-if, Hoare-exec, Hoare-pure,
  Keeps-bind, Keeps-pure, Keeps-query, Keeps-send, Keeps-raise, Keeps-transaction, keeps_rules,
}
use sde_thp.Operations.Json.{Json}
use sde_thp.Operations.Rows.{set_running}
use sde_thp.Operations.Statements.{update_operations, find_tenant, count_running}
use sde_thp.Operations.Reply.{Headers, Reply, or_no_rows}
use sde_thp.Operations.Claim.{
  ClaimInput, is_claimable, take_lease, claim_for, claim_found, claim_operation, claim,
}
use sde_thp.Operations.Poll.{
  Redis, Message, Answer, nil, value, broken, after_claim, poll_message, poll_messages, poll_answer,
  worker_poll, decoded,
}
use sde_thp.Operations.History.{Sound}
use sde_thp.Operations.History.Steps.{claim-Sound}
use sde_thp.Operations.Safety.{Keeps-ignore, Keeps-caught}

pub or_no_rows-some : {A : Type 0} (o : Option A) (a : A) → or_no_rows o ≡ ok a → o ≡ some a
unfolding or_no_rows
or_no_rows-some none a e = cc
or_no_rows-some (some b) a e = ground arith

module _ (before : Database) where
  -- The tables while the claiming transaction holds the lock on its tenant.
  abbrev HasRoom : String → TenantRow → ℕ → Database → Type 0
  HasRoom tenant account running d =
      (Sound before d × (find_tenant tenant d ≡ some account)) × (count_running tenant d ≡ running)

  take_lease-Sound :
      (tenant id worker : String) (n : ℕ) (account : TenantRow) (running : ℕ)
      → leb account.concurrency_limit running ≡ false
      → Hoare
          (HasRoom tenant account running)
          (take_lease tenant id worker n)
          (λ _. Sound before)
          (Sound before)
  unfolding take_lease update_operations
  take_lease-Sound tenant id worker n account running free =
      Hoare-bind _ _ (Hoare-exec _ λ d h. (wrote (started d h), wrote (started d h), h.0.0))
        (λ rows. Keeps-pure _)
    where
      started :
          (d : Database)
          → HasRoom tenant account running d
          → Sound before (record d {
            operations =
                update_where (is_claimable tenant id) (set_running worker n d.now) d.operations;
          })
      started d h = claim-Sound before d h.0.0 tenant id worker n (λ found e. ground arith)

  claim_for-Sound :
      (tenant id worker : String) (n : ℕ) → Keeps (Sound before) (claim_for tenant id worker n)
  unfolding claim_for
  claim_for-Sound tenant id worker n =
      Hoare-bind _ _ (Hoare-query (find_tenant tenant) (λ d p. p)) λ found.
        Hoare-bind _ _
          (Hoare-lift {Q = λ account d. Sound before d × (find_tenant tenant d ≡ some account)}
            (or_no_rows found) (λ account e d p. (p.0, p.1 ∙ or_no_rows-some found account e))
            (λ d p. p.0))
          λ account. Hoare-bind _ _ (Hoare-query (count_running tenant) (λ d p. p.0)) λ running.
            Hoare-if (leb account.concurrency_limit running) _ _ (λ _. Hoare-pure _ (λ d p. p.0.0))
              (take_lease-Sound tenant id worker n account running)

  pub claim_operation-Sound :
      (id expected worker : String) (n : ℕ)
      → Keeps (Sound before) (claim_operation id expected worker n)
  unfolding claim_operation
  claim_operation-Sound id expected worker n =
      Keeps-transaction _ (Keeps-bind _ _ (Keeps-query _) found)
    where
      found : (o : Option OperationRow) → Keeps (Sound before) (claim_found o id worker n)
      found none = Keeps-pure _
      found (some o) = claim_for-Sound o.tenant_id id worker n

  pub claim-Keeps : (id : String) (body : Option ClaimInput) → Keeps (Sound before) (claim id body)
  unfolding claim
  claim-Keeps id body = search (keeps_rules, claim_operation-Sound)

  module _ (json : Json) (tenant worker : String) where
    after_claim-Sound :
        (id : String) (e : QueueEnvelope) (rest : M Reply) (claimed : Bool)
        → Keeps (Sound before) rest
        → Keeps (Sound before) (after_claim json tenant worker id e rest claimed)
    unfolding after_claim
    after_claim-Sound id e rest true k = search (keeps_rules, Keeps-ignore)
    after_claim-Sound id e rest false k = search (keeps_rules, Keeps-ignore, Keeps-caught)

    poll_messages-Sound :
        (ms : List Message) → Keeps (Sound before) (poll_messages json tenant worker ms)
    unfolding poll_messages
    poll_messages-Sound [] = Keeps-pure _
    poll_messages-Sound (m ∷ ms) = polled (decoded json tenant m.envelope) (poll_messages-Sound ms)
      where
        polled :
            (e : Option QueueEnvelope)
            → Keeps (Sound before) (poll_messages json tenant worker ms)
            → Keeps
                (Sound before)
                (poll_message json tenant worker m.id e (poll_messages json tenant worker ms))
        polled none k = Keeps-bind _ _ (Keeps-ignore _ (Keeps-send _)) (λ _. k)
        polled (some e) k =
            Keeps-bind _ _ (claim_operation-Sound e.operation_id tenant worker 45)
              (λ outcome. after_claim-Sound m.id e _ outcome.1 k)

    poll_answer-Sound :
        (a : Answer (List Message)) → Keeps (Sound before) (poll_answer json tenant worker a)
    unfolding poll_answer
    poll_answer-Sound nil = Keeps-pure _
    poll_answer-Sound (value ms) = poll_messages-Sound ms
    poll_answer-Sound broken = Keeps-raise _

  pub worker_poll-Sound :
      (json : Json) (redis : Redis) (headers : Headers) (worker : String)
      → Keeps (Sound before) (worker_poll json redis headers worker)
  unfolding worker_poll
  worker_poll-Sound json redis headers worker = search (keeps_rules, poll_answer-Sound)
