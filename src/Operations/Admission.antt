-- ===== src/Operations/Admission.antt =====
-- `create` of cmd/operations/main.go: when a submission is accepted, and what it writes.
use sde_thp.Prelude.{
  All, All-first_where, first_where, sym, ap, ◌∙◌, ℕ, ◌≡◌, ◌<◌, ◌⊎◌, inl, inr, refl, Bool, true,
  false, String, none, some, List, [], ◌∷◌, ◌++◌, arith, Option-cases, Bool-cases, any, ◌==◌,
  if◌then◌else◌, pos_part,
}
use sde_thp.Domain.{pending}
use sde_thp.Database.{Database, TenantRow, OperationRow}
use mathlib.Core.Path.{subst}
use sde_thp.Effect.{ok}
use sde_thp.Effect.Hoare.{
  Hoare, Hoare-imply, Done, refuse, wrote, Hoare-bind, Hoare-pure, Hoare-guard, Hoare-if,
  Hoare-exec, Hoare-query, Keeps-send, Hoare-lift,
}
use sde_thp.Effect.Steps.{query_at, lift_ok, lift_err}
use sde_thp.Operations.Rows.{has_id}
use sde_thp.Operations.Statements.{
  find_operation, has_key, insert_operation, find_tenant, used_units, count_running,
}
use sde_thp.Operations.Reply.{Headers, Reply, bound, or_no_rows}
use sde_thp.Operations.Safety.Claims.{or_no_rows-some}
use sde_thp.Operations.Create.{CreateInput, new_row, check_input, check_key, submit, admit, create}

-- What no row satisfies, each row fails.
unsatisfied :
    {A : Type 0} (p : A → Bool) (xs : List A) → first_where p xs ≡ none → All (λ x. p x ≡ false) xs
unsatisfied p [] h = tt
unsatisfied p (x ∷ xs) h = fails (p x) refl h (unsatisfied p xs)
  where
    fails :
        (b : Bool)
        → p x ≡ b
        → (if b then some x else first_where p xs) ≡ none
        → (first_where p xs ≡ none → All (λ x. p x ≡ false) xs)
        → (p x ≡ false) × All (λ x. p x ≡ false) xs
    fails true e h k = cc
    fails false e h k = (e, k h)

module _ (month_start : ℕ → ℕ) (start : Database) (id : String) where
  -- The tenant was below its monthly quota and below its concurrency limit, its key was unused,
  -- and the one change is a new PENDING row with what was submitted.
  pub record Admitted (tenant key : String) (input : CreateInput) (d : Database) : Type 0 where
    pub account : TenantRow
    pub tenant_row : find_tenant tenant start ≡ some account
    pub quota : used_units month_start tenant start < account.monthly_quota
    pub room : count_running tenant start < account.concurrency_limit
    pub unused : any (has_key tenant key) start.operations ≡ false
    pub inserted : d ≡ record start {
      operations =
          start.operations
          ++ record {
            id = id;
            tenant_id = tenant;
            task_type = input.task_type;
            execution_mode = input.execution_mode;
            target_url = input.target_url;
            payload = input.payload;
            status = pending;
            attempt = 0;
            max_attempts = pos_part input.max_attempts;
            deadline = input.deadline;
            lease_owner = none;
            lease_expires_at = none;
            result = none;
            error_code = none;
            error_message = none;
            ai_explanation = none;
            idempotency_key = key;
            version = 0;
            created_at = start.now;
            updated_at = start.now;
          }
            ∷ [];
    }

  abbrev pub MayAdmit : String → String → CreateInput → Database → Type 0
  MayAdmit tenant key input d = (d ≡ start) ⊎ Admitted tenant key input d

  module _ (tenant key : String) (input : CreateInput) where
    insert-MayAdmit :
        (account : TenantRow)
        → find_tenant tenant start ≡ some account
        → used_units month_start tenant start < account.monthly_quota
        → count_running tenant start < account.concurrency_limit
        → Done
            (λ _. MayAdmit tenant key input)
            (insert_operation (new_row id tenant key input start.now) start)
    unfolding insert_operation new_row
    insert-MayAdmit account present quota room =
        elim (Bool-cases (any (has_key tenant key) start.operations)) [
          | inl used ↦ rw used (wrote (inl refl))
          | inr unused ↦ rw unused (elim (Bool-cases (any (has_id id) start.operations)) [
            | inl taken ↦ rw taken refuse
            | inr fresh ↦ rw fresh (elim (Bool-cases (any (λ t. t.id == tenant) start.tenants)) [
              | inr unknown ↦ rw unknown refuse
              | inl known ↦ rw known (
                  wrote (
                    inr (record {
                      account = account;
                      tenant_row = present;
                      quota = quota;
                      room = room;
                      unused = unused;
                      inserted = refl;
                    })))
            ])
          ])
        ]

    -- What a reply of 202 says of the tables.
    abbrev pub Answers : Reply → Database → Type 0
    Answers r d = MayAdmit tenant key input d × (r.code ≡ 202 → Admitted tenant key input d)

    -- The row under the key has the new identifier only if it was inserted.
    inserted_now :
        (d : Database) (row : OperationRow)
        → find_operation (has_id id) start ≡ none
        → (row.id == id) ≡ true
        → MayAdmit tenant key input d
        → find_operation (has_key tenant key) d ≡ some row
        → Admitted tenant key input d
    unfolding find_operation
    inserted_now d row fresh mine (inr h) found = h
    inserted_now d row fresh mine (inl e) found = absurd (
        clash
          (All-first_where (λ x. has_id id x ≡ false) (has_key tenant key) start.operations
            (unsatisfied (has_id id) start.operations fresh)
            (ap (λ x. first_where (has_key tenant key) x.operations) (sym e) ∙ found)).0)
      where
        clash : has_id id row ≡ false → ⊥
        clash q = ground (arith, q, mine)

    submit-Answers :
        (row : OperationRow)
        → find_operation (has_id id) start ≡ none
        → Hoare
            (λ d. MayAdmit tenant key input d × (find_operation (has_key tenant key) d ≡ some row))
            (submit id tenant input row)
            Answers
            (MayAdmit tenant key input)
    unfolding submit
    submit-Answers row fresh =
        Hoare-if (row.id == id) _ _
          (λ mine.
            Hoare-imply {P' = Admitted tenant key input} {E' = Admitted tenant key input} _
              (λ d p. inserted_now d row fresh mine p.0 p.1) (λ d h. inr h)
              (Hoare-bind _ _ (Keeps-send _) (λ _. Hoare-pure _ (λ d h. (inr h, λ _. h)))))
          (λ other. Hoare-pure _ (λ d p. (p.0, λ e. absurd (no_code e))))
      where
        no_code : ◌≡◌ {A = ℕ} 200 202 → ⊥
        no_code e = omega (arith, e)

    admit-Answers :
        find_operation (has_id id) start ≡ none
        → Hoare
            (λ d. d ≡ start)
            (admit month_start id tenant key input)
            Answers
            (MayAdmit tenant key input)
    unfolding admit or_no_rows
    admit-Answers fresh =
        query_at start _ _ (inl refl) (elim (Option-cases (find_tenant tenant start)) [
          | inl absent ↦ rw absent (lift_err _ _ (λ d e. inl e))
          | inr (account, present) ↦ rw present (
              lift_ok _ _ (
                query_at start _ _ (inl refl) (
                  query_at start _ _ (inl refl) (
                    Hoare-guard _ _ _ (λ d e. inl e)
                      λ quota.
                        Hoare-guard _ _ _ (λ d e. inl e)
                          λ room.
                            Hoare-bind {R = λ _. MayAdmit tenant key input} _ _
                              (let done =
                                  insert-MayAdmit account present (ground (arith, quota))
                                    (ground (arith, room)) in
                                Hoare-exec _ λ d e. (inserts d e done, inserts d e done, inl e))
                              λ n.
                                Hoare-bind _ _
                                  (Hoare-query (find_operation (has_key tenant key)) (λ d p. p))
                                  λ found.
                                    Hoare-bind _ _
                                      (Hoare-lift
                                        {Q = λ row d.
                                          MayAdmit tenant key input d
                                          × (find_operation (has_key tenant key) d ≡ some row)}
                                        (or_no_rows found)
                                        (λ row e d p. (p.0, p.1 ∙ or_no_rows-some found row e))
                                        (λ d p. p.0))
                                      (λ row. submit-Answers row fresh)))))
        ])
      where
        inserts :
            (d : Database)
            → d ≡ start
            → Done
                (λ _. MayAdmit tenant key input)
                (insert_operation (new_row id tenant key input start.now) start)
            → Done
                (λ _. MayAdmit tenant key input)
                (insert_operation (new_row id tenant key input d.now) d)
        inserts d e =
            subst
              (λ x.
                Done (λ _. MayAdmit tenant key input)
                  (insert_operation (new_row id tenant key input x.now) x))
              (sym e)

-- A submission under a new identifier, whichever calls fail: it changes no table, or it inserts
-- one PENDING row with what was submitted; it inserts, and it answers 202, only where the body
-- passed the checks, the tenant was below its monthly quota and its concurrency limit, and its
-- key was unused.
pub create-Admitted :
    (month_start : ℕ → ℕ) (start : Database) (id key : String) (headers : Headers)
    (body checked : CreateInput)
    → check_input body ≡ ok checked
    → check_key headers.idempotency_key ≡ ok key
    → find_operation (has_id id) start ≡ none
    → Hoare
        (λ d. d ≡ start)
        (create month_start id headers (some body))
        (Answers month_start start id headers.tenant key checked)
        (MayAdmit month_start start id headers.tenant key checked)
unfolding create bound
create-Admitted month_start start id key headers body checked b k fresh = lift_ok body _ (
    rw b (
      lift_ok checked _ (
        rw k
          (lift_ok key _ (admit-Answers month_start start id headers.tenant key checked fresh)))))
