-- ===== src/Operations/Replay.antt =====
-- `create` of cmd/operations/main.go under a key that was used before.
use sde_thp.Prelude.{
  ℕ, ◌≡◌, refl, Bool, true, false, String, Option, some, List, [], ◌∷◌, any, ◌∙◌, first_where, ◌==◌,
  leb, Bool-cases, inl, inr, if◌then◌else◌,
}
use sde_thp.Database.{Database, OperationRow, TenantRow}
use sde_thp.Effect.{
  Error, M, World, Command, Result, ok, err, http, lift, raise_if, pure, ◌>>=◌, ◌>>◌, exec, query,
}
use sde_thp.Effect.Calm.{calm, calm-bind, calm-exec_result, calm-query_result}
use sde_thp.Effect.Hoare.{Hoare, Hoare-bind, Hoare-pure, Hoare-guard, Keeps-lift, Keeps-query}
use sde_thp.Effect.Steps.{query_at, exec_at, lift_ok}
use sde_thp.Operations.Statements.{
  find_operation, find_tenant, used_units, count_running, has_key, insert_operation,
}
use sde_thp.Operations.Reply.{Headers, Reply, bound, reply, one, scan_operation, or_no_rows}
use sde_thp.Operations.Create.{CreateInput, new_row, check_input, check_key, submit, admit, create}

first_where-any :
    {A : Type 0} (p : A → Bool) (xs : List A) {x : A} → first_where p xs ≡ some x → any p xs ≡ true
first_where-any p [] h = cc
first_where-any p (y ∷ ys) h = elim (Bool-cases (p y)) [
  | inl e ↦ rw e refl
  | inr e ↦ rw e (first_where-any p ys (below e h))
]
  where
    below :
        {b : Bool} {o : Option _}
        → b ≡ false
        → (if b then some y else first_where p ys) ≡ o
        → first_where p ys ≡ o
    below e = rw e (λ k. k)

module _ (month_start : ℕ → ℕ) (start : Database) (tenant key id : String)
    (old : OperationRow) where
  insert-idle :
      (input : CreateInput)
      → find_operation (has_key tenant key) start ≡ some old
      → insert_operation (new_row id tenant key input start.now) start ≡ some (0, start)
  unfolding insert_operation find_operation new_row
  insert-idle input h = rw (first_where-any (has_key tenant key) start.operations h) refl

  admit-replay :
      (input : CreateInput)
      → find_operation (has_key tenant key) start ≡ some old
      → (old.id == id) ≡ false
      → Hoare
          (λ d. d ≡ start)
          (admit month_start id tenant key input)
          (λ r d. (r ≡ reply 200 (one (scan_operation old))) × (d ≡ start))
          (λ d. d ≡ start)
  unfolding admit or_no_rows submit
  admit-replay input h other = Hoare-bind _ _ (Keeps-query _) λ found.
      Hoare-bind _ _ (Keeps-lift _) λ account. Hoare-bind _ _ (Keeps-query _) λ used.
        Hoare-bind _ _ (Keeps-query _) λ running.
          Hoare-guard _ _ _ (λ d e. e)
            λ _.
              Hoare-guard _ _ _ (λ d e. e)
                λ _. exec_at start _ _ 0 start (insert-idle input h) refl refl (
                  query_at start _ _ refl
                    (rw h (lift_ok old _ (rw other (Hoare-pure _ (λ d e. (refl, e)))))))

-- What a repeated submission is answered: the limits are looked at first.
abbrev pub replayed : (ℕ → ℕ) → Database → String → TenantRow → OperationRow → Result Reply
replayed month_start d tenant account old =
    if leb account.monthly_quota (used_units month_start tenant d)
    then err (http 402 "monthly quota exhausted")
    else if leb account.concurrency_limit (count_running tenant d)
    then err (http 429 "tenant concurrency limit reached")
    else ok (reply 200 (one (scan_operation old)))

guarded :
    {B : Type 0} (b : Bool) (e : Error) (next : M B) (w : World)
    → (raise_if b e >> next) w ≡ (if b then (err e, w) else next w)
unfolding raise_if ◌>>=◌
guarded true e next w = refl
guarded false e next w = refl

module _ (month_start : ℕ → ℕ) (start : Database) (tenant key id : String) (old : OperationRow)
    (input : CreateInput) (account : TenantRow) (time : ℕ) (sent : List Command)
    (present : find_tenant tenant start ≡ some account)
    (h : find_operation (has_key tenant key) start ≡ some old)
    (other : (old.id == id) ≡ false) where
  abbrev still : World
  still = calm start time sent

  found_old :
      (do
        exec (λ d. insert_operation (new_row id tenant key input d.now) d)
        found ← lift (or_no_rows (← query (find_operation (has_key tenant key))))
        submit id tenant input found)
        still
      ≡ (ok (reply 200 (one (scan_operation old))), still)
  unfolding or_no_rows submit pure lift
  found_old =
      calm-bind _ _ still (
        calm-exec_result start time sent
          (λ d. insert_operation (new_row id tenant key input d.now) d) 0 start
          (insert-idle month_start start tenant key id old input h))
      ∙ calm-bind _ _ still
          (calm-query_result start time sent (find_operation (has_key tenant key)))
      ∙ calm-bind (lift (or_no_rows (find_operation (has_key tenant key) start))) _ still {a = old}
          {w' = still} (rw h refl)
      ∙ rw other refl

  limited :
      (full busy : Bool) (x : Result Reply × World)
      → x ≡ (ok (reply 200 (one (scan_operation old))), still)
      → (if full
          then (err (http 402 "monthly quota exhausted"), still)
          else if busy
          then (err (http 429 "tenant concurrency limit reached"), still)
          else x)
        ≡ (
          if full
              then err (http 402 "monthly quota exhausted")
              else if busy
              then err (http 429 "tenant concurrency limit reached")
              else ok (reply 200 (one (scan_operation old))),
          still,
        )
  limited true busy x e = refl
  limited false true x e = refl
  limited false false x e = e

  admit-calm :
      admit month_start id tenant key input still
      ≡ (replayed month_start start tenant account old, still)
  unfolding admit or_no_rows lift
  admit-calm =
      calm-bind _ _ still (calm-query_result start time sent (find_tenant tenant))
      ∙ calm-bind (lift (or_no_rows (find_tenant tenant start))) _ still {a = account} {w' = still}
          (rw present refl)
      ∙ calm-bind _ _ still (calm-query_result start time sent (used_units month_start tenant))
      ∙ calm-bind _ _ still (calm-query_result start time sent (count_running tenant))
      ∙ guarded (leb account.monthly_quota (used_units month_start tenant start)) _ _ still
      ∙ rw
          (guarded (leb account.concurrency_limit (count_running tenant start))
            (http 429 "tenant concurrency limit reached")
            (do
              exec (λ d. insert_operation (new_row id tenant key input d.now) d)
              found ← lift (or_no_rows (← query (find_operation (has_key tenant key))))
              submit id tenant input found)
            still)
          (limited (leb account.monthly_quota (used_units month_start tenant start))
            (leb account.concurrency_limit (count_running tenant start)) _ found_old)

create-calm :
    (month_start : ℕ → ℕ) (id key : String) (headers : Headers) (body checked : CreateInput)
    (w : World)
    → check_input body ≡ ok checked
    → check_key headers.idempotency_key ≡ ok key
    → create month_start id headers (some body) w
      ≡ admit month_start id headers.tenant key checked w
unfolding create bound lift ◌>>=◌
create-calm month_start id key headers body checked w b k = rw b (rw k refl)

-- A submission that passes the checks, under a key that the tenant has used before. While no call
-- fails no table changes, no command is sent and the answer is 402 where the monthly quota is
-- used up, else 429 where the concurrency limit is reached, else 200 with the earlier operation.
-- Whichever calls fail no table changes, and the answer is that 200 if it is no error.
pub create-replay :
    (month_start : ℕ → ℕ) (start : Database) (id key : String) (headers : Headers)
    (body checked : CreateInput) (account : TenantRow) (old : OperationRow)
    → check_input body ≡ ok checked
    → check_key headers.idempotency_key ≡ ok key
    → find_tenant headers.tenant start ≡ some account
    → find_operation (has_key headers.tenant key) start ≡ some old
    → (old.id == id) ≡ false
    → ((time : ℕ) (sent : List Command)
        → create month_start id headers (some body) (calm start time sent)
          ≡ (replayed month_start start headers.tenant account old, calm start time sent))
      × Hoare
          (λ d. d ≡ start)
          (create month_start id headers (some body))
          (λ r d. (r ≡ reply 200 (one (scan_operation old))) × (d ≡ start))
          (λ d. d ≡ start)
unfolding create bound
create-replay month_start start id key headers body checked account old b k present h other = (
  λ time sent.
      create-calm month_start id key headers body checked (calm start time sent) b k
      ∙ admit-calm month_start start headers.tenant key id old checked account time sent present h
          other,
  lift_ok body _ (
      rw b (
        lift_ok checked _ (
          rw k (
            lift_ok key _
              (admit-replay month_start start headers.tenant key id old checked h other))))),
)
