-- ===== src/Operations/Refusing.antt =====
-- The checks of `create` of cmd/operations/main.go, against what a submission has to be.
use sde_thp.Prelude.{
  ℕ, suc, zero, ◌≤◌, ◌≡◌, ◌⊎◌, inl, inr, refl, Bool, true, false, not, ◌&&◌, ◌||◌, String, some,
  byte_length, ℤ, pos, negsuc, ltb_ℤ, ltb, arith, ◌==◌, starts_with, trim_space, Bool-cases,
  if◌then◌else◌,
}
use sde_thp.Effect.{World, Result, ok, err, http, lift, ◌>>=◌}
use sde_thp.Operations.Reply.{Headers, bound}
use sde_thp.Operations.Create.{
  CreateInput, is_http, or_three, or_default, check_input, check_key, create,
}

-- A body that may be submitted: a task type, an http or https target, at most ten attempts (0
-- stands for the default), and one of the two modes or none.
pub record IsFit (body : CreateInput) : Type 0 where
  pub typed : (body.task_type == "") ≡ false
  pub targeted : (body.target_url == "") ≡ false
  pub scheme :
      (starts_with body.target_url "http://" || starts_with body.target_url "https://") ≡ true
  pub attempts : (n : ℕ) × ((body.max_attempts ≡ pos n) × (n ≤ 10))
  pub mode :
      (body.execution_mode == ""
        || body.execution_mode == "PRIVATE"
        || body.execution_mode == "CLOUD")
      ≡ true

-- A key that may be used: 1 to 200 bytes without the space around them.
pub record IsFitKey (header : String) : Type 0 where
  pub given : (trim_space header == "") ≡ false
  pub short : byte_length (trim_space header) ≤ 200

-- The one refusal, or a value with what it says.
data Checked {A : Type 0} (Q : Type 0) (r : Result A) : Type 0 where
  declined : (message : String) → r ≡ err (http 400 message) → Checked Q r
  passed : (a : A) → Q → r ≡ ok a → Checked Q r

attempts_fit :
    (n : ℤ)
    → (ltb_ℤ (or_three n) (pos 1) || ltb_ℤ (pos 10) (or_three n)) ≡ false
    → (k : ℕ) × ((n ≡ pos k) × (k ≤ 10))
unfolding or_three
attempts_fit (pos zero) h = (0, (refl, ground arith))
attempts_fit (pos (suc k)) h = (suc k, (refl, ground arith))
attempts_fit (negsuc k) h = absurd (ground (arith, h))

mode_fit :
    (mode : String)
    → (not (or_default mode "PRIVATE" == "PRIVATE") && not (or_default mode "PRIVATE" == "CLOUD"))
      ≡ false
    → (mode == "" || mode == "PRIVATE" || mode == "CLOUD") ≡ true
unfolding or_default
mode_fit mode h = elim (Bool-cases (mode == "")) [
  | inl e ↦ rw e refl
  | inr e ↦ rw e (named (mode == "PRIVATE") (mode == "CLOUD") (given e h))
]
  where
    given :
        {b : Bool}
        → b ≡ false
        → (not ((if b then "PRIVATE" else mode) == "PRIVATE")
            && not ((if b then "PRIVATE" else mode) == "CLOUD"))
          ≡ false
        → (not (mode == "PRIVATE") && not (mode == "CLOUD")) ≡ false
    given e = rw e (λ k. k)

    named : (a b : Bool) → (not a && not b) ≡ false → (a || b) ≡ true
    named true b k = refl
    named false true k = refl
    named false false k = cc

check_input-Checked : (body : CreateInput) → Checked (IsFit body) (check_input body)
unfolding check_input is_http
check_input-Checked body = elim (Bool-cases (body.task_type == "" || body.target_url == "")) [
  | inl e ↦ rw e (declined _ refl)
  | inr given ↦
      rw given
        (elim (Bool-cases
          (starts_with body.target_url "http://" || starts_with body.target_url "https://")) [
            | inr e ↦ rw e (declined _ refl)
            | inl scheme ↦
                rw scheme
                  (elim (Bool-cases (
                    ltb_ℤ (or_three body.max_attempts) (pos 1)
                    || ltb_ℤ (pos 10) (or_three body.max_attempts))) [
                      | inl e ↦ rw e (declined _ refl)
                      | inr attempts ↦
                          rw attempts
                            (elim (Bool-cases (
                              not (or_default body.execution_mode "PRIVATE" == "PRIVATE")
                              && not (or_default body.execution_mode "PRIVATE" == "CLOUD"))) [
                                | inl e ↦ rw e (declined _ refl)
                                | inr mode ↦ rw mode (
                                    passed _
                                      (record {
                                        typed = ground (arith, given);
                                        targeted = ground (arith, given);
                                        scheme = scheme;
                                        attempts = attempts_fit body.max_attempts attempts;
                                        mode = mode_fit body.execution_mode mode;
                                      })
                                      refl)
                              ])
                    ])
          ])
]

check_key-Checked : (header : String) → Checked (IsFitKey header) (check_key header)
unfolding check_key
check_key-Checked header = elim (Bool-cases (trim_space header == "")) [
  | inl e ↦ rw e (declined _ refl)
  | inr given ↦ rw given (elim (Bool-cases (ltb 200 (byte_length (trim_space header)))) [
    | inl e ↦ rw e (declined _ refl)
    | inr short ↦ rw short (passed _ (record { given = given; short = ground (arith, short) }) refl)
  ])
]

-- A submission whose body or whose Idempotency-Key header is not fit is answered by a 400 before
-- any call is made: tables, clock and commands are as they were. A fit body has a task type, an
-- http or https target, 0 to 10 attempts and the mode PRIVATE, CLOUD or none; a fit key has 1 to
-- 200 bytes.
pub create-refused :
    (month_start : ℕ → ℕ) (id : String) (headers : Headers) (body : CreateInput) (w : World)
    → ((¬ IsFit body) ⊎ (¬ IsFitKey headers.idempotency_key))
    → (message : String) × (create month_start id headers (some body) w
        ≡ (err (http 400 message), w))
unfolding create bound lift ◌>>=◌
create-refused month_start id headers body w unfit = checked (check_input-Checked body)
  where
    keyed :
        (c : CreateInput)
        → IsFit body
        → check_input body ≡ ok c
        → Checked (IsFitKey headers.idempotency_key) (check_key headers.idempotency_key)
        → (message : String) × (create month_start id headers (some body) w
            ≡ (err (http 400 message), w))
    keyed c fit e (declined message k) = (message, rw e (rw k refl))
    keyed c fit e (passed key fit_key k) = absurd (elim unfit [ inl f ↦ f fit | inr f ↦ f fit_key ])

    checked :
        Checked (IsFit body) (check_input body)
        → (message : String) × (create month_start id headers (some body) w
            ≡ (err (http 400 message), w))
    checked (declined message e) = (message, rw e refl)
    checked (passed c fit e) = keyed c fit e (check_key-Checked headers.idempotency_key)
