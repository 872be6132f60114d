-- ===== src/Operations/Isolation.antt =====
-- What one tenant sees of the others: `list` and `workerPoll` of cmd/operations/main.go.
use mathlib.Core.Path.{subst}
use mathlib.Core.Option.{some-injective}
use native.Mathlib.Nat.{le_trans}
use sde_thp.Prelude.{
  All-map, ℕ, zero, suc, ◌≡◌, ◌≤◌, ◌⊎◌, refl, Bool, true, false, ◌&&◌, Bool-cases, inl, inr, String,
  Option, none, some, List, [], ◌∷◌, ℤ, pos, negsuc, arith, All, All-take, length, take,
  select_where, ◌==◌, and-elim, ltb, if◌then◌else◌,
}
use sde_thp.Contracts.{QueueEnvelope}
use sde_thp.Database.{Database, OperationRow}
use sde_thp.Effect.{M, World, Result, ok, err}
use sde_thp.Effect.Hoare.{Hoare, Post, Hoare-if, Hoare-bind, Hoare-pure, Hoare-raise}
use sde_thp.Operations.Json.{Json}
use sde_thp.Operations.Rows.{of_tenant}
use sde_thp.Operations.Reply.{Headers, Reply, Body, nothing, job}
use sde_thp.Operations.Read.{page_size, is_listed, listed, newest_first, insert_newest}
use sde_thp.Operations.Poll.{
  Redis, Message, Answer, nil, value, broken, private_for, may_run, decoded, after_claim,
  poll_message, poll_messages, poll_answer, worker_poll,
}

page_size-le : (limit : ℤ) → page_size limit ≤ 100
unfolding page_size
page_size-le (pos n) = ground arith
page_size-le (negsuc n) = ground arith

length-take : {A : Type 0} (n : ℕ) (xs : List A) → length (take n xs) ≤ n
length-take zero xs = omega arith
length-take (suc n) [] = omega arith
length-take (suc n) (x ∷ xs) = ground (arith, length-take n xs)

module _ (P : OperationRow → Type 0) where
  insert_newest-All :
      (o : OperationRow) (xs : List OperationRow) → P o → All P xs → All P (insert_newest o xs)
  unfolding insert_newest
  insert_newest-All o [] p h = (p, tt)
  insert_newest-All o (x ∷ xs) p h =
      inserted (ltb o.created_at x.created_at) (insert_newest-All o xs p h.1)
    where
      inserted :
          (b : Bool)
          → All P (insert_newest o xs)
          → All P (if b then x ∷ insert_newest o xs else o ∷ x ∷ xs)
      inserted true k = (h.0, k)
      inserted false k = (p, h)

  newest_first-All : (xs : List OperationRow) → All P xs → All P (newest_first xs)
  unfolding newest_first
  newest_first-All [] h = tt
  newest_first-All (x ∷ xs) h = insert_newest-All x (newest_first xs) h.0 (newest_first-All xs h.1)

selected : {A : Type 0} (p : A → Bool) (xs : List A) → All (λ x. p x ≡ true) (select_where p xs)
selected p [] = tt
selected p (x ∷ xs) = elim (Bool-cases (p x)) [
  | inl e ↦ rw e (e, selected p xs)
  | inr e ↦ rw e (selected p xs)
]

-- `list` never returns more than 100 operations; each of them is the caller's tenant's, unless
-- the caller is an admin.
pub listed-tenant :
    (headers : Headers) (limit : ℤ) (status : String) (d : Database)
    → (length (listed headers limit status d) ≤ 100)
      × All
          (λ o. (headers.role == "admin" ≡ true) ⊎ (of_tenant headers.tenant o ≡ true))
          (listed headers limit status d)
unfolding listed is_listed
listed-tenant headers limit status d =
    let shown = newest_first (select_where (is_listed headers status) d.operations) in
    (
      le_trans (length-take (page_size limit) shown) (page_size-le limit),
      All-take Own (page_size limit) shown (
          newest_first-All Own _ (
            All-map (λ o. is_listed headers status o ≡ true) Own (λ o h. own o (is_listed_lem o h))
              _ (selected (is_listed headers status) d.operations))),
    )
  where
    Own : OperationRow → Type 0
    Own o = (headers.role == "admin" ≡ true) ⊎ (of_tenant headers.tenant o ≡ true)

    is_listed_lem :
        (o : OperationRow)
        → is_listed headers status o ≡ true
        → (if headers.role == "admin" then true else of_tenant headers.tenant o) ≡ true
    is_listed_lem o h = (and-elim _ _ h).0

    below : {b c : Bool} → b ≡ false → (if b then true else c) ≡ true → c ≡ true
    below e = rw e (λ k. k)

    own :
        (o : OperationRow)
        → (if headers.role == "admin" then true else of_tenant headers.tenant o) ≡ true
        → Own o
    own o h = elim (Bool-cases (headers.role == "admin")) [
      | inl e ↦ inl e
      | inr e ↦ inr (below e h)
    ]

-- The body names an operation of this tenant's that is for a private worker, or none.
abbrev pub IsFor : String → Body → Type 0
IsFor tenant (job e) = (e.tenant_id == tenant ≡ true) × (e.execution_mode == "PRIVATE" ≡ true)
IsFor tenant nothing = Unit
IsFor tenant _ = ⊥

module _ (json : Json) (tenant worker : String) where
  abbrev Anything : Database → Type 0
  Anything d = Unit

  abbrev Handed : Reply → Database → Type 0
  Handed r d = IsFor tenant r.body

  -- An action of which nothing is asked.
  any_action : {A : Type 0} (m : M A) → Hoare Anything m (λ _. Anything) Anything
  any_action {A} m = record { at = λ w p. ends (m w) }
    where
      ends : (x : Result A × World) → Post (λ _. Anything) Anything x
      ends (ok a, w) = tt
      ends (err e, w) = tt

  after_claim-IsFor :
      (id : String) (e : QueueEnvelope) (rest : M Reply) (claimed : Bool)
      → (e.tenant_id == tenant ≡ true) × (e.execution_mode == "PRIVATE" ≡ true)
      → Hoare Anything rest Handed Anything
      → Hoare Anything (after_claim json tenant worker id e rest claimed) Handed Anything
  unfolding after_claim
  after_claim-IsFor id e rest true h k =
      Hoare-bind _ _ (any_action _) (λ _. Hoare-pure _ (λ d p. h))
  after_claim-IsFor id e rest false h k = Hoare-bind _ _ (any_action _) λ found.
      Hoare-if (may_run found) _ _ (λ _. Hoare-pure _ (λ d p. tt))
        (λ _. Hoare-bind _ _ (any_action _) (λ _. k))

  private_for_lem :
      (o : Option QueueEnvelope) (e : QueueEnvelope)
      → private_for tenant o ≡ some e
      → (e.tenant_id == tenant ≡ true) × (e.execution_mode == "PRIVATE" ≡ true)
  unfolding private_for
  private_for_lem none e h = cc
  private_for_lem (some x) e h =
      elim (Bool-cases (x.tenant_id == tenant && x.execution_mode == "PRIVATE")) [
        | inl q ↦
            subst (λ z. (z.tenant_id == tenant ≡ true) × (z.execution_mode == "PRIVATE" ≡ true))
              (kept q h) (and-elim _ _ q)
        | inr q ↦ absurd (dropped q h)
      ]
    where
      kept : {b : Bool} → b ≡ true → (if b then some x else none) ≡ some e → x ≡ e
      kept q = rw q (λ h. some-injective x e h)

      dropped : {b : Bool} → b ≡ false → (if b then some x else none) ≡ some e → ⊥
      dropped q = rw q (λ h. cc)

  decoded_lem :
      (raw : Option String) (e : QueueEnvelope)
      → decoded json tenant raw ≡ some e
      → (e.tenant_id == tenant ≡ true) × (e.execution_mode == "PRIVATE" ≡ true)
  unfolding decoded
  decoded_lem none e h = cc
  decoded_lem (some raw) e h = private_for_lem (json.unmarshal_envelope raw) e h

  poll_messages-IsFor :
      (ms : List Message) → Hoare Anything (poll_messages json tenant worker ms) Handed Anything
  unfolding poll_messages
  poll_messages-IsFor [] = Hoare-pure _ (λ d p. tt)
  poll_messages-IsFor (m ∷ ms) =
      polled (decoded json tenant m.envelope) refl (poll_messages-IsFor ms)
    where
      polled :
          (o : Option QueueEnvelope)
          → decoded json tenant m.envelope ≡ o
          → Hoare Anything (poll_messages json tenant worker ms) Handed Anything
          → Hoare Anything
              (poll_message json tenant worker m.id o (poll_messages json tenant worker ms))
              Handed
              Anything
      polled none q k = Hoare-bind _ _ (any_action _) (λ _. k)
      polled (some e) q k =
          Hoare-bind _ _ (any_action _)
            (λ outcome. after_claim-IsFor m.id e _ outcome.1 (decoded_lem m.envelope e q) k)

  poll_answer-IsFor :
      (a : Answer (List Message))
      → Hoare Anything (poll_answer json tenant worker a) Handed Anything
  unfolding poll_answer
  poll_answer-IsFor nil = Hoare-pure _ (λ d p. tt)
  poll_answer-IsFor (value ms) = poll_messages-IsFor ms
  poll_answer-IsFor broken = Hoare-raise _ (λ d p. tt)

-- Whatever the stream holds and whatever fails, a poll hands a private worker no operation of
-- another tenant's and none that is for the CLOUD worker.
pub worker_poll-IsFor :
    (json : Json) (redis : Redis) (headers : Headers) (worker : String)
    → Hoare
        (λ d. Unit)
        (worker_poll json redis headers worker)
        (λ r d. IsFor headers.tenant r.body)
        (λ d. Unit)
unfolding worker_poll
worker_poll-IsFor json redis headers worker =
    Hoare-bind _ _ (any_action json headers.tenant worker _) λ _.
      Hoare-bind _ _ (any_action json headers.tenant worker _)
        λ cursor. poll_answer-IsFor json headers.tenant worker _
