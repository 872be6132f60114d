-- ===== src/Operations/Invariant/Tables.antt =====
-- Every statement of cmd/operations/main.go keeps the database in order.
use sde_thp.Prelude.{
  ℕ, ◌+◌, ◌≤◌, ◌<◌, ◌≡◌, ◌≢◌, refl, sym, ◌∙◌, ap, Bool, true, false, String, some, List, [], ◌∷◌,
  ◌++◌, arith, ◌==◌, eq_iff, All, Distinct, count_where, update_where, All-update_where, All-append,
  All-map, Distinct-append, Distinct-update_where, count-update_where, count-update_where-le,
  count-le-one, Bool-cases, and-elim, and-intro, inl, inr, any,
}
use mathlib.Core.Path.{subst}
use sde_thp.Database.{Database, OperationRow, TenantRow}
use sde_thp.Operations.Rows.{has_id, is_running}
use sde_thp.Operations.Statements.{has_key, find_tenant, count_running, is_running_in}
use sde_thp.Operations.Rows.{set_running}
use sde_thp.Operations.Claim.{is_claimable}
use sde_thp.Operations.Invariant.Rows.{set_running-IsRowValid}
use sde_thp.Operations.Invariant.{IsRowValid, IsValid, same_id, same_key}

-- A SET clause that leaves the identity of a row alone.
pub record KeepsIdentity (f : OperationRow → OperationRow) : Type 0 where
  pub id : (o : OperationRow) → (f o).id ≡ o.id
  pub tenant : (o : OperationRow) → (f o).tenant_id ≡ o.tenant_id
  pub key : (o : OperationRow) → (f o).idempotency_key ≡ o.idempotency_key

abbrev pub with_operations : Database → List OperationRow → Database
with_operations d os = record d { operations = os }

module _ (p : OperationRow → Bool) (f : OperationRow → OperationRow) (keep : KeepsIdentity f)
    (d : Database) (h : IsValid d) where
  ids_updated : Distinct same_id (update_where p f d.operations)
  ids_updated =
      Distinct-update_where same_id p f (λ x y. rw (keep.id x)) (λ x y. rw (keep.id y)) d.operations
        h.ids

  keys_updated : Distinct same_key (update_where p f d.operations)
  unfolding has_key
  keys_updated =
      Distinct-update_where same_key p f (λ x y. rw (keep.tenant x, keep.key x))
        (λ x y. rw (keep.tenant y, keep.key y)) d.operations h.keys

  -- An UPDATE that starts no operation.
  pub update-IsValid :
      ((o : OperationRow)
        → p o ≡ true
        → is_running (f o).status ≡ true
        → is_running o.status ≡ true)
      → All (λ o. p o ≡ true → IsRowValid (f o)) d.operations
      → IsValid (with_operations d (update_where p f d.operations))
  unfolding find_tenant count_running is_running_in
  update-IsValid calm safe = record {
    rows = All-update_where IsRowValid p f d.operations safe h.rows;
    ids = ids_updated;
    keys = keys_updated;
    limits = λ tenant account e. omega (arith, h.limits tenant account e, counted tenant);
  }
    where
      counted :
          (tenant : String)
          → count_where (is_running_in tenant) (update_where p f d.operations)
            ≤ count_where (is_running_in tenant) d.operations
      counted tenant =
          count-update_where-le (is_running_in tenant) p f
            (λ o e k.
              let (t, r) = and-elim _ _ (rw (keep.tenant o) at k) in and-intro t (calm o e r))
            d.operations

pub set_running-KeepsIdentity :
    (worker : String) (n now : ℕ) → KeepsIdentity (set_running worker n now)
unfolding set_running
set_running-KeepsIdentity worker n now = record {
  id = λ o. refl;
  tenant = λ o. refl;
  key = λ o. refl;
}

is_claimable-met :
    (tenant id : String) (x y : OperationRow)
    → is_claimable tenant id x ≡ true
    → is_claimable tenant id y ≡ true
    → same_id y x ≡ true
unfolding is_claimable
is_claimable-met tenant id x y h k = (eq_iff x.id y.id).1 (
    (eq_iff x.id id).0 (and-elim _ _ (and-elim _ _ h).0).0
    ∙ sym ((eq_iff y.id id).0 (and-elim _ _ (and-elim _ _ k).0).0))

module _ (tenant id worker : String) (n : ℕ) (d : Database) (h : IsValid d) where
  f : OperationRow → OperationRow
  f = set_running worker n d.now

  claimed : List OperationRow
  unfolding f
  claimed = update_where (is_claimable tenant id) f d.operations

  -- One more operation of the claiming tenant runs, and none of another tenant.
  claim_counted :
      (other : String)
      → (count_where (is_running_in other) claimed
          ≤ count_where (is_running_in other) d.operations + 1)
        × (other ≢ tenant
            → count_where (is_running_in other) claimed
              ≤ count_where (is_running_in other) d.operations)
  unfolding claimed f set_running is_claimable is_running_in
  claim_counted other = (
    omega (
      arith,
      count-update_where (is_running_in other) (is_claimable tenant id) f d.operations,
      count-le-one same_id (is_claimable tenant id) (is_claimable-met tenant id) d.operations h.ids,
    ),
    λ ne.
        count-update_where-le (is_running_in other) (is_claimable tenant id) f
          (λ o e k. absurd (
            ne (
              sym ((eq_iff o.tenant_id other).0 (and-elim _ _ k).0)
              ∙ (eq_iff o.tenant_id tenant).0 (and-elim _ _ (and-elim _ _ e).0).1)))
          d.operations,
  )

  within_limit :
      (other : String)
      → ((account : TenantRow)
          → find_tenant tenant d ≡ some account
          → count_running tenant d < account.concurrency_limit)
      → (account : TenantRow) → find_tenant other d ≡ some account
      → count_where (is_running_in other) claimed ≤ account.concurrency_limit
  unfolding count_running
  within_limit other room account e = elim (Bool-cases (other == tenant)) [
    | inl same ↦
        let t : other ≡ tenant = (eq_iff other tenant).0 same in
        omega (
          arith,
          (claim_counted other).0,
          room account (subst (λ s. find_tenant s d ≡ some account) t e),
          ap (λ s. count_running s d) t,
        )
    | inr differs ↦ omega (
      arith,
      (claim_counted other).1 (λ t. ground (arith, (eq_iff other tenant).1 t)),
      h.limits other account e,
    )
  ]

  -- A claim that found its tenant below the limit keeps every tenant within its limit.
  pub claim-IsValid :
      ((account : TenantRow)
        → find_tenant tenant d ≡ some account
        → count_running tenant d < account.concurrency_limit)
      → IsValid (
          with_operations d
            (update_where (is_claimable tenant id) (set_running worker n d.now) d.operations))
  unfolding claimed f find_tenant count_running is_claimable
  claim-IsValid room = record {
    rows =
        All-update_where IsRowValid (is_claimable tenant id) f d.operations
          (All-map IsRowValid (λ o. is_claimable tenant id o ≡ true → IsRowValid (f o))
            (λ o v e. set_running-IsRowValid d.now o v worker n (and-elim _ _ e).1) d.operations
            h.rows)
          h.rows;
    ids = ids_updated (is_claimable tenant id) f (set_running-KeepsIdentity worker n d.now) d h;
    keys = keys_updated (is_claimable tenant id) f (set_running-KeepsIdentity worker n d.now) d h;
    limits = λ other account e. within_limit other room account e;
  }

count-append :
    {A : Type 0} (p : A → Bool) (xs : List A) (x : A)
    → p x ≡ false
    → count_where p (xs ++ x ∷ []) ≡ count_where p xs
count-append p [] x e = ground arith
count-append p (y ∷ xs) x e = ground (arith, count-append p xs x e)

-- A new row in order, under a new id and a new key, that does not run.
pub insert-IsValid :
    (o : OperationRow) (d : Database)
    → IsValid d
    → IsRowValid o
    → is_running o.status ≡ false
    → any (has_id o.id) d.operations ≡ false
    → any (has_key o.tenant_id o.idempotency_key) d.operations ≡ false
    → IsValid (with_operations d (d.operations ++ o ∷ []))
unfolding find_tenant count_running is_running_in
insert-IsValid o d h v idle id key = record {
  rows = All-append IsRowValid d.operations (o ∷ []) h.rows (v, tt);
  ids = Distinct-append same_id d.operations o h.ids id;
  keys = Distinct-append same_key d.operations o h.keys key;
  limits = λ tenant account e.
      rw (count-append (is_running_in tenant) d.operations o (ground arith))
        (h.limits tenant account e);
}

-- The other tables and the clock play no part.
pub IsValid-of_same :
    (d d' : Database)
    → d'.operations ≡ d.operations
    → d'.tenants ≡ d.tenants
    → IsValid d
    → IsValid d'
unfolding find_tenant count_running
IsValid-of_same d d' os ts h = record {
  rows = rw os h.rows;
  ids = rw os h.ids;
  keys = rw os h.keys;
  limits = λ tenant account e. rw os (h.limits tenant account (rw ts at e));
}
