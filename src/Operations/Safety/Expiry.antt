-- ===== src/Operations/Safety/Expiry.antt =====
-- The rows that the lease reaper reads and writes: by the primary key, the same ones.
use sde_thp.Prelude.{
  ℕ, ◌≡◌, refl, Bool, true, false, ◌&&◌, String, List, [], ◌∷◌, All, All-map, arith, and-elim,
  Bool-cases, inl, inr, ltb, eq_iff, Distinct, if◌then◌else◌,
}
use sde_thp.Domain.{retrying, dead_lettered}
use sde_thp.Database.{Database, OperationRow}
use sde_thp.Operations.Rows.{has_id, is_running, is_expired, set_expired}
use sde_thp.Operations.Reaper.{insert_expiry, by_expiry, expiry}
use sde_thp.Operations.Invariant.{same_id}

-- While `x` runs, it has the attempts of `o`, which the batch read under the same id.
abbrev pub Agrees : OperationRow → OperationRow → Type 0
Agrees o x =
    (has_id o.id x ≡ true)
    → is_running x.status ≡ true
    → (x.attempt ≡ o.attempt) × (x.max_attempts ≡ o.max_attempts)

-- The tables agree with every row of the batch that is still to come.
abbrev pub Reading : List OperationRow → Database → Type 0
Reading os d = All (λ o. All (Agrees o) d.operations) os

pub expired_running :
    (now : ℕ) (o x : OperationRow)
    → (has_id o.id x && is_expired now x) ≡ true
    → is_running x.status ≡ true
unfolding is_expired
expired_running now o x e = (and-elim _ _ (and-elim _ _ e).1).0

-- A row that the reaper writes stops running, so it agrees with whatever was read.
pub stopped :
    (b : Bool) (message : String) (now : ℕ) (x : OperationRow)
    → is_running (set_expired (if b then retrying else dead_lettered) message now x).status ≡ false
unfolding set_expired is_running
stopped b message now x = ground arith

pub same_row : (o : OperationRow) → Agrees o o
same_row o _ _ = (refl, refl)

-- Under the primary key, rows of one id are one row.
pub apart : (y z : OperationRow) → same_id z y ≡ false → Agrees y z × Agrees z y
apart y z e = ((λ k _. ground (arith, eq_iff z.id y.id, eq_iff y.id z.id)), (λ k _. cc))

pub with_first :
    (y : OperationRow) (ys zs : List OperationRow)
    → All (λ z. same_id z y ≡ false) zs
    → All (λ o. All (Agrees o) ys) zs
    → All (λ o. All (Agrees o) (y ∷ ys)) zs
with_first y ys [] h a = tt
with_first y ys (z ∷ zs) h a = (((apart y z h.0).1, a.0), with_first y ys zs h.1 a.1)

pub Distinct-agree :
    (xs : List OperationRow) → Distinct same_id xs → All (λ o. All (Agrees o) xs) xs
Distinct-agree [] h = tt
Distinct-agree (y ∷ ys) h = (
  (same_row y, All-map (λ z. same_id z y ≡ false) (Agrees y) (λ z e. (apart y z e).0) ys h.0),
  with_first y ys ys h.0 (Distinct-agree ys h.1),
)

-- What holds of all rows holds of those that the batch reads.
module _ (P : OperationRow → Type 0) where
  pub All-insert_expiry :
      (o : OperationRow) (xs : List OperationRow) → P o → All P xs → All P (insert_expiry o xs)
  unfolding insert_expiry
  All-insert_expiry o [] q h = (q, tt)
  All-insert_expiry o (x ∷ xs) q h = elim (Bool-cases (ltb (expiry x) (expiry o))) [
    | inl e ↦ rw e (h.0, All-insert_expiry o xs q h.1)
    | inr e ↦ rw e (q, h)
  ]

  pub All-by_expiry : (xs : List OperationRow) → All P xs → All P (by_expiry xs)
  unfolding by_expiry
  All-by_expiry [] h = tt
  All-by_expiry (x ∷ xs) h = All-insert_expiry x (by_expiry xs) h.0 (All-by_expiry xs h.1)
