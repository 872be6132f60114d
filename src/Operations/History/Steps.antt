-- ===== src/Operations/History/Steps.antt =====
-- Every UPDATE of cmd/operations/main.go but that of `redrive` moves its rows along the
-- transition table.
use sde_thp.Prelude.{
  ℕ, ◌≤◌, ◌<◌, ◌≡◌, refl, Bool, true, false, String, Option, some, [], ◌∷◌, ◌++◌, arith, All, any,
  update_where, Extends-trans, Extends-append, Extends-update_where, and-elim, if◌then◌else◌,
}
use sde_thp.Domain.{
  OperationStatus, queued, running, cancelled, succeeded, retrying, dead_lettered, can_transition,
  is_terminal,
}
use sde_thp.Domain.Lifecycle.{here, ⟶*_step}
use sde_thp.Database.{Database, OperationRow, TenantRow}
use sde_thp.Operations.Rows.{
  enqueueable, cancellable, claimable, is_running, has_id, set_queued, set_cancelled, set_running,
  set_extended, set_succeeded, set_failed, set_expired,
}
use sde_thp.Operations.Statements.{has_key, find_tenant, count_running}
use sde_thp.Operations.Claim.{is_claimable}
use sde_thp.Operations.Invariant.{IsRowValid}
use sde_thp.Operations.Invariant.Tables.{
  KeepsIdentity, with_operations, update-IsValid, claim-IsValid, insert-IsValid, IsValid-of_same,
}
use sde_thp.Operations.History.{submission, Evolves, Evolves-refl, Evolves-trans, Sound}

-- A SET clause under its WHERE clause: identity, no start, and an allowed change.
pub record SafeUpdate (p : OperationRow → Bool) (f : OperationRow → OperationRow) : Type 0 where
  pub keep : KeepsIdentity f
  pub calm :
      (o : OperationRow) → p o ≡ true → is_running (f o).status ≡ true → is_running o.status ≡ true
  pub evolves : (o : OperationRow) → p o ≡ true → Evolves o (f o)

module _ (before d : Database) (h : Sound before d) where
  pub update-Sound :
      (p : OperationRow → Bool) (f : OperationRow → OperationRow)
      → SafeUpdate p f
      → All (λ o. p o ≡ true → IsRowValid (f o)) d.operations
      → Sound before (with_operations d (update_where p f d.operations))
  update-Sound p f s safe = record {
    valid = update-IsValid p f s.keep d h.valid s.calm safe;
    history =
        Extends-trans Evolves Evolves-trans before.operations d.operations _ h.history
          (Extends-update_where Evolves Evolves-refl p f s.evolves d.operations);
  }

  pub insert-Sound :
      (o : OperationRow)
      → IsRowValid o
      → is_running o.status ≡ false
      → any (has_id o.id) d.operations ≡ false
      → any (has_key o.tenant_id o.idempotency_key) d.operations ≡ false
      → Sound before (with_operations d (d.operations ++ o ∷ []))
  insert-Sound o v idle id key = record {
    valid = insert-IsValid o d h.valid v idle id key;
    history =
        Extends-trans Evolves Evolves-trans before.operations d.operations _ h.history
          (Extends-append Evolves Evolves-refl d.operations (o ∷ []));
  }

  pub Sound-of_same :
      (d' : Database) → d'.operations ≡ d.operations → d'.tenants ≡ d.tenants → Sound before d'
  Sound-of_same d' os ts = record {
    valid = IsValid-of_same d d' os ts h.valid;
    history = rw os h.history;
  }

-- One transition of the table, by an UPDATE that advances the version.
stepped :
    (o o' : OperationRow)
    → submission o' ≡ submission o
    → o.version ≤ o'.version
    → (can_transition o.status o'.status ≡ true) × (is_terminal o.status ≡ false)
    → Evolves o o'
stepped o o' same version (path, open_status) = record {
  same = same;
  version = version;
  path = ⟶*_step path;
  frozen = λ t. cc;
}

from_enqueueable :
    (s : OperationStatus)
    → enqueueable s ≡ true
    → (can_transition s queued ≡ true) × (is_terminal s ≡ false)
unfolding enqueueable can_transition is_terminal
from_enqueueable s e = ground arith

from_cancellable :
    (s : OperationStatus)
    → cancellable s ≡ true
    → (can_transition s cancelled ≡ true) × (is_terminal s ≡ false)
unfolding cancellable can_transition is_terminal
from_cancellable s e = ground arith

from_claimable :
    (s : OperationStatus)
    → claimable s ≡ true
    → (can_transition s running ≡ true) × (is_terminal s ≡ false)
unfolding claimable can_transition is_terminal
from_claimable s e = ground arith

from_running :
    (s : OperationStatus)
    → is_running s ≡ true
    → (can_transition s succeeded ≡ true)
      × (can_transition s retrying ≡ true)
      × (can_transition s dead_lettered ≡ true)
      × (is_terminal s ≡ false)
unfolding is_running can_transition is_terminal
from_running s e = ground arith

module _ (p : OperationRow → Bool) (now : ℕ) where
  pub set_queued-SafeUpdate :
      ((o : OperationRow) → p o ≡ true → enqueueable o.status ≡ true)
      → SafeUpdate p (set_queued now)
  unfolding set_queued is_running
  set_queued-SafeUpdate guard = record {
    keep = record { id = λ o. refl; tenant = λ o. refl; key = λ o. refl };
    calm = λ o e k. cc;
    evolves = λ o e.
        stepped o (set_queued now o) refl (omega arith) (from_enqueueable o.status (guard o e));
  }

  pub set_cancelled-SafeUpdate :
      ((o : OperationRow) → p o ≡ true → cancellable o.status ≡ true)
      → SafeUpdate p (set_cancelled now)
  unfolding set_cancelled is_running
  set_cancelled-SafeUpdate guard = record {
    keep = record { id = λ o. refl; tenant = λ o. refl; key = λ o. refl };
    calm = λ o e k. cc;
    evolves = λ o e.
        stepped o (set_cancelled now o) refl (omega arith) (from_cancellable o.status (guard o e));
  }

  module _ (guard : (o : OperationRow) → p o ≡ true → is_running o.status ≡ true) where
    pub set_succeeded-SafeUpdate :
        (result : Option String) (explanation : String)
        → SafeUpdate p (set_succeeded result explanation now)
    unfolding set_succeeded is_running
    set_succeeded-SafeUpdate result explanation = record {
      keep = record { id = λ o. refl; tenant = λ o. refl; key = λ o. refl };
      calm = λ o e k. cc;
      evolves = λ o e.
          let r = from_running o.status (guard o e) in
          stepped o (set_succeeded result explanation now o) refl (omega arith) (r.0, r.3);
    }

    leaves_running :
        (b : Bool) (o : OperationRow)
        → p o ≡ true
        → (can_transition o.status (if b then retrying else dead_lettered) ≡ true)
          × (is_terminal o.status ≡ false)
    leaves_running true o e = let r = from_running o.status (guard o e) in (r.1, r.3)
    leaves_running false o e = let r = from_running o.status (guard o e) in (r.2, r.3)

    not_running : (b : Bool) → is_running (if b then retrying else dead_lettered) ≡ false
    unfolding is_running
    not_running b = ground arith

    pub set_failed-SafeUpdate :
        (b : Bool) (code message explanation : String)
        → SafeUpdate p
            (set_failed (if b then retrying else dead_lettered) code message explanation now)
    unfolding set_failed
    set_failed-SafeUpdate b code message explanation = record {
      keep = record { id = λ o. refl; tenant = λ o. refl; key = λ o. refl };
      calm = λ o e k. cc (not_running b);
      evolves = λ o e.
          stepped o
            (set_failed (if b then retrying else dead_lettered) code message explanation now o) refl
            (omega arith) (leaves_running b o e);
    }

    pub set_expired-SafeUpdate :
        (b : Bool) (message : String)
        → SafeUpdate p (set_expired (if b then retrying else dead_lettered) message now)
    unfolding set_expired
    set_expired-SafeUpdate b message = record {
      keep = record { id = λ o. refl; tenant = λ o. refl; key = λ o. refl };
      calm = λ o e k. cc (not_running b);
      evolves = λ o e.
          stepped o (set_expired (if b then retrying else dead_lettered) message now o) refl
            (omega arith) (leaves_running b o e);
    }

    -- A heartbeat stays in `running`.
    pub set_extended-SafeUpdate : (n : ℕ) → SafeUpdate p (set_extended n now)
    unfolding set_extended
    set_extended-SafeUpdate n = record {
      keep = record { id = λ o. refl; tenant = λ o. refl; key = λ o. refl };
      calm = λ o e k. k;
      evolves = λ o e. record {
        same = refl;
        version = omega arith;
        path = here;
        frozen = λ t. let r = from_running o.status (guard o e) in cc (r.3);
      };
    }

module _ (before d : Database) (h : Sound before d) (tenant id worker : String) (n : ℕ) where
  claim-Evolves :
      (o : OperationRow)
      → is_claimable tenant id o ≡ true
      → Evolves o (set_running worker n d.now o)
  unfolding set_running is_claimable
  claim-Evolves o e =
      stepped o (set_running worker n d.now o) refl (omega arith)
        (from_claimable o.status (and-elim _ _ e).1)

  pub claim-Sound :
      ((account : TenantRow)
        → find_tenant tenant d ≡ some account
        → count_running tenant d < account.concurrency_limit)
      → Sound before (
          with_operations d
            (update_where (is_claimable tenant id) (set_running worker n d.now) d.operations))
  claim-Sound room = record {
    valid = claim-IsValid tenant id worker n d h.valid room;
    history = Extends-trans Evolves Evolves-trans before.operations d.operations _ h.history (
        Extends-update_where Evolves Evolves-refl (is_claimable tenant id)
          (set_running worker n d.now) claim-Evolves d.operations);
  }
