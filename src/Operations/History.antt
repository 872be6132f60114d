-- ===== src/Operations/History.antt =====
-- How a row of operations.operations may change over time.
pub mod Steps
use sde_thp.Prelude.{ℕ, ◌≤◌, ◌≡◌, refl, sym, ◌∙◌, String, Option, true, List, arith, Extends, ap}
use mathlib.Core.Path.{subst}
use native.Mathlib.Nat.{le_trans, le_refl}
use sde_thp.Domain.{is_terminal}
use sde_thp.Domain.Lifecycle.{◌⟶*◌, here, ⟶*_trans}
use sde_thp.Database.{Database, OperationRow}
use sde_thp.Operations.Invariant.{IsValid}

-- What a submission fixes.
pub record Submission : Type 0 where
  pub id : String
  pub tenant_id : String
  pub task_type : String
  pub execution_mode : String
  pub target_url : String
  pub payload : String
  pub max_attempts : ℕ
  pub deadline : Option ℕ
  pub idempotency_key : String
  pub created_at : ℕ

abbrev pub submission : OperationRow → Submission
submission o = record {
  id = o.id;
  tenant_id = o.tenant_id;
  task_type = o.task_type;
  execution_mode = o.execution_mode;
  target_url = o.target_url;
  payload = o.payload;
  max_attempts = o.max_attempts;
  deadline = o.deadline;
  idempotency_key = o.idempotency_key;
  created_at = o.created_at;
}

-- A later state of a row: the submission is the same, the version has not gone back, the status
-- has followed the transition table, and a row in a terminal status is untouched.
pub record Evolves (o o' : OperationRow) : Type 0 where
  pub same : submission o' ≡ submission o
  pub version : o.version ≤ o'.version
  pub path : o.status ⟶* o'.status
  pub frozen : is_terminal o.status ≡ true → o' ≡ o

pub Evolves-refl : (o : OperationRow) → Evolves o o
Evolves-refl o = record {
  same = refl;
  version = le_refl o.version;
  path = here;
  frozen = λ h. refl;
}

pub Evolves-trans : (o o' o'' : OperationRow) → Evolves o o' → Evolves o' o'' → Evolves o o''
Evolves-trans o o' o'' h k = record {
  same = k.same ∙ h.same;
  version = le_trans h.version k.version;
  path = ⟶*_trans h.path k.path;
  frozen =
      λ e. k.frozen (subst (λ x. is_terminal x.status ≡ true) (sym (h.frozen e)) e) ∙ h.frozen e;
}

-- The database is in order, and every row of `before` is still there, evolved.
pub record Sound (before d : Database) : Type 0 where
  pub valid : IsValid d
  pub history : Extends Evolves before.operations d.operations
