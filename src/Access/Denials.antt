-- ===== src/Access/Denials.antt =====
-- What `login` of cmd/access/main.go refuses, and the guard of the admin routes.
use sde_thp.Prelude.{◌≡◌, refl, false, String, none, some, List, ◌∷◌, ℕ, trim_space}
use sde_thp.Database.{Database, UserRow}
use sde_thp.Effect.{World, Fault, refused, Command, err, http, lift, raise_if, ◌>>=◌, exec, query}
use sde_thp.Effect.Calm.{calm}
use sde_thp.Operations.Reply.{bound, caught}
use sde_thp.Access.Reply.{Crypto}
use sde_thp.Access.Login.{LoginInput, login, find_user, scan_user}

-- A state whose next call fails.
abbrev pub failing : Database → ℕ → List Fault → List Command → World
failing d time later sent = record { db = d; time = time; faults = refused ∷ later; sent = sent }

-- Why a login is denied, with the state before it and after it.
pub data IsDenied (crypto : Crypto) (input : LoginInput) : World → World → Type 0 where
  unknown_email :
      {d : Database} {time : ℕ} {sent : List Command}
      → find_user (crypto.to_lower (trim_space input.email)) d ≡ none
      → IsDenied crypto input (calm d time sent) (calm d time sent)
  wrong_password :
      {d : Database} {time : ℕ} {sent : List Command} {u : UserRow} {tenant : String}
      → find_user (crypto.to_lower (trim_space input.email)) d ≡ some u
      → u.tenant_id ≡ some tenant
      → crypto.matches u.password_hash input.password ≡ false
      → IsDenied crypto input (calm d time sent) (calm d time sent)
  no_tenant :
      {d : Database} {time : ℕ} {sent : List Command} {u : UserRow}
      → find_user (crypto.to_lower (trim_space input.email)) d ≡ some u
      → u.tenant_id ≡ none
      → IsDenied crypto input (calm d time sent) (calm d time sent)
  database_error :
      {d : Database} {time : ℕ} {later : List Fault} {sent : List Command}
      → IsDenied crypto input
          (failing d time later sent)
          (record { db = d; time = time; faults = later; sent = sent })

-- `login` answers with one and the same 401 and changes no table where no user has the email,
-- where the password is wrong, where the user has no tenant, and where the database fails. The
-- empty text is the bcrypt hash of no password.
pub login-denied :
    (crypto : Crypto) (secret : String)
    → ((password : String) → crypto.matches "" password ≡ false)
    → (input : LoginInput) (w w' : World) → IsDenied crypto input w w'
    → login crypto secret (some input) w ≡ (err (http 401 "invalid email or password"), w')
unfolding login bound caught ◌>>=◌ lift raise_if scan_user query exec
login-denied crypto secret blank input _ _ (unknown_email {d} {time} {sent} absent) = rw absent refl
login-denied crypto secret blank input _ _ (wrong_password known belongs wrong) =
    rw (known, belongs, wrong) refl
login-denied crypto secret blank input _ _ (no_tenant known lone) =
    rw (known, lone, blank input.password) refl
login-denied crypto secret blank input _ _ database_error = rw (blank input.password) refl
