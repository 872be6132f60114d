-- ===== src/Effect.antt =====
-- How a handler runs: its state is the database, the clock of the process and the calls made to
-- Redis and to DBOS; its result is a value or a Go error. Every call that leaves the process
-- takes the next entry of a schedule of faults, so a theorem for all states is a theorem for
-- all failures of PostgreSQL, Redis and DBOS.
pub mod Hoare
pub mod Steps
pub mod Refusals
pub mod Calm
use sde_thp.Prelude.{ℕ, Bool, String, Option, none, some, List, [], ◌∷◌, ◌++◌, if◌then◌else◌}
use sde_thp.Contracts.{QueueEnvelope}
use sde_thp.Database.{Database}

-- What becomes of one call: it is done; it fails and has no effect; or it is done and the
-- caller sees an error, as when a connection breaks after the commit.
pub data Fault : Type 0 where
  fine refused lost : Fault

-- What a service asks of Redis and of DBOS, and what the usage service hands to the subscribers of
-- a tenant in its own process.
pub data Command : Type 0 where
  publish : String → String → Command
  xadd : String → Command
  set_cursor : String → String → Command
  run_workflow : String → QueueEnvelope → Command

pub record World : Type 0 where
  pub db : Database
  pub time : ℕ
  pub faults : List Fault
  pub sent : List Command

-- `http` is `echo.NewHTTPError`; `no_rows` is `pgx.ErrNoRows` returned to the framework;
-- `failure` is any other error of a call.
pub data Error : Type 0 where
  http : ℕ → String → Error
  no_rows failure : Error

-- The status code that the framework gives to an error of a handler.
unfoldable pub error_code : Error → ℕ
error_code (http code message) = code
error_code no_rows = 500
error_code failure = 500

pub data Result (A : Type 0) : Type 0 where
  ok : A → Result A
  err : Error → Result A

abbrev pub M : Type 0 → Type 0
M A = World → Result A × World

module _ {A : Type 0} where
  unfoldable pub pure : A → M A
  pure a w = (ok a, w)

  unfoldable pub raise : Error → M A
  raise e w = (err e, w)

  unfoldable pub lift : Result A → M A
  lift r w = (r, w)

infixl 5 ◌>>=◌ ◌>>◌
unfoldable pub ◌>>=◌ : {A B : Type 0} → M A → (A → M B) → M B
◌>>=◌ m f w = let (r, w') = m w in elim r [ ok a ↦ f a w' | err e ↦ (err e, w') ]

abbrev pub ◌>>◌ : {A B : Type 0} → M A → M B → M B
m >> k = m >>= λ _. k

-- A guard of a handler: `if b { return e }`.
unfoldable pub raise_if : Bool → Error → M (Unit {0})
raise_if b e w = (if b then err e else ok tt, w)

unfoldable pub next_fault : List Fault → Fault
next_fault [] = fine
next_fault (f ∷ fs) = f

unfoldable pub later_faults : List Fault → List Fault
later_faults [] = []
later_faults (f ∷ fs) = fs

-- `time.Now()` of the process.
unfoldable pub clock : M ℕ
clock w = (ok w.time, w)

-- A SQL statement: a result and the new tables, or `none` where a constraint refuses it.
abbrev pub Statement : Type 0 → Type 0
Statement A = Database → Option (A × Database)

settle : {A : Type 0} → Fault → Option (A × Database) → World → Result A × World
settle refused o w = (err failure, w)
settle fine none w = (err failure, w)
settle fine (some (a, d)) w = (ok a, record w { db = d })
settle lost none w = (err failure, w)
settle lost (some (a, d)) w = (err failure, record w { db = d })

unfoldable pub exec : {A : Type 0} → Statement A → M A
unfolding settle next_fault later_faults
exec s w = settle (next_fault w.faults) (s w.db) (record w { faults = later_faults w.faults })

-- A SELECT changes nothing.
abbrev pub select : {A : Type 0} → (Database → A) → Statement A
select f d = some (f d, d)

unfoldable pub query : {A : Type 0} → (Database → A) → M A
unfolding exec
query f = exec (select f)

dispatch : Fault → Command → World → Result (Unit {0}) × World
dispatch refused c w = (err failure, w)
dispatch fine c w = (ok tt, record w { sent = w.sent ++ c ∷ [] })
dispatch lost c w = (err failure, record w { sent = w.sent ++ c ∷ [] })

unfoldable pub send : Command → M (Unit {0})
unfolding dispatch next_fault later_faults
send c w = dispatch (next_fault w.faults) c (record w { faults = later_faults w.faults })

-- A command inside the process, which cannot fail.
unfoldable pub announce : Command → M (Unit {0})
announce c w = (ok tt, record w { sent = w.sent ++ c ∷ [] })

-- How the body of a transaction ends when it returns no error.
pub data Ending (A : Type 0) : Type 0 where
  commit : A → Ending A
  roll_back : A → Ending A

finish : {A : Type 0} → Database → Result (Ending A) → World → Result A × World
unfolding exec
finish before (err e) w = (err e, record w { db = before })
finish before (ok (roll_back a)) w = (ok a, record w { db = before })
finish before (ok (commit a)) w = exec (λ d. some (a, w.db)) (record w { db = before })

-- `Begin`, the body on a private copy of the tables, and `Commit` or the deferred `Rollback`.
unfoldable pub transaction : {A : Type 0} → M (Ending A) → M A
unfolding finish
transaction body = query (λ d. d) >>= λ before w. let (r, w') = body w in finish before r w'
