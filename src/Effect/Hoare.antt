-- ===== src/Effect/Hoare.antt =====
-- Triples about the tables: from tables where `P` holds, an action that returns `a` ends with
-- `Q a`, and one that returns an error ends with `E`. One rule for each way to build an action.
use sde_thp.Prelude.{◌≡◌, refl, sym, Bool, true, false, Option, none, some, if◌then◌else◌}
use mathlib.Core.Path.{subst}
use sde_thp.Database.{Database}
use sde_thp.Effect.{
  World, Fault, fine, refused, lost, Command, Error, Result, ok, err, M, pure, raise, lift,
  raise_if, ◌>>=◌, ◌>>◌, clock, Statement, settle, next_fault, later_faults, exec, query, dispatch,
  send, announce, Ending, commit, roll_back, finish, transaction,
}

abbrev pub Post :
    {A : Type 0} → (A → Database → Type 0) → (Database → Type 0) → Result A × World → Type 0
Post Q E (ok a, w) = Q a w.db
Post Q E (err e, w) = E w.db

pub record Hoare {A : Type 0} (P : Database → Type 0) (m : M A) (Q : A → Database → Type 0)
    (E : Database → Type 0) : Type 0 where
  pub at : (w : World) → P w.db → Post Q E (m w)

-- `m` keeps `P`, whether it returns or fails.
abbrev pub Keeps : {A : Type 0} → (Database → Type 0) → M A → Type 0
Keeps P m = Hoare P m (λ _. P) P

-- What a statement does, if no constraint refuses it.
pub data Done {A : Type 0} (Q : A → Database → Type 0) : Option (A × Database) → Type 0 where
  refuse : Done Q none
  wrote : {a : A} {d : Database} → Q a d → Done Q (some (a, d))

pub Done-imply :
    {A : Type 0} {Q Q' : A → Database → Type 0} {o : Option (A × Database)}
    → ((a : A) (d : Database) → Q a d → Q' a d)
    → Done Q o
    → Done Q' o
Done-imply f refuse = refuse
Done-imply f (wrote {a} {d} q) = wrote (f a d q)

settle-Post :
    {A : Type 0} (Q : A → Database → Type 0) (E : Database → Type 0) (f : Fault)
    (o : Option (A × Database)) (w : World)
    → Done Q o
    → Done (λ _. E) o
    → E w.db
    → Post Q E (settle f o w)
unfolding settle
settle-Post Q E refused o w q e u = u
settle-Post Q E fine o w refuse e u = u
settle-Post Q E fine o w (wrote q) e u = q
settle-Post Q E lost o w q refuse u = u
settle-Post Q E lost o w q (wrote e) u = e

-- What the body must establish: a commit the result and the invariant, a roll-back nothing new.
abbrev pub Ends :
    {A : Type 0}
    → (A → Database → Type 0)
    → (Database → Type 0)
    → Database
    → Ending A
    → Database
    → Type 0
Ends Q E before (commit a) d = Q a d × E d
Ends Q E before (roll_back a) d = Q a before

module _ {P E : Database → Type 0} {A : Type 0} {Q : A → Database → Type 0} where
  pub Hoare-pure : (a : A) → ((d : Database) → P d → Q a d) → Hoare P (pure a) Q E
  unfolding pure
  Hoare-pure a h = record { at = λ w p. h w.db p }

  pub Hoare-raise : (e : Error) → ((d : Database) → P d → E d) → Hoare P (raise e) Q E
  unfolding raise
  Hoare-raise e h = record { at = λ w p. h w.db p }

  pub Hoare-lift :
      (r : Result A)
      → ((a : A) → r ≡ ok a → (d : Database) → P d → Q a d)
      → ((d : Database) → P d → E d)
      → Hoare P (lift r) Q E
  unfolding lift
  Hoare-lift (ok a) h k = record { at = λ w p. h a refl w.db p }
  Hoare-lift (err e) h k = record { at = λ w p. k w.db p }

  -- A statement is also done where its caller sees an error.
  pub Hoare-exec :
      (s : Statement A)
      → ((d : Database) → P d → Done Q (s d) × Done (λ _. E) (s d) × E d)
      → Hoare P (exec s) Q E
  unfolding exec
  Hoare-exec s h = record {
    at = λ w p.
        let (q, e, u) = h w.db p in
        settle-Post Q E (next_fault w.faults) (s w.db) (record w { faults = later_faults w.faults })
          q e u;
  }

  pub Hoare-if :
      (b : Bool) (m n : M A)
      → (b ≡ true → Hoare P m Q E)
      → (b ≡ false → Hoare P n Q E)
      → Hoare P (if b then m else n) Q E
  Hoare-if true m n h k = h refl
  Hoare-if false m n h k = k refl

  -- The rest after a guard may use that it did not stop the handler.
  pub Hoare-guard :
      (b : Bool) (e : Error) (n : M A)
      → ((d : Database) → P d → E d)
      → (b ≡ false → Hoare P n Q E)
      → Hoare P (raise_if b e >> n) Q E
  unfolding raise_if ◌>>=◌
  Hoare-guard true e n h k = record { at = λ w p. h w.db p }
  Hoare-guard false e n h k = record { at = λ w p. (k refl).at w p }

-- More may be assumed, and less asked where an error ends the action.
pub Hoare-imply :
    {P P' E E' : Database → Type 0} {A : Type 0} {Q : A → Database → Type 0} (m : M A)
    → ((d : Database) → P d → P' d)
    → ((d : Database) → E' d → E d)
    → Hoare P' m Q E'
    → Hoare P m Q E
Hoare-imply {E} {E'} {A} {Q} m f g h = record { at = λ w p. implied (m w) (h.at w (f w.db p)) }
  where
    implied : (x : Result A × World) → Post Q E' x → Post Q E x
    implied (ok a, w) p = p
    implied (err e, w) p = g w.db p

-- What holds from each state of the tables holds from all of them together.
pub Hoare-each :
    {P E : Database → Type 0} {A : Type 0} {Q : A → Database → Type 0}
    (Q' : Database → A → Database → Type 0) (E' : Database → Database → Type 0) (m : M A)
    → ((start : Database) → P start → Hoare (λ d. d ≡ start) m (Q' start) (E' start))
    → ((start : Database) → P start → (a : A) (d : Database) → Q' start a d → Q a d)
    → ((start : Database) → P start → (d : Database) → E' start d → E d)
    → Hoare P m Q E
Hoare-each {E} {A} {Q} Q' E' m h f g = record {
  at = λ w p. weakened w.db (f w.db p) (g w.db p) (m w) ((h w.db p).at w refl);
}
  where
    weakened :
        (start : Database)
        → ((a : A) (d : Database) → Q' start a d → Q a d)
        → ((d : Database) → E' start d → E d)
        → (x : Result A × World) → Post (Q' start) (E' start) x
        → Post Q E x
    weakened start f g (ok a, w) q = f a w.db q
    weakened start f g (err e, w) q = g w.db q

-- Inside a transaction nothing is asked of the tables that an error leaves.
pub Hoare-drop_error :
    {P E : Database → Type 0} {A : Type 0} {Q : A → Database → Type 0} (m : M A)
    → Hoare P m Q E
    → Hoare P m Q (λ _. Unit)
Hoare-drop_error {P} {E} {A} {Q} m h = record { at = λ w p. dropped (m w) (h.at w p) }
  where
    dropped : (x : Result A × World) → Post Q E x → Post Q (λ _. Unit) x
    dropped (ok a, w) p = p
    dropped (err e, w) p = tt

module _ {P E : Database → Type 0} {A B : Type 0} {Q : B → Database → Type 0} where
  pub Hoare-bind :
      {R : A → Database → Type 0} (m : M A) (f : A → M B)
      → Hoare P m R E
      → ((a : A) → Hoare (R a) (f a) Q E)
      → Hoare P (m >>= f) Q E
  unfolding ◌>>=◌
  Hoare-bind {R} m f hm hf = record { at = λ w p. next (m w) (hm.at w p) }
    where
      next :
          (x : Result A × World)
          → Post R E x
          → Post Q E (let (r, w') = x in elim r [ ok a ↦ f a w' | err e ↦ (err e, w') ])
      next (ok a, w) p = (hf a).at w p
      next (err e, w) p = p

-- A query returns what the tables hold, and the rest may use it.
pub Hoare-query :
    {A : Type 0} {P E : Database → Type 0} (f : Database → A)
    → ((d : Database) → P d → E d)
    → Hoare P (query f) (λ a d. P d × (f d ≡ a)) E
unfolding query
Hoare-query f h = Hoare-exec (λ d. some (f d, d)) (λ d p. (wrote (p, refl), wrote (h d p), h d p))

module _ {P : Database → Type 0} {A : Type 0} where
  pub Keeps-pure : (a : A) → Keeps P (pure a)
  Keeps-pure a = Hoare-pure a (λ d p. p)

  pub Keeps-raise : (e : Error) → Keeps P (raise {A = A} e)
  Keeps-raise e = Hoare-raise e (λ d p. p)

  pub Keeps-lift : (r : Result A) → Keeps P (lift r)
  Keeps-lift r = Hoare-lift r (λ a e d p. p) (λ d p. p)

  pub Keeps-if : (b : Bool) (m n : M A) → Keeps P m → Keeps P n → Keeps P (if b then m else n)
  Keeps-if b m n h k = Hoare-if b m n (λ _. h) (λ _. k)

  pub Keeps-bind :
      {B : Type 0} (m : M A) (f : A → M B)
      → Keeps P m
      → ((a : A) → Keeps P (f a))
      → Keeps P (m >>= f)
  Keeps-bind m f h k = Hoare-bind m f h k

pub Keeps-raise_if : {P : Database → Type 0} (b : Bool) (e : Error) → Keeps P (raise_if b e)
unfolding raise_if
Keeps-raise_if true e = record { at = λ w p. p }
Keeps-raise_if false e = record { at = λ w p. p }

pub Keeps-clock : {P : Database → Type 0} → Keeps P clock
unfolding clock
Keeps-clock = record { at = λ w p. p }

pub Keeps-query : {A : Type 0} {P : Database → Type 0} (f : Database → A) → Keeps P (query f)
unfolding query
Keeps-query f = Hoare-exec (λ d. some (f d, d)) (λ d p. (wrote p, wrote p, p))

pub Keeps-send : {P : Database → Type 0} (c : Command) → Keeps P (send c)
unfolding send
Keeps-send {P} c = record {
  at = λ w p. sent (next_fault w.faults) (record w { faults = later_faults w.faults }) p;
}
  where
    sent : (f : Fault) (w : World) → P w.db → Post (λ _. P) P (dispatch f c w)
    sent fine w p = p
    sent refused w p = p
    sent lost w p = p

pub Keeps-announce : {P : Database → Type 0} (c : Command) → Keeps P (announce c)
unfolding announce
Keeps-announce c = record { at = λ w p. p }

module _ {A : Type 0} {P E : Database → Type 0} {Q : A → Database → Type 0} where
  pub Hoare-transaction :
      (body : M (Ending A))
      → ((d : Database) → P d → E d)
      → ((before : Database)
          → P before
          → Hoare (λ d. d ≡ before) body (Ends Q E before) (λ _. Unit))
      → Hoare P (transaction body) Q E
  unfolding transaction finish
  Hoare-transaction body keep h =
      Hoare-bind {R = λ before d. P d × (d ≡ before)} (query (λ d. d))
        (λ before w. let (r, w') = body w in finish before r w') (Hoare-query (λ d. d) keep)
        λ before. record {
          at = λ w p.
              let pb = subst P p.1 p.0 in
              end before (body w).0 (body w).1 (keep before pb) ((h before pb).at w p.1);
        }
    where
      end :
          (before : Database) (r : Result (Ending A)) (w : World)
          → E before
          → Post (Ends Q E before) (λ _. Unit) (r, w)
          → Post Q E (finish before r w)
      end before (err x) w e p = e
      end before (ok (roll_back a)) w e p = p
      end before (ok (commit a)) w e p =
          (Hoare-exec {P = λ d. d ≡ before} {E = E} {Q = Q} (λ d. some (a, w.db))
              (λ d q. (wrote p.0, wrote p.1, subst E (sym q) e))).at
            (record w { db = before }) refl

-- A transaction whose body keeps `P` keeps `P`.
pub Keeps-transaction :
    {A : Type 0} {P : Database → Type 0} (body : M (Ending A))
    → Keeps P body
    → Keeps P (transaction body)
Keeps-transaction {A} {P} body k =
    Hoare-transaction body (λ d p. p)
      λ before p. record { at = λ w e. ends before p (body w) (k.at w (subst P (sym e) p)) }
  where
    ends :
        (before : Database)
        → P before
        → (x : Result (Ending A) × World) → Post (λ _. P) P x
        → Post (Ends (λ _. P) P before) (λ _. Unit) x
    ends before p (ok (commit a), w) q = (q, q)
    ends before p (ok (roll_back a), w) q = p
    ends before p (err e, w) q = tt

pub ruleset keeps_rules = (
  Keeps-pure, Keeps-raise, Keeps-lift, Keeps-if, Keeps-bind, Keeps-raise_if, Keeps-clock,
  Keeps-query, Keeps-send, Keeps-announce,
)
