-- ===== src/Effect/Refusals.antt =====
-- Actions whose errors are answered by codes from 300 on: one rule for each way to build one.
use sde_thp.Prelude.{◌≡◌, refl, Bool, true, false, Option, none, some, leb}
use sde_thp.Database.{Database}
use sde_thp.Effect.{
  World, Fault, fine, refused, lost, Command, Error, Result, ok, err, M, pure, lift, raise_if,
  clock, ◌>>=◌, Statement, settle, exec, query, announce, Ending, commit, roll_back, finish,
  transaction, next_fault, later_faults, error_code,
}

abbrev pub IsRefusal : {A : Type 0} → Result A × World → Type 0
IsRefusal (ok a, w) = Unit
IsRefusal (err e, w) = leb 300 (error_code e) ≡ true

pub record Refuses {A : Type 0} (m : M A) : Type 0 where
  pub at : (w : World) → IsRefusal (m w)

pub Refuses-pure : {A : Type 0} (a : A) → Refuses (pure a)
unfolding pure
Refuses-pure a = record { at = λ w. tt }

pub Refuses-lift : {A : Type 0} (r : Result A) → ((w : World) → IsRefusal (r, w)) → Refuses (lift r)
unfolding lift
Refuses-lift r h = record { at = h }

pub Refuses-raise_if :
    (b : Bool) (e : Error) → leb 300 (error_code e) ≡ true → Refuses (raise_if b e)
unfolding raise_if
Refuses-raise_if true e h = record { at = λ w. h }
Refuses-raise_if false e h = record { at = λ w. tt }

pub Refuses-clock : Refuses clock
unfolding clock
Refuses-clock = record { at = λ w. tt }

pub Refuses-announce : (c : Command) → Refuses (announce c)
unfolding announce
Refuses-announce c = record { at = λ w. tt }

pub Refuses-exec : {A : Type 0} (s : Statement A) → Refuses (exec s)
unfolding exec settle error_code
Refuses-exec {A} s = record {
  at = λ w. settled (next_fault w.faults) (s w.db) (record w { faults = later_faults w.faults });
}
  where
    settled : (f : Fault) (o : Option (A × Database)) (w : World) → IsRefusal (settle f o w)
    settled refused o w = refl
    settled fine none w = refl
    settled fine (some (a, d)) w = tt
    settled lost none w = refl
    settled lost (some (a, d)) w = refl

module _ {A B : Type 0} where
  pub Refuses-bind :
      (m : M A) (f : A → M B) → Refuses m → ((a : A) → Refuses (f a)) → Refuses (m >>= f)
  unfolding ◌>>=◌
  Refuses-bind m f h k = record { at = λ w. next (m w) (h.at w) }
    where
      next :
          (x : Result A × World)
          → IsRefusal x
          → IsRefusal {A = B} (let (r, w') = x in elim r [ ok a ↦ f a w' | err e ↦ (err e, w') ])
      next (ok a, w) q = (k a).at w
      next (err e, w) q = q

pub Refuses-transaction :
    {A : Type 0} (body : M (Ending A)) → Refuses body → Refuses (transaction body)
unfolding transaction query finish
Refuses-transaction {A} body h =
    Refuses-bind (query (λ d. d)) (λ before w. let (r, w') = body w in finish before r w')
      (Refuses-exec (λ d. some (d, d)))
      λ before. record { at = λ w. ended before (body w).0 (body w).1 (h.at w) }
  where
    ended :
        (before : Database) (r : Result (Ending A)) (w : World)
        → IsRefusal (r, w)
        → IsRefusal (finish before r w)
    ended before (err e) w q = q
    ended before (ok (roll_back a)) w q = tt
    ended before (ok (commit a)) w q =
        (Refuses-exec (λ d. some (a, w.db))).at (record w { db = before })
