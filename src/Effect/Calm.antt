-- ===== src/Effect/Calm.antt =====
-- Runs in which no call fails.
use sde_thp.Prelude.{ℕ, ◌≡◌, refl, ap, ◌∙◌, some, List, []}
use sde_thp.Database.{Database}
use sde_thp.Effect.{World, fine, Command, Result, ok, err, M, ◌>>=◌, Statement, settle, exec, query}

-- A state without further faults.
abbrev pub calm : Database → ℕ → List Command → World
calm d time sent = record { db = d; time = time; faults = []; sent = sent }

module _ {A : Type 0} (d : Database) (time : ℕ) (sent : List Command) where
  pub calm-exec_result :
      (s : Statement A) (a : A) (d' : Database)
      → s d ≡ some (a, d')
      → exec s (calm d time sent) ≡ (ok a, calm d' time sent)
  unfolding exec settle
  calm-exec_result s a d' e = ap (λ o. settle fine o (calm d time sent)) e

  pub calm-query_result :
      (g : Database → A) → query g (calm d time sent) ≡ (ok (g d), calm d time sent)
  unfolding query exec settle
  calm-query_result g = refl

after : {A B : Type 0} → (A → M B) → Result A × World → Result B × World
after f (ok a, w) = f a w
after f (err e, w) = (err e, w)

bind-after : {A B : Type 0} (m : M A) (f : A → M B) (w : World) → (m >>= f) w ≡ after f (m w)
unfolding ◌>>=◌ after
bind-after {A} {B} m f w = split (m w)
  where
    split :
        (x : Result A × World)
        → Path
            (Result B × World)
            (let (r, w') = x in elim r [ ok a ↦ f a w' | err e ↦ (err e, w') ])
            (after f x)
    split (ok a, w) = refl
    split (err e, w) = refl

pub calm-exec :
    {A B : Type 0} (d : Database) (time : ℕ) (sent : List Command) (s : Statement A) (f : A → M B)
    (a : A) (d' : Database)
    → s d ≡ some (a, d')
    → (exec s >>= f) (calm d time sent) ≡ f a (calm d' time sent)
unfolding after
calm-exec d time sent s f a d' e =
    bind-after (exec s) f (calm d time sent) ∙ ap (after f) (calm-exec_result d time sent s a d' e)

-- What follows an action that has returned.
pub calm-bind :
    {A B : Type 0} (m : M A) (f : A → M B) (w : World) {a : A} {w' : World}
    → m w ≡ (ok a, w')
    → (m >>= f) w ≡ f a w'
unfolding after
calm-bind m f w e = bind-after m f w ∙ ap (after f) e
