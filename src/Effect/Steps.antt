-- ===== src/Effect/Steps.antt =====
-- Running an action step by step from one state of the tables, and passing its guards.
use sde_thp.Prelude.{◌≡◌, refl, sym, ap, ◌∙◌, Bool, true, false, some}
use mathlib.Core.Path.{subst}
use sde_thp.Database.{Database}
use sde_thp.Effect.{
  Error, ok, err, M, lift, raise_if, ◌>>=◌, ◌>>◌, Statement, exec, query, Ending, transaction,
}
use sde_thp.Effect.Hoare.{
  Post, Hoare, Ends, Done, wrote, Hoare-bind, Hoare-query, Hoare-exec, Hoare-transaction,
}

-- Running an action step by step from one state of the tables.
module _ {E : Database → Type 0} {A B : Type 0} {Q : B → Database → Type 0} (start : Database) where
  pub query_at :
      (g : Database → A) (f : A → M B)
      → E start
      → Hoare (λ d. d ≡ start) (f (g start)) Q E
      → Hoare (λ d. d ≡ start) (query g >>= f) Q E
  query_at g f e k =
      Hoare-bind (query g) f (Hoare-query g (λ d h. subst E (sym h) e)) λ a. record {
        at = λ w h. subst (λ x. Post Q E (f x w)) (ap g (sym h.0) ∙ h.1) (k.at w h.0);
      }

  pub exec_at :
      (s : Statement A) (f : A → M B) (a : A) (next : Database)
      → s start ≡ some (a, next)
      → E start
      → E next
      → Hoare (λ d. d ≡ next) (f a) Q E
      → Hoare (λ d. d ≡ start) (exec s >>= f) Q E
  exec_at s f a next e e0 e1 k =
      Hoare-bind {R = λ b d. (d ≡ next) × (a ≡ b)} (exec s) f
        (Hoare-exec s λ d h. (
          subst (Done (λ b d. (d ≡ next) × (a ≡ b))) (sym (ap s h ∙ e)) (wrote (refl, refl)),
          subst (Done (λ _. E)) (sym (ap s h ∙ e)) (wrote e1),
          subst E (sym h) e0,
        ))
        λ b. record { at = λ w h. subst (λ x. Post Q E (f x w)) h.1 (k.at w h.0) }

pub lift_ok :
    {P E : Database → Type 0} {A B : Type 0} {Q : B → Database → Type 0} (a : A) (f : A → M B)
    → Hoare P (f a) Q E
    → Hoare P (lift (ok a) >>= f) Q E
unfolding lift ◌>>=◌
lift_ok a f h = record { at = λ w p. h.at w p }

pub lift_err :
    {P E : Database → Type 0} {A B : Type 0} {Q : B → Database → Type 0} (e : Error) (f : A → M B)
    → ((d : Database) → P d → E d)
    → Hoare P (lift (err e) >>= f) Q E
unfolding lift ◌>>=◌
lift_err e f h = record { at = λ w p. h w.db p }

pub pass_guard :
    {P E : Database → Type 0} {B : Type 0} {Q : B → Database → Type 0} (b : Bool) (e : Error)
    (n : M B)
    → b ≡ false
    → Hoare P n Q E
    → Hoare P (raise_if b e >> n) Q E
unfolding raise_if ◌>>=◌
pass_guard b e n k h = record { at = λ w p. rw k (h.at w p) }

pub stop_guard :
    {P E : Database → Type 0} {B : Type 0} {Q : B → Database → Type 0} (b : Bool) (e : Error)
    (n : M B)
    → b ≡ true
    → ((d : Database) → P d → E d)
    → Hoare P (raise_if b e >> n) Q E
unfolding raise_if ◌>>=◌
stop_guard b e n k h = record { at = λ w p. rw k (h w.db p) }

-- A transaction from one state of the tables.
pub transaction_at :
    {E : Database → Type 0} {A : Type 0} {Q : A → Database → Type 0} (start : Database)
    (body : M (Ending A))
    → E start
    → Hoare (λ d. d ≡ start) body (Ends Q E start) (λ _. Unit)
    → Hoare (λ d. d ≡ start) (transaction body) Q E
transaction_at {E} {A} {Q} start body e h =
    Hoare-transaction body (λ d p. subst E (sym p) e)
      λ before p. subst (λ b. Hoare (λ d. d ≡ b) body (Ends Q E b) (λ _. Unit)) (sym p) h
