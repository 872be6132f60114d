-- ===== src/Prelude/Lists.antt =====
-- Lists measured by native numbers, and predicates on lists by recursion.
use Prim.Native.Nat.{ℕ, zero, suc}
use mathlib.Core.Path.{◌≡◌, refl, subst}
use mathlib.Core.Bool.{Bool, true, false, ◌||◌}
use mathlib.Core.Option.{Option, none, some, some-injective}
use mathlib.Core.List.{List, [], ◌∷◌, ◌++◌}
use sde_thp.Prelude.Tests.{if◌then◌else◌}

module _ {ℓ} {A : Type ℓ} where
  abbrev pub length : List A → ℕ
  length [] = 0
  length (x ∷ xs) = suc (length xs)

  abbrev pub take : ℕ → List A → List A
  take zero xs = []
  take (suc n) [] = []
  take (suc n) (x ∷ xs) = x ∷ take n xs

  -- The rows that a WHERE clause selects.
  abbrev pub select_where : (A → Bool) → List A → List A
  select_where p [] = []
  select_where p (x ∷ xs) = let rest = select_where p xs in if p x then x ∷ rest else rest

  -- The first row that a WHERE clause selects; `none` is `pgx.ErrNoRows`.
  abbrev pub first_where : (A → Bool) → List A → Option A
  first_where p [] = none
  first_where p (x ∷ xs) = let rest = first_where p xs in if p x then some x else rest

  abbrev pub count_where : (A → Bool) → List A → ℕ
  count_where p [] = 0
  count_where p (x ∷ xs) = let rest = count_where p xs in if p x then suc rest else rest

  abbrev pub any : (A → Bool) → List A → Bool
  any p [] = false
  any p (x ∷ xs) = p x || any p xs

  -- `UPDATE … SET … WHERE …`.
  abbrev pub update_where : (A → Bool) → (A → A) → List A → List A
  update_where p f [] = []
  update_where p f (x ∷ xs) = (if p x then f x else x) ∷ update_where p f xs

  abbrev pub All {κ} : (A → Type κ) → List A → Type κ
  All P [] = Unit
  All P (x ∷ xs) = P x × All P xs

-- Every old row is still in its place, related to what it was; new rows follow the old ones.
abbrev pub Extends {ℓ} : {A : Type ℓ} → (A → A → Type 0) → List A → List A → Type 0
Extends R [] ys = Unit
Extends R (x ∷ xs) [] = ⊥
Extends R (x ∷ xs) (y ∷ ys) = R x y × Extends R xs ys

module _ {ℓ} {A : Type ℓ} (R : A → A → Type 0) where
  pub Extends-map :
      (S : A → A → Type 0)
      → ((x y : A) → R x y → S x y)
      → (xs ys : List A) → Extends R xs ys
      → Extends S xs ys
  Extends-map S g [] ys h = tt
  Extends-map S g (x ∷ xs) [] h = h
  Extends-map S g (x ∷ xs) (y ∷ ys) h = (g x y h.0, Extends-map S g xs ys h.1)

  pub Extends-refl : ((x : A) → R x x) → (xs : List A) → Extends R xs xs
  Extends-refl r [] = tt
  Extends-refl r (x ∷ xs) = (r x, Extends-refl r xs)

  pub Extends-trans :
      ((x y z : A) → R x y → R y z → R x z)
      → (xs ys zs : List A) → Extends R xs ys
      → Extends R ys zs
      → Extends R xs zs
  Extends-trans t [] ys zs h k = tt
  Extends-trans t (x ∷ xs) [] zs h k = absurd h
  Extends-trans t (x ∷ xs) (y ∷ ys) [] h k = absurd k
  Extends-trans t (x ∷ xs) (y ∷ ys) (z ∷ zs) h k =
      (t x y z h.0 k.0, Extends-trans t xs ys zs h.1 k.1)

  pub Extends-append : ((x : A) → R x x) → (xs ys : List A) → Extends R xs (xs ++ ys)
  Extends-append r [] ys = tt
  Extends-append r (x ∷ xs) ys = (r x, Extends-append r xs ys)

  pub Extends-update_where :
      ((x : A) → R x x)
      → (p : A → Bool) (f : A → A) → ((x : A) → p x ≡ true → R x (f x))
      → (xs : List A) → Extends R xs (update_where p f xs)
  Extends-update_where r p f s [] = tt
  Extends-update_where r p f s (x ∷ xs) = (updated (p x) refl, Extends-update_where r p f s xs)
    where
      updated : (b : Bool) → p x ≡ b → R x (if b then f x else x)
      updated true e = s x e
      updated false e = r x

module _ {ℓ κ} {A : Type ℓ} (P : A → Type κ) where
  pub All-append : (xs ys : List A) → All P xs → All P ys → All P (xs ++ ys)
  All-append [] ys h k = k
  All-append (x ∷ xs) ys h k = (h.0, All-append xs ys h.1 k)

  pub All-update_where :
      (p : A → Bool) (f : A → A) (xs : List A)
      → All (λ x. p x ≡ true → P (f x)) xs
      → All P xs
      → All P (update_where p f xs)
  All-update_where p f [] s h = tt
  All-update_where p f (x ∷ xs) s h = (updated (p x) refl, All-update_where p f xs s.1 h.1)
    where
      updated : (b : Bool) → p x ≡ b → P (if b then f x else x)
      updated true e = s.0 e
      updated false e = h.0

  pub All-map {μ} : (Q : A → Type μ) → ((x : A) → P x → Q x) → (xs : List A) → All P xs → All Q xs
  All-map Q g [] h = tt
  All-map Q g (x ∷ xs) h = (g x h.0, All-map Q g xs h.1)

  pub All-select_where : (p : A → Bool) (xs : List A) → All P xs → All P (select_where p xs)
  All-select_where p [] h = tt
  All-select_where p (x ∷ xs) h = selected (p x) (All-select_where p xs h.1)
    where
      selected :
          (b : Bool)
          → All P (select_where p xs)
          → All P (if b then x ∷ select_where p xs else select_where p xs)
      selected true k = (h.0, k)
      selected false k = k

  pub All-selected :
      (p : A → Bool) (xs : List A) → All P xs → All (λ x. P x × (p x ≡ true)) (select_where p xs)
  All-selected p [] h = tt
  All-selected p (x ∷ xs) h = selected (p x) refl (All-selected p xs h.1)
    where
      selected :
          (b : Bool)
          → p x ≡ b
          → All (λ x. P x × (p x ≡ true)) (select_where p xs)
          → All (λ x. P x × (p x ≡ true)) (if b then x ∷ select_where p xs else select_where p xs)
      selected true e k = ((h.0, e), k)
      selected false e k = k

  pub All-take : (n : ℕ) (xs : List A) → All P xs → All P (take n xs)
  All-take zero xs h = tt
  All-take (suc n) [] h = tt
  All-take (suc n) (x ∷ xs) h = (h.0, All-take n xs h.1)

  pub All-first_where :
      (p : A → Bool) (xs : List A) {x : A}
      → All P xs
      → first_where p xs ≡ some x
      → P x × (p x ≡ true)
  All-first_where p [] h e = cc
  All-first_where p (y ∷ xs) {x} h e = found (p y) refl e (All-first_where p xs h.1)
    where
      found :
          (b : Bool)
          → p y ≡ b
          → (if b then some y else first_where p xs) ≡ some x
          → (first_where p xs ≡ some x → P x × (p x ≡ true))
          → P x × (p x ≡ true)
      found true q e rest = subst (λ z. P z × (p z ≡ true)) (some-injective y x e) (h.0, q)
      found false q e rest = rest e

-- The row that is appended is the first of its kind.
pub first_where-last :
    {A : Type 0} (p q : A → Bool) (xs : List A) (x : A)
    → ((y : A) → p y ≡ true → q y ≡ true)
    → any q xs ≡ false
    → p x ≡ true
    → first_where p (xs ++ x ∷ []) ≡ some x
first_where-last p q [] x i h e = rw e refl
first_where-last p q (y ∷ xs) x i h e = passed (p y) refl (q y) refl h (first_where-last p q xs x i)
  where
    passed :
        (b : Bool)
        → p y ≡ b
        → (c : Bool) → q y ≡ c
        → (c || any q xs) ≡ false
        → (any q xs ≡ false → p x ≡ true → first_where p (xs ++ x ∷ []) ≡ some x)
        → (if b then some y else first_where p (xs ++ x ∷ [])) ≡ some x
    passed b f true g l k = cc
    passed true f false g l k = (let m = i y f in cc)
    passed false f false g l k = k l e
