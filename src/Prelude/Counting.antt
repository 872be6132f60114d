-- ===== src/Prelude/Counting.antt =====
-- Updates of a table against counts and uniqueness of its rows.
use Prim.Native.Nat.{◌+◌, ◌≤◌}
use mathlib.Core.Path.{◌≡◌, refl, subst}
use mathlib.Core.Logic.{inl, inr}
use mathlib.Core.Bool.{Bool, true, false}
use mathlib.Core.Option.{some}
use mathlib.Core.List.{List, [], ◌∷◌, ◌++◌}
use native.Mathlib.Omega.{arith}
use sde_thp.Prelude.Tests.{if◌then◌else◌, Bool-cases}
use sde_thp.Prelude.Lists.{All, any, count_where, first_where, update_where}

-- No row clashes with a row before it.
abbrev pub Distinct {ℓ} : {A : Type ℓ} → (A → A → Bool) → List A → Type 0
Distinct clash [] = Unit
Distinct clash (x ∷ xs) = All (λ y. clash y x ≡ false) xs × Distinct clash xs

module _ {A : Type 0} (clash : A → A → Bool) where
  All-unclashed :
      (x : A) (xs : List A)
      → All (λ y. clash y x ≡ false) xs
      → (new : A) → clash new x ≡ false
      → All (λ y. clash y x ≡ false) (xs ++ new ∷ [])
  All-unclashed x [] h new e = (e, tt)
  All-unclashed x (y ∷ xs) h new e = (h.0, All-unclashed x xs h.1 new e)

  pub Distinct-append :
      (xs : List A) (new : A)
      → Distinct clash xs
      → any (clash new) xs ≡ false
      → Distinct clash (xs ++ new ∷ [])
  Distinct-append [] new h e = (tt, tt)
  Distinct-append (x ∷ xs) new h e =
      (All-unclashed x xs h.0 new (ground arith), Distinct-append xs new h.1 (ground arith))

  module _ (p : A → Bool) (f : A → A) (same : (x y : A) → clash (f x) y ≡ clash x y)
      (same' : (x y : A) → clash x (f y) ≡ clash x y) where
    update_clash :
        (x y : A) (b c : Bool) → clash (if b then f x else x) (if c then f y else y) ≡ clash x y
    update_clash x y true true = ground (arith, same x (f y), same' x y)
    update_clash x y true false = same x y
    update_clash x y false true = same' x y
    update_clash x y false false = refl

    All-clash-update :
        (x : A) (c : Bool) (xs : List A)
        → All (λ y. clash y x ≡ false) xs
        → All (λ y. clash y (if c then f x else x) ≡ false) (update_where p f xs)
    All-clash-update x c [] h = tt
    All-clash-update x c (y ∷ xs) h =
        (rw (update_clash y x (p y) c) h.0, All-clash-update x c xs h.1)

    pub Distinct-update_where :
        (xs : List A) → Distinct clash xs → Distinct clash (update_where p f xs)
    Distinct-update_where [] h = tt
    Distinct-update_where (x ∷ xs) h =
        (All-clash-update x (p x) xs h.0, Distinct-update_where xs h.1)

module _ {A : Type 0} (q p : A → Bool) (f : A → A) where
  -- An update adds to a count at most as often as it strikes.
  pub count-update_where :
      (xs : List A) → count_where q (update_where p f xs) ≤ count_where q xs + count_where p xs
  count-update_where [] = omega arith
  count-update_where (x ∷ xs) = ground (arith, count-update_where xs)

  -- An update that makes no row count that did not count before does not raise the count.
  pub count-update_where-le :
      ((x : A) → p x ≡ true → q (f x) ≡ true → q x ≡ true)
      → (xs : List A) → count_where q (update_where p f xs) ≤ count_where q xs
  count-update_where-le h [] = omega arith
  count-update_where-le h (x ∷ xs) = ground (arith, count-update_where-le h xs, h x)

module _ {A : Type 0} (clash : A → A → Bool) (p : A → Bool)
    (met : (x y : A) → p x ≡ true → p y ≡ true → clash y x ≡ true) where
  count_none :
      (x : A) → p x ≡ true → (xs : List A) → All (λ y. clash y x ≡ false) xs → count_where p xs ≡ 0
  count_none x e [] h = refl
  count_none x e (y ∷ xs) h = ground (arith, count_none x e xs h.1, met x y e)

  -- Where two rows that a WHERE clause selects would clash, it selects one row at most.
  pub count-le-one : (xs : List A) → Distinct clash xs → count_where p xs ≤ 1
  count-le-one [] h = omega arith
  count-le-one (x ∷ xs) h = elim (Bool-cases (p x)) [
    | inl e ↦ rw e (omega (arith, count_none x e xs h.0))
    | inr e ↦ rw e (count-le-one xs h.1)
  ]

  unselected :
      (x : A)
      → p x ≡ true
      → (xs : List A) → All (λ y. clash y x ≡ false) xs
      → All (λ y. p y ≡ true → y ≡ x) xs
  unselected x e [] h = tt
  unselected x e (y ∷ xs) h = ((λ k. ground (arith, met x y e k)), unselected x e xs h.1)

  -- The first row selected is then the only one.
  pub first_where-only :
      (xs : List A) {r : A}
      → Distinct clash xs
      → first_where p xs ≡ some r
      → All (λ y. p y ≡ true → y ≡ r) xs
  first_where-only [] h e = tt
  first_where-only (x ∷ xs) {r} h e = elim (Bool-cases (p x)) [
    | inl k ↦
        let same : x ≡ r = ground arith in
        ((λ _. same), subst (λ z. All (λ y. p y ≡ true → y ≡ z) xs) same (unselected x k xs h.0))
    | inr k ↦ ((λ e'. cc), first_where-only xs h.1 (ground arith))
  ]

module _ {A : Type 0} (clash : A → A → Bool)
    (flip : (x y : A) → clash x y ≡ true → clash y x ≡ true) where
  same_first :
      (x : A) (xs : List A)
      → All (λ y. clash y x ≡ false) xs
      → All (λ y. clash x y ≡ true → x ≡ y) xs
  same_first x [] h = tt
  same_first x (y ∷ xs) h = ((λ e. let k = flip x y e in let l = h.0 in cc), same_first x xs h.1)

  same_later :
      (x : A) (xs ys : List A)
      → All (λ y. clash y x ≡ false) xs
      → All (λ y. All (λ z. clash y z ≡ true → y ≡ z) ys) xs
      → All (λ y. All (λ z. clash y z ≡ true → y ≡ z) (x ∷ ys)) xs
  same_later x [] ys h k = tt
  same_later x (y ∷ xs) ys h k = (((λ e. let l = h.0 in cc), k.0), same_later x xs ys h.1 k.1)

  -- Rows of a table that clash are one row.
  pub Distinct-same :
      (xs : List A) → Distinct clash xs → All (λ x. All (λ y. clash x y ≡ true → x ≡ y) xs) xs
  Distinct-same [] h = tt
  Distinct-same (x ∷ xs) h =
      (((λ _. refl), same_first x xs h.0), same_later x xs xs h.0 (Distinct-same xs h.1))
