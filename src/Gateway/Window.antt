-- ===== src/Gateway/Window.antt =====
-- How many requests of a tenant `rateLimit` of cmd/gateway/main.go lets through in a minute.
use mathlib.Core.Path.{subst}
use mathlib.Core.Option.{some-injective}
use sde_thp.Prelude.{
  ℕ, ◌+◌, ◌-◌, ◌*◌, ◌/◌, ◌≤◌, ◌<◌, ◌≡◌, ◌≢◌, refl, sym, ap, ◌∙◌, inl, inr, Bool, true, false, not,
  ◌&&◌, String, none, some, List, [], ◌∷◌, All, first_where, select_where, ltb, ◌==◌, eq_iff,
  eq_refl, and-elim, arith, decimal, Bool-cases, if◌then◌else◌,
}
use Prim.Native.String.{◌++◌}
use sde_thp.Gateway.Requests.{Call, Reply, broken, limited, Counter, Store, Handler}
use sde_thp.Gateway.Limits.{is_live, raised, increment, window_key, limit_of, limit_at, rate_limit}

-- A handler that shows that it was reached.
abbrev pub marker : Handler
marker c st = (broken, st)

abbrev pub is_reached : Reply → Bool
is_reached (limited limit remaining broken) = true
is_reached _ = false

-- A request of a tenant, not by an administrator.
abbrev pub counts : String → Call → Bool
counts tenant c =
    c.header "X-Nexora-Tenant-ID" == tenant && not (c.header "X-Nexora-Role" == "admin")

if-true : {A : Type 0} (x y : A) {b : Bool} → b ≡ true → (if b then x else y) ≡ x
if-true x y h = rw h refl

if-false : {A : Type 0} (x y : A) {b : Bool} → b ≡ false → (if b then x else y) ≡ y
if-false x y h = rw h refl

first_where-holds :
    {A : Type 0} (p : A → Bool) (xs : List A) (x : A) → first_where p xs ≡ some x → p x ≡ true
first_where-holds p [] x h = cc
first_where-holds p (y ∷ xs) x h = elim (Bool-cases (p y)) [
  | inl e ↦ subst (λ z. p z ≡ true) (some-injective y x (sym (if-true _ _ e) ∙ h)) e
  | inr e ↦ first_where-holds p xs x (sym (if-false _ _ e) ∙ h)
]

apart : (s t : String) → s == t ≡ false → s ≢ t
apart s t h e = (let k = subst (λ (x : String). s == x ≡ true) e (eq_refl s) in cc)

module _ (works : Call → Bool) (tenant : String) where
  -- How many of the tenant's requests are let through, in any order with those of others.
  unfoldable pub passes : List Call → Store → ℕ
  passes [] st = 0
  passes (c ∷ cs) st =
      let out = rate_limit works marker c st in
      let rest = passes cs out.1 in if counts tenant c && is_reached out.0 then rest + 1 else rest

  module _ (minute : ℕ) where
    abbrev pub key : String
    key = "rate:" ++ tenant ++ ":" ++ decimal minute

    abbrev has_key : Counter → Bool
    has_key x = x.key == key

    -- The counter of the tenant's minute stands at `n`.
    data Holds (st : Store) : ℕ → Type 0 where
      empty : first_where has_key st ≡ none → Holds st 0
      counted :
          (x : Counter)
          → first_where has_key st ≡ some x
          → 60 * minute + 60 ≤ x.expires_at
          → Holds st x.count

    first_live-none :
        (now : ℕ) (st : Store)
        → first_where has_key st ≡ none
        → first_where (is_live now key) st ≡ none
    unfolding is_live
    first_live-none now [] h = refl
    first_live-none now (x ∷ st) h = ground (arith, first_live-none now st)

    first_live-some :
        (now : ℕ) (st : Store) (x : Counter)
        → first_where has_key st ≡ some x
        → now < x.expires_at
        → first_where (is_live now key) st ≡ some x
    unfolding is_live
    first_live-some now [] x h e = cc
    first_live-some now (y ∷ st) x h e = elim (Bool-cases (y.key == key)) [
      | inl same ↦
          let found : y ≡ x = some-injective y x (sym (if-true _ _ same) ∙ h) in
          let early : ltb now y.expires_at ≡ true =
            subst (λ (z : Counter). ltb now z.expires_at ≡ true) (sym found) (ground arith) in
          rw (same, early) (ap some found)
      | inr other ↦ rw other (first_live-some now st x (sym (if-false _ _ other) ∙ h) e)
    ]

    first_key-select :
        (other : String) (st : Store)
        → other == key ≡ false
        → first_where has_key (select_where (λ x. not (x.key == other)) st) ≡ first_where has_key st
    first_key-select other [] h = refl
    first_key-select other (x ∷ st) h = elim (Bool-cases (x.key == other)) [
      | inl same ↦
          let gone : x.key == key ≡ false =
            subst (λ (k : String). k == key ≡ false) (sym ((eq_iff x.key other).0 same)) h in
          rw (same, gone) (first_key-select other st h)
      | inr differs ↦
          rw differs (ap (λ o. if has_key x then some x else o) (first_key-select other st h))
    ]

    raised-key :
        (now : ℕ) (k : String) (st : Store)
        → (raised now k (first_where (is_live now k) st)).key == k ≡ true
    unfolding raised is_live
    raised-key now k [] = eq_refl k
    raised-key now k (x ∷ st) = elim (Bool-cases (is_live now k x)) [
      | inl live ↦ rw live (and-elim _ _ live).0
      | inr dead ↦ rw dead (raised-key now k st)
    ]

    -- A request in the minute under another key leaves the counter as it is.
    increment-other :
        (now : ℕ) (other : String) (st : Store) (n : ℕ)
        → other == key ≡ false
        → Holds st n
        → Holds (increment now other st).1 n
    unfolding increment
    increment-other now other st n differs h = kept h
      where
        head : (raised now other (first_where (is_live now other) st)).key == key ≡ false
        head =
            subst (λ (k : String). k == key ≡ false)
              (sym ((eq_iff _ other).0 (raised-key now other st))) differs

        kept : {n : ℕ} → Holds st n → Holds (increment now other st).1 n
        kept (empty none_yet) = empty (rw head (first_key-select other st differs ∙ none_yet))
        kept (counted x found late) =
            counted x (rw head (first_key-select other st differs ∙ found)) late

    -- A request of the tenant in the minute raises it by one.
    increment-same :
        (now : ℕ) (st : Store) (n : ℕ)
        → now / 60 ≡ minute
        → Holds st n
        → ((increment now key st).0.count ≡ n + 1) × Holds (increment now key st).1 (n + 1)
    unfolding increment raised
    increment-same now st _ in_minute (empty absent) =
        rw (first_live-none now st absent)
          (refl, counted _ (if-true _ _ (eq_refl key)) (omega (arith, in_minute)))
    increment-same now st _ in_minute (counted x found late) =
        rw (first_live-some now st x found (omega (arith, in_minute, late)))
          (refl, counted _ (if-true _ _ (first_where-holds has_key st x found)) late)

    limit_at-marker :
        (limit : ℕ) (x : Counter × Store) (c : Call) (st : Store)
        → ((limit_at limit x marker c st).1 ≡ x.1)
          × (is_reached (limit_at limit x marker c st).0 ≡ not (ltb limit x.0.count))
    unfolding limit_at
    limit_at-marker limit (y, st') c st = elim (Bool-cases (ltb limit y.count)) [
      | inl over ↦ rw over (refl, refl)
      | inr within ↦ rw within (refl, refl)
    ]

    counts-key :
        (c : Call)
        → counts tenant c ≡ true
        → c.time / 60 ≡ minute
        → window_key (c.header "X-Nexora-Tenant-ID") c.time ≡ key
    unfolding window_key
    counts-key c h e =
        rw ((eq_iff (c.header "X-Nexora-Tenant-ID") tenant).0 (and-elim _ _ h).0, e) refl

    -- One request more: `rest` is what the later ones are let through.
    one_more :
        (c : Call) (st : Store) (n rest : ℕ)
        → c.time / 60 ≡ minute
        → (increment c.time (window_key (c.header "X-Nexora-Tenant-ID") c.time) st).0.count ≡ n + 1
        → rest ≤ 120 - (n + 1)
        → (if counts tenant c
              && not (
                  ltb
                    (limit_of (c.header "X-Nexora-Role"))
                    (increment c.time
                      (window_key (c.header "X-Nexora-Tenant-ID") c.time)
                      st).0.count)
            then rest + 1
            else rest)
          ≤ 120 - n
    unfolding limit_of
    one_more c st n rest e count left = elim (Bool-cases (counts tenant c)) [
      | inr no_count ↦ rw no_count (omega (arith, left))
      | inl mine ↦
          rw (mine, count, unprivileged (c.header "X-Nexora-Role" == "admin") (and-elim _ _ mine).1)
            (ground (arith, left))
    ]
      where
        unprivileged : (b : Bool) → not b ≡ true → b ≡ false
        unprivileged true h = cc
        unprivileged false h = refl

    -- What is left of the limit bounds what is let through.
    passes-left :
        (cs : List Call) (st : Store) (n : ℕ)
        → All (λ c. c.time / 60 ≡ minute) cs
        → Holds st n
        → passes cs st ≤ 120 - n
    unfolding passes rate_limit
    passes-left [] st n a h = omega arith
    passes-left (c ∷ cs) st n a h = elim (Bool-cases (works c)) [
      | inr down ↦ rw down (unreached (counts tenant c) (passes-left cs st n a.1 h))
      | inl up ↦
          let k = window_key (c.header "X-Nexora-Tenant-ID") c.time in
          let x = increment c.time k st in
          let m = limit_at-marker (limit_of (c.header "X-Nexora-Role")) x c st in
          rw (up, m.0, m.1)
            (elim (Bool-cases (k == key)) [
              | inl same ↦
                  let p = (eq_iff k key).0 same in
                  let q =
                    subst
                      (λ (k : String).
                        ((increment c.time k st).0.count ≡ n + 1)
                        × Holds (increment c.time k st).1 (n + 1))
                      (sym p) (increment-same c.time st n a.0 h) in
                  one_more c st n (passes cs x.1) a.0 q.0 (passes-left cs x.1 (n + 1) a.1 q.1)
              | inr other ↦ elim (Bool-cases (counts tenant c)) [
                | inl mine ↦ absurd (apart k key other (counts-key c mine a.0))
                | inr no_count ↦
                    rw no_count (passes-left cs x.1 n a.1 (increment-other c.time k st n other h))
              ]
            ])
    ]
      where
        unreached :
            (b : Bool) {rest : ℕ}
            → rest ≤ 120 - n
            → (if b && false then rest + 1 else rest) ≤ 120 - n
        unreached true l = l
        unreached false l = l

    -- Requests of one minute in any order, of any tenants, and whenever Redis fails: where the
    -- tenant has no counter for the minute yet, at most 120 of its requests that are not an
    -- administrator's are let through.
    pub passes-limit :
        (cs : List Call) (st : Store)
        → All (λ c. c.time / 60 ≡ minute) cs
        → first_where (λ x. x.key == key) st ≡ none
        → passes cs st ≤ 120
    passes-limit cs st a h = passes-left cs st 0 a (empty h)
