-- ===== src/Usage/Subscribers.antt =====
-- The subscribers of cmd/usage/main.go over a whole history of the process.
use sde_thp.Prelude.{
  ℕ, ◌≤◌, ◌+◌, ◌≡◌, refl, inl, inr, Bool, true, false, ◌&&◌, String, List, [], ◌∷◌, ◌++◌, All,
  All-append, All-map, All-select_where, All-update_where, any, length, ltb, ◌==◌, eq_flip, eq_refl,
  arith, Bool-cases,
}
use sde_thp.Usage.Hub.{
  Channel, capacity, subscribe, unsubscribe, offer, publish_to, receive, drop_first,
}

-- What happens to the subscribers, one step for each time the lock is held.
pub data HubStep : Type 0 where
  joins : ℕ → String → HubStep
  leaves : ℕ → HubStep
  publishes : String → String → HubStep
  receives : ℕ → HubStep

unfoldable pub step : HubStep → List Channel → List Channel
unfolding subscribe unsubscribe publish_to receive
step (joins number tenant) hub = subscribe number tenant hub
step (leaves number) hub = unsubscribe number hub
step (publishes tenant text) hub = publish_to tenant text hub
step (receives number) hub = receive number hub

-- The channels after a history whose last step stands first.
unfoldable pub hub_after : List HubStep → List Channel
unfolding step
hub_after [] = []
hub_after (s ∷ history) = step s (hub_after history)

abbrev pub tells : String → String → HubStep → Bool
tells tenant text (publishes t x) = t == tenant && x == text
tells tenant text _ = false

-- A channel holds no more than its capacity, and only what was published to its tenant.
pub record IsFed (history : List HubStep) (c : Channel) : Type 0 where
  pub few : length c.buffer ≤ capacity
  pub mine : All (λ text. any (tells c.tenant text) history ≡ true) c.buffer

later :
    (s : HubStep) (history : List HubStep) (c : Channel) → IsFed history c → IsFed (s ∷ history) c
later s history c h = record {
  few = h.few;
  mine =
      All-map (λ text. any (tells c.tenant text) history ≡ true) _ (λ text k. ground arith) c.buffer
        h.mine;
}

length-append : {A : Type 0} (xs : List A) (x : A) → length (xs ++ x ∷ []) ≡ length xs + 1
length-append [] x = refl
length-append (y ∷ xs) x = omega (arith, length-append xs x)

offer-IsFed :
    (history : List HubStep) (tenant text : String) (c : Channel)
    → c.tenant == tenant ≡ true
    → IsFed history c
    → IsFed (publishes tenant text ∷ history) (offer text c)
unfolding offer
offer-IsFed history tenant text c e h = elim (Bool-cases (ltb (length c.buffer) capacity)) [
  | inl room ↦ rw room record {
    few = (let l = length-append c.buffer text in ground arith);
    mine =
        All-append _ c.buffer (text ∷ []) (later (publishes tenant text) history c h).mine
          (rw (eq_flip c.tenant tenant e, eq_refl text) refl, tt);
  }
  | inr full ↦ rw full (later (publishes tenant text) history c h)
]

drop_first-IsFed :
    (history : List HubStep) (c : Channel)
    → IsFed history c
    → IsFed history (record c { buffer = drop_first c.buffer })
unfolding drop_first
drop_first-IsFed history c h = dropped c.buffer h.few h.mine
  where
    dropped :
        (xs : List String)
        → length xs ≤ capacity
        → All (λ text. any (tells c.tenant text) history ≡ true) xs
        → IsFed history (record c { buffer = drop_first xs })
    dropped [] few mine = record { few = few; mine = mine }
    dropped (x ∷ xs) few mine = record { few = omega arith; mine = mine.1 }

step-IsFed :
    (s : HubStep) (history : List HubStep) (hub : List Channel)
    → All (IsFed history) hub
    → All (IsFed (s ∷ history)) (step s hub)
unfolding step subscribe unsubscribe publish_to receive
step-IsFed (joins number tenant) history hub h =
    All-append _ hub _ (All-map _ _ (later (joins number tenant) history) hub h)
      (record { few = omega arith; mine = tt }, tt)
step-IsFed (leaves number) history hub h =
    All-select_where _ _ hub (All-map _ _ (later (leaves number) history) hub h)
step-IsFed (publishes tenant text) history hub h =
    All-update_where _ _ _ hub (All-map _ _ (λ c k e. offer-IsFed history tenant text c e k) hub h)
      (All-map _ _ (later (publishes tenant text) history) hub h)
step-IsFed (receives number) history hub h =
    let k = All-map _ _ (later (receives number) history) hub h in
    All-update_where _ _ _ hub (All-map _ _ (λ c l e. drop_first-IsFed _ c l) hub k) k

-- After any history of joining, leaving, publishing and receiving, each channel of a subscriber
-- holds at most 16 events, and each of them was published to the channel's own tenant.
pub hub_after-IsFed : (history : List HubStep) → All (IsFed history) (hub_after history)
unfolding hub_after
hub_after-IsFed [] = tt
hub_after-IsFed (s ∷ history) = step-IsFed s history (hub_after history) (hub_after-IsFed history)
