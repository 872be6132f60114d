-- ===== src/Usage/Hub.antt =====
-- The subscribers of cmd/usage/main.go: `events` adds a channel of 16 places under its tenant and
-- takes it away when the request ends, and `publish` offers an event to the tenant's channels.
-- The lock makes each of these one step.
use sde_thp.Prelude.{
  ℕ, not, String, List, [], ◌∷◌, ◌++◌, ◌==◌, ltb, nat_eq, length, select_where, update_where,
  if◌then◌else◌,
}
use sde_thp.Effect.{Command, publish, xadd, set_cursor, run_workflow}

-- One channel, by a number, and what is buffered in it, oldest first.
pub record Channel : Type 0 where
  pub number : ℕ
  pub tenant : String
  pub buffer : List String

abbrev pub capacity : ℕ
capacity = 16

unfoldable pub subscribe : ℕ → String → List Channel → List Channel
subscribe number tenant hub = hub ++ record { number = number; tenant = tenant; buffer = [] } ∷ []

unfoldable pub unsubscribe : ℕ → List Channel → List Channel
unsubscribe number hub = select_where (λ c. not (nat_eq c.number number)) hub

-- `select { case ch <- data: default: }`: a full channel misses the event.
unfoldable pub offer : String → Channel → Channel
offer text c =
    if ltb (length c.buffer) capacity then record c { buffer = c.buffer ++ text ∷ [] } else c

unfoldable pub publish_to : String → String → List Channel → List Channel
unfolding offer
publish_to tenant text hub = update_where (λ c. c.tenant == tenant) (offer text) hub

-- `case data := <-ch`.
unfoldable pub drop_first : List String → List String
drop_first [] = []
drop_first (x ∷ xs) = xs

unfoldable pub receive : ℕ → List Channel → List Channel
unfolding drop_first
receive number hub =
    update_where (λ c. nat_eq c.number number) (λ c. record c { buffer = drop_first c.buffer }) hub

-- What the subscribers see of the commands of a handler.
unfoldable pub heard : List Command → List Channel → List Channel
unfolding publish_to
heard [] hub = hub
heard (publish tenant text ∷ cs) hub = heard cs (publish_to tenant text hub)
heard (xadd payload ∷ cs) hub = heard cs hub
heard (set_cursor key id ∷ cs) hub = heard cs hub
heard (run_workflow id envelope ∷ cs) hub = heard cs hub
