-- ===== src/Gateway/Limits.antt =====
-- `rateLimit` of cmd/gateway/main.go with its Redis script. `works` says of a call whether Redis
-- answers; a script that Redis does not answer has not run.
use Prim.Native.String.{◌++◌}
use sde_thp.Prelude.{
  ℕ, ◌+◌, ◌-◌, ◌/◌, Bool, not, ◌&&◌, String, Option, none, some, ◌∷◌, ltb, ◌==◌, decimal,
  first_where, select_where, if◌then◌else◌,
}
use sde_thp.Gateway.Requests.{Call, Counter, Store, Handler, stopped, limited}

-- A key that has not expired.
unfoldable pub is_live : ℕ → String → Counter → Bool
is_live now key c = c.key == key && ltb now c.expires_at

-- What INCR makes of the counter, if there is one; EXPIRE follows on the first.
unfoldable pub raised : ℕ → String → Option Counter → Counter
raised now key none = record { key = key; count = 1; expires_at = now + 70 }
raised now key (some c) = record c { count = c.count + 1 }

-- The script: the new counter, and the store with it.
unfoldable pub increment : ℕ → String → Store → Counter × Store
unfolding is_live raised
increment now key st =
    let c = raised now key (first_where (is_live now key) st) in
    (c, c ∷ select_where (λ x. not (x.key == key)) st)

unfoldable pub window_key : String → ℕ → String
window_key tenant time = "rate:" ++ tenant ++ ":" ++ decimal (time / 60)

unfoldable pub limit_of : String → ℕ
limit_of role = if role == "admin" then 600 else 120

-- The decision on a count.
unfoldable pub limit_at : (limit : ℕ) → Counter × Store → Handler → Handler
limit_at limit (n, st) next c _ =
    let rest = next c st in
    if ltb limit n.count
    then (limited limit (limit - n.count) (stopped 429 "tenant request rate exceeded"), st)
    else (limited limit (limit - n.count) rest.0, rest.1)

unfoldable pub rate_limit : (Call → Bool) → Handler → Handler
unfolding limit_at increment window_key limit_of
rate_limit works next c st =
    let rest =
      limit_at (limit_of (c.header "X-Nexora-Role"))
        (increment c.time (window_key (c.header "X-Nexora-Tenant-ID") c.time) st) next c st in
    if not (works c) then (stopped 503 "rate limiter unavailable", st) else rest
