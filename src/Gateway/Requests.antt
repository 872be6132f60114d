-- ===== src/Gateway/Requests.antt =====
-- What the handlers of cmd/gateway/main.go read and answer, and `authenticate` and `requireAdmin`.
-- What the access service answers to `/internal/verify` is an argument.
use sde_thp.Prelude.{ℕ, not, String, Option, none, some, List, ◌==◌, nat_eq, if◌then◌else◌}
use sde_thp.Contracts.{Principal, Problem}

-- The request; `params` are the path parameters of its route, `time` is in seconds.
pub record Call : Type 0 where
  pub header : String → String
  pub path : String
  pub params : List (String × String)
  pub request_id : String
  pub time : ℕ

-- The request that goes to a service.
pub record Forward : Type 0 where
  pub service : String
  pub path : String
  pub header : String → String

-- `stopped` is `echo.NewHTTPError`, `broken` another error. `limited` sets the headers
-- X-RateLimit-Limit and X-RateLimit-Remaining.
pub data Reply : Type 0 where
  stopped : ℕ → String → Reply
  broken : Reply
  relayed : Forward → ℕ → List (String × String) → Reply
  bad_gateway : Forward → Problem → Reply
  limited : (limit remaining : ℕ) → Reply → Reply
  answered_by : (model answer : String) → Reply
  health : ℕ → List (String × String) → Reply

-- One counter of Redis.
pub record Counter : Type 0 where
  pub key : String
  pub count : ℕ
  pub expires_at : ℕ

abbrev pub Store : Type 0
Store = List Counter

abbrev pub Handler : Type 0
Handler = Call → Store → Reply × Store

-- The answer of the access service: none, or its status and the principal in its body.
pub data Verified : Type 0 where
  unreachable : Verified
  answered : ℕ → Option Principal → Verified

unfoldable pub set_header : String → String → (String → String) → String → String
set_header name value header n = if n == name then value else header n

-- `Header.Del` and `Header.Set` of the three headers that the services trust.
unfoldable pub with_principal : Principal → Call → Call
unfolding set_header
with_principal p c = record c {
  header = set_header "X-Nexora-Role" p.role (
      set_header "X-Nexora-User-ID" p.user_id
        (set_header "X-Nexora-Tenant-ID" p.tenant_id c.header));
}

unfoldable pub admit : Verified → Handler → Handler
unfolding with_principal
admit unreachable next c st = (stopped 503 "authentication service unavailable", st)
admit (answered code none) next c st =
    if not (nat_eq code 200) then (stopped 401 "invalid credentials", st) else (broken, st)
admit (answered code (some p)) next c st =
    let rest = next (with_principal p c) st in
    if not (nat_eq code 200) then (stopped 401 "invalid credentials", st) else rest

unfoldable pub authenticate : (String → String → Verified) → Handler → Handler
unfolding admit
authenticate verify next c st =
    admit (verify (c.header "Authorization") (c.header "X-API-Key")) next c st

unfoldable pub require_admin : Handler → Handler
require_admin next c st =
    if not (c.header "X-Nexora-Role" == "admin")
    then (stopped 403 "admin role required", st)
    else next c st
