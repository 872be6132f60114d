-- ===== src/Lib.antt =====
-- The operations platform: a service that keeps operations (jobs that call a customer's HTTP
-- endpoint), workers that run them, and a gateway, an access service and a usage service around
-- it. This library models the four services whole and the workers and the shared platform code in
-- part.
--
-- How the parts work together. A client submits an operation; the service inserts a PENDING row
-- and starts a DBOS workflow, which marks the row QUEUED and puts an envelope on a Redis stream.
-- A CLOUD worker reads the stream and claims over an internal route; a private worker polls the
-- service, which claims for it. A claim is a lease: RUNNING, an owner, an expiry. The worker
-- extends the lease and reports success or failure; a failure is retried by a delayed workflow or
-- dead-lettered. A reaper takes expired leases back, and an outbox carries events to the usage
-- service, which charges each event key once and delivers it to the tenant's webhooks. Every
-- request of a client passes the gateway, which asks the access service who sends it and puts
-- that answer into the headers that the services trust.
--
-- Files and sources:
--   Domain, Domain/*      internal/domain/state.go: the statuses, `CanTransition`, `IsTerminal`,
--                         `RetryDelay`; the table as a graph; the bounds of the delay
--   Contracts             internal/contracts/contracts.go
--   Database              migrations/*.sql: the tables as lists of rows
--   Effect, Effect/*      how a handler runs: tables, clock, calls sent, a schedule of faults;
--                         transactions; Hoare and Steps: rules for what an action leaves;
--                         Refusals: the codes of its errors; Calm: runs in which no call fails
--   Operations/Rows, Statements   the WHERE and SET clauses and the SQL statements
--   Operations/Create .. Outbox   the handlers of cmd/operations/main.go under their own names:
--                         Create (`create`), Enqueue (`queueOperationWorkflow`), Read (`get`,
--                         `getInternal`, `list`), Cancel (`cancel`, `redrive`), Claim
--                         (`claimOperation`, `claim`, heartbeats), Finish (`complete`, `fail`,
--                         `workerComplete`, `workerFail`, `insertEvent`), Poll (`workerPoll`),
--                         Reaper (`reapExpiredLeaseBatch`), Outbox (`dispatchEventBatch`)
--   Operations/Service    a run: any sequence of requests, workflow steps and ticks
--   Operations/Invariant, History, Safety   what holds of the tables after every handler
--   Operations/Admission, Replay, Claiming, Atomic, Failing, Leases, Isolation, Delivery,
--   Draining, Refusing    single handlers
--   Usage/Statements .. Hub   cmd/usage/main.go: Record (`recordEvent`), Report (`getUsage`,
--                         `adminUsage`), Webhooks (`createWebhook`, `listWebhooks`,
--                         `deleteWebhook`), Deliveries (`dispatchBatch`, `deliver`), Hub
--                         (`events`, `publish`)
--   Usage/Charging, Deletion, Removal, Sending, Subscribers   what these leave in the tables
--                         and channels
--   Usage/Calls, Refusals, Once   the event outbox with `recordEvent` behind its HTTP calls
--   Access/Statements, Login, Tenants, Bootstrap   cmd/access/main.go: `login`, `verify`,
--                         `createAPIKey`; `getTenant`, `listTenants`, `createTenant`;
--                         `bootstrap`, `seedDemoTenant`
--   Access/Sessions, Keys, Denials, Tenancy, Seeding   tokens and keys from their issue to
--                         `verify`, refused logins, new tenants, a start on tables in use
--   Gateway/Requests, Limits, Proxy, Routes, Assistant   cmd/gateway/main.go: `authenticate`,
--                         `requireAdmin`; `rateLimit` and its script; `proxy`, `proxyParam`,
--                         `proxyPath`, `stripUpstreamCORSHeaders`; the table of `main`;
--                         `assistant`, `ready`
--   Gateway/Trust, Window, Session   forwarded headers, the limit of a minute, and a login
--                         followed to the request that a service receives
--   Worker/*              cmd/worker/main.go (Cloud) and cmd/enterprise-worker/main.go (Agent):
--                         a message becomes a list of actions; the answers are arguments;
--                         Providers: what is made of OpenRouter's answers;
--                         Routing, Verdict, Leased, Agreement: the workers and the service together
--   Platform/*            internal/platform/http.go (Http, Guards) and config.go (Config)
--
-- Choices. A handler is a function from a world (tables, clock, commands sent, faults) to a
-- result and a world. Each call of PostgreSQL, Redis or DBOS takes the next fault: it is done, it
-- is refused without effect, or it is done and the caller sees an error; a theorem for every
-- world is one for every pattern of failures, malformed identifiers among them. A transaction
-- works on a copy of the tables. Times are nanoseconds as natural numbers; identifiers and JSON
-- documents are texts. encoding/json, `uuid.NewString`, the answers of Redis and of HTTP calls,
-- `date_trunc`, bcrypt, SHA-256, HMAC, the JWT library and `url.PathEscape` are arguments; the
-- theorems on tokens assume that the JWT library reads back what it signed until it expires.
-- The reverse proxy of net/http/httputil takes away the headers of a single connection after the
-- gateway has set its own: what it removes is part of the model, what it adds is not.
-- Handlers run one after the other: interleavings of the single statements of two handlers are
-- not modelled. No definition runs on fuel but the printing of numbers, whose fuel is one more
-- than the number.
--
-- Not modelled: start-up and shutdown, tickers (a tick is a request of the run), the worker's
-- heartbeat goroutine and HTTP client, the requests to OpenRouter (what is made of its answers
-- is Worker/Providers), the matching of a path by the router, the stream of `events` to its
-- client, the sample cmd/acme, internal/platform/resources.go and security.go, the web
-- applications, build files and documents.
pub mod Prelude
pub mod Domain
pub mod Contracts
pub mod Database
pub mod Effect
pub mod Operations
pub mod Usage
pub mod Access
pub mod Gateway
pub mod Worker
pub mod Platform
