-- ===== src/Usage/Webhooks.antt =====
-- `createWebhook`, `listWebhooks` and `deleteWebhook` of cmd/usage/main.go.
use sde_thp.Prelude.{
  Bool, not, ◌||◌, String, Option, List, [], ◌∷◌, map, ◌==◌, starts_with, byte_length, ltb, nat_eq,
  select_where, if◌then◌else◌,
}
use sde_thp.Database.{Database, EndpointRow}
use sde_thp.Effect.{M, http, pure, lift, raise_if, ◌>>=◌, ◌>>◌, exec, query}
use sde_thp.Operations.Reply.{Headers, bound}
use sde_thp.Usage.Reply.{Reply, reply, nothing, created, webhooks, Webhook}
use sde_thp.Usage.Statements.{insert_endpoint, delete_endpoint}

pub record WebhookInput : Type 0 where
  pub url : String
  pub secret : String

is_http : String → Bool
is_http url = starts_with url "http://" || starts_with url "https://"

-- `id` is the result of `uuid.NewString()`.
unfoldable pub create_webhook : String → Headers → Option WebhookInput → M Reply
unfolding is_http
create_webhook id headers body = do
  input ← lift (bound body)
  raise_if (not (is_http input.url)) (http 400 "webhook URL must use http or https")
  raise_if (ltb (byte_length input.secret) 16)
      (http 400 "webhook secret must have at least 16 characters")
  exec (insert_endpoint id headers.tenant input.url input.secret)
  pure (reply 201 (created id input.url))

-- `ORDER BY created_at DESC`.
insert_newest : EndpointRow → List EndpointRow → List EndpointRow
insert_newest e [] = e ∷ []
insert_newest e (x ∷ xs) =
    let rest = insert_newest e xs in if ltb e.created_at x.created_at then x ∷ rest else e ∷ x ∷ xs

newest_first : List EndpointRow → List EndpointRow
newest_first [] = []
newest_first (x ∷ xs) = insert_newest x (newest_first xs)

-- The columns that are selected: the secret is not among them.
scan_webhook : EndpointRow → Webhook
scan_webhook e = record { id = e.id; url = e.url; enabled = e.enabled; created_at = e.created_at }

unfoldable pub listed : String → Database → List EndpointRow
unfolding newest_first insert_newest
listed tenant d = newest_first (select_where (λ e. e.tenant_id == tenant) d.webhook_endpoints)

unfoldable pub list_webhooks : Headers → M Reply
unfolding listed scan_webhook
list_webhooks headers = do
  rows ← query (listed headers.tenant)
  pure (reply 200 (webhooks (map scan_webhook rows)))

unfoldable pub delete_webhook : String → Headers → M Reply
delete_webhook id headers = do
  rows ← exec (delete_endpoint id headers.tenant)
  raise_if (nat_eq rows 0) (http 404 "webhook not found")
  pure (reply 204 nothing)
