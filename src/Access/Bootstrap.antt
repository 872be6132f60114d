-- ===== src/Access/Bootstrap.antt =====
-- `bootstrap` and `seedDemoTenant` of cmd/access/main.go.
use sde_thp.Prelude.{ℕ, String, ◌==◌, first_bytes, if◌then◌else◌}
use sde_thp.Effect.{M, pure, lift, ◌>>=◌, ◌>>◌, exec}
use sde_thp.Operations.Reply.{or_failure}
use sde_thp.Platform.Config.{Config}
use sde_thp.Access.Reply.{Crypto}
use sde_thp.Access.Statements.{put_tenant, offer_user, offer_key}

pub record DemoTenant : Type 0 where
  pub name : String
  pub slug : String
  pub monthly_quota : ℕ
  pub concurrency_limit : ℕ
  pub email : String
  pub password : String
  pub api_key_env : String

abbrev pub acme_support : DemoTenant
acme_support = record {
  name = "Acme Support";
  slug = "acme-support";
  monthly_quota = 10000;
  concurrency_limit = 10;
  email = "ops@acme.test";
  password = "AcmeDemo123!";
  api_key_env = "ACME_API_KEY";
}

abbrev pub lorem_ipsum : DemoTenant
lorem_ipsum = record {
  name = "Lorem Ipsum";
  slug = "lorem-ipsum";
  monthly_quota = 5000;
  concurrency_limit = 5;
  email = "ops@lorem.test";
  password = "LoremDemo123!";
  api_key_env = "LOREM_API_KEY";
}

-- `os.Getenv`, and what the database and bcrypt draw for a row: `fresh` takes the name of the
-- tenant and of the row.
pub record Start : Type 0 where
  pub getenv : String → String
  pub fresh : String → String → String

module _ (crypto : Crypto) (start : Start) where
  -- What is done for a demonstration tenant whose key is set.
  unfoldable pub seed_with : DemoTenant → String → M (Unit {0})
  seed_with t key = do
    id ←
        exec (
          put_tenant (start.fresh t.slug "tenant") t.name t.slug t.monthly_quota
            t.concurrency_limit)
    hash ← lift (or_failure (crypto.hash_password (start.fresh t.slug "salt") t.password))
    exec (offer_user (start.fresh t.slug "user") id (crypto.to_lower t.email) hash "customer")
    prefix ← lift (or_failure (first_bytes 16 key))
    exec (offer_key (start.fresh t.slug "key") id "local demo" prefix (crypto.digest key))

  unfoldable pub seed_demo_tenant : DemoTenant → M (Unit {0})
  unfolding seed_with
  seed_demo_tenant t =
      let key = start.getenv t.api_key_env in if key == "" then pure tt else seed_with t key

  unfoldable pub bootstrap : Config → M (Unit {0})
  unfolding seed_demo_tenant
  bootstrap config = do
    hash ← lift (
        or_failure (crypto.hash_password (start.fresh "nexora-admin" "salt") config.admin_password))
    id ← exec (
        put_tenant (start.fresh "nexora-admin" "tenant") "Nexora Administration" "nexora-admin"
          10000 5)
    exec (
        offer_user (start.fresh "nexora-admin" "user") id (crypto.to_lower config.admin_email) hash
          "admin")
    seed_demo_tenant acme_support
    seed_demo_tenant lorem_ipsum
