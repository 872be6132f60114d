-- ===== src/Access/Tests.antt =====
-- The theorems on concrete tables of the access service.
use Prim.Native.String.{◌++◌}
use sde_thp.Prelude.{
  ◌≡◌, ◌⊎◌, refl, true, false, none, some, String, [], pos, has_space, trim_space, ◌==◌,
}
use sde_thp.Effect.{World, ok, err, http}
use sde_thp.Effect.Calm.{calm}
use sde_thp.Effect.Hoare.{Hoare}
use sde_thp.Operations.Reply.{Headers}
use sde_thp.Platform.Config.{load_config}
use sde_thp.Access.Reply.{reply, session, principal, created}
use sde_thp.Access.Login.{LoginInput, login, verify, find_user, lifetime, create_api_key, claims_at}
use sde_thp.Access.Sessions.{login-verify}
use sde_thp.Access.Keys.{Issued, Opens, create_api_key-Issued}
use sde_thp.Access.Denials.{unknown_email, login-denied}
use sde_thp.Access.Tenants.{TenantInput, create_tenant, is_unfit}
use sde_thp.Access.Tenancy.{Created, AtOnce, create_tenant-Created}
use sde_thp.Access.Bootstrap.{Start, bootstrap}
use sde_thp.Access.Seeding.{Keeping, bootstrap-Keeping}
use sde_thp.Access.Samples.{ann, tables, input, crypto, sign-parse, sign-text, blank}

abbrev later : World
later = record { db = tables; time = 3600000000000; faults = []; sent = [] }

login-verify_example :
    (login crypto "s" (some input) (calm tables 0 [])
      ≡ (ok (reply 200 (session "token" lifetime "acme" "customer")), calm tables 0 []))
    × (verify crypto "s" ("Bearer" ++ (" " ++ "token")) "" later
        ≡ (ok (reply 200 (principal "acme" "user-1" "customer")), later))
unfolding find_user trim_space claims_at
login-verify_example =
    login-verify crypto "s" sign-parse sign-text tables 0 [] input ann "acme" "token" refl refl refl
      refl "" later (omega sde_thp.Prelude.arith)

create_api_key-Issued_example :
    Hoare
      (λ d. d ≡ tables)
      (create_api_key crypto "key-1" (some "AbC-9_") "acme" none)
      (Issued crypto "s" tables "key-1" "acme" "AbC-9_" none)
      (λ d. (d ≡ tables) ⊎ Opens crypto "s" tables "key-1" "acme" "AbC-9_" none d)
unfolding has_space
create_api_key-Issued_example =
    create_api_key-Issued crypto "s" tables "key-1" "acme" "AbC-9_" none refl

abbrev stranger : LoginInput
stranger = record { email = "bob@acme.test"; password = "secret-word" }

login-denied_example :
    login crypto "s" (some stranger) (calm tables 0 [])
    ≡ (err (http 401 "invalid email or password"), calm tables 0 [])
unfolding find_user trim_space
login-denied_example =
    login-denied crypto "s" blank stranger (calm tables 0 []) (calm tables 0 [])
      (unknown_email refl)

abbrev guest : Headers
guest = record { tenant = "acme"; role = "customer"; idempotency_key = "" }

abbrev globex : TenantInput
globex = record {
  name = "Globex";
  slug = "globex";
  email = "ops@globex.test";
  password = "long-enough-1";
  monthly_quota = pos 0;
  concurrency_limit = pos 3;
}

abbrev admin : Headers
admin = record guest { role = "admin" }

create_tenant-Created_example :
    Hoare
      (λ d. d ≡ tables)
      (create_tenant crypto "t" "u" "salt" admin (some globex))
      (λ r d.
        (admin.role == "admin" ≡ true)
        × (is_unfit globex ≡ false)
        × (r ≡ reply 201 (created "t"))
        × Created crypto "t" "u" "salt" tables admin globex d)
      (AtOnce crypto "t" "u" "salt" tables admin globex)
create_tenant-Created_example = create_tenant-Created crypto "t" "u" "salt" tables admin globex

abbrev source : Start
source = record { getenv = λ key. "demo-key-of-the-tenant"; fresh = λ tenant row. tenant ++ row }

bootstrap-Keeping_example :
    Hoare
      (λ d. d ≡ tables)
      (bootstrap crypto source (load_config (λ key. "") (λ s. none)))
      (λ _. Keeping tables)
      (Keeping tables)
bootstrap-Keeping_example =
    bootstrap-Keeping tables crypto source (load_config (λ key. "") (λ s. none))
