-- ===== src/Access/Tenancy.antt =====
-- `createTenant` of cmd/access/main.go: a tenant and its first user, both or neither.
use mathlib.Core.Path.{subst}
use sde_thp.Prelude.{
  ◌≡◌, ◌⊎◌, refl, sym, inl, inr, Bool, true, false, not, ◌||◌, String, some, [], ◌∷◌, ◌++◌, ℤ, pos,
  pos_part, ltb_ℤ, leb_ℤ, any, ◌==◌, Bool-cases, Option-cases,
}
use sde_thp.Database.{Database, TenantRow, UserRow}
use sde_thp.Effect.Hoare.{
  Hoare, Ends, Done, Done-imply, refuse, wrote, Hoare-bind, Hoare-exec, Hoare-guard, Hoare-lift,
  Hoare-pure,
}
use sde_thp.Effect.Steps.{transaction_at, lift_ok}
use sde_thp.Operations.Reply.{Headers, bound, or_failure}
use sde_thp.Access.Reply.{Crypto, reply, created}
use sde_thp.Access.Statements.{has_slug, has_email, has_tenant, insert_tenant, insert_user}
use sde_thp.Access.Tenants.{TenantInput, is_unfit, or_value, add_tenant, create_tenant}

module _ (crypto : Crypto) (id user_id salt : String) (start : Database) (headers : Headers)
    (input : TenantInput) where
  abbrev pub quota : ℤ
  quota = or_value 10000 input.monthly_quota

  abbrev pub limit : ℤ
  limit = or_value 5 input.concurrency_limit

  abbrev pub tenant_row : TenantRow
  tenant_row = record {
    id = id;
    name = input.name;
    slug = input.slug;
    monthly_quota = pos_part quota;
    concurrency_limit = pos_part limit;
    created_at = start.now;
  }

  abbrev pub user_row : String → UserRow
  user_row hash = record {
    id = user_id;
    tenant_id = some id;
    email = crypto.to_lower input.email;
    password_hash = hash;
    role = "customer";
    created_at = start.now;
  }

  abbrev with_tenant : Database
  with_tenant = record start { tenants = start.tenants ++ tenant_row ∷ [] }

  -- The tenant is new, and the tables take it.
  pub record Fits : Type 0 where
    pub is_new : has_tenant id start || any (has_slug input.slug) start.tenants ≡ false
    pub bounds : ltb_ℤ quota (pos 0) || leb_ℤ limit (pos 0) ≡ false

  -- The tenant and its user have been added, and nothing else has changed.
  pub record Created (d : Database) : Type 0 where
    pub fits : Fits
    pub hash : String
    pub hashed : crypto.hash_password salt input.password ≡ some hash
    pub new_email : any (has_email (crypto.to_lower input.email)) start.users ≡ false
    pub tables : d ≡ record start {
      tenants = start.tenants ++ tenant_row ∷ [];
      users = start.users ++ user_row hash ∷ [];
    }

  insert_tenant-Done :
      Done
        (λ _ d. Fits × (d ≡ with_tenant))
        (insert_tenant id input.name input.slug quota limit start)
  unfolding insert_tenant
  insert_tenant-Done =
      elim (Bool-cases (has_tenant id start || any (has_slug input.slug) start.tenants)) [
        | inl used ↦ rw used refuse
        | inr fresh ↦ rw fresh (elim (Bool-cases (ltb_ℤ quota (pos 0) || leb_ℤ limit (pos 0))) [
          | inl out ↦ rw out refuse
          | inr bounds ↦ rw bounds (wrote (record { is_new = fresh; bounds = bounds }, refl))
        ])
      ]

  insert_user-Done :
      Fits
      → (hash : String) → crypto.hash_password salt input.password ≡ some hash
      → Done
          (λ _. Created)
          (insert_user user_id id (crypto.to_lower input.email) hash "customer" with_tenant)
  unfolding insert_user
  insert_user-Done fits hash hashed = elim (Bool-cases (any (λ u. u.id == user_id) start.users)) [
    | inl used ↦ rw used refuse
    | inr fresh ↦
        rw fresh (elim (Bool-cases (any (has_email (crypto.to_lower input.email)) start.users)) [
          | inl used ↦ rw used refuse
          | inr unknown ↦ rw unknown (elim (Bool-cases (has_tenant id with_tenant)) [
            | inl there ↦ rw there (
                wrote record {
                  fits = fits;
                  hash = hash;
                  hashed = hashed;
                  new_email = unknown;
                  tables = refl;
                })
            | inr gone ↦ rw gone refuse
          ])
        ])
  ]

  abbrev pub AtOnce : Database → Type 0
  AtOnce d = (d ≡ start) ⊎ Created d

  Hoare-add_tenant :
      Hoare
        (λ d. d ≡ start)
        (add_tenant crypto id user_id salt input)
        (Ends (λ _. Created) AtOnce start)
        (λ _. Unit)
  unfolding add_tenant or_failure
  Hoare-add_tenant =
      Hoare-bind {R = λ _ d. Fits × (d ≡ with_tenant)} _ _
        (Hoare-exec _ λ d e.
          let q =
            subst
              (λ x.
                Done (λ _ d. Fits × (d ≡ with_tenant))
                  (insert_tenant id input.name input.slug quota limit x))
              (sym e) insert_tenant-Done in
          (q, Done-imply (λ _ _ _. tt) q, tt))
        λ _. elim (Option-cases (crypto.hash_password salt input.password)) [
          | inl long ↦ rw long (
              Hoare-bind {R = λ _ _. ⊥} _ _ (Hoare-lift _ (λ a e d p. cc) (λ d p. tt))
                (λ _. record { at = λ w h. absurd h }))
          | inr (hash, hashed) ↦ rw hashed (
              lift_ok _ _ (
                Hoare-bind {R = λ _. Created} _ _
                  (Hoare-exec _ λ d p.
                    let q =
                      subst
                        (λ x.
                          Done (λ _. Created)
                            (insert_user user_id id (crypto.to_lower input.email) hash "customer"
                              x))
                        (sym p.1) (insert_user-Done p.0 hash hashed) in
                    (q, Done-imply (λ _ _ _. tt) q, tt))
                  (λ _. Hoare-pure _ (λ d c. (c, inr c)))))
        ]

  -- `createTenant` on a body that could be decoded, whichever calls fail: if it is answered, the
  -- caller is an admin, the input passed the checks, the answer is 201, and the tenant and its
  -- user with the hash of the password have been added and nothing else; if it fails, either no
  -- table has changed or all of that has been written.
  pub create_tenant-Created :
      Hoare
        (λ d. d ≡ start)
        (create_tenant crypto id user_id salt headers (some input))
        (λ r d.
          (headers.role == "admin" ≡ true)
          × (is_unfit input ≡ false)
          × (r ≡ reply 201 (created id))
          × Created d)
        AtOnce
  unfolding create_tenant bound
  create_tenant-Created =
      Hoare-guard _ _ _ (λ d e. inl e)
        λ admin. lift_ok _ _ (
          Hoare-guard _ _ _ (λ d e. inl e)
            λ fit.
              Hoare-bind {R = λ _. Created} _ _ (transaction_at start _ (inl refl) Hoare-add_tenant)
                λ _. Hoare-pure _ (λ d c. (is_admin (headers.role == "admin") admin, fit, refl, c)))
    where
      is_admin : (b : Bool) → not b ≡ false → b ≡ true
      is_admin true h = refl
      is_admin false h = cc
