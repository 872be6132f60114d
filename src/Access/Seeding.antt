-- ===== src/Access/Seeding.antt =====
-- `bootstrap` of cmd/access/main.go on tables that are in use.
use mathlib.Core.Path.{subst}
use mathlib.Core.Option
use sde_thp.Prelude.{
  ℕ, ◌≡◌, refl, sym, ap, ◌∙◌, inl, inr, ◌||◌, String, Option, none, some, pos, ltb_ℤ, leb_ℤ, any,
  ◌==◌, Extends, Extends-refl, Extends-trans, Extends-append, Extends-update_where, Bool-cases,
}
use sde_thp.Database.{Database, TenantRow}
use sde_thp.Effect.{Statement, exec}
use sde_thp.Effect.Hoare.{
  Hoare, Hoare-imply, Keeps, Done, refuse, wrote, Hoare-exec, Keeps-bind, Keeps-lift, Keeps-pure,
  Keeps-if,
}
use sde_thp.Platform.Config.{Config}
use sde_thp.Access.Reply.{Crypto}
use sde_thp.Access.Statements.{
  has_slug, has_email, has_hash, has_tenant, insert_tenant, put_tenant, put_tenant_at, insert_user,
  offer_user, insert_key, offer_key,
}
use sde_thp.Access.Bootstrap.{DemoTenant, Start, seed_with, seed_demo_tenant, bootstrap}

-- A tenant but for its name.
abbrev pub Renamed : TenantRow → TenantRow → Type 0
Renamed t t' = t' ≡ record t { name = t'.name }

abbrev pub Same : {A : Type 0} → A → A → Type 0
Same x y = y ≡ x

module _ (start : Database) where
  -- No row is lost, and a tenant may at most have another name.
  pub record Keeping (d : Database) : Type 0 where
    pub tenants : Extends Renamed start.tenants d.tenants
    pub users : Extends Same start.users d.users
    pub keys : Extends Same start.api_keys d.api_keys

  Renamed-trans : (x y z : TenantRow) → Renamed x y → Renamed y z → Renamed x z
  Renamed-trans x y z h k = k ∙ ap (λ (t : TenantRow). record t { name = z.name }) h

  Same-trans : {A : Type 0} (x y z : A) → Same x y → Same y z → Same x z
  Same-trans x y z h k = k ∙ h

  Keeps-statement :
      {A : Type 0} (s : Statement A)
      → ((d : Database) → Keeping d → Done (λ _. Keeping) (s d))
      → Keeps Keeping (exec s)
  Keeps-statement s k = Hoare-exec s (λ d h. (k d h, k d h, h))

  insert_tenant-Keeping :
      (id name slug : String) (quota limit : ℕ) (d : Database)
      → Keeping d
      → Done (λ _. Keeping) (insert_tenant id name slug (pos quota) (pos limit) d)
  unfolding insert_tenant
  insert_tenant-Keeping id name slug quota limit d h =
      elim (Bool-cases (has_tenant id d || any (has_slug slug) d.tenants)) [
        | inl used ↦ rw used refuse
        | inr fresh ↦
            rw fresh (elim (Bool-cases (ltb_ℤ (pos quota) (pos 0) || leb_ℤ (pos limit) (pos 0))) [
              | inl out ↦ rw out refuse
              | inr fits ↦ rw fits (
                  wrote record {
                    tenants =
                        Extends-trans Renamed Renamed-trans _ _ _ h.tenants
                          (Extends-append Renamed (λ t. refl) d.tenants _);
                    users = h.users;
                    keys = h.keys;
                  })
            ])
      ]

  Done-map :
      {A B : Type 0} (f : A → B) (P : Database → Type 0) (o : Option (A × Database))
      → Done (λ _. P) o
      → Done (λ _. P) (Option.map (λ (r : A × Database). (f r.0, r.1)) o)
  Done-map f P none h = refuse
  Done-map f P (some (a, d)) (wrote p) = wrote p

  put_tenant_at-Keeping :
      (found : Option TenantRow) (id name slug : String) (quota limit : ℕ) (d : Database)
      → Keeping d
      → Done (λ _. Keeping) (put_tenant_at found id name slug quota limit d)
  unfolding put_tenant_at
  put_tenant_at-Keeping (some t) id name slug quota limit d h = wrote record {
    tenants = Extends-trans Renamed Renamed-trans _ _ _ h.tenants (
        Extends-update_where Renamed (λ t. refl) (has_slug slug) (λ t. record t { name = name })
          (λ t e. refl) d.tenants);
    users = h.users;
    keys = h.keys;
  }
  put_tenant_at-Keeping none id name slug quota limit d h =
      Done-map (λ _. id) Keeping _ (insert_tenant-Keeping id name slug quota limit d h)

  offer_user-Keeping :
      (id tenant_id email hash role : String) (d : Database)
      → Keeping d
      → Done (λ _. Keeping) (offer_user id tenant_id email hash role d)
  unfolding offer_user insert_user
  offer_user-Keeping id tenant_id email hash role d h =
      elim (Bool-cases (any (has_email email) d.users)) [
        | inl known ↦ rw known (wrote h)
        | inr unknown ↦ rw unknown (elim (Bool-cases (any (λ u. u.id == id) d.users)) [
          | inl used ↦ rw used refuse
          | inr fresh ↦ rw fresh (elim (Bool-cases (has_tenant tenant_id d)) [
            | inl there ↦ rw there (
                wrote record {
                  tenants = h.tenants;
                  users =
                      Extends-trans Same Same-trans _ _ _ h.users
                        (Extends-append Same (λ u. refl) d.users _);
                  keys = h.keys;
                })
            | inr gone ↦ rw gone refuse
          ])
        ])
      ]

  offer_key-Keeping :
      (id tenant_id name prefix hash : String) (d : Database)
      → Keeping d
      → Done (λ _. Keeping) (offer_key id tenant_id name prefix hash d)
  unfolding offer_key insert_key
  offer_key-Keeping id tenant_id name prefix hash d h =
      elim (Bool-cases (any (has_hash hash) d.api_keys)) [
        | inl known ↦ rw known (wrote h)
        | inr unknown ↦ rw unknown (elim (Bool-cases (any (λ k. k.id == id) d.api_keys)) [
          | inl used ↦ rw used refuse
          | inr fresh ↦ rw fresh (elim (Bool-cases (has_tenant tenant_id d)) [
            | inl there ↦ rw there (
                wrote record {
                  tenants = h.tenants;
                  users = h.users;
                  keys =
                      Extends-trans Same Same-trans _ _ _ h.keys
                        (Extends-append Same (λ k. refl) d.api_keys _);
                })
            | inr gone ↦ rw gone refuse
          ])
        ])
      ]

  module _ (crypto : Crypto) (source : Start) where
    seed_with-Keeping :
        (t : DemoTenant) (key : String) → Keeps Keeping (seed_with crypto source t key)
    unfolding seed_with put_tenant
    seed_with-Keeping t key =
        Keeps-bind _ _ (Keeps-statement _ (λ d h. put_tenant_at-Keeping _ _ _ _ _ _ d h)) λ id.
          Keeps-bind _ _ (Keeps-lift _) λ hash.
            Keeps-bind _ _ (Keeps-statement _ (λ d h. offer_user-Keeping _ _ _ _ _ d h)) λ _.
              Keeps-bind _ _ (Keeps-lift _)
                λ prefix. Keeps-statement _ (λ d h. offer_key-Keeping _ _ _ _ _ d h)

    seed_demo_tenant-Keeping : (t : DemoTenant) → Keeps Keeping (seed_demo_tenant crypto source t)
    unfolding seed_demo_tenant
    seed_demo_tenant-Keeping t = Keeps-if _ _ _ (Keeps-pure tt) (seed_with-Keeping t _)

    Keeping-refl : Keeping start
    Keeping-refl = record {
      tenants = Extends-refl Renamed (λ t. refl) start.tenants;
      users = Extends-refl Same (λ u. refl) start.users;
      keys = Extends-refl Same (λ k. refl) start.api_keys;
    }

    -- A start of the access service on tables in use, whichever calls fail: it loses no tenant,
    -- user or key, changes no user, password or key, and of a tenant nothing but the name.
    pub bootstrap-Keeping :
        (config : Config)
        → Hoare (λ d. d ≡ start) (bootstrap crypto source config) (λ _. Keeping) Keeping
    unfolding bootstrap put_tenant
    bootstrap-Keeping config =
        Hoare-imply _ (λ d e. subst Keeping (sym e) Keeping-refl) (λ d k. k)
          (Keeps-bind _ _ (Keeps-lift _) λ hash.
            Keeps-bind _ _ (Keeps-statement _ (λ d h. put_tenant_at-Keeping _ _ _ _ _ _ d h)) λ id.
              Keeps-bind _ _ (Keeps-statement _ (λ d h. offer_user-Keeping _ _ _ _ _ d h))
                λ _. Keeps-bind _ _ (seed_demo_tenant-Keeping _) λ _. seed_demo_tenant-Keeping _)
