-- ===== src/Access/Keys.antt =====
-- `createAPIKey` of cmd/access/main.go, and `verify` of the key that it gives out.
use Prim.Native.String.{◌++◌}
use mathlib.Core.Option
use sde_thp.Prelude.{
  ℕ, ◌≡◌, ◌⊎◌, refl, ap, ◌∙◌, inl, inr, false, String, Option, some, List, ◌==◌, ◌||◌, any,
  update_where, first_where, first_where-last, arith, trim_space, trim_space-plain, prefixed_text,
  has_space, has_space-append, split_space, first_bytes, eq_refl, Bool-cases, Option-cases,
}
use sde_thp.Database.{Database, ApiKeyRow}
use sde_thp.Effect.{World, Command, Result, ok, pure, lift, raise_if, ◌>>=◌}
use sde_thp.Effect.Calm.{calm, calm-exec}
use sde_thp.Effect.Hoare.{
  Hoare, Done, Done-imply, refuse, wrote, Hoare-bind, Hoare-exec, Hoare-pure,
}
use sde_thp.Effect.Steps.{lift_ok, lift_err}
use sde_thp.Operations.Reply.{or_http, or_failure}
use sde_thp.Access.Reply.{Crypto, Reply, reply, principal, api_key}
use sde_thp.Access.Statements.{has_hash, is_valid_key, insert_key, touch_key, has_tenant}
use sde_thp.Access.Login.{key_name, create_api_key, verify, verify_key, bearer}

-- A new key is found by its hash, for its tenant.
pub insert_key-Done :
    (id tenant name prefix hash : String) (d : Database)
    → Done
        (λ _ d.
          Option.map (λ (k : ApiKeyRow). k.tenant_id) (first_where (is_valid_key hash) d.api_keys)
          ≡ some tenant)
        (insert_key id tenant name prefix hash d)
unfolding insert_key is_valid_key
insert_key-Done id tenant name prefix hash d =
    elim (Bool-cases (any (λ k. k.id == id) d.api_keys || any (has_hash hash) d.api_keys)) [
      | inl used ↦ rw used refuse
      | inr fresh ↦ rw fresh (elim (Bool-cases (has_tenant tenant d)) [
        | inl known ↦ rw known (
            wrote (
              ap (Option.map (λ (k : ApiKeyRow). k.tenant_id)) (
                first_where-last (is_valid_key hash) (has_hash hash) d.api_keys _
                  (λ y e. ground arith) (ground arith) (rw (eq_refl hash) refl))))
        | inr unknown ↦ rw unknown refuse
      ])
    ]

module _ (crypto : Crypto) (secret : String) (start : Database) (id tenant text : String)
    (body : Option String) where
  abbrev pub raw : String
  raw = "nx_live_" ++ text

  -- The key opens a request of the tenant, whatever stands round it in the header.
  abbrev pub Opens : Database → Type 0
  Opens d =
      (time : ℕ) (sent : List Command)
      → (verify crypto secret "" raw (calm d time sent)).0
        ≡ ok (reply 200 (principal tenant "" "service"))

  abbrev touched : Database → Database
  touched d = record d {
    api_keys =
        update_where (is_valid_key (crypto.digest raw))
          (λ k. record k { last_used_at = some d.now }) d.api_keys;
  }

  opened :
      has_space text ≡ false
      → (d : Database)
      → Option.map
          (λ (k : ApiKeyRow). k.tenant_id)
          (first_where (is_valid_key (crypto.digest raw)) d.api_keys)
        ≡ some tenant
      → Opens d
  unfolding touch_key verify verify_key bearer ◌>>=◌ raise_if lift or_http pure has_space
      split_space
  opened plain d found time sent =
      let whole : trim_space raw ≡ raw =
        trim_space-plain raw (has_space-append "nx_live_" text ∙ plain) in
      rw (whole, prefixed_text ("n") "x_live_" text)
        (ap (λ (x : Result Reply × World). x.0)
          (calm-exec d time sent (touch_key (crypto.digest raw))
            (λ owner. lift (or_http 401 "invalid API key" owner) >>= λ tenant_id.
              pure (reply 200 (principal tenant_id "" "service")))
            (some tenant) (touched d) (ap (λ o. some (o, touched d)) found)))

  -- The key is given out with its prefix.
  pub record Issued (r : Reply) (d : Database) : Type 0 where
    pub prefix : String
    pub answer : r ≡ reply 201 (api_key id (key_name body) prefix raw)
    pub opens : Opens d

  -- `createAPIKey` where the random bytes were drawn, whichever calls fail: if it is answered, the
  -- answer is 201 with the new key, and `verify` then takes that key for the caller's tenant with
  -- the role `service`; if it fails, no table has changed or the key is stored and opens. The
  -- encoding of the random bytes has no spaces.
  pub create_api_key-Issued :
      has_space text ≡ false
      → Hoare
          (λ d. d ≡ start)
          (create_api_key crypto id (some text) tenant body)
          Issued
          (λ d. (d ≡ start) ⊎ Opens d)
  unfolding create_api_key or_failure
  create_api_key-Issued plain = lift_ok _ _ (elim (Option-cases (first_bytes 16 raw)) [
    | inl cut ↦ rw cut (lift_err _ _ (λ d e. inl e))
    | inr (prefix, whole) ↦ rw whole (
        lift_ok _ _ (
          Hoare-bind {R = λ _. Opens} _ _
            (Hoare-exec _ λ d same.
              let q = insert_key-Done id tenant (key_name body) prefix (crypto.digest raw) d in
              (
                Done-imply (λ _ d found. opened plain d found) q,
                Done-imply (λ _ d found. inr (opened plain d found)) q,
                inl same,
              ))
            (λ _. Hoare-pure _ (λ d o. record { prefix = prefix; answer = refl; opens = o }))))
  ])
