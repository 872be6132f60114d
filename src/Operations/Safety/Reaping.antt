-- ===== src/Operations/Safety/Reaping.antt =====
-- The lease reaper. A row that it sends back to wait has an attempt left, because the row that
-- is written is the one that the batch read, or is no longer running.
use sde_thp.Prelude.{
  ◌≡◌, ◌<◌, refl, sym, Bool, true, false, ◌&&◌, String, List, [], ◌∷◌, All, All-map,
  All-update_where, arith, and-elim, Bool-cases, inl, inr, leb, any, ◌==◌, All-take,
  All-select_where, update_where, if◌then◌else◌,
}
use sde_thp.Domain.{retrying, dead_lettered}
use sde_thp.Database.{Database, OperationRow}
use sde_thp.Effect.{exec}
use sde_thp.Effect.Hoare.{
  Hoare, Keeps, Done, wrote, Hoare-transaction, Hoare-drop_error, Hoare-pure, Hoare-if, Hoare-bind,
  Hoare-query, Hoare-exec, keeps_rules,
}
use sde_thp.Operations.Json.{Json}
use sde_thp.Operations.Rows.{has_id, is_expired, set_expired}
use sde_thp.Operations.Statements.{update_operations, insert_outbox}
use mathlib.Core.Path.{subst}
use sde_thp.Operations.Finish.{insert_event}
use sde_thp.Operations.Reaper.{
  expired_rows, expire, reap_exhausted, reap_retry, reap_one, reap_rows, reap_expired_lease_batch,
}
use sde_thp.Operations.Invariant.{IsRowValid}
use sde_thp.Operations.Invariant.Rows.{set_expired-IsRowValid}
use sde_thp.Operations.History.{Sound}
use sde_thp.Operations.History.Steps.{set_expired-SafeUpdate, update-Sound, Sound-of_same}
use sde_thp.Operations.Safety.{Hoare-ignore}
use sde_thp.Operations.Safety.Expiry.{
  Agrees, Reading, expired_running, stopped, Distinct-agree, All-by_expiry,
}

module _ (before : Database) where
  abbrev State : List OperationRow → Database → Type 0
  State os d = Sound before d × Reading os d

  expire-State :
      (os : List OperationRow) (o : OperationRow) (b : Bool) (message : String)
      → (b ≡ true → o.attempt < o.max_attempts)
      → (d : Database) → State (o ∷ os) d
      → State os (record d {
        operations =
            update_where
              (λ x. has_id o.id x && is_expired d.now x)
              (set_expired (if b then retrying else dead_lettered) message d.now)
              d.operations;
      })
  expire-State os o b message room d h = (
    update-Sound before d h.0 _ _
        (set_expired-SafeUpdate (λ x. has_id o.id x && is_expired d.now x) d.now
          (expired_running d.now o) b message)
        (kept d.operations h.0.valid.rows h.1.0),
    All-map (λ r. All (Agrees r) d.operations) _ (λ r a. agreed r d.operations a) os h.1.1,
  )
    where
      kept :
          (xs : List OperationRow)
          → All IsRowValid xs
          → All (Agrees o) xs
          → All
              (λ x.
                (has_id o.id x && is_expired d.now x) ≡ true
                → IsRowValid (set_expired (if b then retrying else dead_lettered) message d.now x))
              xs
      kept [] v a = tt
      kept (x ∷ xs) v a = (
        (λ e.
            let r = expired_running d.now o x e in
            set_expired-IsRowValid d.now x v.0 b message r
              (λ k. let (s, t) = a.0 (and-elim _ _ e).0 r in omega (arith, room k))),
        kept xs v.1 a.1,
      )

      agreed :
          (r : OperationRow) (xs : List OperationRow)
          → All (Agrees r) xs
          → All (Agrees r) (
              update_where
                (λ x. has_id o.id x && is_expired d.now x)
                (set_expired (if b then retrying else dead_lettered) message d.now)
                xs)
      agreed r xs a =
          All-update_where (Agrees r) (λ x. has_id o.id x && is_expired d.now x) f xs
            (All-map (Agrees r) (λ x. (has_id o.id x && is_expired d.now x) ≡ true → Agrees r (f x))
              (λ x _ e _ k. cc (stopped b message d.now x)) xs a)
            a
        where
          f : OperationRow → OperationRow
          f = set_expired (if b then retrying else dead_lettered) message d.now

  -- A batch row after the reaper has tried to expire it.
  expire-Keeps :
      (os : List OperationRow) (o : OperationRow) (b : Bool) (message : String)
      → (b ≡ true → o.attempt < o.max_attempts)
      → Hoare
          (State (o ∷ os))
          (exec (expire o (set_expired (if b then retrying else dead_lettered) message)))
          (λ _. State os)
          (State os)
  unfolding expire update_operations
  expire-Keeps os o b message room =
      Hoare-exec _
        λ d h. let s = expire-State os o b message room d h in (wrote s, wrote s, (h.0, h.1.1))

  insert_event-State :
      (json : Json) (os : List OperationRow) (key kind id tenant payload : String)
      → Keeps (State os) (insert_event json key kind id tenant payload)
  unfolding insert_event insert_outbox
  insert_event-State json os key kind id tenant payload =
      Hoare-exec _ λ d h. let q = outbox_same d _ h in (q, q, h)
    where
      outbox_same :
          (d : Database) (text : String)
          → State os d
          → Done (λ _. State os) (insert_outbox key kind id tenant text d)
      outbox_same d text h = elim (Bool-cases (any (λ e. e.event_key == key) d.event_outbox)) [
        | inl e ↦ rw (e, insert_outbox) (wrote h)
        | inr e ↦ rw (e, insert_outbox) (wrote (Sound-of_same before d h.0 _ refl refl, h.1))
      ]

  module _ (json : Json) where
    reap_exhausted-State :
        (os : List OperationRow) (o : OperationRow)
        → Hoare (State (o ∷ os)) (reap_exhausted json o) (λ _. State os) (State os)
    unfolding reap_exhausted
    reap_exhausted-State os o =
        Hoare-transaction _ (λ d h. (h.0, h.1.1))
          λ start h.
            Hoare-bind _ _
              (Hoare-drop_error _ (record {
                at = λ w e.
                    (expire-Keeps os o false "worker lease expired" (λ k. cc)).at w
                      (subst (State (o ∷ os)) (sym e) h);
              }))
              λ rows.
                Hoare-bind _ _
                  (Hoare-drop_error {E = State os} _ (search (keeps_rules, insert_event-State)))
                  λ _. Hoare-pure _ (λ d p. (p, p))

    reap_retry-State :
        (os : List OperationRow) (o : OperationRow)
        → o.attempt < o.max_attempts
        → Hoare (State (o ∷ os)) (reap_retry json o) (λ _. State os) (State os)
    unfolding reap_retry
    reap_retry-State os o room =
        Hoare-bind _ _
          (expire-Keeps os o true "worker lease expired; operation requeued" (λ _. room))
          λ rows. search keeps_rules

    reap_one-State :
        (os : List OperationRow) (o : OperationRow)
        → Hoare (State (o ∷ os)) (reap_one json o) (λ _. State os) (State os)
    unfolding reap_one
    reap_one-State os o =
        Hoare-if (leb o.max_attempts o.attempt) _ _ (λ _. reap_exhausted-State os o)
          (λ e. reap_retry-State os o (ground arith))

    reap_rows-State :
        (os : List OperationRow)
        → Hoare (State os) (reap_rows json os) (λ _. Sound before) (Sound before)
    unfolding reap_rows
    reap_rows-State [] = Hoare-pure tt (λ d h. h.0)
    reap_rows-State (o ∷ os) =
        Hoare-bind _ _ (Hoare-ignore _ (reap_one-State os o)) (λ _. reap_rows-State os)

    read-State : (d : Database) → Sound before d → State (expired_rows d) d
    unfolding expired_rows
    read-State d h = (
      h,
      All-take _ 50 _ (
          All-by_expiry _ _ (
            All-select_where _ (is_expired d.now) d.operations
              (Distinct-agree d.operations h.valid.ids))),
    )

    pub reap_expired_lease_batch-Sound : Keeps (Sound before) (reap_expired_lease_batch json)
    unfolding reap_expired_lease_batch
    reap_expired_lease_batch-Sound = Hoare-bind _ _ (Hoare-query expired_rows (λ d h. h)) λ rows.
        record {
          at = λ w h.
              (reap_rows-State rows).at w (subst (λ rs. State rs w.db) h.1 (read-State w.db h.0));
        }
