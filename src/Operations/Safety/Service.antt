-- ===== src/Operations/Safety/Service.antt =====
-- The invariants of a whole run, by induction over its calls.
use mathlib.Core.Path.{subst}
use sde_thp.Prelude.{
  ℕ, ◌≡◌, refl, sym, ◌∙◌, Bool, true, false, String, List, [], ◌∷◌, arith, and-elim, All-map,
  Extends, Extends-map, update_where, Extends-refl, Extends-trans, Extends-update_where,
}
use sde_thp.Domain.{OperationStatus, succeeded, cancelled, is_terminal}
use sde_thp.Database.{Database, OperationRow}
use sde_thp.Effect.{World, M, Result, ok, err}
use sde_thp.Effect.Hoare.{
  Keeps, Post, wrote, Hoare-exec, Keeps-bind, Keeps-lift, Keeps-send, Keeps-pure,
}
use sde_thp.Operations.Json.{Json}
use sde_thp.Operations.Rows.{is_running, redrivable, set_redriven}
use sde_thp.Operations.Statements.{update_returning}
use sde_thp.Operations.Reply.{Headers}
use sde_thp.Operations.Cancel.{is_redrivable, redrive}
use sde_thp.Operations.Invariant.{IsRowValid, IsValid}
use sde_thp.Operations.Invariant.Rows.{set_redriven-IsRowValid}
use sde_thp.Operations.Invariant.Tables.{KeepsIdentity, update-IsValid}
use sde_thp.Operations.History.{submission, Evolves, Evolves-refl, Sound}
use sde_thp.Operations.Service.{Request, Call, request, on_redrive, serve_one, serve, call_one, run}
use sde_thp.Operations.Service.{
  on_create, on_workflow, on_get, on_get_internal, on_list, on_cancel, on_claim, on_heartbeat,
  on_complete, on_fail, on_poll, on_worker_heartbeat, on_worker_complete, on_worker_fail, on_reap,
  on_dispatch, on_wait,
}
use sde_thp.Operations.Safety.{Keeps-ignore}
use sde_thp.Operations.Safety.Basic.{
  cancel-Sound, get-Sound, get_internal-Sound, list-Sound, heartbeat-Sound, worker_heartbeat-Sound,
  complete-Sound, dispatch_event_batch-Sound,
}
use sde_thp.Operations.Safety.Claims.{claim-Keeps, worker_poll-Sound}
use sde_thp.Operations.Safety.Submitting.{create-Sound, queue_operation_workflow-Sound, sleep-Sound}
use sde_thp.Operations.Safety.Finishing.{fail-Sound, worker_complete-Sound, worker_fail-Sound}
use sde_thp.Operations.Safety.Reaping.{reap_expired_lease_batch-Sound}

Sound-refl : (d : Database) → IsValid d → Sound d d
Sound-refl d h = record { valid = h; history = Extends-refl Evolves Evolves-refl d.operations }

-- A later state of a row when redrives are allowed: the submission is the same, and a row that
-- has succeeded or was cancelled is untouched.
abbrev pub is_settled : OperationStatus → Bool
is_settled succeeded = true
is_settled cancelled = true
is_settled _ = false

pub record Settles (o o' : OperationRow) : Type 0 where
  pub same : submission o' ≡ submission o
  pub settled : is_settled o.status ≡ true → o' ≡ o

Settles-refl : (o : OperationRow) → Settles o o
Settles-refl o = record { same = refl; settled = λ h. refl }

Settles-trans : (o o' o'' : OperationRow) → Settles o o' → Settles o' o'' → Settles o o''
Settles-trans o o' o'' h k = record {
  same = k.same ∙ h.same;
  settled =
      λ e. k.settled (subst (λ x. is_settled x.status ≡ true) (sym (h.settled e)) e) ∙ h.settled e;
}

settled-terminal : (s : OperationStatus) → is_settled s ≡ true → is_terminal s ≡ true
unfolding is_terminal
settled-terminal s e = ground arith

Evolves-Settles : (o o' : OperationRow) → Evolves o o' → Settles o o'
Evolves-Settles o o' h = record {
  same = h.same;
  settled = λ e. h.frozen (settled-terminal o.status e);
}

-- The database is in order, and every row of `before` is still there.
abbrev pub Final : Database → Database → Type 0
Final before d = IsValid d × Extends Settles before.operations d.operations

redrivable-open : (s : OperationStatus) → redrivable s ≡ true → is_settled s ≡ false
unfolding redrivable
redrivable-open s e = ground arith

module _ (tenant id : String) (now : ℕ) where
  redrive_guard : (o : OperationRow) → is_redrivable tenant id o ≡ true → redrivable o.status ≡ true
  unfolding is_redrivable
  redrive_guard o e = (and-elim _ _ e).1

  redrive-Settles :
      (o : OperationRow) → is_redrivable tenant id o ≡ true → Settles o (set_redriven now o)
  unfolding set_redriven
  redrive-Settles o e = record {
    same = refl;
    settled = λ k. cc (redrivable-open o.status (redrive_guard o e));
  }

  redrive-calm : (o : OperationRow) → is_running (set_redriven now o).status ≡ false
  unfolding set_redriven is_running
  redrive-calm o = refl

  set_redriven-KeepsIdentity : KeepsIdentity (set_redriven now)
  unfolding set_redriven
  set_redriven-KeepsIdentity = record { id = λ o. refl; tenant = λ o. refl; key = λ o. refl }

redrive-Final :
    (before d : Database)
    → Final before d
    → (tenant id : String)
    → Final before (record d {
      operations = update_where (is_redrivable tenant id) (set_redriven d.now) d.operations;
    })
redrive-Final before d h tenant id = (
  update-IsValid (is_redrivable tenant id) (set_redriven d.now)
      (set_redriven-KeepsIdentity tenant id d.now) d h.0
      (λ o e k. cc (redrive-calm tenant id d.now o))
      (All-map IsRowValid
        (λ o. is_redrivable tenant id o ≡ true → IsRowValid (set_redriven d.now o))
        (λ o v e. set_redriven-IsRowValid d.now o v (redrive_guard tenant id d.now o e))
        d.operations h.0.rows),
  Extends-trans Settles Settles-trans before.operations d.operations _ h.1 (
      Extends-update_where Settles Settles-refl (is_redrivable tenant id) (set_redriven d.now)
        (redrive-Settles tenant id d.now) d.operations),
)

-- What an action that keeps `P` leaves.
ended :
    {P : Database → Type 0} {A : Type 0} (m : M A) → Keeps P m → (w : World) → P w.db → P (m w).1.db
ended {P} {A} m h w p = left (m w) (h.at w p)
  where
    left : (x : Result A × World) → Post (λ _. P) P x → P x.1.db
    left (ok a, w) q = q
    left (err e, w) q = q

module _ (json : Json) (month_start : ℕ → ℕ) where
  serve_one-Sound :
      (before : Database) (r : Request) → Keeps (Sound before) (serve_one json month_start r)
  unfolding serve_one
  serve_one-Sound before (on_create id headers body) =
      Keeps-ignore _ (create-Sound before month_start id headers body)
  serve_one-Sound before (on_workflow envelope) =
      Keeps-ignore _ (queue_operation_workflow-Sound before json envelope)
  serve_one-Sound before (on_get headers id) = Keeps-ignore _ (get-Sound before headers id)
  serve_one-Sound before (on_get_internal id) = Keeps-ignore _ (get_internal-Sound before id)
  serve_one-Sound before (on_list headers limit status) =
      Keeps-ignore _ (list-Sound before headers limit status)
  serve_one-Sound before (on_cancel headers id) = Keeps-ignore _ (cancel-Sound before headers id)
  serve_one-Sound before (on_claim id body) = Keeps-ignore _ (claim-Keeps before id body)
  serve_one-Sound before (on_heartbeat id worker) =
      Keeps-ignore _ (heartbeat-Sound before id worker)
  serve_one-Sound before (on_complete id body) = Keeps-ignore _ (complete-Sound before id body)
  serve_one-Sound before (on_fail id body) = Keeps-ignore _ (fail-Sound before id body)
  serve_one-Sound before (on_poll redis headers worker) =
      Keeps-ignore _ (worker_poll-Sound before json redis headers worker)
  serve_one-Sound before (on_worker_heartbeat headers id worker) =
      Keeps-ignore _ (worker_heartbeat-Sound before headers id worker)
  serve_one-Sound before (on_worker_complete headers id body) =
      Keeps-ignore _ (worker_complete-Sound before json headers id body)
  serve_one-Sound before (on_worker_fail headers id body) =
      Keeps-ignore _ (worker_fail-Sound before json headers id body)
  serve_one-Sound before on_reap = Keeps-ignore _ (reap_expired_lease_batch-Sound before json)
  serve_one-Sound before (on_dispatch post) =
      Keeps-ignore _ (dispatch_event_batch-Sound before post)
  serve_one-Sound before (on_wait n) = Keeps-ignore _ (sleep-Sound before json n)

  served :
      (before : Database) (rs : List Request) (w : World)
      → Sound before w.db
      → Sound before (serve json month_start rs w).db
  unfolding serve
  served before [] w h = h
  served before (r ∷ rs) w h =
      served before rs (serve_one json month_start r w).1
        (ended (serve_one json month_start r) (serve_one-Sound before r) w h)

  -- From a database in order, whatever requests come (submissions, claims, polls, heartbeats,
  -- reports, cancellations, workflow runs, reaper and outbox rounds), in whatever order and
  -- whichever of their calls fail: the database is in order afterwards, every operation is still
  -- there with its submission unchanged and its version not lowered, its status has moved along
  -- the transition table only, and a row in a terminal status has not been touched.
  pub serve-Sound :
      (rs : List Request) (w : World) → IsValid w.db → Sound w.db (serve json month_start rs w).db
  serve-Sound rs w h = served w.db rs w (Sound-refl w.db h)

  redriven :
      (before : Database) (headers : Headers) (fresh id : String)
      → Keeps (Final before) (redrive fresh headers id)
  unfolding redrive update_returning
  redriven before headers fresh id =
      Keeps-bind _ _
        (Hoare-exec _
          λ d h. let f = redrive-Final before d h headers.tenant id in (wrote f, wrote f, h))
        λ found.
          Keeps-bind _ _ (Keeps-lift _) λ o. Keeps-bind _ _ (Keeps-send _) (λ _. Keeps-pure _)

  call_one-Final :
      (before : Database) (c : Call) (w : World)
      → Final before w.db
      → Final before (call_one json month_start c w).1.db
  unfolding call_one
  call_one-Final before (request r) w h =
      let s =
        ended (serve_one json month_start r) (serve_one-Sound w.db r) w (Sound-refl w.db h.0) in
      (
        s.valid,
        Extends-trans Settles Settles-trans before.operations w.db.operations _ h.1
            (Extends-map Evolves Settles Evolves-Settles _ _ s.history),
      )
  call_one-Final before (on_redrive fresh headers id) w h =
      ended _ (Keeps-ignore _ (redriven before headers fresh id)) w h

  ran :
      (before : Database) (cs : List Call) (w : World)
      → Final before w.db
      → Final before (run json month_start cs w).db
  unfolding run
  ran before [] w h = h
  ran before (c ∷ cs) w h =
      ran before cs (call_one json month_start c w).1 (call_one-Final before c w h)

  -- With redrives among the calls too: the database stays in order, no submission changes, and
  -- an operation that has succeeded or was cancelled is not touched.
  pub run-Final :
      (cs : List Call) (w : World) → IsValid w.db → Final w.db (run json month_start cs w).db
  run-Final cs w h = ran w.db cs w (h, Extends-refl Settles Settles-refl w.db.operations)
