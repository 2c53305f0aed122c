-- ===== src/Orchestration/Runner.antt =====
-- runner.py: `Dispatcher`, `Worker`, `Reconciler` and `Orchestrator`, as actions on the database.
-- A call that raises leaves what was committed before it.
pub mod Session
pub mod Rules
pub mod Dispatch
pub mod Execute
pub mod Sweep
pub mod Drain
use econiq_ai.Prelude.{
  ℕ, zero, suc, ◌+◌, ◌≡◌, Bool, true, false, not, ◌&&◌, Option, none, some, List, [], ◌∷◌, ◌++◌,
  map, String, Error, lookup_error, key_error, Result, ok, err, ◌==◌, if◌then◌else◌, take, find,
  count, length, update_where, str_eq,
}
use Prim.Native.String.{◌++◌ as concat}
use econiq_ai.Orchestration.Store.{
  WorkItem, WorkStatus, dead, succeeded, DomainEvent, Payload, Json, text, Db, has_id, commit,
}
use econiq_ai.Orchestration.Outbox
use econiq_ai.Orchestration.Outbox.{Env, Emitted, StoredEvent}
use econiq_ai.Orchestration.Queue.{enqueue, claim, fail, finish_item}
use econiq_ai.Orchestration.Work.{
  ClaimedWork, Enqueued, Request, reconciled, status_is, default_lease,
}
use econiq_ai.Orchestration.Stages.{
  StageDefinition, key_for, pipeline, stages_for, by_name, event_name,
}
use Session.{World, M, pure, raise, session, ◌>>=◌, ◌>>◌, for_each}
use econiq_ai.Orchestration.Handlers.{
  DispatchResult, WorkResult, Outcome, returned, raised, Handler, Registry, handler_for, dict_merge,
  emitted_only,
}

module _ (env : Env) where
  abbrev pub subject_of : StoredEvent → StageDefinition → Option ℕ
  subject_of event stage = if stage.subject_from_payload then event.subject_id else none

  abbrev pub request_for : StoredEvent → StageDefinition → Request
  request_for event stage = record {
    stage = stage.name;
    idempotency_key = key_for env.show_uuid stage (subject_of event stage);
    subject_id = subject_of event stage;
    payload = dict_merge (("source_event", text (event_name event.name)) ∷ []) event.payload;
    priority = stage.priority;
    run_after = none;
    max_attempts = stage.max_attempts;
    trigger = "event";
    source_event_id = some event.outbox_event_id;
  }

  unfoldable pub enqueue_now : Request → M Enqueued
  enqueue_now r = session env (λ n db. enqueue (env.uuid4 n 0) (env.utcnow n) r db)

  -- `Dispatcher._schedule`
  unfoldable pub schedule : StoredEvent → M (List Enqueued)
  unfolding enqueue_now
  schedule event = for_each (λ stage. enqueue_now (request_for event stage)) (stages_for event.name)

  abbrev pub tally : DispatchResult → List Enqueued → DispatchResult
  tally r [] = r
  tally r (e ∷ rest) =
      tally
        (if e.created
          then record r { work_enqueued = r.work_enqueued + 1 }
          else record r { work_deduplicated = r.work_deduplicated + 1 })
        rest

  -- The loop over the events.
  unfoldable pub dispatch_each : List StoredEvent → DispatchResult → M DispatchResult
  unfolding schedule
  dispatch_each [] r = pure r
  dispatch_each (event ∷ rest) r = do results ← schedule event; dispatch_each rest (tally r results)

  unfoldable pub dispatch_all : List StoredEvent → M DispatchResult
  unfolding dispatch_each
  dispatch_all [] = pure (record { events_processed = 0; work_enqueued = 0; work_deduplicated = 0 })
  dispatch_all (event ∷ rest) = do
    let events = event ∷ rest
    r ←
        dispatch_each events
          (record { events_processed = length events; work_enqueued = 0; work_deduplicated = 0 })
    session env (λ n db.
        ok (tt, Outbox.mark_dispatched (map (λ e. e.outbox_event_id) events) (env.utcnow n) db))
    pure r

  -- `Dispatcher.dispatch_pending`
  unfoldable pub dispatch_pending : ℕ → M DispatchResult
  unfolding dispatch_all
  dispatch_pending limit w = dispatch_all (Outbox.pending limit w.db) w

  -- `Worker._complete`: the status and the events in one transaction.
  unfoldable pub complete : ℕ → List Emitted → ℕ → Db → Result (Unit {0} × Db)
  unfolding commit
  complete id events n db = elim (find (has_id id) db.items) [
    | none ↦ err lookup_error
    | some item ↦ commit tt (record {
      items = update_where (has_id id) (finish_item succeeded (env.utcnow n)) db.items;
      events = db.events ++ Outbox.stage env n events;
    })
  ]

  abbrev pub result_of : ClaimedWork → Bool → ℕ → Option String → Bool → WorkResult
  result_of item done emitted error is_dead = record {
    work_item_id = item.work_item_id;
    stage = item.stage;
    ok = done;
    events_emitted = emitted;
    error = error;
    dead = is_dead;
  }

  -- `Worker._execute`, by what the handler did.
  unfoldable pub settle : ClaimedWork → Outcome → M WorkResult
  settle item (raised name message) = do
    status ←
        session env (λ n. fail item.work_item_id (concat name (concat ": " message)) (env.utcnow n))
    pure (result_of item false 0 (some message) (status_is status dead))
  settle item (returned objects) = do
    session env (complete item.work_item_id (emitted_only objects))
    pure (result_of item true (length (emitted_only objects)) none false)

  execute_with : Option Handler → ClaimedWork → M WorkResult
  unfolding settle
  execute_with none item w =
      (do
        session env (λ n.
            fail item.work_item_id (concat "no handler for stage " (env.repr item.stage))
              (env.utcnow n))
        pure (result_of item false 0 (some "no handler") false))
        w
  execute_with (some handler) item w = settle item (handler w.drawn item.subject_id item.payload) w

  module _ (registry : Registry) (worker : String) (locked : ℕ → Bool) where
    unfoldable pub execute : ClaimedWork → M WorkResult
    unfolding execute_with handler_for
    execute item = execute_with (handler_for registry item.stage) item

    unfoldable pub run_once : List String → ℕ → M (List WorkResult)
    unfolding execute
    run_once stages limit = do
      claimed ← session env (λ n. claim default_lease locked worker stages limit (env.utcnow n))
      for_each execute claimed

    -- An empty batch ends the loop.
    drain_rest : M (List WorkResult) → List WorkResult → M (List WorkResult)
    drain_rest rest [] w = pure [] w
    drain_rest rest (r ∷ more) w = (do results ← rest; pure ((r ∷ more) ++ results)) w

    -- `Worker.drain`: with `limit=1` a batch has one result, so that the loop's bound counts down.
    unfoldable pub drain : List String → ℕ → M (List WorkResult)
    unfolding run_once drain_rest
    drain stages zero = pure []
    drain stages (suc left) = do batch ← run_once stages 1; drain_rest (drain stages left) batch

    -- `Orchestrator.tick` and `run_until_idle`
    unfoldable pub tick : ℕ → M (DispatchResult × List WorkResult)
    unfolding dispatch_pending drain
    tick max_items = do
      dispatched ← dispatch_pending 100
      results ← drain [] max_items
      pure (dispatched, results)

    abbrev is_idle : DispatchResult → List WorkResult → Bool
    is_idle dispatched [] = dispatched.events_processed == 0
    is_idle dispatched (r ∷ rest) = false

    unfoldable pub run_until_idle : ℕ → M (List WorkResult)
    unfolding tick
    run_until_idle zero = pure []
    run_until_idle (suc left) = do
      outcome ← tick 25
      let rest = run_until_idle left
      elim (is_idle outcome.0 outcome.1) [
        | true ↦ pure outcome.1
        | false ↦ do results ← rest; pure (outcome.1 ++ results)
      ]

  -- `Reconciler.reconcile`: a finder tells the subjects that the ontology shows as outstanding.
  abbrev pub sweep_request : StageDefinition → ℕ → Request
  sweep_request stage subject = record {
    stage = stage.name;
    idempotency_key = key_for env.show_uuid stage (some subject);
    subject_id = some subject;
    payload = [];
    priority = reconciled;
    run_after = none;
    max_attempts = stage.max_attempts;
    trigger = "reconciler";
    source_event_id = none;
  }

  abbrev pub created_count : List Enqueued → ℕ
  created_count = count (λ e. e.created)

  -- The subjects of one stage; `BY_NAME[stage_name]` raises `KeyError` for another name.
  unfoldable pub sweep : ℕ → String → List ℕ → M (String × ℕ)
  unfolding enqueue_now by_name
  sweep limit name subjects = elim (by_name name) [
    | none ↦ raise key_error
    | some stage ↦ do
      results ←
          for_each (λ subject. enqueue_now (sweep_request stage subject)) (take limit subjects)
      pure (name, created_count results)
  ]

  unfoldable pub reconcile : ℕ → List (String × (ℕ → List ℕ)) → M (List (String × ℕ))
  unfolding sweep
  reconcile limit finders =
      for_each (λ (f : String × (ℕ → List ℕ)). λ w. sweep limit f.0 (f.1 w.drawn) w) finders
