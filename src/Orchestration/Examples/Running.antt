-- ===== src/Orchestration/Examples/Running.antt =====
-- The theorems about the stages and the runner at concrete worlds.
use econiq_ai.Prelude.{
  ℕ, ◌*◌, String, ◌≡◌, refl, inl, inr, false, Option, none, some, [], ◌∷◌, ok, ◌+◌, arith, In,
  length,
}
use econiq_ai.Prelude.Sorting.{sort_by}
use econiq_ai.Orchestration.Strokes.{strokes, strokes-injective}
use econiq_ai.Orchestration.Samples.{first_item, second_item, db_of, unlocked}
use econiq_ai.Orchestration.Store.{
  WorkItem, dead, document_ingested, process_created, OutboxEvent, waiting, allowed, commit, fits,
}
use econiq_ai.Orchestration.Store.Consistency.{IsConsistent, IsConsistent-allowed}
use econiq_ai.Orchestration.Outbox.{Env, Emitted, StoredEvent}
use econiq_ai.Orchestration.Outbox.Drawn.{IsDrawnOnce}
use econiq_ai.Orchestration.Outbox
use econiq_ai.Orchestration.Queue.{claimed_work, mark_claimed, enqueue}
use econiq_ai.Orchestration.Stages.{key_for, estimate_state, by_name, stages_for}
use econiq_ai.Orchestration.Stages.Keys.{key_for-injective}
use econiq_ai.Orchestration.Runner.Session.{World}
use econiq_ai.Orchestration.Runner.{dispatch_pending, execute, sweep}
use econiq_ai.Orchestration.Handlers.{WorkResult, returned, Handler, Registry, handler_for}
use econiq_ai.Orchestration.Runner.Dispatch.{
  IsTickedOff, IsScheduled, HasOpen, dispatch_pending-schedules,
}
use econiq_ai.Orchestration.Runner.Execute.{Settled, execute_settles, execute_unhandled}
use econiq_ai.Orchestration.Runner.Sweep.{sweep-queues}

key_for-injective_example :
    (◌≡◌ {A = String} "estimate_state" "estimate_state") × (◌≡◌ {A = Option ℕ} (some 7) (some 7))
key_for-injective_example =
    key_for-injective strokes strokes-injective estimate_state estimate_state (some 7) (some 7)
      (inr (inr (inr (inl refl)))) (inr (inr (inr (inl refl)))) refl

abbrev an_env : Env
an_env = record {
  uuid4 = λ n j. 100 + 10 * n + j;
  utcnow = λ n. 1000 + n;
  show_uuid = strokes;
  repr = λ s. s;
}

-- A world with one event that nobody has dispatched, and an empty queue.
abbrev ingested : OutboxEvent
ingested = record {
  outbox_event_id = 5;
  event_name = document_ingested;
  subject_id = some 7;
  subject_type = none;
  payload = [];
  occurred_at = 900;
  status = waiting;
  dispatched_at = none;
}

abbrev one_event : World
one_event = record { db = record { items = []; events = ingested ∷ [] }; drawn = 0 }

abbrev stored : StoredEvent
stored = record {
  outbox_event_id = 5;
  name = document_ingested;
  subject_id = some 7;
  subject_type = none;
  payload = [];
  occurred_at = 900;
}

dispatch_pending-schedules_example :
    IsTickedOff an_env stored (dispatch_pending an_env 100 one_event).1
    × IsScheduled an_env stored (dispatch_pending an_env 100 one_event).1
unfolding dispatch_pending Outbox.pending enqueue commit allowed fits stages_for sort_by key_for
    Outbox.mark_dispatched
dispatch_pending-schedules_example =
    dispatch_pending-schedules an_env 100
      (record { events_processed = 1; work_enqueued = 1; work_deduplicated = 0 }) one_event
      (dispatch_pending an_env 100 one_event).1 stored refl (inl refl)

-- An item in a worker's hands, on its last attempt.
abbrev last_try : WorkItem
last_try = mark_claimed "w1" 100 (record first_item { attempts = 2 })

abbrev in_hand : World
in_hand = record { db = db_of (last_try ∷ second_item ∷ []); drawn = 0 }

in_hand-IsConsistent : IsConsistent in_hand.db
unfolding allowed fits
in_hand-IsConsistent = IsConsistent-allowed _ refl

-- A handler that returns one event and one object that is none.
abbrev good_handler : Handler
good_handler now subject payload = returned (
    some (record {
      name = process_created;
      subject_id = subject;
      subject_type = none;
      payload = payload;
      occurred_at = none;
    })
    ∷ none
    ∷ [])

abbrev a_registry : Registry
a_registry = ("estimate_state", good_handler) ∷ []

an_env-IsDrawnOnce : IsDrawnOnce an_env 0 []
an_env-IsDrawnOnce = record { fresh = λ j. refl; distinct = λ j k e. omega (arith, e) }

execute_settles_example :
    (r : WorkResult) × (w' : World) × (execute an_env a_registry "w1" unlocked
        (claimed_work last_try)
        in_hand
      ≡ (ok r, w'))
    × IsConsistent w'.db
    × Settled a_registry (claimed_work last_try) in_hand r w'
execute_settles_example =
    execute_settles an_env a_registry (claimed_work last_try) in_hand last_try in_hand-IsConsistent
      (inl refl) refl "w1" unlocked an_env-IsDrawnOnce

execute_unhandled_example :
    (r : WorkResult) × (w' : World) × (execute an_env [] "w1" unlocked
        (claimed_work last_try)
        in_hand
      ≡ (ok r, w'))
    × (r.dead ≡ false)
    × ((y : WorkItem) × In y w'.db.items × (y.work_item_id ≡ 1) × (y.status ≡ dead))
unfolding handler_for
execute_unhandled_example =
    execute_unhandled an_env [] (claimed_work last_try) in_hand last_try in_hand-IsConsistent
      (inl refl) refl "w1" unlocked refl (omega arith)

abbrev swept : World
swept = (sweep an_env 2 "estimate_state" (7 ∷ 8 ∷ 9 ∷ []) in_hand).1

sweep-queues_example :
    HasOpen (key_for strokes estimate_state (some 8)) swept × (length swept.db.items ≡ 2 + 2)
unfolding sweep by_name enqueue commit allowed fits key_for
sweep-queues_example =
    sweep-queues an_env 2 "estimate_state" estimate_state (7 ∷ 8 ∷ 9 ∷ []) in_hand swept
      ("estimate_state", 2) refl refl 8 (inr (inl refl))
