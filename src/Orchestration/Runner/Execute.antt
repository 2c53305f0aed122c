-- ===== src/Orchestration/Runner/Execute.antt =====
-- `Worker._execute` and `_complete` of runner.py: a unit of work ends together with its events.
use econiq_ai.Prelude.{
  ℕ, ◌+◌, ◌≤◌, ◌≡◌, refl, sym, Bool, true, false, inl, inr, ◌⊎◌, List, ◌++◌, String, Option, none,
  some, Result, ok, In, length, update_where, ==_refl, arith,
}
use Prim.Native.String.{◌++◌ as concat}
use econiq_ai.Prelude.Membership.{update_where-In}
use econiq_ai.Prelude.Counting.{find_of_In}
use econiq_ai.Orchestration.Store.{
  Db, OutboxEvent, WorkItem, WorkStatus, failed, dead, succeeded, has_id,
}
use econiq_ai.Orchestration.Store.Consistency.{
  IsConsistent, IsConsistent-update, IsConsistent-publish, commit_of_IsConsistent,
}
use econiq_ai.Orchestration.Outbox
use econiq_ai.Orchestration.Outbox.{Env, Emitted}
use econiq_ai.Orchestration.Outbox.Drawn.{
  IsDrawnOnce, AreRowsOf, stage-AreRowsOf, length-stage, count-stage,
}
use econiq_ai.Orchestration.Queue.{fail, fail_item, finish_item}
use econiq_ai.Orchestration.Work.{ClaimedWork, status_is}
use econiq_ai.Orchestration.Queue.Retry.{fail-eq, after_fail, after_fail-IsConsistent}
use econiq_ai.Orchestration.Runner.Session.{World, session, pure, continue}
use econiq_ai.Orchestration.Runner.{result_of, complete, settle, execute_with, execute}
use econiq_ai.Orchestration.Handlers.{
  WorkResult, Outcome, returned, raised, Handler, Registry, handler_for, emitted_only,
}

-- The handler of the stage, and what it did with the item.
abbrev pub Returns : Registry → ClaimedWork → World → List (Option Emitted) → Type 0
Returns registry item w objects =
    (handler : Handler) × (handler_for registry item.stage ≡ some handler)
    × (handler w.drawn item.subject_id item.payload ≡ returned objects)

abbrev pub Raises : Registry → ClaimedWork → World → Type 0
Raises registry item w =
    (handler : Handler) × (handler_for registry item.stage ≡ some handler)
    × ((name : String) × (message : String) × (handler w.drawn item.subject_id item.payload
          ≡ raised name message))

-- How a unit of work can end: its handler returned, and the item is done, with exactly the events
-- that were returned appended to the outbox; or there is no handler or it raised, and the item is
-- failed, with the outbox as it was. In both cases the item is still there under its id.
abbrev pub Settled : Registry → ClaimedWork → World → WorkResult → World → Type 0
Settled registry item w r w' =
    ((y : WorkItem) × In y w'.db.items
      × (y.work_item_id ≡ item.work_item_id)
      × (y.status ≡ succeeded)
      × (r.ok ≡ true)
      × ((objects : List (Option Emitted)) × (rows : List OutboxEvent) × Returns registry item w
            objects
          × AreRowsOf rows objects
          × (w'.db.events ≡ w.db.events ++ rows)
          × (r.events_emitted ≡ length rows)))
    ⊎ ((y : WorkItem) × In y w'.db.items
        × (y.work_item_id ≡ item.work_item_id)
        × ((y.status ≡ failed) ⊎ (y.status ≡ dead))
        × (r.ok ≡ false)
        × ((handler_for registry item.stage ≡ none) ⊎ Raises registry item w)
        × (w'.db.events ≡ w.db.events))

module _ (env : Env) (registry : Registry) (item : ClaimedWork) (w : World) (x : WorkItem)
    (consistent : IsConsistent w.db) (m : In x w.db.items)
    (same : item.work_item_id ≡ x.work_item_id) where
  abbrev Ends : (World → Result WorkResult × World) → Type 0
  Ends act =
      (r : WorkResult) × (w' : World) × (act w ≡ (ok r, w'))
      × IsConsistent w'.db
      × Settled registry item w r w'

  after_complete : List Emitted → Db
  after_complete es = record {
    items =
        update_where (has_id item.work_item_id) (finish_item succeeded (env.utcnow w.drawn))
          w.db.items;
    events = w.db.events ++ Outbox.stage env w.drawn es;
  }

  after_complete-IsConsistent :
      (es : List Emitted) → IsDrawnOnce env w.drawn w.db.events → IsConsistent (after_complete es)
  unfolding after_complete
  after_complete-IsConsistent es drawn =
      let finished =
        update_where (has_id item.work_item_id) (finish_item succeeded (env.utcnow w.drawn))
          w.db.items in
      IsConsistent-publish (record w.db { items = finished }) (Outbox.stage env w.drawn es)
        (λ i. count-stage env w.drawn w.db.events es i drawn (consistent.event_ids i))
        (IsConsistent-update (has_id item.work_item_id) (finish_item succeeded (env.utcnow w.drawn))
          w.db
          (record {
            id = λ y. refl;
            key = λ y. refl;
            like = λ y. (refl, refl, refl, refl);
            worker = λ y e. refl;
            closes = λ y my t o. cc;
          })
          consistent)

  complete-eq :
      (es : List Emitted)
      → IsDrawnOnce env w.drawn w.db.events
      → complete env item.work_item_id es w.drawn w.db ≡ ok (tt, after_complete es)
  unfolding complete after_complete
  complete-eq es drawn =
      rw
        (
          find_of_In (has_id item.work_item_id) x w.db.items (consistent.ids _) m
              (ground (arith, same)),
          complete,
        )
        (commit_of_IsConsistent tt (after_complete es) (after_complete-IsConsistent es drawn))

  failing-Ends :
      (error : String) (report : WorkStatus → WorkResult)
      → ((st : WorkStatus) → (report st).ok ≡ false)
      → (handler_for registry item.stage ≡ none) ⊎ Raises registry item w
      → Ends (λ v.
        continue
          (session env (λ n. fail item.work_item_id error (env.utcnow n)) v)
          (λ st. pure (report st)))
  failing-Ends error report not_ok why =
      let now = env.utcnow w.drawn in
      (
        report (fail_item error now x).0,
        record {
          db = record w.db { items = after_fail error now w.db x consistent m };
          drawn = w.drawn + 1;
        },
        rw same (rw (fail-eq error now w.db x consistent m) refl),
        after_fail-IsConsistent error now w.db x consistent m,
        inr (
          (fail_item error now x).1,
          rw (==_refl x.work_item_id) at (
              update_where-In x (has_id x.work_item_id) (λ y. (fail_item error now y).1) w.db.items
                m),
          rw same (ground arith),
          ground arith,
          not_ok (fail_item error now x).0,
          why,
          refl,
        ),
      )

  settle-Ends :
      (handler : Handler) (o : Outcome)
      → handler_for registry item.stage ≡ some handler
      → handler w.drawn item.subject_id item.payload ≡ o
      → IsDrawnOnce env w.drawn w.db.events
      → Ends (settle env item o)
  unfolding settle after_complete
  settle-Ends handler (raised name message) found did drawn =
      failing-Ends (concat name (concat ": " message))
        (λ st. result_of env item false 0 (some message) (status_is st dead)) (λ st. refl)
        (inr (handler, found, (name, message, did)))
  settle-Ends handler (returned objects) found did drawn =
      let named : has_id item.work_item_id x ≡ true = ground (arith, same) in
      let es = emitted_only objects in
      (
        result_of env item true (length es) none false,
        record { db = after_complete es; drawn = w.drawn + 1 },
        rw (complete-eq es drawn) refl,
        after_complete-IsConsistent es drawn,
        inl (
          finish_item succeeded (env.utcnow w.drawn) x,
          rw named at (
              update_where-In x (has_id item.work_item_id)
                (finish_item succeeded (env.utcnow w.drawn)) w.db.items m),
          sym same,
          refl,
          refl,
          (
            objects,
            Outbox.stage env w.drawn es,
            (handler, found, did),
            stage-AreRowsOf env w.drawn objects,
            refl,
            sym (length-stage env w.drawn es),
          ),
        ),
      )

  -- Executing claimed work whose item is in consistent tables, with ids that are drawn once, never
  -- raises and keeps the tables consistent. Either the handler of the stage returned: the item is
  -- succeeded, and the outbox has one row more for each event among the returned objects, in their
  -- order and with what the event says, waiting to be dispatched, and as many are reported; or
  -- there is no handler or it raised: the item is failed or dead, and the outbox is as it was.
  pub execute_settles :
      (worker : String) (locked : ℕ → Bool)
      → IsDrawnOnce env w.drawn w.db.events
      → Ends (execute env registry worker locked item)
  unfolding execute execute_with
  execute_settles worker locked drawn = go (handler_for registry item.stage) refl
    where
      go :
          (h : Option Handler)
          → handler_for registry item.stage ≡ h
          → Ends (execute_with env h item)
      go none e =
          failing-Ends (concat "no handler for stage " (env.repr item.stage))
            (λ st. result_of env item false 0 (some "no handler") false) (λ st. refl) (inl e)
      go (some handler) e =
          settle-Ends handler (handler w.drawn item.subject_id item.payload) e refl drawn

  -- For an item of a consistent table whose attempts are used up and whose stage has no handler,
  -- execution makes the item dead and returns a result that does not say so.
  pub execute_unhandled :
      (worker : String) (locked : ℕ → Bool)
      → handler_for registry item.stage ≡ none
      → x.max_attempts ≤ x.attempts
      → (r : WorkResult) × (w' : World) × (execute env registry worker locked item w ≡ (ok r, w'))
        × (r.dead ≡ false)
        × ((y : WorkItem) × In y w'.db.items
            × (y.work_item_id ≡ item.work_item_id)
            × (y.status ≡ dead))
  unfolding execute execute_with
  execute_unhandled worker locked none_found used_up =
      let error = concat "no handler for stage " (env.repr item.stage) in
      let now = env.utcnow w.drawn in
      (
        result_of env item false 0 (some "no handler") false,
        record {
          db = record w.db { items = after_fail error now w.db x consistent m };
          drawn = w.drawn + 1;
        },
        rw (none_found, execute_with) (rw same (rw (fail-eq error now w.db x consistent m) refl)),
        refl,
        (
          (fail_item error now x).1,
          rw (==_refl x.work_item_id) at (
              update_where-In x (has_id x.work_item_id) (λ y. (fail_item error now y).1) w.db.items
                m),
          rw same (ground arith),
          ground arith,
        ),
      )
