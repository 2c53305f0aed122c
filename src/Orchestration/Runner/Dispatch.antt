-- ===== src/Orchestration/Runner/Dispatch.antt =====
-- `Dispatcher.dispatch_pending` of runner.py: no event is ticked off before its work is queued.
use econiq_ai.Prelude.{
  ℕ, ◌+◌, ◌≤◌, ◌≡◌, sym, ap, subst, inl, inr, List, [], ◌∷◌, map, String, some, Result, ok, err, In,
  count, length, ◌==◌, Bool-cases, arith,
}
use econiq_ai.Prelude.Membership.{In-update_where, any_of_In, In-map}
use econiq_ai.Orchestration.Store.{Db, OutboxEvent, dispatched, holds_key}
use econiq_ai.Orchestration.Outbox
use econiq_ai.Orchestration.Outbox.{Env, StoredEvent, is_listed}
use econiq_ai.Orchestration.Work.{Request, Enqueued}
use econiq_ai.Orchestration.Queue.Dedup.{holds_key-enqueue}
use econiq_ai.Orchestration.Stages.{StageDefinition, stages_for, key_for}
use econiq_ai.Orchestration.Runner.Session.{World, finish_session}
use econiq_ai.Orchestration.Runner.Rules.{bind-eq-ok, for_each-keeps, for_each-reaches}
use econiq_ai.Orchestration.Runner.{
  enqueue_now, request_for, subject_of, schedule, tally, dispatch_each, dispatch_all,
  dispatch_pending,
}
use econiq_ai.Orchestration.Handlers.{DispatchResult}

-- An open item has the key.
abbrev pub HasOpen : String → World → Type 0
HasOpen k w = 1 ≤ count (holds_key k) w.db.items

pub session-eq-ok :
    {A : Type 0} (r : Result (A × Db)) (w w' : World) (a : A)
    → finish_session r w ≡ (ok a, w')
    → r ≡ ok (a, w'.db)
session-eq-ok (ok (b, db)) w w' a h = ground arith
session-eq-ok (err e) w w' a h = ground arith

-- Every row whose id is given is dispatched afterwards.
pub mark_dispatched-ticks :
    (ids : List ℕ) (now : ℕ) (db : Db) (row : OutboxEvent) (i : ℕ)
    → In row (Outbox.mark_dispatched ids now db).events
    → row.outbox_event_id ≡ i
    → In i ids
    → row.status ≡ dispatched
unfolding Outbox.mark_dispatched
mark_dispatched-ticks ids now db row i m same listed =
    let tick = λ (e : OutboxEvent). record e { status = dispatched; dispatched_at = some now } in
    let (old, mo, eq) = In-update_where row (is_listed ids) tick db.events m in
    elim (Bool-cases (is_listed ids old)) [
      | inl t ↦ ap (λ (e : OutboxEvent). e.status) (rw t at eq)
      | inr f ↦
          let kept : row ≡ old = rw f at eq in
          absurd (
            ground (
              arith,
              any_of_In i (λ j. old.outbox_event_id == j) ids listed,
              ap (λ (e : OutboxEvent). e.outbox_event_id) kept,
            ))
    ]

module _ (env : Env) where
  pub enqueue_now-keeps :
      (k : String) (r : Request) (w w' : World) (e : Enqueued)
      → enqueue_now env r w ≡ (ok e, w')
      → HasOpen k w
      → HasOpen k w'
  unfolding enqueue_now
  enqueue_now-keeps k r w w' e h held =
      omega (arith, (holds_key-enqueue _ _ r w.db w'.db e (session-eq-ok _ w w' e h)).0 k)

  pub enqueue_now-reaches :
      (r : Request) (w w' : World) (e : Enqueued)
      → enqueue_now env r w ≡ (ok e, w')
      → HasOpen r.idempotency_key w'
  unfolding enqueue_now
  enqueue_now-reaches r w w' e h =
      (holds_key-enqueue _ _ r w.db w'.db e (session-eq-ok _ w w' e h)).1

  schedule-keeps :
      (k : String) (event : StoredEvent) (w w' : World) (es : List Enqueued)
      → schedule env event w ≡ (ok es, w')
      → HasOpen k w
      → HasOpen k w'
  unfolding schedule
  schedule-keeps k event w w' es =
      for_each-keeps (λ stage. enqueue_now env (request_for env event stage)) (HasOpen k)
        (λ stage. enqueue_now-keeps k (request_for env event stage)) (stages_for event.name) w w' es

  abbrev pub IsScheduled : StoredEvent → World → Type 0
  IsScheduled event w =
      (stage : StageDefinition)
      → In stage (stages_for event.name)
      → HasOpen (key_for env.show_uuid stage (subject_of env event stage)) w

  schedule-reaches :
      (event : StoredEvent) (w w' : World) (es : List Enqueued)
      → schedule env event w ≡ (ok es, w')
      → IsScheduled event w'
  unfolding schedule
  schedule-reaches event w w' es h stage m =
      for_each-reaches (λ stage. enqueue_now env (request_for env event stage))
        (λ stage. HasOpen (key_for env.show_uuid stage (subject_of env event stage)))
        (λ stage. enqueue_now-reaches (request_for env event stage))
        (λ stage other. enqueue_now-keeps _ (request_for env event other)) (stages_for event.name) w
        w' es h stage m

  dispatch_each-keeps :
      (k : String) (events : List StoredEvent) (r r' : DispatchResult) (w w' : World)
      → dispatch_each env events r w ≡ (ok r', w')
      → HasOpen k w
      → HasOpen k w'
  unfolding dispatch_each
  dispatch_each-keeps k [] r r' w w' h held =
      subst (HasOpen k) (ap (λ (p : Result DispatchResult × World). p.1) h) held
  dispatch_each-keeps k (event ∷ rest) r r' w w' h held =
      let (es, w1, first, more) =
        bind-eq-ok (schedule env event) (λ es. dispatch_each env rest (tally env r es)) w w' r' h in
      dispatch_each-keeps k rest (tally env r es) r' w1 w' more
        (schedule-keeps k event w w1 es first held)

  dispatch_each-reaches :
      (events : List StoredEvent) (r r' : DispatchResult) (w w' : World)
      → dispatch_each env events r w ≡ (ok r', w')
      → (event : StoredEvent) → In event events
      → IsScheduled event w'
  unfolding dispatch_each
  dispatch_each-reaches [] r r' w w' h event m stage ms = elim m [ ]
  dispatch_each-reaches (first ∷ rest) r r' w w' h event m stage ms =
      let (es, w1, done, more) =
        bind-eq-ok (schedule env first) (λ es. dispatch_each env rest (tally env r es)) w w' r' h in
      elim m [
        | inl e ↦
            dispatch_each-keeps _ rest (tally env r es) r' w1 w' more
              (subst (λ v. IsScheduled v w1) (sym e) (schedule-reaches first w w1 es done) stage ms)
        | inr k ↦ dispatch_each-reaches rest (tally env r es) r' w1 w' more event k stage ms
      ]

  abbrev pub IsTickedOff : StoredEvent → World → Type 0
  IsTickedOff event w =
      (row : OutboxEvent)
      → In row w.db.events
      → row.outbox_event_id ≡ event.outbox_event_id
      → row.status ≡ dispatched

  dispatch_all-reaches :
      (events : List StoredEvent) (r : DispatchResult) (w w' : World)
      → dispatch_all env events w ≡ (ok r, w')
      → (event : StoredEvent) → In event events
      → IsTickedOff event w' × IsScheduled event w'
  unfolding dispatch_all Outbox.mark_dispatched
  dispatch_all-reaches [] r w w' h event m = elim m [ ]
  dispatch_all-reaches (e ∷ rest) r w w' h event m =
      let (r1, w1, scheduled, end) =
        bind-eq-ok
          (dispatch_each env (e ∷ rest) (record {
            events_processed = length (e ∷ rest);
            work_enqueued = 0;
            work_deduplicated = 0;
          }))
          (λ r1. λ v. (ok r1, ticked_off v)) w w' r h in
      let final : ticked_off w1 ≡ w' = ap (λ (p : Result DispatchResult × World). p.1) end in
      (
        λ row mr same.
            mark_dispatched-ticks ids (env.utcnow w1.drawn) w1.db row event.outbox_event_id
              (rw (← final) at mr) same (In-map event (λ e. e.outbox_event_id) (e ∷ rest) m),
        λ stage ms.
            rw (← final) (dispatch_each-reaches (e ∷ rest) _ r1 w w1 scheduled event m stage ms),
      )
    where
      ids : List ℕ
      ids = map (λ e. e.outbox_event_id) (e ∷ rest)

      ticked_off : World → World
      ticked_off v = record {
        db = Outbox.mark_dispatched ids (env.utcnow v.drawn) v.db;
        drawn = v.drawn + 1;
      }

  -- After a dispatch that returns, each event that was pending, up to the limit, is ticked off in
  -- the outbox, and every stage that it triggers has an open item under the key of its subject.
  pub dispatch_pending-schedules :
      (limit : ℕ) (r : DispatchResult) (w w' : World) (event : StoredEvent)
      → dispatch_pending env limit w ≡ (ok r, w')
      → In event (Outbox.pending limit w.db)
      → IsTickedOff event w' × IsScheduled event w'
  unfolding dispatch_pending
  dispatch_pending-schedules limit r w w' event h =
      dispatch_all-reaches (Outbox.pending limit w.db) r w w' h event
