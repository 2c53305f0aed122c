-- ===== src/Orchestration/Queue.antt =====
-- queue.py: `WorkQueue`. A method is a session over the database, given the id that `uuid4`
-- makes and the instant that `utcnow` reads. `locked` tells the rows that other transactions hold.

pub mod Dedup
pub mod Selection
pub mod Claim
pub mod Handout
pub mod Retry
pub mod Conflict
pub mod Supersede
pub mod Contract
use econiq_ai.Prelude.{
  ℕ, zero, suc, ◌+◌, ◌-◌, ◌≡◌, Bool, true, false, ◌&&◌, ◌||◌, not, Option, none, some, List, [],
  ◌∷◌, ◌++◌, map, String, Error, lookup_error, multiple_results, Result, ok, err, ltb, leb, ◌==◌,
  if◌then◌else◌, take, filter, any, find, update_where, count, str_eq, min, text_take,
}
use econiq_ai.Prelude.Sorting.{sort_by}
use econiq_ai.Orchestration.Store.{
  WorkStatus, pending, running, succeeded, failed, dead, superseded, Payload, WorkItem, Db, is_open,
  holds_key, has_id, commit,
}
use econiq_ai.Orchestration.Work.{
  urgent, live, default_priority, reconciled, backfill, Request, Enqueued, ClaimedWork,
  is_final_attempt, QueueDepth, outstanding, default_lease, backoff_for, status_is,
}

abbrev pub new_item : ℕ → ℕ → Request → WorkItem
new_item id now r = record {
  work_item_id = id;
  stage = r.stage;
  subject_id = r.subject_id;
  idempotency_key = r.idempotency_key;
  payload = r.payload;
  status = pending;
  priority = r.priority;
  run_after = elim r.run_after [ none ↦ now | some t ↦ t ];
  attempts = 0;
  max_attempts = r.max_attempts;
  claimed_at = none;
  claimed_by = none;
  finished_at = none;
  last_error = none;
  trigger = r.trigger;
  source_event_id = r.source_event_id;
}

-- The body of `enqueue`, by the rows that the first query finds.
enqueue_with : List WorkItem → ℕ → ℕ → Request → Db → Result (Enqueued × Db)
enqueue_with [] id now r db =
    commit (record { work_item_id = id; created = true })
      (record db { items = db.items ++ new_item id now r ∷ [] })
enqueue_with (x ∷ []) id now r db =
    ok (record { work_item_id = x.work_item_id; created = false }, db)
enqueue_with (x ∷ y ∷ rest) id now r db = err multiple_results

unfoldable pub enqueue : ℕ → ℕ → Request → Db → Result (Enqueued × Db)
unfolding enqueue_with commit
enqueue id now r db = enqueue_with (filter (holds_key r.idempotency_key) db.items) id now r db

-- `_reclaim_expired`: `claimed_at < now - lease`, over instants that do not wrap.
claimed_before : Option ℕ → ℕ → ℕ → Bool
claimed_before none lease now = false
claimed_before (some t) lease now = ltb (t + lease) now

unfoldable pub lease_expired : ℕ → ℕ → WorkItem → Bool
unfolding claimed_before
lease_expired lease now x = status_is x.status running && claimed_before x.claimed_at lease now

abbrev pub to_pending : WorkItem → WorkItem
to_pending x = record x { status = pending; claimed_by = none; claimed_at = none }

unfoldable pub reclaim_expired : ℕ → ℕ → List WorkItem → List WorkItem
unfolding lease_expired
reclaim_expired lease now = update_where (lease_expired lease now) to_pending

abbrev pub claimable_status : WorkStatus → Bool
claimable_status pending = true
claimable_status failed = true
claimable_status _ = false

-- The `WHERE` of the claim query, and the rows that `SKIP LOCKED` steps over.
unfoldable pub eligible : (ℕ → Bool) → ℕ → List String → WorkItem → Bool
eligible locked now [] x =
    claimable_status x.status && leb x.run_after now && not (locked x.work_item_id)
eligible locked now (s ∷ stages) x =
    claimable_status x.status
    && leb x.run_after now
    && any (str_eq x.stage) (s ∷ stages)
    && not (locked x.work_item_id)

-- `ORDER BY priority, run_after`
abbrev pub runs_before : WorkItem → WorkItem → Bool
runs_before x y =
    ltb x.priority y.priority || x.priority == y.priority && ltb x.run_after y.run_after

unfoldable pub selection : (ℕ → Bool) → ℕ → List String → ℕ → List WorkItem → List WorkItem
selection locked now stages limit items =
    take limit (sort_by runs_before (filter (eligible locked now stages) items))

abbrev pub is_among : List WorkItem → WorkItem → Bool
is_among rows x = any (has_id x.work_item_id) rows

abbrev pub mark_claimed : String → ℕ → WorkItem → WorkItem
mark_claimed worker now x = record x {
  status = running;
  attempts = x.attempts + 1;
  claimed_at = some now;
  claimed_by = some worker;
}

abbrev pub claimed_work : WorkItem → ClaimedWork
claimed_work x = record {
  work_item_id = x.work_item_id;
  stage = x.stage;
  subject_id = x.subject_id;
  payload = x.payload;
  attempts = x.attempts;
  max_attempts = x.max_attempts;
  trigger = x.trigger;
}

-- Leases are reclaimed first, then the rows are chosen and marked, in one transaction.
unfoldable pub claim :
    ℕ → (ℕ → Bool) → String → List String → ℕ → ℕ → Db → Result (List ClaimedWork × Db)
unfolding commit
claim lease locked worker stages limit now db =
    let items = reclaim_expired lease now db.items in
    let rows = selection locked now stages limit items in
    commit (map (λ x. claimed_work (mark_claimed worker now x)) rows)
      (record db { items = update_where (is_among rows) (mark_claimed worker now) items })

-- `item` as `session.get` finds it, changed and committed. `LookupError` where there is none.
change_item : {A : Type 0} → ℕ → (WorkItem → A × WorkItem) → Db → Result (A × Db)
unfolding commit
change_item id f db = elim (find (has_id id) db.items) [
  | none ↦ err lookup_error
  | some item ↦
      commit (f item).0 (record db { items = update_where (has_id id) (λ x. (f x).1) db.items })
]

abbrev pub finish_item : WorkStatus → ℕ → WorkItem → WorkItem
finish_item status now x = record x { status = status; finished_at = some now; claimed_by = none }

finish : ℕ → WorkStatus → ℕ → Db → Result (Unit {0} × Db)
unfolding change_item
finish id status now db = change_item id (λ x. (tt, finish_item status now x)) db

unfoldable pub succeed : ℕ → ℕ → Db → Result (Unit {0} × Db)
unfolding finish
succeed id now db = finish id succeeded now db

-- `exhausted = item.attempts >= item.max_attempts`
abbrev pub is_exhausted : WorkItem → Bool
is_exhausted x = leb x.max_attempts x.attempts

-- `error[:2000]` and the new status.
abbrev pub fail_item : String → ℕ → WorkItem → WorkStatus × WorkItem
fail_item error now x =
    if is_exhausted x
    then (
      dead,
      record x {
        status = dead;
        last_error = some (text_take 2000 error);
        claimed_by = none;
        claimed_at = none;
        finished_at = some now;
      },
    )
    else (
      failed,
      record x {
        status = failed;
        last_error = some (text_take 2000 error);
        claimed_by = none;
        claimed_at = none;
        run_after = now + backoff_for x.attempts;
      },
    )

unfoldable pub fail : ℕ → String → ℕ → Db → Result (WorkStatus × Db)
unfolding change_item backoff_for
fail id error now db = change_item id (fail_item error now) db

abbrev pub redundant : String → String → WorkItem → Bool
redundant stage key x =
    str_eq x.stage stage && str_eq x.idempotency_key key && status_is x.status pending

unfoldable pub supersede : String → String → ℕ → Db → Result (ℕ × Db)
unfolding commit
supersede stage key now db = commit (count (redundant stage key) db.items) (record db {
  items =
      update_where (redundant stage key)
        (λ x. record x { status = superseded; finished_at = some now }) db.items;
})

abbrev pub in_stage : Option String → WorkItem → Bool
in_stage none x = true
in_stage (some s) x = str_eq x.stage s

unfoldable pub depth : Option String → Db → QueueDepth
depth stage db =
    let counted =
      λ (s : WorkStatus). count (λ x. in_stage stage x && status_is x.status s) db.items in
    record {
      pending = counted pending;
      running = counted running;
      failed = counted failed;
      dead = counted dead;
    }

-- `ORDER BY finished_at DESC`; Postgres puts NULL first there.
finished_later : WorkItem → WorkItem → Bool
finished_later x y = elim x.finished_at [
  | none ↦ elim y.finished_at [ none ↦ false | some t ↦ true ]
  | some s ↦ elim y.finished_at [ none ↦ false | some t ↦ ltb t s ]
]

unfoldable pub dead_letters : ℕ → Db → List ClaimedWork
unfolding finished_later
dead_letters limit db =
    map claimed_work
      (take limit (sort_by finished_later (filter (λ x. status_is x.status dead) db.items)))
