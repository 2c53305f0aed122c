-- ===== src/Orchestration/Queue/Contract.antt =====
-- The contract of queue.py for those who add work and finish it: a set of ids that were ever used,
-- the keys that are busy, each under the id of its open item, and the ids of the events.
pub mod Run
use mathlib.Core.List.{map-append}
use econiq_ai.Prelude.Membership.{all-In, In-append_right}
use econiq_ai.Prelude.{
  ℕ, ◌+◌, ◌≤◌, ◌≡◌, refl, sym, ap, ◌∙◌, Bool, true, false, inl, inr, Option, none, some, List, [],
  ◌∷◌, ◌++◌, map, String, Result, ok, err, Error, not, ◌||◌, ◌&&◌, leb, le→leb, if◌then◌else◌,
  count, filter, any, find, update_where, length, str_eq, str_eq_refl, ◌==◌, ==_iff, ==_refl, arith,
  Bool-cases, Option-cases, In, all,
}
use econiq_ai.Prelude.Counting.{count-append, length-filter, filter-append}
use econiq_ai.Orchestration.Store.{
  WorkItem, WorkStatus, Db, is_open, holds_key, has_id, allowed, commit, OutboxEvent, fits,
  is_known, row_fits, pending, running, succeeded, failed, dead, superseded,
}
use econiq_ai.Orchestration.Store.Consistency.{
  IsConsistent, IsConsistent-allowed, IsClosing, IsConsistent-update, commit_of_IsConsistent,
}
use econiq_ai.Orchestration.Queue.Dedup.{held_cases, enqueue_new, enqueue_held}
use econiq_ai.Orchestration.Queue.{
  new_item, enqueue_with, enqueue, change_item, finish, finish_item, fail_item, succeed, fail,
}
use econiq_ai.Orchestration.Work.{Request, Enqueued}

pub record Contract : Type 0 where
  pub used : List ℕ
  pub busy : List (ℕ × String)
  pub known : List ℕ

-- what the contract sees of a table
abbrev pub used_of : List WorkItem → List ℕ
used_of items = map (λ (x : WorkItem). x.work_item_id) items

abbrev pub busy_of : List WorkItem → List (ℕ × String)
busy_of items =
    map (λ (x : WorkItem). (x.work_item_id, x.idempotency_key))
      (filter (λ (x : WorkItem). is_open x.status) items)

abbrev known_of : List OutboxEvent → List ℕ
known_of events = map (λ (e : OutboxEvent). e.outbox_event_id) events

pub view : Db → Contract
view db = record { used = used_of db.items; busy = busy_of db.items; known = known_of db.events }

abbrev names_event : List ℕ → Option ℕ → Bool
names_event known none = true
names_event known (some i) = any (λ j. j == i) known

-- A request may be tried, its texts fit the columns, and the event that it names is known.
pub acceptable : List ℕ → Request → Bool
acceptable known r =
    leb 1 r.max_attempts
    && (fits 64 r.stage && fits 200 r.idempotency_key && fits 32 r.trigger)
    && names_event known r.source_event_id

-- A request is taken if its key is free, its id is new and it is acceptable.
pub submit : ℕ → Request → Contract → Contract
submit id r c =
    if any (λ (e : ℕ × String). str_eq e.1 r.idempotency_key) c.busy
    then c
    else if any (λ i. i == id) c.used || not (acceptable c.known r)
    then c
    else record c { used = c.used ++ (id ∷ []); busy = c.busy ++ ((id, r.idempotency_key) ∷ []) }

abbrev without : ℕ → List (ℕ × String) → List (ℕ × String)
without id busy = filter (λ (e : ℕ × String). not (e.0 == id)) busy

-- An item that succeeds or fails frees its key.
pub release : ℕ → Contract → Contract
release id c = record c { busy = without id c.busy }

-- The table after a call: a call that raises is rolled back.
pub after : {A : Type 0} → Result (A × Db) → Db → Db
after (ok (a, stored)) db = stored
after (err e) db = db

pub data Operation : Type 0 where
  enqueues : ℕ → ℕ → Request → Operation
  succeeds : ℕ → ℕ → Operation
  fails : ℕ → String → ℕ → Operation

pub perform : Operation → Db → Db
perform (enqueues id now r) db = after (enqueue id now r db) db
perform (succeeds id now) db = after (succeed id now db) db
perform (fails id error now) db = after (fail id error now db) db

pub expect : Operation → Contract → Contract
expect (enqueues id now r) c = submit id r c
expect (succeeds id now) c = release id c
expect (fails id error now) c = release id c

pub run : List Operation → Db → Db
run [] db = db
run (op ∷ ops) db = run ops (perform op db)

pub replay : List Operation → Contract → Contract
replay [] c = c
replay (op ∷ ops) c = replay ops (expect op c)

any-busy :
    (k : String) (items : List WorkItem)
    → any (λ (e : ℕ × String). str_eq e.1 k) (busy_of items) ≡ any (holds_key k) items
any-busy k [] = refl
any-busy k (x ∷ items) = ground (arith, any-busy k items)

any-used :
    (id : ℕ) (items : List WorkItem) → any (λ i. i == id) (used_of items) ≡ any (has_id id) items
any-used id [] = refl
any-used id (x ∷ items) = ground (arith, any-used id items)

any_fails :
    (p : WorkItem → Bool) (items : List WorkItem)
    → any p items ≡ false
    → (filter p items ≡ []) × (count p items ≡ 0)
any_fails p [] h = (refl, refl)
any_fails p (x ∷ items) h = ground (arith, any_fails p items)

any_holds : (p : WorkItem → Bool) (items : List WorkItem) → any p items ≡ true → 1 ≤ count p items
any_holds p [] h = cc
any_holds p (x ∷ items) h = ground (arith, any_holds p items)

names_event-is_known :
    (events : List OutboxEvent) (source : Option ℕ)
    → names_event (known_of events) source ≡ is_known events source
names_event-is_known events none = refl
names_event-is_known [] (some i) = refl
names_event-is_known (e ∷ events) (some i) = ground (arith, names_event-is_known events (some i))

-- The contract takes what the columns and the foreign key take.
acceptable-row_fits :
    (id now : ℕ) (r : Request) (db : Db)
    → acceptable (view db).known r ≡ row_fits db.events (new_item id now r)
unfolding acceptable view row_fits
acceptable-row_fits id now r db = ground (arith, names_event-is_known db.events r.source_event_id)

view-append :
    (db : Db) (id now : ℕ) (r : Request)
    → view (record db { items = db.items ++ (new_item id now r ∷ []) }) ≡ record (view db) {
      used = (view db).used ++ (id ∷ []);
      busy = (view db).busy ++ ((id, r.idempotency_key) ∷ []);
    }
unfolding view
view-append db id now r =
    rw
      (
        filter-append (λ (x : WorkItem). is_open x.status) db.items (new_item id now r ∷ []),
        map-append,
        map-append,
      )
      refl

-- Items that are closed leave the busy keys, and keep their ids.
module _ (id : ℕ) (f : WorkItem → WorkItem)
    (same : (x : WorkItem) → (f x).work_item_id ≡ x.work_item_id)
    (closed : (x : WorkItem) → is_open (f x).status ≡ false) where
  used-update : (items : List WorkItem) → used_of (update_where (has_id id) f items) ≡ used_of items
  used-update [] = refl
  used-update (x ∷ items) = ground (arith, same x, used-update items)

  busy-update :
      (items : List WorkItem)
      → busy_of (update_where (has_id id) f items) ≡ without id (busy_of items)
  busy-update [] = refl
  busy-update (x ∷ items) = ground (arith, same x, closed x, busy-update items)

unknown :
    (id : ℕ) (items : List WorkItem)
    → find (has_id id) items ≡ none
    → without id (busy_of items) ≡ busy_of items
unknown id [] h = refl
unknown id (x ∷ items) h = ground (arith, unknown id items)
