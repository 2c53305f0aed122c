-- ===== src/Orchestration/Queue/Conflict.antt =====
-- What `claim` of queue.py does outside its assumptions: a failed item whose key was scheduled again,
-- and a worker that dies each time.
use econiq_ai.Prelude.{
  ℕ, suc, ◌+◌, ◌≤◌, ◌<◌, ◌≡◌, ◌≢◌, refl, sym, subst, ap, ◌∙◌, Bool, true, false, inl, inr, List, [],
  ◌∷◌, String, some, Result, ok, err, ==_refl, if◌then◌else◌, Bool-cases, count, filter, In, arith,
  integrity_error, zero, str_eq_refl, ◌++◌,
}
use econiq_ai.Prelude.Membership.{all-In, any_of_In, update_where-In, In-append_left}
use econiq_ai.Prelude.Counting.{count_unique, count-append, count-pos, length-filter, nil_of_length}
use econiq_ai.Prelude.Sorting.{sort_by}
use econiq_ai.Orchestration.Store.{
  WorkItem, running, failed, Db, has_id, holds_key, commit, is_open, allowed, fits, row_fits,
}
use econiq_ai.Orchestration.Store.Consistency.{
  commit-eq-ok, IsConsistent-allowed, IsConsistent, allowed_of_IsConsistent, row_fits_like,
}
use econiq_ai.Orchestration.Queue.{
  claim, claimed_work, mark_claimed, selection, eligible, reclaim_expired, lease_expired, is_among,
  enqueue, enqueue_with, new_item,
}
use econiq_ai.Orchestration.Work.{Request, Enqueued}
use econiq_ai.Orchestration.Queue.Selection.{In-selection}
use econiq_ai.Orchestration.Queue.Claim.{candidates, rows, marked, live_key}

module _ (lease : ℕ) (locked : ℕ → Bool) (worker : String) (stages : List String) (limit now : ℕ)
    (db : Db) where
  abbrev sources : List WorkItem
  sources = candidates lease locked worker stages limit now db

  abbrev chosen : List WorkItem
  chosen = rows lease locked worker stages limit now db

  -- A claim that picks an item whose key another open item holds raises an integrity error.
  pub claim_shadowed :
      (x y : WorkItem)
      → In x chosen
      → In y sources
      → y.work_item_id ≢ x.work_item_id
      → y.idempotency_key ≡ x.idempotency_key
      → is_open y.status ≡ true
      → claim lease locked worker stages limit now db ≡ err integrity_error
  unfolding claim commit
  claim_shadowed x y mx my other same held =
      let stored = marked lease locked worker stages limit now db in
      elim (Bool-cases (allowed (record db { items = stored }))) [
        | inr refused ↦ rw refused refl
        | inl accepted ↦
            let once = IsConsistent-allowed (record db { items = stored }) accepted in
            let among : is_among chosen x ≡ true =
              any_of_In x (has_id x.work_item_id) chosen mx (==_refl x.work_item_id) in
            let inside = (In-selection locked now stages limit sources x mx).0 in
            let first =
              rw among at
                (update_where-In x (is_among chosen) (mark_claimed worker now) sources inside) in
            let second = update_where-In y (is_among chosen) (mark_claimed worker now) sources my in
            let y' : WorkItem = if is_among chosen y then mark_claimed worker now y else y in
            let e : mark_claimed worker now x ≡ y' =
              count_unique (holds_key x.idempotency_key) (mark_claimed worker now x) y' stored
                (once.open_keys x.idempotency_key) first second
                (ground (arith, str_eq_refl x.idempotency_key))
                (ground (arith, str_eq_refl x.idempotency_key)) in
            absurd (other (ground (arith, ap (λ (z : WorkItem). z.work_item_id) e)))
      ]

-- Where a failed item has the key and no open one does, an enqueue that returns creates a live
-- item with the key beside it: the failed item is still there, and one item more than before, two
-- at least, is live with the key.
pub enqueue_over_failed :
    (id now : ℕ) (r : Request) (db db' : Db) (e : Enqueued) (x : WorkItem)
    → In x db.items
    → x.status ≡ failed
    → x.idempotency_key ≡ r.idempotency_key
    → count (holds_key r.idempotency_key) db.items ≡ 0
    → enqueue id now r db ≡ ok (e, db')
    → (e.created ≡ true)
      × (2 ≤ count (live_key r.idempotency_key) db'.items)
      × (count (live_key r.idempotency_key) db'.items
          ≡ suc (count (live_key r.idempotency_key) db.items))
      × In x db'.items
unfolding enqueue enqueue_with commit
enqueue_over_failed id now r db db' e x m st key free done =
    let none_held =
      nil_of_length (filter (holds_key r.idempotency_key) db.items)
        (length-filter (holds_key r.idempotency_key) db.items ∙ free) in
    let (stored, _) =
      commit-eq-ok (record { work_item_id = id; created = true })
        (record db { items = db.items ++ new_item id now r ∷ [] }) {r = (e, db')}
        (rw (none_held, enqueue_with) at done) in
    let rows_stored : db'.items ≡ db.items ++ (new_item id now r ∷ []) =
      ap (λ (p : Enqueued × Db). p.1.items) stored in
    let one : count (live_key r.idempotency_key) (new_item id now r ∷ []) ≡ 1 =
      ground (arith, str_eq_refl r.idempotency_key) in
    let held =
      count-pos (live_key r.idempotency_key) x db.items m
        (ground (arith, str_eq_refl r.idempotency_key)) in
    let grown : count (live_key r.idempotency_key) db'.items
        ≡ suc (count (live_key r.idempotency_key) db.items) =
      omega (
        arith,
        one,
        ap (count (live_key r.idempotency_key)) rows_stored,
        count-append (live_key r.idempotency_key) db.items (new_item id now r ∷ []),
      ) in
    (
      ap (λ (p : Enqueued × Db). p.0.created) stored,
      omega (arith, grown, held),
      grown,
      subst (In x) (sym rows_stored) (In-append_left x db.items (new_item id now r ∷ []) m),
    )

-- A worker that claims, dies, and is replaced after its lease: `n` claims, each a second after the
-- lease of the one before has run out. Locks of dead workers are gone, so none are held.
unfoldable pub crash_loop : ℕ → ℕ → String → ℕ → Db → Result Db
crash_loop zero lease worker now db = ok db
crash_loop (suc n) lease worker now db = elim (claim lease (λ i. false) worker [] 1 now db) [
  | err e ↦ err e
  | ok (cs, db') ↦ crash_loop n lease worker (now + lease + 1) db'
]

-- One claim of an item that is alone in the table and whose lease has run out.
reclaim_alone :
    (lease now since : ℕ) (worker : String) (x : WorkItem) (db : Db)
    → db.items ≡ x ∷ []
    → x.status ≡ running
    → x.claimed_at ≡ some since
    → since + lease < now
    → x.run_after ≤ now
    → allowed (record db { items = mark_claimed worker now x ∷ [] }) ≡ true
    → claim lease (λ i. false) worker [] 1 now db
      ≡ ok (
        claimed_work (mark_claimed worker now x) ∷ [],
        record db { items = mark_claimed worker now x ∷ [] },
      )
unfolding claim commit reclaim_expired lease_expired selection eligible sort_by
reclaim_alone lease now since worker x db only st at late due accepted = ground arith

-- The table stays consistent.
marked_alone :
    (now : ℕ) (worker : String) (x : WorkItem) (db : Db)
    → db.items ≡ x ∷ []
    → IsConsistent db
    → fits 128 worker ≡ true
    → IsConsistent (record db { items = mark_claimed worker now x ∷ [] })
marked_alone now worker x db only consistent named = record {
  ids = λ i. ground arith;
  open_keys = λ k. ground arith;
  rows =
      let old : row_fits db.events x ≡ true =
        all-In x (row_fits db.events) db.items consistent.rows
          (subst (In x) (sym only) (inl refl)) in
      ground (
        arith,
        row_fits_like db.events x (mark_claimed worker now x) refl (refl, refl, refl, refl)
            (λ _. named) old,
      );
  event_ids = consistent.event_ids;
}

-- An item alone in a consistent table whose worker, with a name that fits its column, dies after
-- every claim is handed out after each lease: after n more claims it has n more attempts, whatever
-- max_attempts is, and is still running.
pub crash_loop-attempts :
    (n lease now since : ℕ) (worker : String) (x : WorkItem) (db : Db)
    → db.items ≡ x ∷ []
    → x.status ≡ running
    → x.claimed_at ≡ some since
    → since + lease < now
    → x.run_after ≤ now
    → IsConsistent db
    → fits 128 worker ≡ true
    → (y : WorkItem) × (db' : Db) × (crash_loop n lease worker now db ≡ ok db')
      × (db'.items ≡ y ∷ [])
      × (y.attempts ≡ x.attempts + n)
      × (y.status ≡ running)
      × (y.max_attempts ≡ x.max_attempts)
unfolding crash_loop
crash_loop-attempts zero lease now since worker x db only st at late due consistent named =
    (x, db, refl, only, omega arith, st, refl)
crash_loop-attempts (suc n) lease now since worker x db only st at late due consistent named =
    let kept = marked_alone now worker x db only consistent named in
    let (y, db', run, items, tried, st', max') =
      crash_loop-attempts n lease (now + lease + 1) now worker (mark_claimed worker now x)
        (record db { items = mark_claimed worker now x ∷ [] }) refl refl refl (omega arith)
        (omega arith) kept named in
    (
      y,
      db',
      rw
          (
            reclaim_alone lease now since worker x db only st at late due (
                allowed_of_IsConsistent (record db { items = mark_claimed worker now x ∷ [] })
                  kept),
            crash_loop,
          )
          run,
      items,
      omega (arith, tried),
      st',
      max',
    )
