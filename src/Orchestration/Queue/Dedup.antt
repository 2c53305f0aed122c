-- ===== src/Orchestration/Queue/Dedup.antt =====
-- `enqueue` of queue.py: one open item for each idempotency key.
use econiq_ai.Prelude.{
  ℕ, ◌≤◌, ◌≡◌, refl, sym, ap, ◌∙◌, true, false, inl, inr, List, [], ◌∷◌, ◌++◌, String, Result, ok,
  ◌⊎◌, count, filter, length, str_eq_iff, str_eq_refl, ==_iff, arith,
}
use econiq_ai.Prelude.Counting.{count-append, length-filter, all-append, filter-append}
use econiq_ai.Orchestration.Store.{WorkItem, Db, holds_key, has_id, row_fits}
use econiq_ai.Orchestration.Store.Consistency.{IsConsistent, commit_of_IsConsistent, commit-eq-ok}
use econiq_ai.Orchestration.Queue.{new_item, enqueue_with, enqueue}
use econiq_ai.Orchestration.Work.{Request, Enqueued}

-- A new item keeps the table consistent where its id is unused and its key is not held.
IsConsistent-insert :
    (id now : ℕ) (r : Request) (db : Db)
    → IsConsistent db
    → count (has_id id) db.items ≡ 0
    → count (holds_key r.idempotency_key) db.items ≡ 0
    → row_fits db.events (new_item id now r) ≡ true
    → IsConsistent (record db { items = db.items ++ new_item id now r ∷ [] })
IsConsistent-insert id now r db h unused free fit = record {
  ids = λ i.
      rw (count-append (has_id i) db.items (new_item id now r ∷ [])) (
        ground (arith, h.ids i, ==_iff id i, ap (λ j. count (has_id j) db.items) {x = id} {y = i}));
  open_keys = λ k. rw (count-append (holds_key k) db.items (new_item id now r ∷ [])) (
      ground (
        arith,
        h.open_keys k,
        str_eq_iff r.idempotency_key k,
        ap (λ j. count (holds_key j) db.items) {x = r.idempotency_key} {y = k},
      ));
  rows =
      all-append (row_fits db.events) db.items (new_item id now r ∷ []) h.rows
        (ground (arith, fit));
  event_ids = h.event_ids;
}

pub held_cases :
    (k : String) (items : List WorkItem)
    → count (holds_key k) items ≤ 1
    → (filter (holds_key k) items ≡ []) ⊎ ((x : WorkItem) × (filter (holds_key k) items ≡ x ∷ []))
held_cases k items once = go (filter (holds_key k) items) refl
  where
    go :
        (held : List WorkItem)
        → filter (holds_key k) items ≡ held
        → (filter (holds_key k) items ≡ [])
          ⊎ ((x : WorkItem) × (filter (holds_key k) items ≡ x ∷ []))
    go [] e = inl e
    go (x ∷ []) e = inr (x, e)
    go (x ∷ y ∷ rest) e = absurd (omega (arith, length-filter (holds_key k) items, ap length e))

module _ (id now : ℕ) (r : Request) (db : Db) where
  pub enqueue_new :
      filter (holds_key r.idempotency_key) db.items ≡ []
      → IsConsistent db
      → count (has_id id) db.items ≡ 0
      → row_fits db.events (new_item id now r) ≡ true
      → (enqueue id now r db
          ≡ ok (
            record { work_item_id = id; created = true },
            record db { items = db.items ++ new_item id now r ∷ [] },
          ))
        × IsConsistent (record db { items = db.items ++ new_item id now r ∷ [] })
  unfolding enqueue enqueue_with
  enqueue_new none_held h unused fit =
      let free = sym (length-filter (holds_key r.idempotency_key) db.items) ∙ ap length none_held in
      let kept = IsConsistent-insert id now r db h unused free fit in
      (
        rw (none_held, enqueue_with)
            (commit_of_IsConsistent _ (record db { items = db.items ++ new_item id now r ∷ [] })
              kept),
        kept,
      )

  pub enqueue_held :
      (x : WorkItem)
      → filter (holds_key r.idempotency_key) db.items ≡ x ∷ []
      → enqueue id now r db ≡ ok (record { work_item_id = x.work_item_id; created = false }, db)
  unfolding enqueue enqueue_with
  enqueue_held x held = rw (held, enqueue_with)

-- Who holds the key after an `enqueue`: the item whose id it returned.
enqueue-held :
    (id now : ℕ) (r : Request) (db db' : Db) (e : Enqueued)
    → IsConsistent db
    → enqueue id now r db ≡ ok (e, db')
    → (x : WorkItem) × (filter (holds_key r.idempotency_key) db'.items ≡ x ∷ [])
      × (x.work_item_id ≡ e.work_item_id)
unfolding enqueue enqueue_with
enqueue-held id now r db db' e h done =
    elim (held_cases r.idempotency_key db.items (h.open_keys _)) [
      | inl none_held ↦
          let (stored, _) =
            commit-eq-ok (record { work_item_id = id; created = true })
              (record db { items = db.items ++ new_item id now r ∷ [] }) {r = (e, db')}
              (rw (none_held, enqueue_with) at done) in
          (
            new_item id now r,
            rw (ap (λ (p : Enqueued × Db). p.1.items) stored, filter-append, none_held)
                (ground (arith, str_eq_refl r.idempotency_key)),
            sym (ap (λ (p : Enqueued × Db). p.0.work_item_id) stored),
          )
      | inr (x, held) ↦
          let same : ◌≡◌ {A = Result (Enqueued × Db)}
              (ok (record { work_item_id = x.work_item_id; created = false }, db)) (ok (e, db')) =
            rw (held, enqueue_with) at done in
          (x, cc, cc)
    ]

-- On a consistent table, an enqueue of the same key right after an enqueue that returned returns
-- its id again, says that nothing was created, and leaves the table as it is.
pub enqueue_idempotent :
    (id now id' now' : ℕ) (r r' : Request) (db db' : Db) (e : Enqueued)
    → IsConsistent db
    → r'.idempotency_key ≡ r.idempotency_key
    → enqueue id now r db ≡ ok (e, db')
    → enqueue id' now' r' db' ≡ ok (record { work_item_id = e.work_item_id; created = false }, db')
enqueue_idempotent id now id' now' r r' db db' e h same done =
    let (x, held, named) = enqueue-held id now r db db' e h done in
    rw (← named) (enqueue_held id' now' r' db' x (rw same held))

-- What an `enqueue` that returns did: it created the item, or found the key held and changed nothing.
pub enqueue_cases :
    (id now : ℕ) (r : Request) (db db' : Db) (e : Enqueued)
    → enqueue id now r db ≡ ok (e, db')
    → ((e.created ≡ true)
        × (db' ≡ record db { items = db.items ++ new_item id now r ∷ [] })
        × IsConsistent db')
      ⊎ ((e.created ≡ false) × (db' ≡ db) × (1 ≤ count (holds_key r.idempotency_key) db.items))
unfolding enqueue enqueue_with
enqueue_cases id now r db db' e done = go (filter (holds_key r.idempotency_key) db.items) refl done
  where
    go :
        (held : List WorkItem)
        → filter (holds_key r.idempotency_key) db.items ≡ held
        → enqueue_with held id now r db ≡ ok (e, db')
        → ((e.created ≡ true)
            × (db' ≡ record db { items = db.items ++ new_item id now r ∷ [] })
            × IsConsistent db')
          ⊎ ((e.created ≡ false) × (db' ≡ db) × (1 ≤ count (holds_key r.idempotency_key) db.items))
    go [] q h =
        let (stored, c) =
          commit-eq-ok (record { work_item_id = id; created = true })
            (record db { items = db.items ++ new_item id now r ∷ [] }) {r = (e, db')} h in
        inl (
          ap (λ (p : Enqueued × Db). p.0.created) stored,
          ap (λ (p : Enqueued × Db). p.1) stored,
          rw (ap (λ (p : Enqueued × Db). p.1) stored) c,
        )
    go (x ∷ []) q h =
        inr
          (cc, cc, omega (arith, length-filter (holds_key r.idempotency_key) db.items, ap length q))
    go (x ∷ y ∷ rest) q h = cc

-- An `enqueue` that returns takes no key's open item away, and its own key has one.
pub holds_key-enqueue :
    (id now : ℕ) (r : Request) (db db' : Db) (e : Enqueued)
    → enqueue id now r db ≡ ok (e, db')
    → ((k : String) → count (holds_key k) db.items ≤ count (holds_key k) db'.items)
      × (1 ≤ count (holds_key r.idempotency_key) db'.items)
holds_key-enqueue id now r db db' e done = elim (enqueue_cases id now r db db' e done) [
  | inl (_, stored, _) ↦
      let grown = λ (k : String).
        ap (λ (d : Db). count (holds_key k) d.items) stored
        ∙ count-append (holds_key k) db.items (new_item id now r ∷ []) in
      (
        λ k. omega (arith, grown k),
        ground (arith, grown r.idempotency_key, str_eq_refl r.idempotency_key),
      )
  | inr (_, same, held) ↦ (λ k. rw same (omega arith), rw same held)
]
