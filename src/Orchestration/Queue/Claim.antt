-- ===== src/Orchestration/Queue/Claim.antt =====
-- `claim` of queue.py: what it hands out, in which order, and to whom.
use econiq_ai.Prelude.{
  refl, ℕ, ◌≤◌, ◌≡◌, ap, Bool, true, false, ◌&&◌, List, map, String, ok, count, In, update_where,
  str_eq, arith,
}
use econiq_ai.Prelude.Membership.{In-update_where, all-In, all_intro}
use econiq_ai.Prelude.Counting.{count_mono, count-update-le}
use econiq_ai.Orchestration.Store.{
  fits, row_fits, WorkItem, WorkStatus, pending, running, failed, Db, has_id, holds_key,
}
use econiq_ai.Orchestration.Store.Consistency.{
  IsConsistent, row_fits_like, commit-eq-ok, commit_of_IsConsistent,
}
use econiq_ai.Orchestration.Queue.{
  claim, claimed_work, mark_claimed, selection, eligible, reclaim_expired, lease_expired,
  to_pending, is_among,
}
use econiq_ai.Orchestration.Work.{ClaimedWork}
use econiq_ai.Orchestration.Queue.Selection.{
  eligible-due, In-selection, is_among-selection, reclaim-IsConsistent,
}

abbrev pub is_live : WorkStatus → Bool
is_live pending = true
is_live running = true
is_live failed = true
is_live _ = false

abbrev pub live_key : String → WorkItem → Bool
live_key k x = is_live x.status && str_eq x.idempotency_key k

-- One item for each key among those that run or will run, failed ones included.
pub record IsUnshadowed (items : List WorkItem) : Type 0 where
  pub live_keys : (k : String) → count (live_key k) items ≤ 1

module _ (lease : ℕ) (locked : ℕ → Bool) (worker : String) (stages : List String) (limit now : ℕ)
    (db : Db) where
  abbrev pub candidates : List WorkItem
  candidates = reclaim_expired lease now db.items

  abbrev pub rows : List WorkItem
  rows = selection locked now stages limit candidates

  abbrev pub marked : List WorkItem
  marked = update_where (is_among rows) (mark_claimed worker now) candidates

  -- What a claim that commits returned and stored.
  pub claim-eq-ok :
      {cs : List ClaimedWork} {db' : Db}
      → claim lease locked worker stages limit now db ≡ ok (cs, db')
      → (cs ≡ map (λ x. claimed_work (mark_claimed worker now x)) rows)
        × (db' ≡ record db { items = marked })
        × IsConsistent (record db { items = marked })
  unfolding claim
  claim-eq-ok {cs} {db'} h =
      let (e, c) =
        commit-eq-ok (map (λ x. claimed_work (mark_claimed worker now x)) rows)
          (record db { items = marked }) {r = (cs, db')} h in
      (ap (λ (p : List ClaimedWork × Db). p.0) e, ap (λ (p : List ClaimedWork × Db). p.1) e, c)

  module _ (consistent : IsConsistent db) where
    candidates-IsConsistent : IsConsistent (record db { items = candidates })
    candidates-IsConsistent = reclaim-IsConsistent lease now db consistent

    -- A marked row was selected.
    marked-selected :
        (x : WorkItem)
        → In x candidates
        → is_among rows x ≡ true
        → eligible locked now stages x ≡ true
    marked-selected x m h =
        (In-selection locked now stages limit candidates x (
          is_among-selection locked now stages limit candidates x candidates-IsConsistent.ids m
            h)).1

    candidates-IsUnshadowed :
        IsUnshadowed db.items → (k : String) → count (live_key k) candidates ≤ 1
    unfolding reclaim_expired lease_expired
    candidates-IsUnshadowed u k = omega (
      arith,
      u.live_keys k,
      count-update-le (live_key k) (lease_expired lease now) to_pending db.items
          (λ x m t e. ground arith),
    )

    marked-IsUnshadowed : IsUnshadowed db.items → IsUnshadowed marked
    marked-IsUnshadowed u = record {
      live_keys = λ k. omega (
        arith,
        candidates-IsUnshadowed u k,
        count-update-le (live_key k) (is_among rows) (mark_claimed worker now) candidates
            (λ x m t e. ground (arith, eligible-due locked now stages x (marked-selected x m t))),
      );
    }

    marked-IsConsistent :
        IsUnshadowed db.items → fits 128 worker ≡ true → IsConsistent (record db { items = marked })
    marked-IsConsistent u named = record {
      ids = λ i. omega (
        arith,
        candidates-IsConsistent.ids i,
        count-update-le (has_id i) (is_among rows) (mark_claimed worker now) candidates
            (λ x m t e. e),
      );
      open_keys = λ k. omega (
        arith,
        (marked-IsUnshadowed u).live_keys k,
        count_mono (holds_key k) (live_key k) marked (λ x e. ground arith),
      );
      rows = all_intro (row_fits db.events) marked λ y m.
          let (x, mx, e) =
            In-update_where y (is_among rows) (mark_claimed worker now) candidates m in
          let old = all-In x (row_fits db.events) candidates candidates-IsConsistent.rows mx in
          let new =
            row_fits_like db.events x (mark_claimed worker now x) refl (refl, refl, refl, refl)
              (λ _. named) old in
          ground (arith, e, old, new);
      event_ids = consistent.event_ids;
    }

    -- On consistent tables in which no two items that run or will run, failed ones included, have
    -- one key, a claim in the name of a worker that fits its column raises nothing, and the tables
    -- stay so.
    pub claim_total :
        IsUnshadowed db.items
        → fits 128 worker ≡ true
        → (cs : List ClaimedWork) × (db' : Db) × (claim lease locked worker stages limit now db
            ≡ ok (cs, db'))
          × IsConsistent db'
          × IsUnshadowed db'.items
    unfolding claim
    claim_total u named = (
      map (λ x. claimed_work (mark_claimed worker now x)) rows,
      record db { items = marked },
      commit_of_IsConsistent _ (record db { items = marked }) (marked-IsConsistent u named),
      marked-IsConsistent u named,
      marked-IsUnshadowed u,
    )
