-- ===== src/Orchestration/Queue/Retry.antt =====
-- How an item comes back after a claim: exclusive leases, retries with backoff, dead letters.
use econiq_ai.Prelude.{
  ℕ, ◌+◌, ◌≤◌, ◌<◌, ◌≡◌, ◌≢◌, sym, ap, ◌∙◌, Bool, inl, inr, List, [], String, some, Result, ok, err,
  ==_refl, Bool-cases, In, update_where, arith, ◌↔◌, find,
}
use econiq_ai.Prelude.Membership.{update_where-In}
use econiq_ai.Prelude.Counting.{count_unique, find_of_In}
use econiq_ai.Orchestration.Store.{WorkItem, WorkStatus, dead, Db, has_id}
use econiq_ai.Orchestration.Store.Consistency.{
  IsConsistent, commit_of_IsConsistent, IsConsistent-update,
}
use econiq_ai.Orchestration.Queue.{claim, fail, fail_item, change_item, is_exhausted, lease_expired}
use econiq_ai.Orchestration.Work.{ClaimedWork, backoff_for}
use econiq_ai.Orchestration.Queue.Claim.{claim-eq-ok}
use econiq_ai.Orchestration.Queue.Handout.{claim-IsClaimable}

module _ (lease : ℕ) (locked locked' : ℕ → Bool) (worker worker' : String)
    (stages stages' : List String) (limit limit' now now' : ℕ) (db db' db'' : Db)
    (cs cs' : List ClaimedWork) where
  -- No item is handed out twice while its lease runs: a second claim on the table that a first one
  -- left, at most one lease later, returns none of the same ids, whatever the workers, stages,
  -- limits and locks.
  pub claim_exclusive :
      (c c' : ClaimedWork)
      → claim lease locked worker stages limit now db ≡ ok (cs, db')
      → claim lease locked' worker' stages' limit' now' db' ≡ ok (cs', db'')
      → now' ≤ now + lease
      → In c cs
      → In c' cs'
      → c.work_item_id ≢ c'.work_item_id
  unfolding lease_expired
  claim_exclusive c c' first second soon m m' same =
      let (_, (y, my, idy, _, held)) =
        claim-IsClaimable lease locked worker stages limit now db cs db' c first m in
      let ((x, mx, idx, _, fit), _) =
        claim-IsClaimable lease locked' worker' stages' limit' now' db' cs' db'' c' second m' in
      let (_, edb, after) = claim-eq-ok lease locked worker stages limit now db first in
      let ids = rw (← ap (λ (d : Db). d.items) edb) at (after.ids x.work_item_id) in
      let e : x ≡ y =
        count_unique (has_id x.work_item_id) x y db'.items ids mx my (==_refl x.work_item_id)
          (ground arith) in
      ground arith

module _ (error : String) (now : ℕ) (db : Db) (x : WorkItem) (consistent : IsConsistent db)
    (m : In x db.items) where
  abbrev pub after_fail : List WorkItem
  after_fail = update_where (has_id x.work_item_id) (λ y. (fail_item error now y).1) db.items

  found : find (has_id x.work_item_id) db.items ≡ some x
  found =
      find_of_In (has_id x.work_item_id) x db.items (consistent.ids x.work_item_id) m
        (==_refl x.work_item_id)

  pub after_fail-IsConsistent : IsConsistent (record db { items = after_fail })
  after_fail-IsConsistent =
      IsConsistent-update (has_id x.work_item_id) (λ y. (fail_item error now y).1) db
        (record {
          id = λ y. ground arith;
          key = λ y. ground arith;
          like = λ y. (ground arith, ground arith, ground arith, ground arith);
          worker = λ y e. ground arith;
          closes = λ y my t o. ground arith;
        })
        consistent

  pub fail-eq :
      fail x.work_item_id error now db
      ≡ ok ((fail_item error now x).0, record db { items = after_fail })
  unfolding fail change_item
  fail-eq =
      rw (found, change_item)
        (commit_of_IsConsistent (fail_item error now x).0 (record db { items = after_fail })
          after_fail-IsConsistent)

  -- On a consistent table, a failure of a stored item is recorded without an exception: the item
  -- is dead exactly when its attempts are used up and stays in the table under its id, and the
  -- table stays consistent.
  pub fail_total :
      (st : WorkStatus) × (db' : Db) × (fail x.work_item_id error now db ≡ ok (st, db'))
      × ((st ≡ dead) ↔ (x.max_attempts ≤ x.attempts))
      × ((y : WorkItem) × In y db'.items × (y.work_item_id ≡ x.work_item_id) × (y.status ≡ st))
      × IsConsistent db'
  fail_total = (
    (fail_item error now x).0,
    record db { items = after_fail },
    fail-eq,
    ground arith,
    (
      (fail_item error now x).1,
      rw (==_refl x.work_item_id) at
          (update_where-In x (has_id x.work_item_id) (λ y. (fail_item error now y).1) db.items m),
      ground arith,
      ground arith,
    ),
    after_fail-IsConsistent,
  )

  -- On a consistent table, an item that a claim hands out after its failure had attempts left, and
  -- its backoff has passed.
  claim-fail :
      (lease : ℕ) (locked : ℕ → Bool) (worker : String) (stages : List String) (limit now' : ℕ)
      (st : WorkStatus) (db' db'' : Db) (cs : List ClaimedWork) (c : ClaimedWork)
      → fail x.work_item_id error now db ≡ ok (st, db')
      → claim lease locked worker stages limit now' db' ≡ ok (cs, db'')
      → In c cs
      → c.work_item_id ≡ x.work_item_id
      → (x.attempts < x.max_attempts) × (now + backoff_for x.attempts ≤ now')
  unfolding lease_expired
  claim-fail lease locked worker stages limit now' st db' db'' cs c failing claiming mc same =
      let stored : db'.items ≡ after_fail =
        sym (ap (λ (r : Result (WorkStatus × Db)). items_of r) (sym fail-eq ∙ failing)) in
      let ((y, my, idy, _, fit), _) =
        claim-IsClaimable lease locked worker stages limit now' db' cs db'' c claiming mc in
      let mx =
        rw (==_refl x.work_item_id) at
          (update_where-In x (has_id x.work_item_id) (λ y. (fail_item error now y).1) db.items m) in
      let e : y ≡ (fail_item error now x).1 =
        count_unique (has_id x.work_item_id) y (fail_item error now x).1 after_fail
          (after_fail-IsConsistent.ids x.work_item_id) (rw stored at my) mx (ground arith)
          (ground arith) in
      elim (Bool-cases (is_exhausted x)) [
        | inl t ↦ absurd (ground arith)
        | inr f ↦ (ground arith, ground arith)
      ]
    where
      items_of : Result (WorkStatus × Db) → List WorkItem
      items_of (ok r) = r.1.items
      items_of (err e) = []
