-- ===== src/Orchestration/Queue/Selection.antt =====
-- The claim query of queue.py: which rows it takes, and what a claim that commits did.
use econiq_ai.Prelude.{
  ℕ, ◌≤◌, ◌≡◌, refl, Bool, true, List, [], ◌∷◌, String, leb→le, ==_refl, count, In, arith,
}
use econiq_ai.Prelude.Membership.{In-take, In-filter, any-In}
use econiq_ai.Prelude.Counting.{count_unique}
use econiq_ai.Prelude.Sorting.{In-sort, IsStrictWeak}
use econiq_ai.Orchestration.Store.{Db, WorkItem, has_id}
use econiq_ai.Orchestration.Store.Consistency.{IsConsistent, IsClosing, IsConsistent-update}
use econiq_ai.Orchestration.Queue.{
  selection, eligible, claimable_status, reclaim_expired, lease_expired, to_pending, is_among,
  runs_before,
}

-- The order of the claim query compares keys.
pub runs_before-IsStrictWeak : IsStrictWeak runs_before
runs_before-IsStrictWeak = record {
  asymmetric = λ x y h. ground arith;
  comparable = λ x y z h k. ground arith;
}

pub eligible-due :
    (locked : ℕ → Bool) (now : ℕ) (stages : List String) (x : WorkItem)
    → eligible locked now stages x ≡ true
    → (claimable_status x.status ≡ true) × (x.run_after ≤ now)
unfolding eligible
eligible-due locked now [] x h = (ground arith, leb→le _ _ (ground arith))
eligible-due locked now (s ∷ stages) x h = (ground arith, leb→le _ _ (ground arith))

module _ (locked : ℕ → Bool) (now : ℕ) (stages : List String) (limit : ℕ)
    (items : List WorkItem) where
  -- A selected row is in the table and meets the query's condition.
  pub In-selection :
      (x : WorkItem)
      → In x (selection locked now stages limit items)
      → In x items × (eligible locked now stages x ≡ true)
  unfolding selection
  In-selection x m =
      In-filter x (eligible locked now stages) items (In-sort runs_before x _ (In-take x limit _ m))

  -- With distinct ids, the rows that the update marks are the selected ones.
  pub is_among-selection :
      (x : WorkItem)
      → ((i : ℕ) → count (has_id i) items ≤ 1)
      → In x items
      → is_among (selection locked now stages limit items) x ≡ true
      → In x (selection locked now stages limit items)
  is_among-selection x ids m h =
      let (y, my, same) = any-In (has_id x.work_item_id) _ h in
      let e : x ≡ y =
        count_unique (has_id x.work_item_id) x y items (ids x.work_item_id) m (In-selection y my).0
          (==_refl x.work_item_id) same in
      rw e my

reclaim-IsClosing : (lease now : ℕ) (db : Db) → IsClosing (lease_expired lease now) to_pending db
unfolding lease_expired
reclaim-IsClosing lease now db = record {
  id = λ x. refl;
  key = λ x. refl;
  like = λ x. (refl, refl, refl, refl);
  worker = λ x e. refl;
  closes = λ x m t o. ground arith;
}

pub reclaim-IsConsistent :
    (lease now : ℕ) (db : Db)
    → IsConsistent db
    → IsConsistent (record db { items = reclaim_expired lease now db.items })
unfolding reclaim_expired
reclaim-IsConsistent lease now db =
    IsConsistent-update (lease_expired lease now) to_pending db (reclaim-IsClosing lease now db)
