-- ===== src/Orchestration/Examples.antt =====
-- The theorems about the queue at concrete tables.
mod Running
use econiq_ai.Prelude.{
  ℕ, suc, String, ◌≡◌, refl, sym, ap, inl, inr, ◌⊎◌, ◌≢◌, ◌↔◌, Bool, true, false, Option, none,
  some, List, [], ◌∷◌, ◌++◌, Result, ok, err, integrity_error, ◌+◌, ◌≤◌, ◌<◌, arith, In, count,
  if◌then◌else◌,
}
use econiq_ai.Prelude.Sorting.{sort_by}
use econiq_ai.Orchestration.Samples.{
  an_item, first_item, second_item, failed_item, db_of, a_request, unlocked,
}
use econiq_ai.Orchestration.Store.{
  WorkItem, WorkStatus, pending, running, failed, dead, Db, allowed, fits, commit, has_id,
  holds_key, is_open,
}
use econiq_ai.Orchestration.Store.Consistency.{IsConsistent, IsConsistent-allowed}
use econiq_ai.Orchestration.Queue.{
  enqueue, new_item, claim, claimed_work, mark_claimed, reclaim_expired, lease_expired, selection,
  eligible, runs_before, fail, fail_item, supersede, depth,
}
use econiq_ai.Orchestration.Work.{Request, Enqueued, ClaimedWork, backoff_for}
use econiq_ai.Orchestration.Queue.Dedup.{enqueue_idempotent}
use econiq_ai.Orchestration.Queue.Contract.{view, Operation, enqueues, succeeds, fails, run, replay}
use econiq_ai.Orchestration.Queue.Contract.Run.{run_refines}
use econiq_ai.Orchestration.Queue.Claim.{IsUnshadowed, live_key, claim_total, rows, candidates}
use econiq_ai.Orchestration.Queue.Handout.{IsClaimable, IsHeld, claim-IsClaimable, claim_ordered}
use econiq_ai.Orchestration.Queue.Retry.{claim_exclusive, fail_total}
use econiq_ai.Orchestration.Queue.Conflict.{
  claim_shadowed, enqueue_over_failed, crash_loop, crash_loop-attempts,
}

two_items-IsConsistent : IsConsistent (db_of (first_item ∷ second_item ∷ []))
unfolding allowed fits
two_items-IsConsistent = IsConsistent-allowed _ refl

enqueue_idempotent_example :
    enqueue 10 101 a_request (db_of (second_item ∷ new_item 9 100 a_request ∷ []))
    ≡ ok (
      record { work_item_id = 9; created = false },
      db_of (second_item ∷ new_item 9 100 a_request ∷ []),
    )
unfolding allowed fits enqueue commit
enqueue_idempotent_example =
    enqueue_idempotent 9 100 10 101 a_request a_request (db_of (second_item ∷ []))
      (db_of (second_item ∷ new_item 9 100 a_request ∷ []))
      (record { work_item_id = 9; created = true }) (IsConsistent-allowed _ refl) refl refl

first_alone-IsUnshadowed : IsUnshadowed (first_item ∷ [])
first_alone-IsUnshadowed = record { live_keys = λ k. ground arith }

claim_total_example :
    (cs : List ClaimedWork) × (db' : Db) × (claim 900 unlocked "w1" [] 1 100
        (db_of (first_item ∷ []))
      ≡ ok (cs, db'))
    × IsConsistent db'
    × IsUnshadowed db'.items
unfolding allowed fits
claim_total_example =
    claim_total 900 unlocked "w1" [] 1 100 (db_of (first_item ∷ [])) (IsConsistent-allowed _ refl)
      first_alone-IsUnshadowed refl

abbrev first_held : WorkItem
first_held = mark_claimed "w1" 100 first_item

abbrev second_held : WorkItem
second_held = mark_claimed "w2" 200 second_item

first_claim :
    claim 900 unlocked "w1" [] 1 100 (db_of (first_item ∷ second_item ∷ []))
    ≡ ok (claimed_work first_held ∷ [], db_of (first_held ∷ second_item ∷ []))
unfolding claim commit allowed fits reclaim_expired lease_expired selection eligible sort_by
first_claim = refl

second_claim :
    claim 900 unlocked "w2" [] 1 200 (db_of (first_held ∷ second_item ∷ []))
    ≡ ok (claimed_work second_held ∷ [], db_of (first_held ∷ second_held ∷ []))
unfolding claim commit allowed fits reclaim_expired lease_expired selection eligible sort_by
second_claim = refl

claim-IsClaimable_example :
    ((x : WorkItem) × In x (first_item ∷ second_item ∷ [])
      × (x.work_item_id ≡ 1)
      × (1 ≡ x.attempts + 1)
      × IsClaimable 900 100 x)
    × ((y : WorkItem) × In y (first_held ∷ second_item ∷ [])
        × (y.work_item_id ≡ 1)
        × (y.attempts ≡ 1)
        × IsHeld "w1" 100 y)
claim-IsClaimable_example =
    claim-IsClaimable 900 unlocked "w1" [] 1 100 (db_of (first_item ∷ second_item ∷ []))
      (claimed_work first_held ∷ []) (db_of (first_held ∷ second_item ∷ []))
      (claimed_work first_held) first_claim (inl refl)

claim_ordered_example : runs_before second_item first_held ≡ false
unfolding eligible
claim_ordered_example =
    claim_ordered 900 unlocked "w1" [] 1 100 (db_of (first_item ∷ second_item ∷ []))
      (claimed_work first_held ∷ []) (db_of (first_held ∷ second_item ∷ [])) first_held second_item
      two_items-IsConsistent first_claim (inl refl) refl (inr (inl refl)) refl

claim_exclusive_example : ◌≢◌ {A = ℕ} 1 2
claim_exclusive_example =
    claim_exclusive 900 unlocked unlocked "w1" "w2" [] [] 1 1 100 200
      (db_of (first_item ∷ second_item ∷ [])) (db_of (first_held ∷ second_item ∷ []))
      (db_of (first_held ∷ second_held ∷ [])) (claimed_work first_held ∷ [])
      (claimed_work second_held ∷ []) (claimed_work first_held) (claimed_work second_held)
      first_claim second_claim (omega arith) (inl refl) (inl refl)

first_held-IsConsistent : IsConsistent (db_of (first_held ∷ second_item ∷ []))
unfolding allowed fits
first_held-IsConsistent = IsConsistent-allowed _ refl

fail_total_example :
    (st : WorkStatus) × (db' : Db) × (fail 1 "boom" 150 (db_of (first_held ∷ second_item ∷ []))
      ≡ ok (st, db'))
    × ((st ≡ dead) ↔ (3 ≤ 1))
    × ((y : WorkItem) × In y db'.items × (y.work_item_id ≡ 1) × (y.status ≡ st))
    × IsConsistent db'
fail_total_example =
    fail_total "boom" 150 (db_of (first_held ∷ second_item ∷ [])) first_held first_held-IsConsistent
      (inl refl)

abbrev first_failed : WorkItem
first_failed = (fail_item "boom" 150 first_held).1

abbrev first_again : WorkItem
first_again = mark_claimed "w2" 300 first_failed

failing :
    fail 1 "boom" 150 (db_of (first_held ∷ second_item ∷ []))
    ≡ ok (failed, db_of (first_failed ∷ second_item ∷ []))
unfolding fail commit allowed fits
failing = refl

claiming_again :
    claim 900 unlocked "w2" [] 2 300 (db_of (first_failed ∷ second_item ∷ []))
    ≡ ok (
      claimed_work (mark_claimed "w2" 300 second_item) ∷ claimed_work first_again ∷ [],
      db_of (first_again ∷ mark_claimed "w2" 300 second_item ∷ []),
    )
unfolding claim commit allowed fits reclaim_expired lease_expired selection eligible sort_by fail
claiming_again = refl

-- A failed item and a newer pending one with its key.
abbrev shadowed : List WorkItem
shadowed = failed_item ∷ first_item ∷ []

claim_shadowed_example : claim 900 unlocked "w1" [] 1 100 (db_of shadowed) ≡ err integrity_error
unfolding reclaim_expired lease_expired selection eligible sort_by
claim_shadowed_example =
    claim_shadowed 900 unlocked "w1" [] 1 100 (db_of shadowed) failed_item first_item (inl refl)
      (inr (inl refl)) (omega arith) refl refl

enqueue_over_failed_example :
    (◌≡◌ {A = Bool} true true)
    × (2 ≤ count (live_key "estimate_state:1") (failed_item ∷ new_item 9 100 a_request ∷ []))
    × (count (live_key "estimate_state:1") (failed_item ∷ new_item 9 100 a_request ∷ [])
        ≡ suc (count (live_key "estimate_state:1") (failed_item ∷ [])))
    × In failed_item (failed_item ∷ new_item 9 100 a_request ∷ [])
unfolding enqueue commit allowed fits
enqueue_over_failed_example =
    enqueue_over_failed 9 100 a_request (db_of (failed_item ∷ []))
      (db_of (failed_item ∷ new_item 9 100 a_request ∷ []))
      (record { work_item_id = 9; created = true }) failed_item (inl refl) refl refl refl refl

crash_loop-attempts_example :
    (y : WorkItem) × (db' : Db) × (crash_loop 5 900 "w1" 1100 (db_of (first_held ∷ [])) ≡ ok db')
    × (db'.items ≡ y ∷ [])
    × (y.attempts ≡ 1 + 5)
    × (y.status ≡ running)
    × (y.max_attempts ≡ 3)
unfolding allowed fits
crash_loop-attempts_example =
    crash_loop-attempts 5 900 1100 100 "w1" first_held (db_of (first_held ∷ [])) refl refl refl
      (omega arith) (omega arith) (IsConsistent-allowed _ refl) refl

-- The same key is added twice, its item succeeds, another one fails, and the key is added again.
abbrev calls : List Operation
calls =
    enqueues 7 100 a_request
    ∷ enqueues 8 101 a_request
    ∷ succeeds 7 102
    ∷ fails 2 "down" 103
    ∷ enqueues 9 104 a_request
    ∷ []

run_refines_example :
    IsConsistent (run calls (db_of (first_item ∷ second_item ∷ [])))
    × (view (run calls (db_of (first_item ∷ second_item ∷ [])))
        ≡ replay calls (view (db_of (first_item ∷ second_item ∷ []))))
run_refines_example =
    run_refines calls (db_of (first_item ∷ second_item ∷ [])) two_items-IsConsistent
