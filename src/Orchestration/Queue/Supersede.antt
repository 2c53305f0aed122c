-- ===== src/Orchestration/Queue/Supersede.antt =====
-- `WorkQueue.supersede` of queue.py, with `depth`.
use econiq_ai.Prelude.{
  ℕ, ◌+◌, ◌≤◌, ◌≡◌, refl, Bool, true, false, ◌&&◌, some, List, [], ◌∷◌, String, ok, count,
  update_where, arith, Bool-cases, inl, inr,
}
use econiq_ai.Prelude.Counting.{count_mono}
use econiq_ai.Orchestration.Store.{WorkItem, superseded, pending, Db, holds_key}
use econiq_ai.Orchestration.Store.Consistency.{
  IsConsistent, IsConsistent-update, commit_of_IsConsistent,
}
use econiq_ai.Orchestration.Queue.{redundant, supersede, depth, in_stage}
use econiq_ai.Orchestration.Work.{status_is}

-- An update that takes its rows out of a count.
count-taken :
    (p q : WorkItem → Bool) (f : WorkItem → WorkItem) (xs : List WorkItem)
    → ((x : WorkItem) → q x ≡ true → p x ≡ true)
    → ((x : WorkItem) → q x ≡ true → p (f x) ≡ false)
    → count p (update_where q f xs) + count q xs ≡ count p xs
count-taken p q f [] inside out = refl
count-taken p q f (x ∷ xs) inside out = elim (Bool-cases (q x)) [
  | inl t ↦ ground (arith, inside x t, out x t, count-taken p q f xs inside out)
  | inr t ↦ ground (arith, count-taken p q f xs inside out)
]

module _ (stage key : String) (now : ℕ) (db : Db) (consistent : IsConsistent db) where
  abbrev close : WorkItem → WorkItem
  close x = record x { status = superseded; finished_at = some now }

  after_supersede-IsConsistent :
      IsConsistent (record db { items = update_where (redundant stage key) close db.items })
  after_supersede-IsConsistent =
      IsConsistent-update (redundant stage key) close db
        (record {
          id = λ x. refl;
          key = λ x. refl;
          like = λ x. (refl, refl, refl, refl);
          worker = λ x e. e;
          closes = λ x m t o. cc;
        })
        consistent

  -- On a consistent table, supersede raises nothing and keeps the table consistent; it closes one
  -- item at most, and the pending depth of the stage goes down by the number that it returns.
  supersede_total :
      (n : ℕ) × (db' : Db) × (supersede stage key now db ≡ ok (n, db'))
      × IsConsistent db'
      × (n ≤ 1)
      × ((depth (some stage) db').pending + n ≡ (depth (some stage) db).pending)
  unfolding supersede depth
  supersede_total = (
    count (redundant stage key) db.items,
    record db { items = update_where (redundant stage key) close db.items },
    commit_of_IsConsistent (count (redundant stage key) db.items)
        (record db { items = update_where (redundant stage key) close db.items })
        after_supersede-IsConsistent,
    after_supersede-IsConsistent,
    omega (
      arith,
      consistent.open_keys key,
      count_mono (redundant stage key) (holds_key key) db.items (λ x e. ground arith),
    ),
    count-taken (λ x. in_stage (some stage) x && status_is x.status pending) (redundant stage key)
        close db.items (λ x e. ground arith) (λ x e. ground arith),
  )
