-- ===== src/Orchestration/Queue/Contract/Run.antt =====
-- queue.py keeps its contract over every sequence of calls.
use econiq_ai.Prelude.Membership.{all-In, In-append_right}
use econiq_ai.Prelude.{
  ℕ, ◌≡◌, refl, sym, ap, ◌∙◌, true, false, inl, inr, none, List, [], ◌∷◌, ◌++◌, String, ◌||◌, not,
  filter, any, find, update_where, length, str_eq, ==_refl, arith, Bool-cases, Option-cases,
}
use econiq_ai.Prelude.Counting.{count-append, length-filter}
use econiq_ai.Orchestration.Store.{
  WorkItem, Db, is_open, holds_key, has_id, allowed, commit, succeeded, row_fits,
}
use econiq_ai.Orchestration.Store.Consistency.{
  IsConsistent, IsConsistent-allowed, IsConsistent-update, commit_of_IsConsistent, FitsLike,
}
use econiq_ai.Orchestration.Queue.Dedup.{held_cases, enqueue_new, enqueue_held}
use econiq_ai.Orchestration.Queue.{
  new_item, enqueue_with, enqueue, change_item, finish, finish_item, fail_item, succeed, fail,
}
use econiq_ai.Orchestration.Work.{Request}
use econiq_ai.Orchestration.Queue.Contract.{
  Contract, view, submit, release, after, Operation, enqueues, succeeds, fails, perform, expect,
  run, replay, any-busy, any-used, any_fails, any_holds, view-append, acceptable,
  acceptable-row_fits, used-update, busy-update, unknown,
}

same_contract : (c d : Contract) → c.used ≡ d.used → c.busy ≡ d.busy → c.known ≡ d.known → c ≡ d
same_contract c d p q r = λ i. record { used = p i; busy = q i; known = r i }

-- What a call keeps, and what it shows of the table.
abbrev Meets : Contract → Db → Type 0
Meets c db = IsConsistent db × (view db ≡ c)

module _ {A : Type 0} (id : ℕ) (f : WorkItem → A × WorkItem)
    (same : (x : WorkItem) → (f x).1.work_item_id ≡ x.work_item_id)
    (key : (x : WorkItem) → (f x).1.idempotency_key ≡ x.idempotency_key)
    (like : (x : WorkItem) → FitsLike (f x).1 x)
    (freed : (x : WorkItem) → (f x).1.claimed_by ≡ none)
    (closed : (x : WorkItem) → is_open (f x).1.status ≡ false) where
  change_item-Meets :
      (db : Db) → IsConsistent db → Meets (release id (view db)) (after (change_item id f db) db)
  unfolding change_item after release view
  change_item-Meets db h = elim (Option-cases (find (has_id id) db.items)) [
    | inl e ↦
        rw (change_item, e)
          (
            h,
            same_contract (view db) (release id (view db)) refl (sym (unknown id db.items e)) refl,
          )
    | inr (item, e) ↦
        let g = λ (x : WorkItem). (f x).1 in
        let changed = record db { items = update_where (has_id id) g db.items } in
        let kept =
          IsConsistent-update (has_id id) g db
            (record {
              id = same;
              key = key;
              like = like;
              worker = λ x o. rw (freed x) refl;
              closes = λ x m s o. absurd (let z = sym (closed x) ∙ o in cc);
            })
            h in
        rw (change_item, e, commit_of_IsConsistent (f item).0 changed kept)
          (
            kept,
            same_contract (view changed) (release id (view db))
                (used-update id g same closed db.items) (busy-update id g same closed db.items)
                refl,
          )
  ]

refused :
    (id now : ℕ) (r : Request) (db : Db)
    → IsConsistent db
    → any (has_id id) db.items || not (acceptable (view db).known r) ≡ true
    → allowed (record db { items = db.items ++ (new_item id now r ∷ []) }) ≡ false
refused id now r db h t =
    elim (Bool-cases (allowed (record db { items = db.items ++ (new_item id now r ∷ []) }))) [
      | inr e ↦ e
      | inl e ↦
          let c =
            IsConsistent-allowed (record db { items = db.items ++ (new_item id now r ∷ []) }) e in
          elim (Bool-cases (any (has_id id) db.items)) [
            | inl u ↦ absurd (
                ground (
                  arith,
                  c.ids id,
                  count-append (has_id id) db.items (new_item id now r ∷ []),
                  any_holds (has_id id) db.items u,
                  ==_refl id,
                ))
            | inr u ↦ absurd (
                ground (
                  arith,
                  acceptable-row_fits id now r db,
                  all-In (new_item id now r) (row_fits db.events)
                      (db.items ++ (new_item id now r ∷ [])) c.rows
                      (In-append_right (new_item id now r) db.items (new_item id now r ∷ [])
                        (inl refl)),
                ))
          ]
    ]

submit_busy :
    (id : ℕ) (r : Request) (db : Db)
    → any (holds_key r.idempotency_key) db.items ≡ true
    → submit id r (view db) ≡ view db
unfolding submit view
submit_busy id r db t = rw (submit, any-busy r.idempotency_key db.items, t) refl

submit_refused :
    (id : ℕ) (r : Request) (db : Db)
    → any (has_id id) db.items || not (acceptable (view db).known r) ≡ true
    → submit id r (view db) ≡ view db
unfolding submit view
submit_refused id r db t =
    elim (Bool-cases (any (λ (e : ℕ × String). str_eq e.1 r.idempotency_key) (view db).busy)) [
      | inl b ↦ rw (submit, b) refl
      | inr b ↦ rw (submit, b, any-used id db.items, t) refl
    ]

submit_taken :
    (id : ℕ) (r : Request) (db : Db)
    → any (holds_key r.idempotency_key) db.items ≡ false
    → any (has_id id) db.items || not (acceptable (view db).known r) ≡ false
    → submit id r (view db) ≡ record (view db) {
      used = (view db).used ++ (id ∷ []);
      busy = (view db).busy ++ ((id, r.idempotency_key) ∷ []);
    }
unfolding submit view
submit_taken id r db b t =
    rw (submit, any-busy r.idempotency_key db.items, b, any-used id db.items, t) refl

enqueue-refused :
    (id now : ℕ) (r : Request) (db : Db)
    → filter (holds_key r.idempotency_key) db.items ≡ []
    → allowed (record db { items = db.items ++ (new_item id now r ∷ []) }) ≡ false
    → after (enqueue id now r db) db ≡ db
unfolding enqueue enqueue_with commit after
enqueue-refused id now r db f a = rw (enqueue, f, enqueue_with, commit, a) refl

-- A free key: the request is taken or refused.
enqueue_free :
    (id now : ℕ) (r : Request) (db : Db)
    → IsConsistent db
    → any (holds_key r.idempotency_key) db.items ≡ false
    → Meets (submit id r (view db)) (after (enqueue id now r db) db)
unfolding after
enqueue_free id now r db h b =
    let (f, n) = any_fails (holds_key r.idempotency_key) db.items b in
    elim (Bool-cases (any (has_id id) db.items || not (acceptable (view db).known r))) [
      | inl t ↦
          rw (enqueue-refused id now r db f (refused id now r db h t))
            (h, sym (submit_refused id r db t))
      | inr t ↦
          let unused = (any_fails (has_id id) db.items (ground arith)).1 in
          let (e, kept) =
            enqueue_new id now r db f h unused (ground (arith, acceptable-row_fits id now r db)) in
          rw e (kept, view-append db id now r ∙ sym (submit_taken id r db b t))
    ]

enqueue-Meets :
    (id now : ℕ) (r : Request) (db : Db)
    → IsConsistent db
    → Meets (submit id r (view db)) (after (enqueue id now r db) db)
unfolding after
enqueue-Meets id now r db h = elim (Bool-cases (any (holds_key r.idempotency_key) db.items)) [
  | inr b ↦ enqueue_free id now r db h b
  | inl b ↦ elim (held_cases r.idempotency_key db.items (h.open_keys _)) [
    | inl n ↦ absurd (
        omega (
          arith,
          any_holds (holds_key r.idempotency_key) db.items b,
          length-filter (holds_key r.idempotency_key) db.items,
          ap length n,
        ))
    | inr (x, held) ↦ rw (enqueue_held id now r db x held) (h, sym (submit_busy id r db b))
  ]
]

-- The outcomes of a failure are all closed.
fail_item-closed :
    (error : String) (now : ℕ) (x : WorkItem) → is_open (fail_item error now x).1.status ≡ false
fail_item-closed error now x = ground arith

perform-Meets :
    (op : Operation) (db : Db) → IsConsistent db → Meets (expect op (view db)) (perform op db)
unfolding perform expect succeed fail finish
perform-Meets (enqueues id now r) db h = enqueue-Meets id now r db h
perform-Meets (succeeds id now) db h =
    change_item-Meets id (λ x. (tt, finish_item succeeded now x)) (λ x. refl) (λ x. refl)
      (λ x. (refl, refl, refl, refl)) (λ x. refl) (λ x. refl) db h
perform-Meets (fails id error now) db h =
    change_item-Meets id (fail_item error now) (λ x. ground arith) (λ x. ground arith)
      (λ x. (ground arith, ground arith, ground arith, ground arith)) (λ x. ground arith)
      (fail_item-closed error now) db h

-- From consistent tables, over every sequence of calls that add work and that make items succeed
-- or fail, where a call that raises is rolled back, the tables stay consistent and show what the
-- contract says: a request is taken exactly if its key is free, its id is new, it may be tried,
-- its stage, key and trigger fit their columns and the event that it names, if any, is known; and
-- an item that succeeds or fails frees its key.
pub run_refines :
    (ops : List Operation) (db : Db)
    → IsConsistent db
    → IsConsistent (run ops db) × (view (run ops db) ≡ replay ops (view db))
unfolding run replay
run_refines [] db h = (h, refl)
run_refines (op ∷ ops) db h =
    let (kept, shown) = perform-Meets op db h in
    let (k, s) = run_refines ops (perform op db) kept in (k, s ∙ ap (replay ops) shown)
