-- ===== src/Orchestration/Queue/Handout.antt =====
-- Which items `claim` of queue.py hands out, in which order, and to how many workers at a time.
use econiq_ai.Prelude.{
  ℕ, ◌+◌, ◌≤◌, ◌≡◌, refl, sym, ap, ◌∙◌, Bool, true, false, inl, inr, ◌⊎◌, List, String, some, ok,
  ◌==◌, ==_refl, Bool-cases, filter, drop, any, In, arith,
}
use econiq_ai.Prelude.Membership.{
  In-take_or_drop, filter-In, map-In, any-In, any_of_In, In-update_where, update_where-In,
}
use econiq_ai.Prelude.Counting.{count_unique}
use econiq_ai.Prelude.Sorting.{sort_by, sort-In, sort-IsSorted, take-IsSorted}
use econiq_ai.Orchestration.Store.{WorkItem, running, Db, has_id}
use econiq_ai.Orchestration.Store.Consistency.{IsConsistent}
use econiq_ai.Orchestration.Queue.{
  claim, claimed_work, mark_claimed, selection, eligible, claimable_status, reclaim_expired,
  lease_expired, to_pending, is_among, runs_before,
}
use econiq_ai.Orchestration.Work.{ClaimedWork}
use econiq_ai.Orchestration.Queue.Selection.{runs_before-IsStrictWeak, eligible-due, In-selection}
use econiq_ai.Orchestration.Queue.Claim.{candidates, rows, marked, claim-eq-ok}

-- An item that the claim query may take: waiting and due, or held past its lease.
abbrev pub IsClaimable : ℕ → ℕ → WorkItem → Type 0
IsClaimable lease now x =
    (x.run_after ≤ now) × ((claimable_status x.status ≡ true) ⊎ (lease_expired lease now x ≡ true))

-- The item as `claim` leaves it in the table.
abbrev pub IsHeld : String → ℕ → WorkItem → Type 0
IsHeld worker now y =
    (y.status ≡ running) × (y.claimed_at ≡ some now) × (y.claimed_by ≡ some worker)

module _ (lease : ℕ) (locked : ℕ → Bool) (worker : String) (stages : List String) (limit now : ℕ)
    (db : Db) where
  abbrev here_rows : List WorkItem
  here_rows = rows lease locked worker stages limit now db

  candidate-origin :
      (x : WorkItem)
      → In x (candidates lease locked worker stages limit now db)
      → eligible locked now stages x ≡ true
      → (y : WorkItem) × In y db.items
        × (y.work_item_id ≡ x.work_item_id)
        × (y.attempts ≡ x.attempts)
        × IsClaimable lease now y
  unfolding reclaim_expired
  candidate-origin x m h =
      let (y, my, e) = In-update_where x (lease_expired lease now) to_pending db.items m in
      let due = eligible-due locked now stages x h in
      elim (Bool-cases (lease_expired lease now y)) [
        | inl t ↦ (y, my, ground arith, ground arith, (ground arith, inr t))
        | inr f ↦ (y, my, ground arith, ground arith, (ground arith, inl (ground arith)))
      ]

  -- Every piece of work that a claim returns is an item that was due and waiting or past its
  -- lease, with one attempt more, and the item is left running in the name of the worker.
  pub claim-IsClaimable :
      (cs : List ClaimedWork) (db' : Db) (c : ClaimedWork)
      → claim lease locked worker stages limit now db ≡ ok (cs, db')
      → In c cs
      → ((x : WorkItem) × In x db.items
          × (x.work_item_id ≡ c.work_item_id)
          × (c.attempts ≡ x.attempts + 1)
          × IsClaimable lease now x)
        × ((y : WorkItem) × In y db'.items
            × (y.work_item_id ≡ c.work_item_id)
            × (y.attempts ≡ c.attempts)
            × IsHeld worker now y)
  claim-IsClaimable cs db' c h m =
      let (ecs, edb, _) = claim-eq-ok lease locked worker stages limit now db h in
      let (x, mx, ec) =
        map-In (λ x. claimed_work (mark_claimed worker now x)) c here_rows (rw (ecs) at m) in
      let (inside, good) = In-selection locked now stages limit _ x mx in
      let (y, my, same, tries, fit) = candidate-origin x inside good in
      let chosen : is_among here_rows x ≡ true =
        any_of_In x (has_id x.work_item_id) here_rows mx (==_refl x.work_item_id) in
      (
        (
          y,
          my,
          same ∙ sym (ap (λ (d : ClaimedWork). d.work_item_id) ec),
          ap (λ (d : ClaimedWork). d.attempts) ec ∙ ap (λ n. n + 1) (sym tries),
          fit,
        ),
        (
          mark_claimed worker now x,
          rw (ap (λ (d : Db). d.items) edb) (
              rw chosen at
                (update_where-In x (is_among here_rows) (mark_claimed worker now) _ inside)),
          sym (ap (λ (d : ClaimedWork). d.work_item_id) ec),
          sym (ap (λ (d : ClaimedWork). d.attempts) ec),
          (refl, refl, refl),
        ),
      )

  -- An item that stays claimable has no claim on it and runs after none of those handed out.
  left_over :
      (y : WorkItem)
      → In y (marked lease locked worker stages limit now db)
      → eligible locked now stages y ≡ true
      → In y (
          drop limit (
            sort_by runs_before (
              filter
                (eligible locked now stages)
                (candidates lease locked worker stages limit now db))))
  unfolding selection
  left_over y m good =
      let sorted = sort_by runs_before (
        filter (eligible locked now stages) (candidates lease locked worker stages limit now db)) in
      let (z, mz, e) = In-update_where y (is_among here_rows) (mark_claimed worker now) _ m in
      elim (Bool-cases (is_among here_rows z)) [
        | inl t ↦ absurd (ground (arith, eligible-due locked now stages y good))
        | inr f ↦
            let same : y ≡ z = rw f at e in
            let inside =
              sort-In runs_before z _
                (filter-In z (eligible locked now stages) _ mz (rw same at good)) in
            elim (In-take_or_drop z limit sorted inside) [
              | inl kept ↦ absurd (
                  ground (
                    arith,
                    any_of_In z (has_id z.work_item_id) here_rows kept (==_refl z.work_item_id),
                  ))
              | inr cut ↦ rw same cut
            ]
      ]

  -- On a consistent table, no item that a claim leaves claimable comes before one that it hands
  -- out, by priority and then by due time.
  pub claim_ordered :
      (cs : List ClaimedWork) (db' : Db) (x y : WorkItem)
      → IsConsistent db
      → claim lease locked worker stages limit now db ≡ ok (cs, db')
      → In x db'.items
      → any (λ c. c.work_item_id == x.work_item_id) cs ≡ true
      → In y db'.items
      → eligible locked now stages y ≡ true
      → runs_before y x ≡ false
  unfolding selection
  claim_ordered cs db' x y consistent h mx named my good =
      let (ecs, edb, after) = claim-eq-ok lease locked worker stages limit now db h in
      let mx' = rw (ap (λ (d : Db). d.items) edb) at mx in
      let cut = left_over y (rw (ap (λ (d : Db). d.items) edb) at my) good in
      let (c, mc, same) = any-In (λ (c : ClaimedWork). c.work_item_id == x.work_item_id) cs named in
      let (r, mr, ec) =
        map-In (λ x. claimed_work (mark_claimed worker now x)) c here_rows (rw (ecs) at mc) in
      let (inside, _) = In-selection locked now stages limit _ r mr in
      let chosen : is_among here_rows r ≡ true =
        any_of_In r (has_id r.work_item_id) here_rows mr (==_refl r.work_item_id) in
      let stored =
        rw chosen at (update_where-In r (is_among here_rows) (mark_claimed worker now) _ inside) in
      let e : x ≡ mark_claimed worker now r =
        count_unique (has_id x.work_item_id) x (mark_claimed worker now r) _ (after.ids _) mx'
          stored (==_refl x.work_item_id) (ground (arith, ec)) in
      let order =
        take-IsSorted runs_before runs_before-IsStrictWeak limit r y _
          (sort-IsSorted runs_before runs_before-IsStrictWeak _) mr cut in
      rw e order
