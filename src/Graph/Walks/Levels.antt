-- ===== src/Graph/Walks/Levels.antt =====
-- The rows of a recursive query are the routes up to its depth.
use econiq_ai.Prelude.{
  ℕ, zero, suc, ◌+◌, ◌≤◌, ◌<◌, ◌≡◌, ◌↔◌, refl, sym, subst, inl, inr, true, false, List, [], ◌∷◌,
  ◌==◌, ==_iff, arith, Bool-cases, In, map, filter,
}
use econiq_ai.Prelude.Membership.{
  In-append, In-append_left, In-append_right, In-filter, filter-In, In-map, map-In, any-In,
  any_of_In,
}
use econiq_ai.Graph.Walks.{
  Hop, WalkRow, is_among, first_row, next_row, first_rows, may_follow, next_rows, walk_from, walk,
}
use econiq_ai.Graph.Walks.Routes.{Route, start, next}

pub is_among-In : (x : ℕ) (xs : List ℕ) → is_among xs x ≡ true → In x xs
is_among-In x xs h =
    let (y, m, e) = any-In (λ y. y == x) xs h in subst (λ z. In z xs) ((==_iff y x).0 e) m

pub In-is_among : (x : ℕ) (xs : List ℕ) → In x xs → is_among xs x ≡ true
In-is_among x xs m = any_of_In x (λ y. y == x) xs m ((==_iff x x).1 refl)

not_among : (x : ℕ) (xs : List ℕ) → ¬ In x xs → is_among xs x ≡ false
not_among x xs n = elim (Bool-cases (is_among xs x)) [
  | inl e ↦ absurd (n (is_among-In x xs e))
  | inr e ↦ e
]

module _ (visited : List ℕ → List ℕ) (hops : List Hop) (seeds : List ℕ) where
  pub may_follow_iff :
      (row : WalkRow) (hop : Hop)
      → (may_follow visited hops row hop ≡ true)
        ↔ ((hop.from_id ≡ row.node_id) × ¬ In hop.to_id (visited row.path))
  unfolding may_follow
  may_follow_iff row hop = (
    λ t. (
      (==_iff hop.from_id row.node_id).0 (ground arith),
      λ m. let seen = In-is_among hop.to_id (visited row.path) m in absurd (ground (arith, seen)),
    ),
    λ (e, fresh).
        let a = (==_iff hop.from_id row.node_id).1 e in
        let b = not_among hop.to_id (visited row.path) fresh in ground (arith, a, b),
  )

  -- Routes of one length.
  abbrev AreRoutes : ℕ → List WalkRow → Type 0
  AreRoutes length rows =
      (row : WalkRow) → In row rows → Route visited hops seeds row × (row.depth ≡ length)

  first_rows-AreRoutes : AreRoutes 1 (first_rows seeds hops)
  unfolding first_rows first_row
  first_rows-AreRoutes row m =
      let leaves = λ (h : Hop). is_among seeds h.from_id in
      let (hop, i, e) = map-In first_row row (filter leaves hops) m in
      let (j, t) = In-filter hop leaves hops i in
      subst (λ r. Route visited hops seeds r × (r.depth ≡ 1)) (sym e)
        (start hop j (is_among-In hop.from_id seeds t), refl)

  next_rows-AreRoutes :
      (length : ℕ) (rows : List WalkRow)
      → AreRoutes length rows
      → AreRoutes (suc length) (next_rows visited hops rows)
  unfolding next_rows next_row
  next_rows-AreRoutes length [] h row m = elim m [ ]
  next_rows-AreRoutes length (before ∷ rows) h row m =
      let follows = may_follow visited hops before in
      elim (In-append row (map (next_row before) (filter follows hops))
        (next_rows visited hops rows) m) [
          | inl i ↦
              let (hop, j, e) = map-In (next_row before) row (filter follows hops) i in
              let (k, t) = In-filter hop follows hops j in
              let (joins, fresh) = (may_follow_iff before hop).0 t in
              let (r, d) = h before (inl refl) in
              subst (λ r. Route visited hops seeds r × (r.depth ≡ suc length)) (sym e)
                (next hop r k joins fresh, omega arith)
          | inr i ↦ next_rows-AreRoutes length rows (λ r j. h r (inr j)) row i
        ]

  walk_from_sound :
      (levels length : ℕ) (level : List WalkRow) (row : WalkRow)
      → AreRoutes length level
      → In row (walk_from visited hops levels level)
      → Route visited hops seeds row × (row.depth < length + levels)
  unfolding walk_from
  walk_from_sound zero length level row h m = elim m [ ]
  walk_from_sound (suc levels) length level row h m =
      elim (In-append row level (walk_from visited hops levels (next_rows visited hops level)) m) [
        | inl i ↦ let (r, d) = h row i in (r, omega arith)
        | inr i ↦
            let (r, d) =
              walk_from_sound levels (suc length) (next_rows visited hops level) row
                (next_rows-AreRoutes length level h) i in
            (r, omega arith)
      ]

  -- The rows of one length.
  level_of : ℕ → List WalkRow
  level_of zero = first_rows seeds hops
  level_of (suc n) = next_rows visited hops (level_of n)

  next_rows-complete :
      (rows : List WalkRow) (row : WalkRow) (hop : Hop)
      → In row rows
      → In hop hops
      → may_follow visited hops row hop ≡ true
      → In (next_row row hop) (next_rows visited hops rows)
  unfolding next_rows
  next_rows-complete [] row hop m i t = elim m [ ]
  next_rows-complete (before ∷ rows) row hop (inl e) i t =
      let follows = may_follow visited hops before in
      In-append_left (next_row row hop) (map (next_row before) (filter follows hops))
        (next_rows visited hops rows)
        (subst
          (λ b. In (next_row row hop) (map (next_row b) (filter (may_follow visited hops b) hops)))
          e
          (In-map hop (next_row row) (filter (may_follow visited hops row) hops)
            (filter-In hop (may_follow visited hops row) hops i t)))
  next_rows-complete (before ∷ rows) row hop (inr m) i t =
      In-append_right (next_row row hop)
        (map (next_row before) (filter (may_follow visited hops before) hops))
        (next_rows visited hops rows) (next_rows-complete rows row hop m i t)

  Route-level :
      (row : WalkRow)
      → Route visited hops seeds row
      → (n : ℕ) × (row.depth ≡ suc n) × In row (level_of n)
  unfolding level_of first_rows next_row first_row
  Route-level _ (start hop i m) =
      let leaves = λ (h : Hop). is_among seeds h.from_id in
      (
        0,
        refl,
        In-map hop first_row (filter leaves hops)
            (filter-In hop leaves hops i (In-is_among hop.from_id seeds m)),
      )
  Route-level _ (next {row} hop r i e fresh) =
      let (n, d, m) = Route-level row r in
      (
        suc n,
        omega arith,
        next_rows-complete (level_of n) row hop m i ((may_follow_iff row hop).1 (e, fresh)),
      )

  level-walk_from :
      (levels skip n : ℕ) (row : WalkRow)
      → In row (level_of (skip + n))
      → n < levels
      → In row (walk_from visited hops levels (level_of skip))
  unfolding walk_from level_of
  level-walk_from zero skip n row m le = absurd (omega arith)
  level-walk_from (suc levels) skip zero row m le =
      let here : skip + 0 ≡ skip = omega arith in
      In-append_left row (level_of skip) (walk_from visited hops levels (level_of (suc skip)))
        (subst (λ k. In row (level_of k)) here m)
  level-walk_from (suc levels) skip (suc n) row m le =
      let further : skip + suc n ≡ suc skip + n = omega arith in
      In-append_right row (level_of skip) (walk_from visited hops levels (level_of (suc skip))) (
        level-walk_from levels (suc skip) n row (subst (λ k. In row (level_of k)) further m)
          (omega arith))

  -- A row is a route no longer than the depth, and each of these is a row.
  pub walk_iff :
      (max_depth : ℕ) (row : WalkRow)
      → In row (walk visited hops max_depth seeds)
        ↔ (Route visited hops seeds row × (row.depth ≤ max_depth))
  unfolding walk level_of
  walk_iff max_depth row = (
    λ m.
        let (r, d) =
          walk_from_sound max_depth 1 (first_rows seeds hops) row first_rows-AreRoutes m in
        (r, omega arith),
    λ (r, d).
        let (n, e, m) = Route-level row r in
        let from_start : n ≡ 0 + n = omega arith in
        level-walk_from max_depth 0 n row (subst (λ k. In row (level_of k)) from_start m)
          (omega arith),
  )
