-- ===== src/Graph/Walks/Reached.antt =====
-- What the rows of the recursive queries say of walks that may come back to their nodes.
use econiq_ai.Prelude.{
  ℕ, ◌≤◌, ◌≡◌, ◌≢◌, ◌↔◌, refl, sym, ◌∙◌, subst, inl, inr, List, arith, In, drop,
}
use econiq_ai.Prelude.Membership.{In-drop}
use econiq_ai.Graph.Walks.{Hop, WalkRow, walk, first_row, next_row}
use econiq_ai.Graph.Walks.Routes.{
  Route, start, next, Walk, stay, onward, Route-walk, Walk-LeadsTo, Simple,
}
use econiq_ai.Graph.Walks.Levels.{walk_iff}

-- A walk of `most` edges or fewer.
abbrev pub Reaches : List Hop → ℕ → ℕ → ℕ → Type 0
Reaches hops most from to = (n : ℕ) × (n ≤ most) × Walk hops from n to

-- A row with these two ends.
abbrev pub HasRow : List WalkRow → ℕ → ℕ → Type 0
HasRow rows from to = (row : WalkRow) × In row rows × (row.origin ≡ from) × (row.node_id ≡ to)

-- Where a path may come back to none of its nodes, there is a row for two nodes exactly if a walk
-- that is no longer than the depth leads from the first, a seed, to the second.
pub walk_reaches :
    (hops : List Hop) (seeds : List ℕ) (max_depth from to : ℕ)
    → In from seeds
    → to ≢ from
    → HasRow (walk (λ path. path) hops max_depth seeds) from to ↔ Reaches hops max_depth from to
walk_reaches hops seeds max_depth from to m apart = (
  λ (row, i, o, e).
      let (r, d) = (walk_iff (λ path. path) hops seeds max_depth row).0 i in
      (
        row.depth,
        d,
        subst (λ z. Walk hops from row.depth z) e
            (subst (λ z. Walk hops z row.depth row.node_id) o
              (Route-walk (λ path. path) hops seeds row r)),
      ),
  λ (n, le, w). elim (Walk-LeadsTo hops seeds from n to w m) [
    | inl home ↦ absurd (apart home)
    | inr (row, r, o, e, d, clean) ↦
        (row, (walk_iff (λ path. path) hops seeds max_depth row).1 (r, omega arith), o, e)
  ],
)

Simple-Route :
    (hops : List Hop) (seeds : List ℕ) (row : WalkRow)
    → Simple hops seeds row
    → Route (drop 1) hops seeds row
Simple-Route hops seeds _ (start hop i m) = start hop i m
Simple-Route hops seeds _ (next {row} hop r i e fresh) =
    next hop (Simple-Route hops seeds row r) i e (λ m. fresh (In-drop hop.to_id 1 row.path m))

Route-pos :
    (visited : List ℕ → List ℕ) (hops : List Hop) (seeds : List ℕ) (row : WalkRow)
    → Route visited hops seeds row
    → 1 ≤ row.depth
unfolding first_row next_row
Route-pos visited hops seeds _ (start hop i m) = omega arith
Route-pos visited hops seeds _ (next {row} hop r i e fresh) =
    omega (arith, Route-pos visited hops seeds row r)

-- A walk that comes back to where it starts.
abbrev pub Circles : List Hop → ℕ → ℕ → Type 0
Circles hops most from = (n : ℕ) × (1 ≤ n) × (n ≤ most) × Walk hops from n from

closing_row :
    (hops : List Hop) (seeds : List ℕ) (most from n to : ℕ)
    → Walk hops from n to
    → to ≡ from
    → 1 ≤ n
    → n ≤ most
    → In from seeds
    → HasRow (walk (drop 1) hops most seeds) from from
unfolding first_row next_row
closing_row hops seeds most from _ _ stay home pos le m = absurd (omega arith)
closing_row hops seeds most from _ _ (onward {n} {here} hop w i e) home pos le m =
    elim (Walk-LeadsTo hops seeds from n here w m) [
      | inl at ↦
          let leaves : hop.from_id ≡ from = e ∙ at in
          let r : Route (drop 1) hops seeds (first_row hop) =
            start hop i (subst (λ z. In z seeds) (sym leaves) m) in
          (
            first_row hop,
            (walk_iff (drop 1) hops seeds most (first_row hop)).1 (r, omega arith),
            leaves,
            home,
          )
      | inr (row, r, o, at, d, (rest, p, clean)) ↦
          let fresh : ¬ In hop.to_id (drop 1 row.path) = λ m.
            clean
              (subst (λ z. In z rest) (home ∙ sym o) (subst (λ l. In hop.to_id (drop 1 l)) p m)) in
          let r' = next hop (Simple-Route hops seeds row r) i (e ∙ sym at) fresh in
          (
            next_row row hop,
            (walk_iff (drop 1) hops seeds most (next_row row hop)).1 (r', omega arith),
            o,
            home,
          )
    ]

-- Where a path may come back to its start alone, there is a row from a seed to itself exactly if a
-- walk that is no longer than the depth does so.
pub walk-Circles :
    (hops : List Hop) (seeds : List ℕ) (max_depth from : ℕ)
    → In from seeds
    → HasRow (walk (drop 1) hops max_depth seeds) from from ↔ Circles hops max_depth from
walk-Circles hops seeds max_depth from m = (
  λ (row, i, o, e).
      let (r, d) = (walk_iff (drop 1) hops seeds max_depth row).0 i in
      (
        row.depth,
        Route-pos (drop 1) hops seeds row r,
        d,
        subst (λ z. Walk hops from row.depth z) e
            (subst (λ z. Walk hops z row.depth row.node_id) o
              (Route-walk (drop 1) hops seeds row r)),
      ),
  λ (n, pos, le, w). closing_row hops seeds max_depth from n from w refl pos le m,
)
