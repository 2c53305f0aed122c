-- ===== src/Graph/Walks.antt =====
-- The recursive queries of queries.py and integrity.py, which carry the path that they have walked.
-- Each level of a recursion is made from the level before it, so that the number of levels left is
-- all the fuel there is. SQL leaves the order in a level open: here it is that of the tables.
pub mod Routes
pub mod Levels
pub mod Reached
use econiq_ai.Prelude.{
  ℕ, zero, suc, ◌+◌, Bool, not, ◌&&◌, List, [], ◌∷◌, ◌++◌, ◌==◌, any, filter, map, if◌then◌else◌,
}

-- A row of `edges`: a relationship, in the direction of the walk.
pub record Hop : Type 0 where
  pub relationship_id : ℕ
  pub from_id : ℕ
  pub to_id : ℕ

-- A row of `walk`.
pub record WalkRow : Type 0 where
  pub origin : ℕ
  pub node_id : ℕ
  pub depth : ℕ
  pub path : List ℕ
  pub edges : List ℕ

-- `x = ANY(xs)`
abbrev pub is_among : List ℕ → ℕ → Bool
is_among xs x = any (λ y. y == x) xs

unfoldable pub first_row : Hop → WalkRow
first_row hop = record {
  origin = hop.from_id;
  node_id = hop.to_id;
  depth = 1;
  path = hop.from_id ∷ hop.to_id ∷ [];
  edges = hop.relationship_id ∷ [];
}

unfoldable pub next_row : WalkRow → Hop → WalkRow
next_row row hop = record {
  origin = row.origin;
  node_id = hop.to_id;
  depth = row.depth + 1;
  path = row.path ++ (hop.to_id ∷ []);
  edges = row.edges ++ (hop.relationship_id ∷ []);
}

-- The start of the recursion: the edges that leave a seed.
unfoldable pub first_rows : List ℕ → List Hop → List WalkRow
unfolding first_row
first_rows seeds hops = map first_row (filter (λ (hop : Hop). is_among seeds hop.from_id) hops)

-- `visited` is what a path may not come back to: all of it, or all but its start.
module _ (visited : List ℕ → List ℕ) (hops : List Hop) where
  unfoldable pub may_follow : WalkRow → Hop → Bool
  may_follow row hop = (hop.from_id == row.node_id) && not (is_among (visited row.path) hop.to_id)

  unfoldable pub next_rows : List WalkRow → List WalkRow
  unfolding may_follow next_row
  next_rows [] = []
  next_rows (row ∷ rows) = map (next_row row) (filter (may_follow row) hops) ++ next_rows rows

  unfoldable pub walk_from : ℕ → List WalkRow → List WalkRow
  unfolding next_rows
  walk_from zero level = []
  walk_from (suc levels) level = level ++ walk_from levels (next_rows level)

  -- `walk`, up to a depth
  unfoldable pub walk : ℕ → List ℕ → List WalkRow
  unfolding walk_from first_rows
  walk max_depth seeds = walk_from max_depth (first_rows seeds hops)
