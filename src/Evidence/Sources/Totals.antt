-- ===== src/Evidence/Sources/Totals.antt =====
-- `effective_sources` of dependence.py: bounds on its count, whatever the dependences are.
use econiq_ai.Prelude.{
  ℕ, ◌+◌, ◌≤◌, inl, inr, List, [], ◌∷◌, ◌++◌, ◌==◌, ltb, if◌then◌else◌, arith, Bool-cases, In, any,
  length,
}
use econiq_ai.Evidence.Dependence.{EvidenceItem, Dependence}
use econiq_ai.Evidence.Sources.{
  Parents, Groups, find_root, set_add, add_to, group_all, count_of, largest, total, parents_after,
  effective_sources,
}
use econiq_ai.Evidence.Sources.Groups.{events_of, set_add-In}

-- The counts of events, added up.
abbrev pub sum_counts : List EvidenceItem → List ℕ → ℕ
sum_counts items [] = 0
sum_counts items (event ∷ rest) = count_of 0 event items + sum_counts items rest

module _ (items : List EvidenceItem) where
  largest-top : (top : ℕ) (l : List ℕ) → top ≤ largest items top l
  unfolding largest
  largest-top top [] = omega arith
  largest-top top (x ∷ l) =
      let count = count_of 0 x items in
      let deep = largest-top (if ltb top count then count else top) l in ground (arith, deep)

  largest-append :
      (top event : ℕ) (l : List ℕ)
      → (largest items top l ≤ largest items top (l ++ (event ∷ [])))
        × (count_of 0 event items ≤ largest items top (l ++ (event ∷ [])))
        × (largest items top (l ++ (event ∷ [])) ≤ largest items top l + count_of 0 event items)
  unfolding largest
  largest-append top event [] = ground arith
  largest-append top event (x ∷ l) =
      let count = count_of 0 x items in
      largest-append (if ltb top count then count else top) event l

  set_add-counts :
      (event : ℕ) (l : List ℕ)
      → (largest items 0 l ≤ largest items 0 (set_add event l))
        × (largest items 0 (set_add event l) ≤ largest items 0 l + count_of 0 event items)
  set_add-counts event l = elim (Bool-cases (any (λ member. member == event) l)) [
    | inl e ↦ rw e (omega arith, omega arith)
    | inr e ↦ let (a, b, c) = largest-append 0 event l in rw e (a, c)
  ]

  add_to-counts :
      (root event : ℕ) (groups : Groups)
      → (total items groups ≤ total items (add_to root event groups))
        × (total items (add_to root event groups) ≤ total items groups + count_of 0 event items)
  unfolding add_to total largest
  add_to-counts root event [] = ground arith
  add_to-counts root event ((key, members) ∷ rest) = elim (Bool-cases (key == root)) [
    | inl e ↦
        let (a, b) = set_add-counts event members in rw e (omega (arith, a, b), omega (arith, a, b))
    | inr e ↦
        let (a, b) = add_to-counts root event rest in
        rw e (omega (arith, a, b), omega (arith, a, b))
  ]

  pub group_all-counts :
      (fuel : ℕ) (rest : List EvidenceItem) (t : Parents) (groups : Groups)
      → (total items groups ≤ total items (group_all fuel rest t groups))
        × (total items (group_all fuel rest t groups)
            ≤ total items groups + sum_counts items (events_of rest))
  unfolding group_all
  group_all-counts fuel [] t groups = (omega arith, omega arith)
  group_all-counts fuel (item ∷ rest) t groups =
      let (root, after) = find_root fuel item.event_id t in
      let (a, b) = add_to-counts root item.event_id groups in
      let (c, d) = group_all-counts fuel rest after (add_to root item.event_id groups) in
      (omega (arith, a, c), omega (arith, b, d))

  largest-In :
      (event top : ℕ) (l : List ℕ) → In event l → count_of 0 event items ≤ largest items top l
  unfolding largest
  largest-In event top [] m = elim m [ ]
  largest-In event top (x ∷ l) (inl e) =
      let count = count_of 0 x items in
      let deep = largest-top (if ltb top count then count else top) l in rw e (ground (arith, deep))
  largest-In event top (x ∷ l) (inr m) =
      let count = count_of 0 x items in largest-In event (if ltb top count then count else top) l m

  add_to-covers :
      (root event : ℕ) (groups : Groups)
      → count_of 0 event items ≤ total items (add_to root event groups)
  unfolding add_to total largest
  add_to-covers root event [] = ground arith
  add_to-covers root event ((key, members) ∷ rest) = elim (Bool-cases (key == root)) [
    | inl e ↦
        let le = largest-In event 0 (set_add event members) (set_add-In event members) in
        rw e (omega (arith, le))
    | inr e ↦ let le = add_to-covers root event rest in rw e (omega (arith, le))
  ]

  group_all-covers :
      (event fuel : ℕ) (rest : List EvidenceItem) (t : Parents) (groups : Groups)
      → In event (events_of rest)
      → count_of 0 event items ≤ total items (group_all fuel rest t groups)
  unfolding group_all
  group_all-covers event fuel [] t groups m = elim m [ ]
  group_all-covers event fuel (item ∷ rest) t groups (inl e) =
      let (root, after) = find_root fuel item.event_id t in
      let le = add_to-covers root item.event_id groups in
      let (more, bound) = group_all-counts fuel rest after (add_to root item.event_id groups) in
      rw e (omega (arith, le, more))
  group_all-covers event fuel (item ∷ rest) t groups (inr m) =
      let (root, after) = find_root fuel item.event_id t in
      group_all-covers event fuel rest after (add_to root item.event_id groups) m

-- Whatever the dependences are, the count that effective_sources returns is at least the count of
-- each event, and at most the sum of the counts over the items.
pub effective_sources-bounds :
    (items : List EvidenceItem) (dependences : List Dependence) (event : ℕ)
    → In event (events_of items)
    → (count_of 0 event items ≤ (effective_sources items dependences).0)
      × ((effective_sources items dependences).0 ≤ sum_counts items (events_of items))
unfolding effective_sources total
effective_sources-bounds items dependences event m =
    let fuel = length dependences in
    let t = parents_after items dependences in
    (
      group_all-covers items event fuel items t [] m,
      omega (arith, (group_all-counts items fuel items t []).1),
    )
