-- ===== src/Evidence/Sources/Partition.antt =====
-- `effective_sources` of dependence.py: its groups are the components of the dependences.
use econiq_ai.Prelude.{ℕ, ◌≤◌, ◌≡◌, ◌↔◌, refl, sym, ap, subst, List, [], ◌∷◌, arith, In, length}
use econiq_ai.Evidence.Dependence.{EvidenceItem, Dependence}
use econiq_ai.Evidence.Sources.{
  Parents, Groups, find_root, parents_after, add_to, group_all, effective_sources,
}
use econiq_ai.Evidence.Sources.Roots.{IsRooted, find_root_lem}
use econiq_ai.Evidence.Sources.Components.{Linked}
use econiq_ai.Evidence.Sources.Union.{parents_after-IsForest, parents_after_iff}
use econiq_ai.Evidence.Sources.Used.{used, length-used}
use econiq_ai.Evidence.Sources.Groups.{
  events_of, members_of, IsUnder, group_under, group_under-IsUnder, group_under-In, sets,
  members_of-In, one_set,
}

-- Every event has its root, no deeper than the fuel.
abbrev AreRooted : ℕ → (ℕ → ℕ) → Parents → Type 0
AreRooted fuel root_of t = (x : ℕ) → (n : ℕ) × (n ≤ fuel) × IsRooted t x (root_of x) n

-- The loop over the items sorts by the roots, though its calls of `find` change the table.
group_all_lem :
    (fuel : ℕ) (root_of : ℕ → ℕ) (items : List EvidenceItem) (t : Parents) (groups : Groups)
    → AreRooted fuel root_of t
    → group_all fuel items t groups ≡ group_under root_of items groups
unfolding group_all
group_all_lem fuel root_of [] t groups rooted = refl
group_all_lem fuel root_of (item ∷ rest) t groups rooted =
    let x = item.event_id in
    let (n, le, p) = rooted x in
    let (found, keeps) = find_root_lem fuel n x (root_of x) t p le in
    subst
      (λ r.
        group_all fuel rest (find_root fuel x t).1 (add_to r x groups)
        ≡ group_under root_of rest (add_to (root_of x) x groups))
      (sym found)
      (group_all_lem fuel root_of rest (find_root fuel x t).1 (add_to (root_of x) x groups) (λ y.
        let (m, le', q) = rooted y in
        let (k, less, q') = keeps m y (root_of y) q in (k, omega arith, q')))

module _ (items : List EvidenceItem) (dependences : List Dependence) where
  abbrev root : ℕ → ℕ
  root x = (find_root (length dependences) x (parents_after items dependences)).0

  parents_after-AreRooted : AreRooted (length dependences) root (parents_after items dependences)
  parents_after-AreRooted x =
      let t = parents_after items dependences in
      let (r, n, le, p) = (parents_after-IsForest items dependences).rooted x in
      let less = length-used items dependences in
      let enough : n ≤ length dependences = omega arith in
      let found = (find_root_lem (length dependences) n x r t p enough).0 in
      (n, enough, subst (λ z. IsRooted t x z n) (sym found) p)

  groups_lem : (effective_sources items dependences).1 ≡ sets (group_under root items [])
  unfolding effective_sources
  groups_lem = ap sets (
      group_all_lem (length dependences) root items (parents_after items dependences) []
        parents_after-AreRooted)

  nothing_yet : IsUnder root []
  nothing_yet entry m = elim m [ ]

-- Two of the given events stand in one of the groups that effective_sources returns exactly if the
-- dependences between given events link them, directly or through others; dependences on other
-- events count for nothing, and the fuel of the union-find, the number of dependences, is enough.
pub effective_sources_iff :
    (items : List EvidenceItem) (dependences : List Dependence) (x y : ℕ)
    → In x (events_of items)
    → In y (events_of items)
    → ((set : List ℕ) × In set (effective_sources items dependences).1 × In x set × In y set)
      ↔ Linked (used items dependences) x y
effective_sources_iff items dependences x y m n =
    let root_of = root items dependences in
    let same = groups_lem items dependences in
    let groups = group_under root_of items [] in
    let linked = parents_after_iff items dependences x y in
    (
      λ (set, i, mx, my). linked.0 (
          one_set root_of groups set x y
            (group_under-IsUnder root_of items [] (nothing_yet items dependences))
            (subst (λ l. In set l) same i) mx my),
      λ l.
          let mx = group_under-In root_of x items [] m in
          let my = group_under-In root_of y items [] n in
          let set = members_of (root_of x) groups in
          (
            set,
            subst (λ l. In set l) (sym same) (members_of-In x (root_of x) groups mx),
            mx,
            subst (λ r. In y (members_of r groups)) (sym (linked.1 l)) my,
          ),
    )
