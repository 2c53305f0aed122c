-- ===== src/Evidence/Sources.antt =====
-- `effective_sources` of dependence.py. The fuel of `find_root` is the
-- number of dependences, which bounds the depth of every tree.
pub mod Roots
pub mod Components
pub mod Union
pub mod Groups
pub mod Used
pub mod Partition
pub mod Totals
use econiq_ai.Prelude.{
  ℕ, zero, suc, ◌≡◌, Bool, true, false, ◌&&◌, ◌||◌, not, List, [], ◌∷◌, ◌==◌, if◌then◌else◌, length,
  map, any, ◌+◌, ◌++◌, ltb,
}
use econiq_ai.Evidence.Dependence.{EvidenceItem, Dependence}

-- `parent`: a dictionary from events to events.
abbrev pub Parents : Type 0
Parents = List (ℕ × ℕ)

-- `parent[node]`. Every event that is looked up has an entry: for another the source would raise.
unfoldable pub parent_of : ℕ → Parents → ℕ
parent_of node [] = node
parent_of node ((key, up) ∷ rest) = if key == node then up else parent_of node rest

unfoldable pub set_parent : ℕ → ℕ → Parents → Parents
set_parent node up [] = (node, up) ∷ []
set_parent node up ((key, old) ∷ rest) =
    if key == node then (key, up) ∷ rest else (key, old) ∷ set_parent node up rest

abbrev pub knows : ℕ → Parents → Bool
knows node parents = any (λ (entry : ℕ × ℕ). entry.0 == node) parents

-- `find`, which halves the path on its way.
unfoldable pub find_root : ℕ → ℕ → Parents → ℕ × Parents
unfolding parent_of set_parent
find_root zero node parents = (node, parents)
find_root (suc fuel) node parents =
    let above = parent_of (parent_of node parents) parents in
    let rest = find_root fuel above (set_parent node above parents) in
    if parent_of node parents == node then (node, parents) else rest

-- One dependence between known events.
unfoldable pub unite : ℕ → ℕ → ℕ → Parents → Parents
unfolding find_root
unite fuel a b parents =
    let (root_a, once) = find_root fuel a parents in
    let (root_b, twice) = find_root fuel b once in
    if root_a == root_b then twice else set_parent root_b root_a twice

unfoldable pub unite_all : ℕ → List Dependence → Parents → Parents
unfolding unite
unite_all fuel [] parents = parents
unite_all fuel (d ∷ rest) parents = unite_all fuel rest (
    if not (knows d.source_event_id parents) || not (knows d.dependent_event_id parents)
    then parents
    else unite fuel d.source_event_id d.dependent_event_id parents)

-- Every event its own parent.
unfoldable pub own_parents : List EvidenceItem → Parents
own_parents items = map (λ (item : EvidenceItem). (item.event_id, item.event_id)) items

-- The table after the loop over the dependences.
unfoldable pub parents_after : List EvidenceItem → List Dependence → Parents
unfolding own_parents unite_all
parents_after items dependences = unite_all (length dependences) dependences (own_parents items)

-- `groups`: a dictionary from roots to the events under them.
abbrev pub Groups : Type 0
Groups = List (ℕ × List ℕ)

-- `set.add`, the members in the order in which they came.
abbrev pub set_add : ℕ → List ℕ → List ℕ
set_add event members =
    if any (λ member. member == event) members then members else members ++ (event ∷ [])

-- `groups.setdefault(root, set()).add(event)`
unfoldable pub add_to : ℕ → ℕ → Groups → Groups
add_to root event [] = (root, event ∷ []) ∷ []
add_to root event ((key, members) ∷ rest) =
    if key == root
    then (key, set_add event members) ∷ rest
    else (key, members) ∷ add_to root event rest

-- The loop over the items, whose calls of `find` go on halving paths.
unfoldable pub group_all : ℕ → List EvidenceItem → Parents → Groups → Groups
unfolding find_root add_to
group_all fuel [] parents groups = groups
group_all fuel (item ∷ rest) parents groups =
    let (root, after) = find_root fuel item.event_id parents in
    group_all fuel rest after (add_to root item.event_id groups)

-- `by_event[event].independent_source_count`: of two items for an event the last counts. The 0 that
-- the first call starts from is the answer for no member of a group.
unfoldable pub count_of : ℕ → ℕ → List EvidenceItem → ℕ
count_of found event [] = found
count_of found event (item ∷ rest) =
    count_of (if item.event_id == event then item.independent_source_count else found) event rest

-- `max` over the members of a group, of which there is one at least.
unfoldable pub largest : List EvidenceItem → ℕ → List ℕ → ℕ
unfolding count_of
largest items top [] = top
largest items top (event ∷ rest) =
    let count = count_of 0 event items in largest items (if ltb top count then count else top) rest

unfoldable pub total : List EvidenceItem → Groups → ℕ
unfolding largest
total items [] = 0
total items ((key, members) ∷ rest) = largest items 0 members + total items rest

unfoldable pub effective_sources : List EvidenceItem → List Dependence → ℕ × List (List ℕ)
unfolding parents_after group_all total
effective_sources items dependences =
    let groups = group_all (length dependences) items (parents_after items dependences) [] in
    (total items groups, map (λ (entry : ℕ × List ℕ). entry.1) groups)
