-- ===== src/Evidence/Sources/Groups.antt =====
-- The groups of `effective_sources` of dependence.py, over a root for each event.
use econiq_ai.Prelude.{
  ℕ, ◌≡◌, refl, sym, ◌∙◌, subst, inl, inr, ◌⊎◌, Bool, true, false, List, [], ◌∷◌, ◌==◌, ==_iff,
  ==_refl, if◌then◌else◌, Bool-cases, In, any, map,
}
use econiq_ai.Prelude.Membership.{any-In, map-In, In-append, In-append_left, In-append_right}
use econiq_ai.Evidence.Dependence.{EvidenceItem}
use econiq_ai.Evidence.Sources.{Groups, set_add, add_to}

-- the events of items
abbrev pub events_of : List EvidenceItem → List ℕ
events_of items = map (λ (item : EvidenceItem). item.event_id) items

-- the members under the first entry for a root
abbrev pub members_of : ℕ → Groups → List ℕ
members_of root [] = []
members_of root ((key, members) ∷ rest) = if key == root then members else members_of root rest

pub set_add-In : (event : ℕ) (l : List ℕ) → In event (set_add event l)
set_add-In event l = elim (Bool-cases (any (λ member. member == event) l)) [
  | inl e ↦
      let (y, m, t) = any-In (λ member. member == event) l e in
      rw e (subst (λ z. In z l) ((==_iff y event).0 t) m)
  | inr e ↦ rw e (In-append_right event l (event ∷ []) (inl refl))
]

set_add-keeps : (x event : ℕ) (l : List ℕ) → In x l → In x (set_add event l)
set_add-keeps x event l m = elim (Bool-cases (any (λ member. member == event) l)) [
  | inl e ↦ rw e m
  | inr e ↦ rw e (In-append_left x l (event ∷ []) m)
]

add_to-In :
    (root event : ℕ) (groups : Groups) → In event (members_of root (add_to root event groups))
unfolding add_to
add_to-In root event [] = rw (==_refl root) (inl refl)
add_to-In root event ((key, members) ∷ rest) = elim (Bool-cases (key == root)) [
  | inl e ↦ rw (e, e) (set_add-In event members)
  | inr e ↦ rw (e, e) (add_to-In root event rest)
]

if_In :
    (x : ℕ) (b : Bool) (l l' k k' : List ℕ)
    → (In x l → In x l')
    → (In x k → In x k')
    → In x (if b then l else k)
    → In x (if b then l' else k')
if_In x true l l' k k' f g = f
if_In x false l l' k k' f g = g

add_to-keeps :
    (x other root event : ℕ) (groups : Groups)
    → In x (members_of other groups)
    → In x (members_of other (add_to root event groups))
unfolding add_to
add_to-keeps x other root event [] m = elim m [ ]
add_to-keeps x other root event ((key, members) ∷ rest) m = elim (Bool-cases (key == root)) [
  | inl e ↦ rw e (
      if_In x (key == other) members (set_add event members) (members_of other rest)
        (members_of other rest) (set_add-keeps x event members) (λ h. h) m)
  | inr e ↦ rw e (
      if_In x (key == other) members members (members_of other rest)
        (members_of other (add_to root event rest)) (λ h. h) (add_to-keeps x other root event rest)
        m)
]

set_add_cases : (x event : ℕ) (l : List ℕ) → In x (set_add event l) → In x l ⊎ (x ≡ event)
set_add_cases x event l = elim (Bool-cases (any (λ member. member == event) l)) [
  | inl e ↦ rw e (λ m. inl m)
  | inr e ↦ rw e (λ m. elim (In-append x l (event ∷ []) m) [
    | inl h ↦ inl h
    | inr (inl h) ↦ inr h
    | inr (inr h) ↦ elim h [ ]
  ])
]

-- Each event of a group has the root of the group.
abbrev pub IsGroup : (ℕ → ℕ) → ℕ × List ℕ → Type 0
IsGroup root_of entry = (x : ℕ) → In x entry.1 → root_of x ≡ entry.0

abbrev pub IsUnder : (ℕ → ℕ) → Groups → Type 0
IsUnder root_of groups = (entry : ℕ × List ℕ) → In entry groups → IsGroup root_of entry

module _ (root_of : ℕ → ℕ) where
  IsUnder-cons :
      (entry : ℕ × List ℕ) (rest : Groups)
      → IsGroup root_of entry
      → IsUnder root_of rest
      → IsUnder root_of (entry ∷ rest)
  IsUnder-cons entry rest h t other (inl e) = subst (λ q. IsGroup root_of q) (sym e) h
  IsUnder-cons entry rest h t other (inr i) = t other i

  IsGroup-one : (event : ℕ) → IsGroup root_of (root_of event, event ∷ [])
  IsGroup-one event x (inl e) = rw e refl
  IsGroup-one event x (inr h) = elim h [ ]

  IsGroup-add :
      (event key : ℕ) (members : List ℕ)
      → root_of event ≡ key
      → IsGroup root_of (key, members)
      → IsGroup root_of (key, set_add event members)
  IsGroup-add event key members e h x m = elim (set_add_cases x event members m) [
    | inl i ↦ h x i
    | inr same ↦ rw same e
  ]

  add_to-IsUnder :
      (event : ℕ) (groups : Groups)
      → IsUnder root_of groups
      → IsUnder root_of (add_to (root_of event) event groups)
  unfolding add_to
  add_to-IsUnder event [] h = IsUnder-cons (root_of event, event ∷ []) [] (IsGroup-one event) h
  add_to-IsUnder event ((key, members) ∷ rest) h = elim (Bool-cases (key == root_of event)) [
    | inl e ↦ rw e (
        IsUnder-cons (key, set_add event members) rest
          (IsGroup-add event key members (sym ((==_iff key (root_of event)).0 e))
            (h (key, members) (inl refl)))
          (λ entry i. h entry (inr i)))
    | inr e ↦ rw e (
        IsUnder-cons (key, members) (add_to (root_of event) event rest)
          (h (key, members) (inl refl)) (add_to-IsUnder event rest (λ entry i. h entry (inr i))))
  ]

  -- The loop over the items, with a fixed root for each event.
  abbrev pub group_under : List EvidenceItem → Groups → Groups
  group_under [] groups = groups
  group_under (item ∷ rest) groups =
      group_under rest (add_to (root_of item.event_id) item.event_id groups)

  pub group_under-IsUnder :
      (items : List EvidenceItem) (groups : Groups)
      → IsUnder root_of groups
      → IsUnder root_of (group_under items groups)
  group_under-IsUnder [] groups h = h
  group_under-IsUnder (item ∷ rest) groups h =
      group_under-IsUnder rest (add_to (root_of item.event_id) item.event_id groups)
        (add_to-IsUnder item.event_id groups h)

  group_under-keeps :
      (x : ℕ) (items : List EvidenceItem) (groups : Groups)
      → In x (members_of (root_of x) groups)
      → In x (members_of (root_of x) (group_under items groups))
  group_under-keeps x [] groups m = m
  group_under-keeps x (item ∷ rest) groups m =
      group_under-keeps x rest (add_to (root_of item.event_id) item.event_id groups)
        (add_to-keeps x (root_of x) (root_of item.event_id) item.event_id groups m)

  pub group_under-In :
      (x : ℕ) (items : List EvidenceItem) (groups : Groups)
      → In x (events_of items)
      → In x (members_of (root_of x) (group_under items groups))
  group_under-In x [] groups m = elim m [ ]
  group_under-In x (item ∷ rest) groups (inl e) =
      group_under-keeps x rest (add_to (root_of item.event_id) item.event_id groups)
        (rw e (add_to-In (root_of item.event_id) item.event_id groups))
  group_under-In x (item ∷ rest) groups (inr m) =
      group_under-In x rest (add_to (root_of item.event_id) item.event_id groups) m

abbrev pub sets : Groups → List (List ℕ)
sets groups = map (λ (entry : ℕ × List ℕ). entry.1) groups

sets-tail :
    (b : Bool) (x : ℕ) (m l : List ℕ) (rest : Groups)
    → (In x l → In l (sets rest))
    → In x (if b then m else l)
    → In (if b then m else l) (m ∷ sets rest)
sets-tail true x m l rest h i = inl refl
sets-tail false x m l rest h i = inr (h i)

pub members_of-In :
    (x root : ℕ) (groups : Groups)
    → In x (members_of root groups)
    → In (members_of root groups) (sets groups)
members_of-In x root [] m = elim m [ ]
members_of-In x root ((key, members) ∷ rest) m =
    sets-tail (key == root) x members (members_of root rest) rest (members_of-In x root rest) m

pub one_set :
    (root_of : ℕ → ℕ) (groups : Groups) (set : List ℕ) (x y : ℕ)
    → IsUnder root_of groups
    → In set (sets groups)
    → In x set
    → In y set
    → root_of x ≡ root_of y
one_set root_of groups set x y h i m n =
    let (entry, j, e) = map-In (λ (q : ℕ × List ℕ). q.1) set groups i in
    h entry j x (subst (λ z. In x z) e m) ∙ sym (h entry j y (subst (λ z. In y z) e n))
