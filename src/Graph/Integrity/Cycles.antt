-- ===== src/Graph/Integrity/Cycles.antt =====
-- integrity.py: which cycles `causal_cycles` and `would_create_cycle` find.
use econiq_ai.Prelude.{
  ℕ, zero, suc, ◌+◌, ◌≤◌, ◌<◌, ◌≡◌, ◌≢◌, ◌↔◌, ◌⊎◌, refl, sym, ◌∙◌, ap, subst, inl, inr, true, false,
  List, [], ◌∷◌, ◌==◌, ==_iff, Bool-cases, arith, In, any, map, filter, drop,
}
use econiq_ai.Prelude.Membership.{any-In, any_of_In, In-map, map-In, In-filter, filter-In}
use econiq_ai.Graph.Rows.{RelationshipRow}
use econiq_ai.Graph.Walks.{Hop, WalkRow, walk}
use econiq_ai.Graph.Walks.Routes.{Walk, stay, onward, Route-seed}
use econiq_ai.Graph.Walks.Levels.{walk_iff}
use econiq_ai.Graph.Walks.Reached.{Reaches, Circles, walk_reaches, walk-Circles}
use econiq_ai.Graph.Integrity.{
  Tables, IntegrityViolation, violation, downstream_hop, is_influence, influence_hops, same_row,
  distinct_rows, comes_back, causal_cycles, would_create_cycle,
}

abbrev pub influences_of : Tables → List Hop
influences_of db = influence_hops db.relationships

-- would_create_cycle answers true exactly if source and target are one node or a walk over at most
-- twelve current influences relationships leads from the target to the source.
pub would_create_cycle_iff :
    (db : Tables) (source_id target_id : ℕ)
    → (would_create_cycle db source_id target_id ≡ true)
      ↔ ((source_id ≡ target_id) ⊎ Reaches (influences_of db) 12 target_id source_id)
unfolding would_create_cycle
would_create_cycle_iff db source_id target_id =
    let hops = influences_of db in
    let rows = walk (λ path. path) hops 12 (target_id ∷ []) in
    let ends = λ (row : WalkRow). row.node_id == source_id in
    elim (Bool-cases (source_id == target_id)) [
      | inl e ↦ rw e (λ h. inl ((==_iff source_id target_id).0 e), λ h. refl)
      | inr e ↦
          let apart : source_id ≢ target_id = ground arith in
          let agree = walk_reaches hops (target_id ∷ []) 12 target_id source_id (inl refl) apart in
          rw e (
            λ h.
                let (row, m, t) = any-In ends rows h in
                let (r, d) = (walk_iff (λ path. path) hops (target_id ∷ []) 12 row).0 m in
                elim (Route-seed (λ path. path) hops (target_id ∷ []) row r) [
                  | inl o ↦ inr (agree.0 (row, m, o, (==_iff row.node_id source_id).0 t))
                  | inr n ↦ elim n [ ]
                ],
            λ h. elim h [
              | inl same ↦ absurd (apart same)
              | inr reach ↦
                  let (row, m, o, at) = agree.1 reach in
                  any_of_In row ends rows m ((==_iff row.node_id source_id).1 at)
            ],
          )
    ]

distinct-In : (row : WalkRow) (rows : List WalkRow) → In row (distinct_rows rows) → In row rows
unfolding distinct_rows
distinct-In row [] m = elim m [ ]
distinct-In row (other ∷ rows) m = elim (Bool-cases (any (same_row other) (distinct_rows rows))) [
  | inl e ↦ inr (distinct-In row rows (rw e at m))
  | inr e ↦ elim (rw e at m) [ inl same ↦ inl same | inr i ↦ inr (distinct-In row rows i) ]
]

distinct-covers :
    (row : WalkRow) (rows : List WalkRow)
    → In row rows
    → (kept : WalkRow) × In kept (distinct_rows rows) × (kept.origin ≡ row.origin)
unfolding distinct_rows
distinct-covers row [] m = elim m [ ]
distinct-covers row (other ∷ rows) m =
    elim (Bool-cases (any (same_row other) (distinct_rows rows))) [
      | inl e ↦ rw e (elim m [
        | inl same ↦
            let (kept, i, t) = any-In (same_row other) (distinct_rows rows) e in
            let found = (==_iff other.origin kept.origin).0 (ground arith) in
            (kept, i, sym found ∙ ap (λ (r : WalkRow). r.origin) (sym same))
        | inr i ↦ distinct-covers row rows i
      ])
      | inr e ↦ rw e (elim m [
        | inl same ↦ (row, inl same, refl)
        | inr i ↦ let (kept, j, o) = distinct-covers row rows i in (kept, inr j, o)
      ])
    ]

leaves_from :
    (hops : List Hop) (from n to : ℕ)
    → Walk hops from n to
    → 1 ≤ n
    → In from (map (λ (hop : Hop). hop.from_id) hops)
leaves_from hops from _ _ stay pos = absurd (omega arith)
leaves_from hops from _ _ (onward {n = zero} hop stay i e) pos =
    subst (λ z. In z (map (λ (h : Hop). h.from_id) hops)) e
      (In-map hop (λ (h : Hop). h.from_id) hops i)
leaves_from hops from _ _ (onward {n = suc n} hop w i e) pos =
    leaves_from hops from (suc n) _ w (omega arith)

-- causal_cycles reports a node exactly if a walk over the current influences relationships, of one
-- to max_depth edges, leads from the node back to it.
pub causal_cycles_iff :
    (db : Tables) (max_depth node_id : ℕ)
    → In (violation "causal_cycle" node_id) (causal_cycles max_depth db)
      ↔ Circles (influences_of db) max_depth node_id
unfolding causal_cycles comes_back
causal_cycles_iff db max_depth node_id =
    let hops = influences_of db in
    let sources = map (λ (hop : Hop). hop.from_id) hops in
    let rows = walk (drop 1) hops max_depth sources in
    let back = λ (row : WalkRow). row.node_id == row.origin in
    let report = λ (row : WalkRow). violation "causal_cycle" row.origin in
    (
      λ m.
          let (row, i, e) =
            map-In report (violation "causal_cycle" node_id) (distinct_rows (filter back rows)) m in
          let (j, t) = In-filter row back rows (distinct-In row (filter back rows) i) in
          let o : row.origin ≡ node_id = ap (λ (v : IntegrityViolation). v.node_id) (sym e) in
          let (r, d) = (walk_iff (drop 1) hops sources max_depth row).0 j in
          let seed = subst (λ z. In z sources) o (Route-seed (drop 1) hops sources row r) in
          (walk-Circles hops sources max_depth node_id seed).0
            (row, j, o, (==_iff row.node_id row.origin).0 t ∙ o),
      λ (n, pos, le, w).
          let seed = leaves_from hops node_id n node_id w pos in
          let (row, i, o, at) =
            (walk-Circles hops sources max_depth node_id seed).1 (n, pos, le, w) in
          let t = (==_iff row.node_id row.origin).1 (at ∙ sym o) in
          let (kept, j, same) =
            distinct-covers row (filter back rows) (filter-In row back rows i t) in
          subst
            (λ z. In (violation "causal_cycle" z) (map report (distinct_rows (filter back rows))))
            (same ∙ o) (In-map kept report (distinct_rows (filter back rows)) j),
    )

join :
    (hops : List Hop) (a b c n m : ℕ)
    → Walk hops a n b
    → Walk hops b m c
    → (k : ℕ) × (k ≡ n + m) × Walk hops a k c
join hops a b _ n _ w stay = (n, omega arith, w)
join hops a b _ n _ w (onward {n = m} {here} hop v i e) =
    let (k, s, u) = join hops a b here n m w v in (suc k, omega arith, onward hop u i e)

through_added :
    (hops : List Hop) (added hop : Hop) (from here most n : ℕ)
    → Walk hops from n here
    → hop.from_id ≡ here
    → hop ≡ added
    → n < most
    → (before : ℕ) × (behind : ℕ) × (before + behind < most)
      × Walk hops from before added.from_id
      × Walk hops added.to_id behind hop.to_id
through_added hops added hop from here most n w e new le = (
  n,
  0,
  omega arith,
  subst (λ z. Walk hops from n z) (sym e ∙ ap (λ (h : Hop). h.from_id) new) w,
  subst (λ z. Walk hops added.to_id 0 z) (ap (λ (h : Hop). h.to_id) (sym new)) stay,
)

-- A walk with one edge more: it goes without that edge, or up to its first use and on from its last.
split :
    (hops : List Hop) (added : Hop) (from n to : ℕ)
    → Walk (added ∷ hops) from n to
    → Walk hops from n to
      ⊎ ((before : ℕ) × (behind : ℕ) × (before + behind < n)
          × Walk hops from before added.from_id
          × Walk hops added.to_id behind to)
split hops added from _ _ stay = inl stay
split hops added from _ _ (onward {n} {here} hop w i e) = elim (split hops added from n here w) [
  | inl old ↦ elim i [
    | inl new ↦ inr (through_added hops added hop from here (suc n) n old e new (omega arith))
    | inr j ↦ inl (onward hop old j e)
  ]
  | inr (before, behind, le, first, last) ↦ elim i [
    | inl new ↦ inr (
      before,
      0,
      omega arith,
      first,
      subst (λ z. Walk hops added.to_id 0 z) (ap (λ (h : Hop). h.to_id) (sym new)) stay,
    )
    | inr j ↦ inr (before, suc behind, omega arith, first, onward hop last j e)
  ]
]

nil_or_In : {A : Type 0} (l : List A) → (l ≡ []) ⊎ ((x : A) × In x l)
nil_or_In [] = inl refl
nil_or_In (x ∷ l) = inr (x, inl refl)

pub causal_cycles-In :
    (db : Tables) (max_depth : ℕ) (v : IntegrityViolation)
    → In v (causal_cycles max_depth db)
    → (v.kind ≡ "causal_cycle") × Circles (influences_of db) max_depth v.node_id
unfolding causal_cycles
causal_cycles-In db max_depth v m =
    let hops = influences_of db in
    let rows = walk (drop 1) hops max_depth (map (λ (h : Hop). h.from_id) hops) in
    let (row, i, e) =
      map-In (λ (r : WalkRow). violation "causal_cycle" r.origin) v
        (distinct_rows (filter comes_back rows)) m in
    let circle =
      (causal_cycles_iff db max_depth row.origin).0
        (subst (λ z. In z (causal_cycles max_depth db)) e m) in
    (
      ap (λ (w : IntegrityViolation). w.kind) e,
      subst (λ (w : IntegrityViolation). Circles hops max_depth w.node_id) (sym e) circle,
    )

all_clear :
    (db : Tables) (max_depth : ℕ)
    → ((v : ℕ) → ¬ Circles (influences_of db) max_depth v)
    → causal_cycles max_depth db ≡ []
all_clear db max_depth free = elim (nil_or_In (causal_cycles max_depth db)) [
  | inl e ↦ e
  | inr (v, m) ↦ absurd (free v.node_id (causal_cycles-In db max_depth v m).1)
]

abbrev pub with_row : RelationshipRow → Tables → Tables
with_row row db = record db { relationships = row ∷ db.relationships }

circle_of_added :
    (db : Tables) (row : RelationshipRow) (max_depth v : ℕ)
    → max_depth ≤ 13
    → would_create_cycle db row.source_id row.target_id ≡ false
    → Circles (downstream_hop row ∷ influences_of db) max_depth v
    → Circles (influences_of db) max_depth v
circle_of_added db row max_depth v small refused (n, pos, le, w) =
    elim (split (influences_of db) (downstream_hop row) v n v w) [
      | inl old ↦ (n, pos, le, old)
      | inr (before, behind, less, first, last) ↦
          let hops = influences_of db in
          let (k, s, u) = join hops row.target_id v row.source_id behind before last first in
          let found =
            (would_create_cycle_iff db row.source_id row.target_id).1 (inr (k, omega arith, u)) in
          absurd (cc found)
    ]

-- For a depth of at most thirteen: where causal_cycles reports nothing and would_create_cycle
-- answers false for the ends of a relationship, causal_cycles reports nothing once the
-- relationship is in the table.
pub would_create_cycle_guards :
    (db : Tables) (row : RelationshipRow) (max_depth : ℕ)
    → max_depth ≤ 13
    → causal_cycles max_depth db ≡ []
    → would_create_cycle db row.source_id row.target_id ≡ false
    → causal_cycles max_depth (with_row row db) ≡ []
unfolding influence_hops
would_create_cycle_guards db row max_depth small none_yet refused =
    let free : (v : ℕ) → ¬ Circles (influences_of db) max_depth v = λ v c.
      subst (λ l. In (violation "causal_cycle" v) l) none_yet
        ((causal_cycles_iff db max_depth v).1 c) in
    all_clear (with_row row db) max_depth (λ v c. elim (Bool-cases (is_influence row)) [
      | inl e ↦ free v (circle_of_added db row max_depth v small refused (rw e at c))
      | inr e ↦ free v (rw e at c)
    ])
