-- ===== src/Graph/Integrity/Found.antt =====
-- integrity.py: which edges and revisions its checks report.
use econiq_ai.Prelude.{
  ℕ, ◌≤◌, ◌≡◌, ◌↔◌, refl, sym, ap, subst, inl, inr, true, false, Option, none, some, List, [], ◌∷◌,
  ◌==◌, ==_iff, Bool-cases, arith, In, map, ltb, if◌then◌else◌,
}
use econiq_ai.Prelude.Membership.{
  In-append, In-append_left, In-append_right, In-map, map-In, In-filter, filter-In,
}
use econiq_ai.Prelude.Counting.{In-count}
use econiq_ai.Ontology.Edges.{EntityType, edge_is_legal}
use econiq_ai.Graph.Rows.{RelationshipRow, NodeRow, is_open_ended}
use econiq_ai.Graph.Walks.{is_among}
use econiq_ai.Graph.Walks.Levels.{is_among-In}
use econiq_ai.Graph.Integrity.{
  Revision, IntegrityViolation, violation, type_of, judge_edge, edge_violations, illegal_in,
  appears, groups, repeated, current_ids, multiple_in,
}

-- Each current relationship between registered nodes is one that the ontology allows.
abbrev pub IsLegal : List NodeRow → List RelationshipRow → Type 0
IsLegal nodes rows =
    (row : RelationshipRow)
    → In row rows
    → row.valid_to ≡ none
    → (source target : EntityType) → type_of row.source_id nodes ≡ some source
    → type_of row.target_id nodes ≡ some target
    → edge_is_legal source row.relationship_type target ≡ true

judge_edge-In :
    (row : RelationshipRow) (source target : Option EntityType) (v : IntegrityViolation)
    → In v (judge_edge row source target)
    → (v.kind ≡ "illegal_edge")
      × (s : EntityType) × (t : EntityType) × (source ≡ some s)
      × (target ≡ some t)
      × (edge_is_legal s row.relationship_type t ≡ false)
unfolding judge_edge
judge_edge-In row none target v m = elim m [ ]
judge_edge-In row (some s) none v m = elim m [ ]
judge_edge-In row (some s) (some t) v m =
    elim (Bool-cases (edge_is_legal s row.relationship_type t)) [
      | inl e ↦ elim (rw e at m) [ ]
      | inr e ↦ elim (rw e at m) [
        | inl same ↦ (ap (λ (w : IntegrityViolation). w.kind) same, s, t, refl, refl, e)
        | inr n ↦ elim n [ ]
      ]
    ]

open_ended : (end : Option ℕ) → is_open_ended end ≡ true → end ≡ none
unfolding is_open_ended
open_ended none h = refl
open_ended (some e) h = cc

pub illegal_in-In :
    (nodes : List NodeRow) (rows : List RelationshipRow) (v : IntegrityViolation)
    → In v (illegal_in nodes rows)
    → (v.kind ≡ "illegal_edge") × ¬ IsLegal nodes rows
unfolding illegal_in edge_violations
illegal_in-In nodes [] v m = elim m [ ]
illegal_in-In nodes (row ∷ rows) v m =
    let these = if is_open_ended row.valid_to then edge_violations nodes row else [] in
    elim (In-append v these (illegal_in nodes rows) m) [
      | inl i ↦ elim (Bool-cases (is_open_ended row.valid_to)) [
        | inl e ↦
            let (k, s, t, a, b, off) =
              judge_edge-In row (type_of row.source_id nodes) (type_of row.target_id nodes) v
                (rw e at i) in
            (k, λ legal. cc (legal row (inl refl) (open_ended row.valid_to e) s t a b, off))
        | inr e ↦ elim (rw e at i) [ ]
      ]
      | inr i ↦
          let (k, broken) = illegal_in-In nodes rows v i in
          (k, λ legal. broken (λ r j. legal r (inr j)))
    ]

pub In-illegal_in :
    (nodes : List NodeRow) (rows : List RelationshipRow) (row : RelationshipRow) (s t : EntityType)
    → In row rows
    → row.valid_to ≡ none
    → type_of row.source_id nodes ≡ some s
    → type_of row.target_id nodes ≡ some t
    → edge_is_legal s row.relationship_type t ≡ false
    → In (violation "illegal_edge" row.relationship_id) (illegal_in nodes rows)
unfolding illegal_in is_open_ended edge_violations
In-illegal_in nodes [] row s t m open_row a b off = elim m [ ]
In-illegal_in nodes (other ∷ rows) row s t (inl e) open_row a b off =
    let found : In (violation "illegal_edge" row.relationship_id) (
        if is_open_ended row.valid_to
        then judge_edge row (type_of row.source_id nodes) (type_of row.target_id nodes)
        else []) =
      rw (open_row, a, b, judge_edge, off) (inl refl) in
    In-append_left (violation "illegal_edge" row.relationship_id) _ (illegal_in nodes rows) (
      subst
        (λ r. In (violation "illegal_edge" row.relationship_id) (
          if is_open_ended r.valid_to
          then judge_edge r (type_of r.source_id nodes) (type_of r.target_id nodes)
          else []))
        e found)
In-illegal_in nodes (other ∷ rows) row s t (inr i) open_row a b off =
    In-append_right (violation "illegal_edge" row.relationship_id) _ (illegal_in nodes rows)
      (In-illegal_in nodes rows row s t i open_row a b off)

groups-In : (id : ℕ) (ids : List ℕ) → In id ids → In id (groups ids)
unfolding groups
groups-In id [] m = elim m [ ]
groups-In id (x ∷ ids) m = elim (Bool-cases (is_among (groups ids) x)) [
  | inl e ↦ rw e (elim m [
    | inl same ↦ subst (λ z. In z (groups ids)) (sym same) (is_among-In x (groups ids) e)
    | inr i ↦ groups-In id ids i
  ])
  | inr e ↦ rw e (elim m [ inl same ↦ inl same | inr i ↦ inr (groups-In id ids i) ])
]

repeated_iff : (id : ℕ) (ids : List ℕ) → In id (repeated ids) ↔ (2 ≤ appears id ids)
unfolding repeated
repeated_iff id ids =
    let often = λ (x : ℕ). ltb 1 (appears x ids) in
    (
      λ m. let (i, t) = In-filter id often (groups ids) m in ground arith,
      λ h.
          let (x, i, t) = In-count (λ (x : ℕ). x == id) ids (omega arith) in
          let m = subst (λ z. In z ids) ((==_iff x id).0 t) i in
          filter-In id often (groups ids) (groups-In id ids m) (ground arith),
    )

pub multiple_in-In :
    (tables : List (List Revision)) (v : IntegrityViolation)
    → In v (multiple_in tables)
    → (v.kind ≡ "multiple_current_revisions")
      × (table : List Revision) × In table tables
      × (2 ≤ appears v.node_id (current_ids table))
unfolding multiple_in
multiple_in-In [] v m = elim m [ ]
multiple_in-In (table ∷ tables) v m =
    let report = violation "multiple_current_revisions" in
    elim (In-append v (map report (repeated (current_ids table))) (multiple_in tables) m) [
      | inl i ↦
          let (id, j, e) = map-In report v (repeated (current_ids table)) i in
          (
            ap (λ (w : IntegrityViolation). w.kind) e,
            table,
            inl refl,
            subst (λ (w : IntegrityViolation). 2 ≤ appears w.node_id (current_ids table)) (sym e)
                ((repeated_iff id (current_ids table)).0 j),
          )
      | inr i ↦ let (k, other, j, often) = multiple_in-In tables v i in (k, other, inr j, often)
    ]

pub In-multiple_in :
    (tables : List (List Revision)) (table : List Revision) (id : ℕ)
    → In table tables
    → 2 ≤ appears id (current_ids table)
    → In (violation "multiple_current_revisions" id) (multiple_in tables)
unfolding multiple_in
In-multiple_in [] table id m often = elim m [ ]
In-multiple_in (first ∷ tables) table id (inl e) often =
    let report = violation "multiple_current_revisions" in
    let this = (repeated_iff id (current_ids table)).1 often in
    In-append_left (report id) (map report (repeated (current_ids first))) (multiple_in tables) (
      subst (λ t. In (report id) (map report (repeated (current_ids t)))) e
        (In-map id report (repeated (current_ids table)) this))
In-multiple_in (first ∷ tables) table id (inr i) often =
    In-append_right (violation "multiple_current_revisions" id)
      (map (violation "multiple_current_revisions") (repeated (current_ids first)))
      (multiple_in tables) (In-multiple_in tables table id i often)
