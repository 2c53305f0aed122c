-- ===== src/Graph/Integrity/Healthy.antt =====
-- integrity.py: what it means that `assert_healthy` returns.
use econiq_ai.Prelude.{
  ℕ, ◌≤◌, ◌≡◌, ◌↔◌, refl, ap, inl, inr, Bool, true, false, not, ◌&&◌, String, str_eq, List, [], ◌∷◌,
  ◌++◌, Bool-cases, arith, In, any, filter, ltb,
}
use econiq_ai.Prelude.Membership.{
  In-append, In-append_left, In-append_right, In-map, map-In, In-filter, filter-In,
}
use econiq_ai.Ontology.Edges.{edge_is_legal}
use econiq_ai.Graph.Rows.{NodeRow}
use econiq_ai.Graph.Walks.Reached.{Circles}
use econiq_ai.Graph.Integrity.{
  Tables, Revision, IntegrityReport, IntegrityViolation, violation, illegal_edges, causal_cycles,
  appears, has_entity, without_entity, disconnected, must_connect, touches, orphaned_nodes,
  current_ids, revised, multiple_current_revisions, check, healthy, is_blocking, default_ignore,
  verdict, assert_healthy,
}
use econiq_ai.Graph.Integrity.Found.{
  IsLegal, illegal_in-In, In-illegal_in, multiple_in-In, In-multiple_in,
}
use econiq_ai.Graph.Integrity.Cycles.{influences_of, causal_cycles_iff, causal_cycles-In}

-- What the checks that block look for is nowhere in the tables.
pub record IsSound (db : Tables) : Type 0 where
  pub legal : IsLegal db.nodes db.relationships
  pub acyclic : (node_id : ℕ) → ¬ Circles (influences_of db) 8 node_id
  pub registered : (node : NodeRow) → In node db.nodes → has_entity db node.node_id ≡ true
  pub single :
      (table : List Revision)
      → In table (revised db)
      → (id : ℕ) → appears id (current_ids table) ≤ 1

-- A test that holds of no entry leaves nothing.
filter_nil_iff :
    {A : Type 0} (p : A → Bool) (l : List A) → (filter p l ≡ []) ↔ ((x : A) → In x l → p x ≡ false)
filter_nil_iff p [] = (λ e x m. elim m [ ], λ h. refl)
filter_nil_iff p (y ∷ l) = elim (Bool-cases (p y)) [
  | inl e ↦ (λ h. cc (rw e at h), λ h. cc (h y (inl refl), e))
  | inr e ↦
      let (f, g) = filter_nil_iff p l in
      (
        λ h x m. elim m [ inl same ↦ rw same e | inr i ↦ f (rw e at h) x i ],
        λ h. rw e (g (λ x i. h x (inr i))),
      )
]

verdict_iff :
    (report : IntegrityReport) (vs : List IntegrityViolation)
    → (verdict report vs ≡ healthy report) ↔ (vs ≡ [])
unfolding verdict
verdict_iff report [] = (λ e. refl, λ e. refl)
verdict_iff report (v ∷ vs) = (λ e. cc, λ e. cc)

blocks :
    (v : IntegrityViolation) (kind : String)
    → v.kind ≡ kind
    → not (any (λ k. str_eq k kind) default_ignore) ≡ true
    → is_blocking default_ignore v ≡ true
unfolding is_blocking
blocks v kind e h = rw e h

module _ (db : Tables) where
  abbrev all_found : List IntegrityViolation
  all_found =
      illegal_edges db
      ++ (causal_cycles 8 db ++ (orphaned_nodes db ++ multiple_current_revisions db))

  abbrev NoneBlocks : Type 0
  NoneBlocks = (v : IntegrityViolation) → In v all_found → is_blocking default_ignore v ≡ false

  NoneBlocks-IsLegal : NoneBlocks → IsLegal db.nodes db.relationships
  unfolding illegal_edges
  NoneBlocks-IsLegal h row m current s t a b =
      elim (Bool-cases (edge_is_legal s row.relationship_type t)) [
        | inl e ↦ e
        | inr e ↦
            let v = violation "illegal_edge" row.relationship_id in
            let found = In-illegal_in db.nodes db.relationships row s t m current a b e in
            let silent = h v (In-append_left v (illegal_edges db) _ found) in
            cc (blocks v "illegal_edge" refl refl, silent)
      ]

  NoneBlocks-acyclic : NoneBlocks → (id : ℕ) → ¬ Circles (influences_of db) 8 id
  NoneBlocks-acyclic h id c =
      let v = violation "causal_cycle" id in
      let found = (causal_cycles_iff db 8 id).1 c in
      let silent =
        h v (
          In-append_right v (illegal_edges db) _ (In-append_left v (causal_cycles 8 db) _ found)) in
      cc (blocks v "causal_cycle" refl refl, silent)

  NoneBlocks-registered :
      NoneBlocks → (node : NodeRow) → In node db.nodes → has_entity db node.node_id ≡ true
  unfolding orphaned_nodes without_entity
  NoneBlocks-registered h node m = elim (Bool-cases (has_entity db node.node_id)) [
    | inl e ↦ e
    | inr e ↦
        let v = violation "node_without_entity" node.node_id in
        let alone = λ (row : NodeRow). not (has_entity db row.node_id) in
        let lost : alone node ≡ true = ground (arith, e) in
        let found =
          In-map node (λ (row : NodeRow). violation "node_without_entity" row.node_id)
            (filter alone db.nodes) (filter-In node alone db.nodes m lost) in
        let silent = h v (
          In-append_right v (illegal_edges db) _ (
            In-append_right v (causal_cycles 8 db) _ (
              In-append_left v (orphaned_nodes db) _
                (In-append_left v (without_entity db) _ found)))) in
        cc (blocks v "node_without_entity" refl refl, silent)
  ]

  NoneBlocks-single :
      NoneBlocks
      → (table : List Revision) → In table (revised db)
      → (id : ℕ) → appears id (current_ids table) ≤ 1
  unfolding multiple_current_revisions
  NoneBlocks-single h table m id = elim (Bool-cases (ltb 1 (appears id (current_ids table)))) [
    | inl e ↦
        let v = violation "multiple_current_revisions" id in
        let found = In-multiple_in (revised db) table id m (ground arith) in
        let silent = h v (
          In-append_right v (illegal_edges db) _ (
            In-append_right v (causal_cycles 8 db) _
              (In-append_right v (orphaned_nodes db) _ found))) in
        cc (blocks v "multiple_current_revisions" refl refl, silent)
    | inr e ↦ ground arith
  ]

  NoneBlocks-IsSound : NoneBlocks → IsSound db
  NoneBlocks-IsSound h = record {
    legal = NoneBlocks-IsLegal h;
    acyclic = NoneBlocks-acyclic h;
    registered = NoneBlocks-registered h;
    single = NoneBlocks-single h;
  }

  orphans-silent :
      IsSound db
      → (v : IntegrityViolation) → In v (orphaned_nodes db)
      → is_blocking default_ignore v ≡ false
  unfolding orphaned_nodes is_blocking
  orphans-silent sound v m = elim (In-append v (without_entity db) (disconnected db) m) [
    | inl i ↦
        let alone = λ (row : NodeRow). not (has_entity db row.node_id) in
        let (row, j, e) =
          map-In (λ (r : NodeRow). violation "node_without_entity" r.node_id) v
            (filter alone db.nodes) i in
        let (k, lost) = In-filter row alone db.nodes j in
        let there = sound.registered row k in cc (ap not there, lost)
    | inr i ↦
        let loose = λ (r : NodeRow).
          must_connect r.node_type && not (any (touches r.node_id) db.relationships) in
        let (row, j, e) =
          map-In (λ (r : NodeRow). violation "disconnected_node" r.node_id) v
            (filter loose db.nodes) i in
        rw (ap (λ (w : IntegrityViolation). w.kind) e) refl
  ]

  IsSound-NoneBlocks : IsSound db → NoneBlocks
  unfolding illegal_edges multiple_current_revisions
  IsSound-NoneBlocks sound v m = elim (In-append v (illegal_edges db) _ m) [
    | inl i ↦ absurd ((illegal_in-In db.nodes db.relationships v i).1 sound.legal)
    | inr m' ↦ elim (In-append v (causal_cycles 8 db) _ m') [
      | inl i ↦ absurd (sound.acyclic v.node_id (causal_cycles-In db 8 v i).1)
      | inr m'' ↦ elim (In-append v (orphaned_nodes db) _ m'') [
        | inl i ↦ orphans-silent sound v i
        | inr i ↦
            let (k, table, j, often) = multiple_in-In (revised db) v i in
            absurd (omega (arith, sound.single table j v.node_id, often))
      ]
    ]
  ]

-- assert_healthy returns its report, and does not raise, exactly if each current relationship
-- between known nodes is legal, no influences walk of up to eight edges comes back to its start,
-- each node has an entity row, and no revised table has two current rows of one id.
pub assert_healthy_iff :
    (db : Tables) (moment : ℕ)
    → (assert_healthy db default_ignore moment ≡ healthy (check db moment)) ↔ IsSound db
unfolding assert_healthy check
assert_healthy_iff db moment =
    let found = all_found db in
    let passes = verdict_iff (check db moment) (filter (is_blocking default_ignore) found) in
    let silent = filter_nil_iff (is_blocking default_ignore) found in
    (
      λ h. NoneBlocks-IsSound db (silent.0 (passes.0 h)),
      λ sound. passes.1 (silent.1 (IsSound-NoneBlocks db sound)),
    )
