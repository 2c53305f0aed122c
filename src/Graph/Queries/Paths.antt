-- ===== src/Graph/Queries/Paths.antt =====
-- queries.py: the paths that `traverse` makes of its rows.
use econiq_ai.Prelude.{
  ◌≡◌, refl, sym, ◌∙◌, ap, subst, inl, inr, Bool, true, false, some, List, [], ◌∷◌, Bool-cases, In,
  any, ok,
}
use econiq_ai.Ontology.Edges.{same_entity}
use econiq_ai.Graph.Walks.{WalkRow}
use econiq_ai.Graph.Queries.{
  GraphNode, GraphPath, TraversalSpec, Snapshot, node_of, path_of, is_no_targets, is_wanted,
  keep_path, paths_of,
}
use econiq_ai.Graph.Queries.Found.{
  IsReadable, IsBetween, end_known, the_path, path_of_readable, the_path-IsBetween,
}

module _ (spec : TraversalSpec) (db : Snapshot) where
  -- A path that comes of one of the rows that are wanted.
  abbrev pub ComesOf : List WalkRow → GraphPath → Type 0
  ComesOf rows path =
      (row : WalkRow) × In row rows × (is_wanted spec db row ≡ ok true) × IsBetween path row

  abbrev pub Comes : List GraphPath → WalkRow → Type 0
  Comes paths row = (path : GraphPath) × In path paths × IsBetween path row

  pub is_wanted_known :
      (row : WalkRow) (node : GraphNode)
      → is_no_targets spec.target_types ≡ false
      → node_of db row.node_id ≡ some node
      → is_wanted spec db row ≡ ok (any (same_entity node.node_type) spec.target_types)
  unfolding is_wanted
  is_wanted_known row node e f = rw (e, f) refl

  is_wanted_total :
      (row : WalkRow) → IsReadable spec db row → (b : Bool) × (is_wanted spec db row ≡ ok b)
  unfolding is_wanted
  is_wanted_total row known = elim (Bool-cases (is_no_targets spec.target_types)) [
    | inl e ↦ (true, rw e refl)
    | inr e ↦
        let (node, f) = end_known spec db row known in
        (any (same_entity node.node_type) spec.target_types, is_wanted_known row node e f)
  ]

  -- One round, by what its parts come to.
  module _ (row : WalkRow) (rows : List WalkRow) (path : GraphPath) (paths : List GraphPath) where
    paths_of_wanted :
        is_wanted spec db row ≡ ok true
        → path_of spec db row ≡ some path
        → paths_of spec db rows ≡ ok paths
        → paths_of spec db (row ∷ rows) ≡ ok (path ∷ paths)
    unfolding paths_of keep_path
    paths_of_wanted wanted made rest = rw (wanted, made, rest) refl

    paths_of_skipped :
        is_wanted spec db row ≡ ok false
        → paths_of spec db rows ≡ ok paths
        → paths_of spec db (row ∷ rows) ≡ ok paths
    unfolding paths_of keep_path
    paths_of_skipped wanted rest = rw (wanted, rest) refl

  -- All rows that are wanted become paths, and no others.
  pub paths_of_readable :
      (rows : List WalkRow)
      → ((row : WalkRow) → In row rows → IsReadable spec db row)
      → (paths : List GraphPath) × (paths_of spec db rows ≡ ok paths)
        × ((path : GraphPath) → In path paths → ComesOf rows path)
        × ((row : WalkRow) → In row rows → is_wanted spec db row ≡ ok true → Comes paths row)
  unfolding paths_of
  paths_of_readable [] h = ([], refl, λ p m. elim m [ ], λ r m t. elim m [ ])
  paths_of_readable (row ∷ rows) h =
      let known = h row (inl refl) in
      let (paths, e, sound, full) = paths_of_readable rows (λ r m. h r (inr m)) in
      let made = path_of_readable spec db row known in
      let between = the_path-IsBetween spec db row known in
      let (b, wanted) = is_wanted_total row known in
      elim (Bool-cases b) [
        | inl t ↦
            let chosen : is_wanted spec db row ≡ ok true = wanted ∙ ap (λ c. ok c) t in
            (
              the_path spec db row known ∷ paths,
              paths_of_wanted row rows (the_path spec db row known) paths chosen made e,
              λ p m. elim m [
                | inl same ↦
                    (row, inl refl, chosen, subst (λ q. IsBetween q row) (sym same) between)
                | inr i ↦ let (r, j, w, k) = sound p i in (r, inr j, w, k)
              ],
              λ r m w. elim m [
                | inl same ↦ (
                  the_path spec db row known,
                  inl refl,
                  subst (λ z. IsBetween (the_path spec db row known) z) (sym same) between,
                )
                | inr i ↦ let (p, j, k) = full r i w in (p, inr j, k)
              ],
            )
        | inr f ↦
            let skipped : is_wanted spec db row ≡ ok false = wanted ∙ ap (λ c. ok c) f in
            (
              paths,
              paths_of_skipped row rows (the_path spec db row known) paths skipped e,
              λ p m. let (r, j, w, k) = sound p m in (r, inr j, w, k),
              λ r m w. elim m [
                | inl same ↦ cc (subst (λ z. is_wanted spec db z ≡ ok true) same w, skipped)
                | inr i ↦ full r i w
              ],
            )
      ]
