-- ===== src/Graph/Discovery/Reach.antt =====
-- queries.py: `assets_within_hops` returns the assets that the processes reach.
use econiq_ai.Prelude.{
  ℕ, zero, suc, ◌≤◌, ◌≡◌, ◌↔◌, refl, sym, ◌∙◌, ap, subst, inl, inr, Bool, true, false, ◌||◌, Option,
  some, List, [], ◌∷◌, ltb, arith, In, any, take, length, Result, ok, err,
}
use econiq_ai.Prelude.Sorting.{sort_by, In-sort, sort-In}
use econiq_ai.Ontology.Edges.{asset, same_entity}
use econiq_ai.Ontology.Edges.Layers.{same_entity_eq}
use econiq_ai.Graph.Walks.{Hop, WalkRow, walk}
use econiq_ai.Graph.Walks.Routes.{Route-seed}
use econiq_ai.Graph.Walks.Levels.{walk_iff}
use econiq_ai.Graph.Walks.Reached.{Reaches, walk_reaches}
use econiq_ai.Graph.Queries.{
  GraphNode, GraphPath, TraversalSpec, validated, Snapshot, node_of, hops_of, is_no_targets,
  rows_of, is_wanted, paths_of, traverse,
}
use econiq_ai.Graph.Queries.Found.{HasNodes, IsReadable, Route-IsReadable, end_known}
use econiq_ai.Graph.Queries.Paths.{ComesOf, Comes, is_wanted_known, paths_of_readable}
use econiq_ai.Graph.Discovery.Grouping.{IsReached, group_paths_iff}
use econiq_ai.Graph.Discovery.{
  AssetReach, group_paths, comes_first, asset_spec, traverse_validated, reaches_of,
  assets_within_hops,
}

||_false : (b : Bool) → b || false ≡ true → b ≡ true
||_false true e = refl
||_false false e = e

was_true : Result Bool → Bool
was_true (ok b) = b
was_true (err e) = false

take_all : {A : Type 0} (n : ℕ) (xs : List A) → length xs ≤ n → take n xs ≡ xs
take_all zero [] le = refl
take_all zero (x ∷ xs) le = absurd (omega arith)
take_all (suc n) [] le = refl
take_all (suc n) (x ∷ xs) le = ap (λ l. x ∷ l) (take_all n xs (omega arith))

-- A traversal whose limit leaves out no row returns, and has a path for each row that is wanted.
module _ (spec : TraversalSpec) (seeds : List ℕ) (db : Snapshot) where
  abbrev pub all_rows : List WalkRow
  all_rows = walk (λ path. path) (hops_of spec db) spec.max_hops seeds

  row-IsReadable : HasNodes db → (row : WalkRow) → In row all_rows → IsReadable spec db row
  row-IsReadable keys row m =
      Route-IsReadable spec db keys (λ path. path) seeds row
        ((walk_iff (λ path. path) (hops_of spec db) seeds spec.max_hops row).0 m).0

  traverse_all :
      HasNodes db
      → length all_rows ≤ spec.limit
      → (paths : List GraphPath) × (traverse spec seeds db db ≡ ok paths)
        × ((path : GraphPath) → In path paths → ComesOf spec db all_rows path)
        × ((row : WalkRow)
            → In row all_rows
            → is_wanted spec db row ≡ ok true
            → Comes spec db paths row)
  unfolding traverse rows_of
  traverse_all keys enough =
      let (paths, e, sound, full) = paths_of_readable spec db all_rows (row-IsReadable keys) in
      let rows : take spec.limit all_rows ≡ all_rows = take_all spec.limit all_rows enough in
      (paths, ap (paths_of spec db) rows ∙ e, sound, full)

  validated_holds : 1 ≤ spec.max_hops → 1 ≤ spec.limit → validated spec ≡ ok spec
  unfolding validated
  validated_holds hops rows =
      let enough_hops : ltb spec.max_hops 1 ≡ false = ground arith in
      let enough_rows : ltb spec.limit 1 ≡ false = ground arith in
      rw (enough_hops, enough_rows) refl

  traverse_validated_all :
      1 ≤ spec.max_hops
      → 1 ≤ spec.limit
      → traverse_validated spec seeds db db ≡ traverse spec seeds db db
  unfolding traverse_validated
  traverse_validated_all hops rows = rw (validated_holds hops rows, traverse_validated) refl

module _ (process_ids : List ℕ) (max_hops : ℕ) (as_of : Option ℕ) (limit : ℕ) (db : Snapshot) where
  abbrev pub IsAsset : ℕ → Type 0
  IsAsset id = (node : GraphNode) × (node_of db id ≡ some node) × (node.node_type ≡ asset)

  abbrev pub asset_hops : List Hop
  asset_hops = hops_of (asset_spec max_hops as_of limit) db

  -- A walk over the edges of discovery from one of the processes.
  abbrev pub IsWithin : ℕ → Type 0
  IsWithin id = (from : ℕ) × In from process_ids × Reaches asset_hops max_hops from id

  abbrev pub asset_rows : List WalkRow
  asset_rows = walk (λ path. path) asset_hops max_hops process_ids

  wanted-IsAsset :
      (row : WalkRow)
      → IsReadable (asset_spec max_hops as_of limit) db row
      → is_wanted (asset_spec max_hops as_of limit) db row ≡ ok true
      → IsAsset row.node_id
  unfolding asset_spec is_no_targets was_true
  wanted-IsAsset row known wanted =
      let (node, e) = end_known (asset_spec max_hops as_of limit) db row known in
      let judged = is_wanted_known (asset_spec max_hops as_of limit) db row node refl e in
      let right : same_entity node.node_type asset || false ≡ true =
        ap was_true (sym judged ∙ wanted) in
      (
        node,
        e,
        same_entity_eq node.node_type asset ((||_false (same_entity node.node_type asset)) right),
      )

  IsAsset-wanted :
      (row : WalkRow)
      → IsAsset row.node_id
      → is_wanted (asset_spec max_hops as_of limit) db row ≡ ok true
  unfolding asset_spec is_no_targets
  IsAsset-wanted row (node, e, same) =
      is_wanted_known (asset_spec max_hops as_of limit) db row node refl e
      ∙ ap (λ t. ok (any (same_entity t) (asset ∷ []))) same

  row-IsWithin :
      HasNodes db
      → (row : WalkRow) → In row asset_rows
      → is_wanted (asset_spec max_hops as_of limit) db row ≡ ok true
      → ¬ In row.node_id process_ids
      → IsAsset row.node_id × IsWithin row.node_id
  unfolding asset_spec
  row-IsWithin keys row m wanted apart =
      let (route, d) = (walk_iff (λ path. path) asset_hops process_ids max_hops row).0 m in
      let seed = Route-seed (λ path. path) asset_hops process_ids row route in
      let known = row-IsReadable (asset_spec max_hops as_of limit) process_ids db keys row m in
      let away =
        λ (e : row.node_id ≡ row.origin). apart (subst (λ z. In z process_ids) (sym e) seed) in
      (
        wanted-IsAsset row known wanted,
        (
          row.origin,
          seed,
          (walk_reaches asset_hops process_ids max_hops row.origin row.node_id seed away).0
              (row, m, refl, refl),
        ),
      )

  within_row :
      (id : ℕ)
      → ¬ In id process_ids
      → IsWithin id
      → (row : WalkRow) × In row asset_rows × (row.node_id ≡ id)
  within_row id apart (from, seed, near) =
      let away = λ (e : id ≡ from). apart (subst (λ z. In z process_ids) (sym e) seed) in
      let (row, i, o, same) =
        (walk_reaches asset_hops process_ids max_hops from id seed away).1 near in
      (row, i, same)

  -- Where the ends of each relationship are known nodes, with max_hops and the limit at least one,
  -- and the limit no less than the number of rows that the recursive query finds,
  -- assets_within_hops returns on unchanging tables, and a node that is none of the given
  -- processes is in its answer exactly if it is an asset to which a walk of max_hops edges or
  -- fewer, over the current relationships of the discovery types, leads from one of the processes.
  pub assets_within_hops_iff :
      HasNodes db
      → 1 ≤ max_hops
      → 1 ≤ limit
      → length asset_rows ≤ limit
      → (id : ℕ) → ¬ In id process_ids
      → (reaches : List AssetReach) × (assets_within_hops process_ids max_hops as_of limit db db
          ≡ ok reaches)
        × (IsReached reaches id ↔ (IsAsset id × IsWithin id))
  unfolding assets_within_hops asset_spec reaches_of
  assets_within_hops_iff keys hops rows enough id apart =
      let (paths, e, sound, full) =
        traverse_all (asset_spec max_hops as_of limit) process_ids db keys enough in
      let valid =
        traverse_validated_all (asset_spec max_hops as_of limit) process_ids db hops rows in
      let grouped = group_paths paths [] in
      (
        sort_by comes_first grouped,
        ap reaches_of (valid ∙ e),
        (
          λ (reach, m, same).
              elim ((group_paths_iff paths [] id).0
                (reach, In-sort comes_first reach grouped m, same)) [
                  | inr (r, n, k) ↦ elim n [ ]
                  | inl (path, i, (node, f, k)) ↦
                      let (row, j, wanted, (first, (last, g, h))) = sound path i in
                      let same_end : last ≡ node = cc in
                      let here : row.node_id ≡ id =
                        sym h ∙ ap (λ (n : GraphNode). n.node_id) same_end ∙ k in
                      subst (λ z. IsAsset z × IsWithin z) here
                        (row-IsWithin keys row j wanted
                          (λ l. apart (subst (λ z. In z process_ids) here l)))
                ],
          λ (is_asset, near).
              let (row, i, here) = within_row id apart near in
              let wanted = IsAsset-wanted row (subst IsAsset (sym here) is_asset) in
              let (path, j, (first, (last, g, h))) = full row i wanted in
              let (reach, m, same) =
                (group_paths_iff paths [] id).1 (inl (path, j, (last, g, h ∙ here))) in
              (reach, sort-In comes_first reach grouped m, same),
        ),
      )
