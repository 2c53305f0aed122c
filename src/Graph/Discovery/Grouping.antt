-- ===== src/Graph/Discovery/Grouping.antt =====
-- queries.py: `assets_within_hops` groups the paths by their ends.
use econiq_ai.Prelude.{
  ℕ, ◌≡◌, ◌↔◌, ◌⊎◌, refl, sym, ◌∙◌, ap, subst, inl, inr, Bool-cases, some, List, [], ◌∷◌, ◌==◌,
  ==_iff, In, Option-cases,
}
use econiq_ai.Graph.Queries.{GraphNode, GraphPath, end_of}
use econiq_ai.Graph.Discovery.{AssetReach, add_path, add_to_end, group_paths}

-- An entry for the node.
abbrev pub IsReached : List AssetReach → ℕ → Type 0
IsReached reaches id = (reach : AssetReach) × In reach reaches × (reach.asset_node.node_id ≡ id)

abbrev pub HasEnd : GraphPath → ℕ → Type 0
HasEnd path id = (node : GraphNode) × (end_of path ≡ some node) × (node.node_id ≡ id)

abbrev pub SomeEnd : List GraphPath → ℕ → Type 0
SomeEnd paths id = (path : GraphPath) × In path paths × HasEnd path id

add_path_iff :
    (end : GraphNode) (path : GraphPath) (grouped : List AssetReach) (id : ℕ)
    → IsReached (add_path end path grouped) id ↔ ((end.node_id ≡ id) ⊎ IsReached grouped id)
unfolding add_path
add_path_iff end path [] id = (
  λ (reach, m, e). elim m [
    | inl same ↦ inl (sym (ap (λ (r : AssetReach). r.asset_node.node_id) same) ∙ e)
    | inr n ↦ elim n [ ]
  ],
  λ s. elim s [
    | inl e ↦ (record { asset_node = end; paths = path ∷ [] }, inl refl, e)
    | inr (reach, n, e) ↦ elim n [ ]
  ],
)
add_path_iff end path (first ∷ rest) id =
    let (back, forward) = add_path_iff end path rest id in
    elim (Bool-cases (first.asset_node.node_id == end.node_id)) [
      | inl t ↦ rw t (
        λ (reach, m, e). elim m [
          | inl same ↦
              inr (first, inl refl, sym (ap (λ (r : AssetReach). r.asset_node.node_id) same) ∙ e)
          | inr i ↦ inr (reach, inr i, e)
        ],
        λ s. elim s [
          | inl e ↦ (_, inl refl, (==_iff first.asset_node.node_id end.node_id).0 t ∙ e)
          | inr (reach, inl same, e) ↦
              (_, inl refl, sym (ap (λ (r : AssetReach). r.asset_node.node_id) same) ∙ e)
          | inr (reach, inr i, e) ↦ (reach, inr i, e)
        ],
      )
      | inr f ↦ rw f (
        λ (reach, m, e). elim m [
          | inl same ↦ inr (reach, inl same, e)
          | inr i ↦ elim (back (reach, i, e)) [
            | inl end_id ↦ inl end_id
            | inr (r, j, k) ↦ inr (r, inr j, k)
          ]
        ],
        λ s. elim s [
          | inl e ↦ let (r, j, k) = forward (inl e) in (r, inr j, k)
          | inr (reach, inl same, e) ↦ (reach, inl same, e)
          | inr (reach, inr i, e) ↦ let (r, j, k) = forward (inr (reach, i, e)) in (r, inr j, k)
        ],
      )
    ]

add_to_end_iff :
    (path : GraphPath) (grouped : List AssetReach) (id : ℕ)
    → IsReached (add_to_end path (end_of path) grouped) id ↔ (HasEnd path id ⊎ IsReached grouped id)
unfolding add_to_end
add_to_end_iff path grouped id = elim (Option-cases (end_of path)) [
  | inl e ↦ rw e (λ r. inr r, λ s. elim s [ inl (node, n, k) ↦ absurd (cc) | inr r ↦ r ])
  | inr (end, e) ↦
      let (back, forward) = add_path_iff end path grouped id in
      rw e (
        λ r. elim (back r) [ inl k ↦ inl (end, refl, k) | inr g ↦ inr g ],
        λ s. elim s [
          | inl (node, n, k) ↦
              let same : end ≡ node = cc in
              forward (inl (ap (λ (x : GraphNode). x.node_id) same ∙ k))
          | inr g ↦ forward (inr g)
        ],
      )
]

pub group_paths_iff :
    (paths : List GraphPath) (grouped : List AssetReach) (id : ℕ)
    → IsReached (group_paths paths grouped) id ↔ (SomeEnd paths id ⊎ IsReached grouped id)
unfolding group_paths
group_paths_iff [] grouped id =
    (λ r. inr r, λ s. elim s [ inl (path, n, e) ↦ elim n [ ] | inr r ↦ r ])
group_paths_iff (path ∷ paths) grouped id =
    let (back, forward) = group_paths_iff paths (add_to_end path (end_of path) grouped) id in
    let (one_back, one) = add_to_end_iff path grouped id in
    (
      λ r. elim (back r) [
        | inl (p, m, e) ↦ inl (p, inr m, e)
        | inr g ↦ elim (one_back g) [ inl e ↦ inl (path, inl refl, e) | inr old ↦ inr old ]
      ],
      λ s. elim s [
        | inl (p, inl same, e) ↦ forward (inr (one (inl (subst (λ q. HasEnd q id) same e))))
        | inl (p, inr m, e) ↦ forward (inl (p, m, e))
        | inr old ↦ forward (inr (one (inr old)))
      ],
    )
