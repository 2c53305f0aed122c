-- ===== src/Graph/Walks/Routes.antt =====
-- The paths that a recursive query may walk, and those that come back to no node.
use econiq_ai.Prelude.{
  ℕ, suc, ◌+◌, ◌≤◌, ◌≡◌, ◌≢◌, ◌⊎◌, refl, sym, subst, ap, ◌∙◌, inl, inr, List, [], ◌∷◌, ◌++◌, arith,
  In, ==_iff, ◌==◌, Bool-cases,
}
use econiq_ai.Prelude.Membership.{In-append, In-append_left}
use econiq_ai.Graph.Walks.{Hop, WalkRow, first_row, next_row}

-- The rows that start at a seed and go on over edges to nodes that are not visited.
pub data Route (visited : List ℕ → List ℕ) (hops : List Hop) (seeds : List ℕ)
    : WalkRow → Type 0 where
  start :
      (hop : Hop) → In hop hops → In hop.from_id seeds → Route visited hops seeds (first_row hop)
  next :
      {row : WalkRow} (hop : Hop)
      → Route visited hops seeds row
      → In hop hops
      → hop.from_id ≡ row.node_id
      → ¬ In hop.to_id (visited row.path)
      → Route visited hops seeds (next_row row hop)

-- A walk of some number of edges, which may come back to its nodes.
pub data Walk (hops : List Hop) (from : ℕ) : ℕ → ℕ → Type 0 where
  stay : Walk hops from 0 from
  onward :
      {n : ℕ} {here : ℕ} (hop : Hop)
      → Walk hops from n here
      → In hop hops
      → hop.from_id ≡ here
      → Walk hops from (suc n) hop.to_id

pub Route-walk :
    (visited : List ℕ → List ℕ) (hops : List Hop) (seeds : List ℕ) (row : WalkRow)
    → Route visited hops seeds row
    → Walk hops row.origin row.depth row.node_id
unfolding first_row next_row
Route-walk visited hops seeds _ (start hop i m) = onward hop stay i refl
Route-walk visited hops seeds _ (next {row} hop r i e fresh) =
    let more : suc row.depth ≡ row.depth + 1 = omega arith in
    subst (λ n. Walk hops row.origin n hop.to_id) more
      (onward hop (Route-walk visited hops seeds row r) i e)

pub Route-seed :
    (visited : List ℕ → List ℕ) (hops : List Hop) (seeds : List ℕ) (row : WalkRow)
    → Route visited hops seeds row
    → In row.origin seeds
unfolding first_row next_row
Route-seed visited hops seeds _ (start hop i m) = m
Route-seed visited hops seeds _ (next {row} hop r i e fresh) = Route-seed visited hops seeds row r

-- The path starts at its origin and does not come back to it.
abbrev pub IsClean : WalkRow → Type 0
IsClean row = (rest : List ℕ) × (row.path ≡ row.origin ∷ rest) × ¬ In row.origin rest

-- Paths that come back to no node.
abbrev pub Simple : List Hop → List ℕ → WalkRow → Type 0
Simple = Route (λ path. path)

first_row-IsClean : (hop : Hop) → hop.from_id ≢ hop.to_id → IsClean (first_row hop)
unfolding first_row
first_row-IsClean hop apart =
    (hop.to_id ∷ [], refl, λ m. elim m [ inl e ↦ apart e | inr n ↦ elim n [ ] ])

next_row-IsClean :
    (row : WalkRow) (hop : Hop) → IsClean row → ¬ In hop.to_id row.path → IsClean (next_row row hop)
unfolding next_row
next_row-IsClean row hop (rest, e, clean) fresh = (
  rest ++ (hop.to_id ∷ []),
  rw e refl,
  λ m. elim (In-append row.origin rest (hop.to_id ∷ []) m) [
    | inl i ↦ clean i
    | inr (inl same) ↦ fresh (subst (λ p. In hop.to_id p) (sym e) (inl (sym same)))
    | inr (inr none_left) ↦ elim none_left [ ]
  ],
)

In-dec : (x : ℕ) (l : List ℕ) → In x l ⊎ ¬ In x l
In-dec x [] = inr (λ m. elim m [ ])
In-dec x (y ∷ l) = elim (Bool-cases (x == y)) [
  | inl e ↦ inl (inl ((==_iff x y).0 e))
  | inr e ↦ elim (In-dec x l) [
    | inl m ↦ inl (inr m)
    | inr n ↦ inr (λ m. elim m [ inl same ↦ cc ((==_iff x y).1 same) | inr i ↦ n i ])
  ]
]

module _ (hops : List Hop) (seeds : List ℕ) where
  -- A simple path to a node, from an origin.
  abbrev pub LeadsTo : ℕ → ℕ → ℕ → Type 0
  LeadsTo from to most =
      (row : WalkRow) × Simple hops seeds row
      × (row.origin ≡ from)
      × (row.node_id ≡ to)
      × (row.depth ≤ most)
      × IsClean row

  from_origin :
      (row : WalkRow) → Simple hops seeds row → (rest : List ℕ) × (row.path ≡ row.origin ∷ rest)
  unfolding first_row next_row
  from_origin _ (start hop i m) = (hop.to_id ∷ [], refl)
  from_origin _ (next {row} hop r i e fresh) =
      let (rest, p) = from_origin row r in
      (rest ++ (hop.to_id ∷ []), ap (λ (l : List ℕ). l ++ (hop.to_id ∷ [])) p)

  IsClean-back :
      (row : WalkRow) (hop : Hop) → Simple hops seeds row → IsClean (next_row row hop) → IsClean row
  unfolding next_row
  IsClean-back row hop r (rest', e', clean) =
      let (rest, e) = from_origin row r in
      let same : rest ++ (hop.to_id ∷ []) ≡ rest' =
        cc (ap (λ (l : List ℕ). l ++ (hop.to_id ∷ [])) e) in
      (
        rest,
        e,
        λ m.
            clean (
              subst (λ l. In row.origin l) same
                (In-append_left row.origin rest (hop.to_id ∷ []) m)),
      )

  -- The part of a path up to one of its nodes.
  cut :
      (v : ℕ) (row : WalkRow)
      → Simple hops seeds row
      → IsClean row
      → In v row.path
      → v ≢ row.origin
      → LeadsTo row.origin v row.depth
  unfolding first_row next_row
  cut v _ (start hop i m) clean (inl e) apart = absurd (apart e)
  cut v _ (start hop i m) clean (inr (inl e)) apart =
      (first_row hop, start hop i m, refl, sym e, omega arith, clean)
  cut v _ (start hop i m) clean (inr (inr n)) apart = elim n [ ]
  cut v _ (next {row} hop r i e fresh) clean m apart =
      elim (In-append v row.path (hop.to_id ∷ []) m) [
        | inl j ↦
            let (row', r', o, n, le, clean') = cut v row r (IsClean-back row hop r clean) j apart in
            (row', r', o, n, omega arith, clean')
        | inr (inl same) ↦
            (next_row row hop, next hop r i e fresh, refl, sym same, omega arith, clean)
        | inr (inr n) ↦ elim n [ ]
      ]

  extend :
      (from most : ℕ) (row : WalkRow) (hop : Hop)
      → Simple hops seeds row
      → row.origin ≡ from
      → hop.from_id ≡ row.node_id
      → row.depth ≤ most
      → IsClean row
      → In hop hops
      → hop.to_id ≢ from
      → LeadsTo from hop.to_id (suc most)
  unfolding next_row
  extend from most row hop r o e le clean i apart = elim (In-dec hop.to_id row.path) [
    | inl m ↦
        let (row', r', o', n, le', clean') =
          cut hop.to_id row r clean m (λ same. apart (same ∙ o)) in
        (row', r', o' ∙ o, n, omega arith, clean')
    | inr fresh ↦ (
      next_row row hop,
      next hop r i e fresh,
      o,
      refl,
      omega arith,
      next_row-IsClean row hop clean fresh,
    )
  ]

  -- What a walk reaches, a path that comes back to no node reaches in as many edges at most.
  pub Walk-LeadsTo :
      (from n to : ℕ) → Walk hops from n to → In from seeds → (to ≡ from) ⊎ LeadsTo from to n
  unfolding first_row
  Walk-LeadsTo from _ _ stay m = inl refl
  Walk-LeadsTo from _ _ (onward {n} {here} hop w i e) m = elim (Bool-cases (hop.to_id == from)) [
    | inl home ↦ inl ((==_iff hop.to_id from).0 home)
    | inr away ↦
        let apart : hop.to_id ≢ from = ground arith in
        elim (Walk-LeadsTo from n here w m) [
          | inl at ↦
              let leaves : hop.from_id ≡ from = e ∙ at in
              inr (
                first_row hop,
                start hop i (subst (λ z. In z seeds) (sym leaves) m),
                leaves,
                refl,
                omega arith,
                first_row-IsClean hop (λ same. apart (sym same ∙ leaves)),
              )
          | inr (row, r, o, at, le, clean) ↦
              inr (extend from n row hop r o (e ∙ sym at) le clean i apart)
        ]
  ]
