-- ===== src/Evidence/Dependence/Pairs.antt =====
-- How `structural_dependencies` and `undecided_pairs` of dependence.py divide the pairs of events.
use econiq_ai.Prelude.{
  ℕ, ◌≡◌, refl, sym, ap, ◌∙◌, subst, inl, inr, ◌⊎◌, Bool, true, false, ◌||◌, List, [], ◌∷◌, In,
  arith, Bool-cases, if◌then◌else◌,
}
use econiq_ai.Prelude.Membership.{In-append, In-append_left, In-append_right, any_of_In}
use econiq_ai.Evidence.Dependence.{
  EvidenceItem, Dependence, shares_document, shares_publisher, finding, against_later,
  structural_dependencies, is_pair, settled, undecided_with, undecided_pairs,
}

-- `a` stands somewhere before `b`.
abbrev pub IsBefore : EvidenceItem → EvidenceItem → List EvidenceItem → Type 0
IsBefore a b [] = ⊥
IsBefore a b (x ∷ xs) = ((a ≡ x) × In b xs) ⊎ IsBefore a b xs

abbrev pub is_related : EvidenceItem → EvidenceItem → Bool
is_related a b = shares_document a b || shares_publisher a b

-- A related pair has a finding, the earlier event its source.
abbrev pub Finds : List Dependence → EvidenceItem → EvidenceItem → Type 0
Finds found a b =
    (d : Dependence) × In d found
    × (d.source_event_id ≡ a.event_id)
    × (d.dependent_event_id ≡ b.event_id)

-- What one round of the inner loop adds.
abbrev added : Bool → Bool → Dependence → Dependence → List Dependence → List Dependence
added s t d e found = if s then d ∷ found else if t then e ∷ found else found

added-keeps :
    (s t : Bool) (c d e : Dependence) (found : List Dependence)
    → In c found
    → In c (added s t d e found)
added-keeps true t c d e found m = inr m
added-keeps false true c d e found m = inr m
added-keeps false false c d e found m = m

added-adds :
    (s t : Bool) (d e : Dependence) (found : List Dependence)
    → s || t ≡ true
    → In d (added s t d e found) ⊎ In e (added s t d e found)
added-adds true t d e found h = inl (inl refl)
added-adds false true d e found h = inr (inl refl)
added-adds false false d e found h = cc

against_later-Finds :
    (a b : EvidenceItem) (rest : List EvidenceItem)
    → In b rest
    → is_related a b ≡ true
    → Finds (against_later a rest) a b
unfolding against_later
against_later-Finds a b [] m r = elim m [ ]
against_later-Finds a b (x ∷ rest) (inl same) r =
    let tail = against_later a rest in
    elim (added-adds (shares_document a x) (shares_publisher a x) (finding a x 10) (finding a x 6)
      tail (subst (λ y. is_related a y ≡ true) same r)) [
        | inl h ↦ (finding a x 10, h, refl, ap (λ (y : EvidenceItem). y.event_id) (sym same))
        | inr h ↦ (finding a x 6, h, refl, ap (λ (y : EvidenceItem). y.event_id) (sym same))
      ]
against_later-Finds a b (x ∷ rest) (inr m) r =
    let (d, inside, from, to) = against_later-Finds a b rest m r in
    (
      d,
      added-keeps (shares_document a x) (shares_publisher a x) d (finding a x 10) (finding a x 6)
          (against_later a rest) inside,
      from,
      to,
    )

structural-Finds :
    (a b : EvidenceItem) (items : List EvidenceItem)
    → IsBefore a b items
    → is_related a b ≡ true
    → Finds (structural_dependencies items) a b
unfolding structural_dependencies
structural-Finds a b [] m r = elim m [ ]
structural-Finds a b (x ∷ rest) (inl (e, m)) r =
    let (d, inside, from, to) = against_later-Finds a b rest m r in
    (
      d,
      In-append_left d (against_later x rest) (structural_dependencies rest)
          (subst (λ y. In d (against_later y rest)) e inside),
      from,
      to,
    )
structural-Finds a b (x ∷ rest) (inr m) r =
    let (d, inside, from, to) = structural-Finds a b rest m r in
    (d, In-append_right d (against_later x rest) (structural_dependencies rest) inside, from, to)

Finds-settled :
    (found : List Dependence) (a b : EvidenceItem)
    → Finds found a b
    → settled found a.event_id b.event_id ≡ true
Finds-settled found a b (d, inside, from, to) =
    any_of_In d (is_pair a.event_id b.event_id) found inside (ground arith)

undecided_with-In :
    (known : List Dependence) (a : EvidenceItem) (rest : List EvidenceItem) (p : ℕ × ℕ)
    → In p (undecided_with known a rest)
    → (b : EvidenceItem) × In b rest
      × (p ≡ (a.event_id, b.event_id))
      × (settled known a.event_id b.event_id ≡ false)
unfolding undecided_with
undecided_with-In known a [] p m = elim m [ ]
undecided_with-In known a (x ∷ rest) p m = elim (Bool-cases (settled known a.event_id x.event_id)) [
  | inl t ↦
      let (b, inside, e, f) = undecided_with-In known a rest p (rw t at m) in (b, inr inside, e, f)
  | inr t ↦ elim (skipped t) [
    | inl e ↦ (x, inl refl, e, t)
    | inr later ↦
        let (b, inside, e, f) = undecided_with-In known a rest p later in (b, inr inside, e, f)
  ]
]
  where
    skipped :
        settled known a.event_id x.event_id ≡ false
        → (p ≡ (a.event_id, x.event_id)) ⊎ In p (undecided_with known a rest)
    skipped t =
        subst
          (λ b. In p (
            if b
            then undecided_with known a rest
            else (a.event_id, x.event_id) ∷ undecided_with known a rest))
          t m

In-undecided_with :
    (known : List Dependence) (a b : EvidenceItem) (rest : List EvidenceItem)
    → In b rest
    → settled known a.event_id b.event_id ≡ false
    → In (a.event_id, b.event_id) (undecided_with known a rest)
unfolding undecided_with
In-undecided_with known a b [] m f = elim m [ ]
In-undecided_with known a b (x ∷ rest) (inl same) f =
    subst
      (λ t.
        In (a.event_id, b.event_id)
          (if t
            then undecided_with known a rest
            else (a.event_id, x.event_id) ∷ undecided_with known a rest))
      (sym (subst (λ y. settled known a.event_id y.event_id ≡ false) same f))
      (inl (ap (λ (y : EvidenceItem). (a.event_id, y.event_id)) same))
In-undecided_with known a b (x ∷ rest) (inr m) f =
    in_either (settled known a.event_id x.event_id) (In-undecided_with known a b rest m f)
  where
    in_either :
        (t : Bool)
        → In (a.event_id, b.event_id) (undecided_with known a rest)
        → In
            (a.event_id, b.event_id)
            (if t
              then undecided_with known a rest
              else (a.event_id, x.event_id) ∷ undecided_with known a rest)
    in_either true h = h
    in_either false h = inr h

undecided_pairs-In :
    (known : List Dependence) (items : List EvidenceItem) (p : ℕ × ℕ)
    → In p (undecided_pairs items known)
    → (a : EvidenceItem) × (b : EvidenceItem) × IsBefore a b items
      × (p ≡ (a.event_id, b.event_id))
      × (settled known a.event_id b.event_id ≡ false)
unfolding undecided_pairs
undecided_pairs-In known [] p m = elim m [ ]
undecided_pairs-In known (x ∷ rest) p m =
    elim (In-append p (undecided_with known x rest) (undecided_pairs rest known) m) [
      | inl h ↦
          let (b, inside, e, f) = undecided_with-In known x rest p h in
          (x, b, inl (refl, inside), e, f)
      | inr h ↦
          let (a, b, before, e, f) = undecided_pairs-In known rest p h in (a, b, inr before, e, f)
    ]

In-undecided_pairs :
    (known : List Dependence) (a b : EvidenceItem) (items : List EvidenceItem)
    → IsBefore a b items
    → settled known a.event_id b.event_id ≡ false
    → In (a.event_id, b.event_id) (undecided_pairs items known)
unfolding undecided_pairs
In-undecided_pairs known a b [] m f = elim m [ ]
In-undecided_pairs known a b (x ∷ rest) (inl (e, m)) f =
    In-append_left _ (undecided_with known x rest) (undecided_pairs rest known) (
      subst (λ y. In (a.event_id, b.event_id) (undecided_with known y rest)) e
        (In-undecided_with known a b rest m f))
In-undecided_pairs known a b (x ∷ rest) (inr m) f =
    In-append_right _ (undecided_with known x rest) (undecided_pairs rest known)
      (In-undecided_pairs known a b rest m f)

-- The pairs left to the agent after the structural pass over the same items are pairs of an
-- earlier and a later item that share no document and no publisher.
undecided_pairs-unrelated :
    (items : List EvidenceItem) (p : ℕ × ℕ)
    → In p (undecided_pairs items (structural_dependencies items))
    → (a : EvidenceItem) × (b : EvidenceItem) × IsBefore a b items
      × (p ≡ (a.event_id, b.event_id))
      × (shares_document a b ≡ false)
      × (shares_publisher a b ≡ false)
undecided_pairs-unrelated items p m =
    let (a, b, before, e, f) = undecided_pairs-In (structural_dependencies items) items p m in
    elim (Bool-cases (is_related a b)) [
      | inl t ↦ absurd (
          true_not_false (
            sym (
              Finds-settled (structural_dependencies items) a b
                (structural-Finds a b items before t))
            ∙ f))
      | inr u ↦ (a, b, before, e, ground arith, ground arith)
    ]
  where
    true_not_false : true ≡ false → ⊥
    true_not_false h = cc

-- No pair falls between the two passes: of an earlier and a later item, either the pair is left to
-- the agent, or a structural finding is about these two events.
pub undecided_pairs_complete :
    (items : List EvidenceItem) (a b : EvidenceItem)
    → IsBefore a b items
    → In (a.event_id, b.event_id) (undecided_pairs items (structural_dependencies items))
      ⊎ (settled (structural_dependencies items) a.event_id b.event_id ≡ true)
undecided_pairs_complete items a b before =
    elim (Bool-cases (settled (structural_dependencies items) a.event_id b.event_id)) [
      | inl t ↦ inr t
      | inr f ↦ inl (In-undecided_pairs (structural_dependencies items) a b items before f)
    ]
