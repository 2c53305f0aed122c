-- ===== src/Ontology/Requirement/Satisfied.antt =====
-- When a set of capabilities satisfies a requirement of process_layer.py.
use econiq_ai.Prelude.{ℕ, ◌≡◌, refl, inl, true, List, In, arith}
use econiq_ai.Prelude.Membership.{In-append_left, In-append_right}
use econiq_ai.Ontology.Requirement.{
  RequirementNode, RequirementNodes, capability_leaf, requirement_group, no_node, a_node,
  and_operator, or_operator, available_in, capability_ids, children_ids, satisfied, all_required,
  any_required, CapabilityRequirement, is_satisfied_by,
}

-- Among the ids of a list, what `xs` offers is offered by `ys`.
abbrev pub Offers : List ℕ → List ℕ → List ℕ → Type 0
Offers ids xs ys = (i : ℕ) → In i ids → available_in i xs ≡ true → available_in i ys ≡ true

mutual
  unfolding satisfied capability_ids

  pub satisfied_mono :
      (n : RequirementNode) (xs ys : List ℕ)
      → Offers (capability_ids n) xs ys
      → satisfied n xs ≡ true
      → satisfied n ys ≡ true
  satisfied_mono (capability_leaf i n w) xs ys more h = more i (inl refl) h
  satisfied_mono (requirement_group and_operator cs n w) xs ys more h =
      ground (arith, all_required_mono cs xs ys more)
  satisfied_mono (requirement_group or_operator cs n w) xs ys more h =
      ground (arith, any_required_mono cs xs ys more)

  pub all_required_mono :
      (cs : RequirementNodes) (xs ys : List ℕ)
      → Offers (children_ids cs) xs ys
      → all_required cs xs ≡ true
      → all_required cs ys ≡ true
  all_required_mono no_node xs ys more h = refl
  all_required_mono (a_node c cs) xs ys more h = ground (
    arith,
    satisfied_mono c xs ys
        (λ i m. more i (In-append_left i (capability_ids c) (children_ids cs) m)),
    all_required_mono cs xs ys
        (λ i m. more i (In-append_right i (capability_ids c) (children_ids cs) m)),
  )

  pub any_required_mono :
      (cs : RequirementNodes) (xs ys : List ℕ)
      → Offers (children_ids cs) xs ys
      → any_required cs xs ≡ true
      → any_required cs ys ≡ true
  any_required_mono no_node xs ys more h = h
  any_required_mono (a_node c cs) xs ys more h = ground (
    arith,
    satisfied_mono c xs ys
        (λ i m. more i (In-append_left i (capability_ids c) (children_ids cs) m)),
    any_required_mono cs xs ys
        (λ i m. more i (In-append_right i (capability_ids c) (children_ids cs) m)),
  )

-- If a set of capabilities satisfies a requirement, so does every set that offers at least the
-- same of the capabilities that the tree names.
is_satisfied_by_mono :
    (r : CapabilityRequirement) (xs ys : List ℕ)
    → Offers (capability_ids r.root) xs ys
    → is_satisfied_by r xs ≡ true
    → is_satisfied_by r ys ≡ true
unfolding is_satisfied_by
is_satisfied_by_mono r xs ys more h = satisfied_mono r.root xs ys more h
