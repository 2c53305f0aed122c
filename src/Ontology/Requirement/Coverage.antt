-- ===== src/Ontology/Requirement/Coverage.antt =====
-- The bounds of the coverage of a requirement of process_layer.py.
use native.Mathlib.Nat.{mul-le-mul_right, mul-le-mul_left, one-le-mul}
use econiq_ai.Prelude.{
  ℕ, ◌+◌, ◌*◌, ◌≤◌, ◌<◌, ◌≡◌, refl, Bool, true, false, List, ◌==◌, arith, if◌then◌else◌,
}
use econiq_ai.Ontology.Requirement.{
  RequirementNode, RequirementNodes, capability_leaf, requirement_group, no_node, a_node,
  and_operator, or_operator, weight_of, Fraction, total_weight, coverage, weighted_sum,
  best_coverage, CapabilityRequirement, coverage_of,
}

-- A fraction that is at most `n`.
abbrev pub IsAtMost : ℕ → Fraction → Type 0
IsAtMost n f = (0 < f.bottom) × (f.top ≤ n * f.bottom)

sum_step :
    (a b c d w t : ℕ)
    → 0 < b
    → a ≤ t * b
    → 0 < d
    → c ≤ 1 * d
    → (0 < b * d) × (a * d + w * c * b ≤ (w + t) * (b * d))
sum_step a b c d w t pb ab pd cd = (
  one-le-mul pb pd,
  omega (arith, mul-le-mul_right d ab, mul-le-mul_left w (mul-le-mul_right b cd)),
)

choice_IsAtMost :
    (b : Bool) (f g : Fraction)
    → IsAtMost 1 f
    → (b ≡ false → IsAtMost 1 g)
    → IsAtMost 1 (if b then f else g)
choice_IsAtMost true f g p q = p
choice_IsAtMost false f g p q = q refl

-- A sum of weights `t`, not 0, divided by them.
mean_IsAtMost :
    (t : ℕ) (f : Fraction)
    → IsAtMost t f
    → 0 < t
    → IsAtMost 1 (record { top = f.top; bottom = t * f.bottom })
mean_IsAtMost t f (p, q) positive = (one-le-mul positive p, omega (arith, q))

positive_of : (t : ℕ) → (t == 0) ≡ false → 0 < t
positive_of t e = ground arith

mutual
  unfolding coverage

  pub coverage-IsAtMost :
      (n : RequirementNode) (available : List ℕ) → IsAtMost 1 (coverage n available)
  coverage-IsAtMost (capability_leaf i n w) available = ground arith
  coverage-IsAtMost (requirement_group and_operator cs n w) available =
      choice_IsAtMost (total_weight cs == 0) _ _ (omega arith, omega arith)
        (λ e.
          mean_IsAtMost (total_weight cs) _ (weighted_sum-IsAtMost cs available) (positive_of _ e))
  coverage-IsAtMost (requirement_group or_operator cs n w) available =
      choice_IsAtMost (total_weight cs == 0) _ _ (omega arith, omega arith)
        (λ e. best_coverage-IsAtMost cs available)

  pub weighted_sum-IsAtMost :
      (cs : RequirementNodes) (available : List ℕ)
      → IsAtMost (total_weight cs) (weighted_sum cs available)
  weighted_sum-IsAtMost no_node available = (omega arith, omega arith)
  weighted_sum-IsAtMost (a_node c cs) available =
      let (ps, qs) = weighted_sum-IsAtMost cs available in
      let (p, q) = coverage-IsAtMost c available in
      sum_step _ _ _ _ (weight_of c) (total_weight cs) ps qs p q

  pub best_coverage-IsAtMost :
      (cs : RequirementNodes) (available : List ℕ) → IsAtMost 1 (best_coverage cs available)
  best_coverage-IsAtMost no_node available = (omega arith, omega arith)
  best_coverage-IsAtMost (a_node c cs) available =
      choice_IsAtMost _ _ _ (coverage-IsAtMost c available)
        (λ e. best_coverage-IsAtMost cs available)

-- The coverage of a requirement is a fraction from 0 to 1, with a denominator that is not 0.
coverage_of-bounds :
    (r : CapabilityRequirement) (ids : List ℕ)
    → (0 < (coverage_of r ids).bottom) × ((coverage_of r ids).top ≤ (coverage_of r ids).bottom)
unfolding coverage_of
coverage_of-bounds r ids = ground (arith, coverage-IsAtMost r.root ids)
