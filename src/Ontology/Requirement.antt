-- ===== src/Ontology/Requirement.antt =====
-- process_layer.py: the tree of capabilities that a bottleneck or a process requires.
-- A weight is a number of units, the same unit for the whole tree, and a coverage is an exact
-- fraction, where the source computes both in floating point.
pub mod Satisfied
pub mod Coverage
use econiq_ai.Prelude.{
  ℕ, zero, suc, ◌+◌, ◌*◌, ◌≡◌, Bool, true, false, not, ◌&&◌, ◌||◌, Option, none, some, List, [],
  ◌∷◌, ◌++◌, value_error, Result, ok, err, leb, ◌==◌, if◌then◌else◌, any, map,
}

-- `LogicOperator` and `Necessity` of enums.py
pub data LogicOperator : Type 0 where
  and_operator or_operator : LogicOperator

pub data Necessity : Type 0 where
  required optional : Necessity

-- `RequirementNode`: a `CapabilityLeaf` of an id, a necessity and a weight, or a
-- `RequirementGroup` of an operator, children, a necessity and a weight. That a group has a child
-- (`min_length=1`) is not needed here.
mutual
  pub data RequirementNode : Type 0 where
    capability_leaf : ℕ → Necessity → ℕ → RequirementNode
    requirement_group : LogicOperator → RequirementNodes → Necessity → ℕ → RequirementNode

  pub data RequirementNodes : Type 0 where
    no_node : RequirementNodes
    a_node : RequirementNode → RequirementNodes → RequirementNodes

abbrev pub is_required : RequirementNode → Bool
is_required (capability_leaf i required w) = true
is_required (capability_leaf i optional w) = false
is_required (requirement_group op cs required w) = true
is_required (requirement_group op cs optional w) = false

abbrev pub weight_of : RequirementNode → ℕ
weight_of (capability_leaf i n w) = w
weight_of (requirement_group op cs n w) = w

-- `frozenset.__contains__`
abbrev pub available_in : ℕ → List ℕ → Bool
available_in i available = any (λ j. i == j) available

-- `_iter_leaves`, with the id of each leaf: `capability_ids`.
unfoldable mutual
  pub capability_ids : RequirementNode → List ℕ
  capability_ids (capability_leaf i n w) = i ∷ []
  capability_ids (requirement_group op cs n w) = children_ids cs

  pub children_ids : RequirementNodes → List ℕ
  children_ids no_node = []
  children_ids (a_node c cs) = capability_ids c ++ children_ids cs

abbrev pub has_required : RequirementNodes → Bool
has_required no_node = false
has_required (a_node c cs) = is_required c || has_required cs

-- `_satisfied`: `all_required` and `any_required` run over the children that are required.
unfoldable mutual
  pub satisfied : RequirementNode → List ℕ → Bool
  satisfied (capability_leaf i n w) available = available_in i available
  satisfied (requirement_group and_operator cs n w) available =
      if not (has_required cs) then true else all_required cs available
  satisfied (requirement_group or_operator cs n w) available =
      if not (has_required cs) then true else any_required cs available

  pub all_required : RequirementNodes → List ℕ → Bool
  all_required no_node available = true
  all_required (a_node c cs) available =
      (not (is_required c) || satisfied c available) && all_required cs available

  pub any_required : RequirementNodes → List ℕ → Bool
  any_required no_node available = false
  any_required (a_node c cs) available =
      (is_required c && satisfied c available) || any_required cs available

-- A fraction, never reduced.
pub record Fraction : Type 0 where
  pub top : ℕ
  pub bottom : ℕ

-- `a + w * b` and `max(a, b)`, for fractions `a` and `b` and a weight `w`
abbrev pub add_weighted : Fraction → ℕ → Fraction → Fraction
add_weighted a w b = record {
  top = a.top * b.bottom + w * b.top * a.bottom;
  bottom = a.bottom * b.bottom;
}

abbrev pub max_of : Fraction → Fraction → Fraction
max_of a b = if leb (b.top * a.bottom) (a.top * b.bottom) then a else b

abbrev pub total_weight : RequirementNodes → ℕ
total_weight no_node = 0
total_weight (a_node c cs) = weight_of c + total_weight cs

-- `_coverage`. The sum of `weight / total * coverage` over the children is the sum of
-- `weight * coverage` by `total`.
unfoldable mutual
  pub coverage : RequirementNode → List ℕ → Fraction
  coverage (capability_leaf i n w) available = record {
    top = if available_in i available then 1 else 0;
    bottom = 1;
  }
  coverage (requirement_group and_operator cs n w) available =
      let sum = weighted_sum cs available in
      if total_weight cs == 0
      then record { top = 0; bottom = 1 }
      else record { top = sum.top; bottom = total_weight cs * sum.bottom }
  coverage (requirement_group or_operator cs n w) available =
      let best = best_coverage cs available in
      if total_weight cs == 0 then record { top = 0; bottom = 1 } else best

  pub weighted_sum : RequirementNodes → List ℕ → Fraction
  weighted_sum no_node available = record { top = 0; bottom = 1 }
  weighted_sum (a_node c cs) available =
      add_weighted (weighted_sum cs available) (weight_of c) (coverage c available)

  pub best_coverage : RequirementNodes → List ℕ → Fraction
  best_coverage no_node available = record { top = 0; bottom = 1 }
  best_coverage (a_node c cs) available = max_of (coverage c available) (best_coverage cs available)

-- What `CapabilityRequirement` reads: the anchors and the root, with its validator.
pub record CapabilityRequirement : Type 0 where
  pub bottleneck_id : Option ℕ
  pub process_id : Option ℕ
  pub root : RequirementNode

abbrev pub is_given : Option ℕ → Bool
is_given none = false
is_given (some i) = true

unfoldable pub anchored : CapabilityRequirement → Result CapabilityRequirement
anchored r =
    if not (is_given r.bottleneck_id) && not (is_given r.process_id) then err value_error else ok r

unfoldable pub is_satisfied_by : CapabilityRequirement → List ℕ → Bool
unfolding satisfied
is_satisfied_by r ids = satisfied r.root ids

unfoldable pub coverage_of : CapabilityRequirement → List ℕ → Fraction
unfolding coverage
coverage_of r ids = coverage r.root ids
