-- ===== src/Ontology/Labels.antt =====
-- The labels of archetypes.py, `ProcessStateLabel`, and the archetypes of enums.py.
use Prim.Native.Nat.{ℕ}
use mathlib.Core.Path.{◌≡◌, refl, sym, ap, ◌∙◌}
use mathlib.Core.Logic.{◌↔◌}
use mathlib.Core.Bool.{Bool, true}
use mathlib.Core.List.{List, [], ◌∷◌}
use econiq_ai.Prelude.{◌==◌, ==_iff, get_or}

pub data ProcessArchetype : Type 0 where
  infrastructure_s_curve commodity_supply_cycle industrial_bottleneck : ProcessArchetype
  regulatory_implementation business_model_disruption : ProcessArchetype

pub data ProcessStateLabel : Type 0 where
  discovery early_adoption acceleration infrastructure_expansion : ProcessStateLabel
  saturation maturity weak_demand demand_recovery : ProcessStateLabel
  inventory_draw supply_tightness price_acceleration supply_response : ProcessStateLabel
  oversupply downcycle constraint_emerging constraint_binding : ProcessStateLabel
  response_mobilization buildout capacity_delivery constraint_relieved : ProcessStateLabel
  announced enacted rulemaking implementation : ProcessStateLabel
  compliance_buildout enforcement normalization trigger : ProcessStateLabel
  experimentation behavior_shift substitution incumbent_response : ProcessStateLabel
  reallocation new_equilibrium : ProcessStateLabel

-- The position of a label in its declaration. Members of an enum are equal exactly if these are.
abbrev index_of : ProcessStateLabel → ℕ
index_of discovery = 0
index_of early_adoption = 1
index_of acceleration = 2
index_of infrastructure_expansion = 3
index_of saturation = 4
index_of maturity = 5
index_of weak_demand = 6
index_of demand_recovery = 7
index_of inventory_draw = 8
index_of supply_tightness = 9
index_of price_acceleration = 10
index_of supply_response = 11
index_of oversupply = 12
index_of downcycle = 13
index_of constraint_emerging = 14
index_of constraint_binding = 15
index_of response_mobilization = 16
index_of buildout = 17
index_of capacity_delivery = 18
index_of constraint_relieved = 19
index_of announced = 20
index_of enacted = 21
index_of rulemaking = 22
index_of implementation = 23
index_of compliance_buildout = 24
index_of enforcement = 25
index_of normalization = 26
index_of trigger = 27
index_of experimentation = 28
index_of behavior_shift = 29
index_of substitution = 30
index_of incumbent_response = 31
index_of reallocation = 32
index_of new_equilibrium = 33

all_labels : List ProcessStateLabel
all_labels =
    discovery ∷ early_adoption ∷ acceleration ∷ infrastructure_expansion ∷ saturation ∷ maturity
    ∷ weak_demand ∷ demand_recovery ∷ inventory_draw ∷ supply_tightness ∷ price_acceleration
    ∷ supply_response ∷ oversupply ∷ downcycle ∷ constraint_emerging ∷ constraint_binding
    ∷ response_mobilization ∷ buildout ∷ capacity_delivery ∷ constraint_relieved ∷ announced
    ∷ enacted ∷ rulemaking ∷ implementation ∷ compliance_buildout ∷ enforcement ∷ normalization
    ∷ trigger ∷ experimentation ∷ behavior_shift ∷ substitution ∷ incumbent_response ∷ reallocation
    ∷ new_equilibrium ∷ []

label_at : ℕ → ProcessStateLabel
unfolding all_labels
label_at i = get_or all_labels i discovery

label_at-index_of : (s : ProcessStateLabel) → label_at (index_of s) ≡ s
unfolding label_at
label_at-index_of discovery = refl
label_at-index_of _ = refl

abbrev pub same_state : ProcessStateLabel → ProcessStateLabel → Bool
same_state a b = index_of a == index_of b

pub same_state_iff : (a b : ProcessStateLabel) → (same_state a b ≡ true) ↔ (a ≡ b)
same_state_iff a b = (
  λ h. sym (label_at-index_of a) ∙ ap label_at ((==_iff _ _).0 h) ∙ label_at-index_of b,
  λ e. (==_iff _ _).1 (ap index_of e),
)
