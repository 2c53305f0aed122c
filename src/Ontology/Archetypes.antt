-- ===== src/Ontology/Archetypes.antt =====
-- archetypes.py: `StateMachine`, the tables of transitions, and the machine of each archetype.
-- A set of states is the list of its members.
pub mod Tables
pub mod Reach
pub mod Positions
pub mod Adjacent
use econiq_ai.Prelude.{
  ℕ, zero, suc, ◌+◌, ◌-◌, ◌%◌, ◌≡◌, Bool, true, false, not, ◌&&◌, ◌||◌, Option, none, some, List,
  [], ◌∷◌, ◌++◌, value_error, Result, ok, err, ltb, leb, if◌then◌else◌, all, any, filter, length,
  get_elem?,
}
use econiq_ai.Ontology.Labels.{
  ProcessArchetype, infrastructure_s_curve, commodity_supply_cycle, industrial_bottleneck,
  regulatory_implementation, business_model_disruption, ProcessStateLabel, same_state, discovery,
  early_adoption, acceleration, infrastructure_expansion, saturation, maturity, weak_demand,
  demand_recovery, inventory_draw, supply_tightness, price_acceleration, supply_response,
  oversupply, downcycle, constraint_emerging, constraint_binding, response_mobilization, buildout,
  capacity_delivery, constraint_relieved, announced, enacted, rulemaking, implementation,
  compliance_buildout, enforcement, normalization, trigger, experimentation, behavior_shift,
  substitution, incumbent_response, reallocation, new_equilibrium,
}
use Tables.{Table, is_member, targets, linear}

pub record StateMachine : Type 0 where
  pub archetype : ProcessArchetype
  pub sequence : List ProcessStateLabel
  pub transitions : Table
  pub cyclical : Bool

-- `__post_init__`: the transitions stay inside the sequence, or `ValueError`.
abbrev row_inside : List ProcessStateLabel → ProcessStateLabel × List ProcessStateLabel → Bool
row_inside sequence (origin, reached) =
    is_member origin sequence && all (λ t. is_member t sequence) reached

unfoldable pub post_init : StateMachine → Result StateMachine
post_init m = if all (row_inside m.sequence) m.transitions then ok m else err value_error

unfoldable pub initial_state : StateMachine → Option ProcessStateLabel
initial_state m = get_elem? m.sequence 0

abbrev is_nil : List ProcessStateLabel → Bool
is_nil [] = true
is_nil (x ∷ xs) = false

unfoldable pub terminal_states : StateMachine → List ProcessStateLabel
terminal_states m = filter (λ s. is_nil (targets s m.transitions)) m.sequence

unfoldable pub allows : StateMachine → ProcessStateLabel → Bool
allows m s = is_member s m.sequence

unfoldable pub require : StateMachine → ProcessStateLabel → Result (Unit {0})
unfolding allows
require m s = if allows m s then ok tt else err value_error

-- `list.index`
position_from : ℕ → ProcessStateLabel → List ProcessStateLabel → Option ℕ
position_from i s [] = none
position_from i s (x ∷ xs) = if same_state x s then some i else position_from (suc i) s xs

unfoldable pub ordinal : StateMachine → ProcessStateLabel → Result ℕ
unfolding position_from
ordinal m s = elim (position_from 0 s m.sequence) [ none ↦ err value_error | some i ↦ ok i ]

unfoldable pub can_transition : StateMachine → ProcessStateLabel → ProcessStateLabel → Result Bool
unfolding require
can_transition m origin target = elim (require m origin) [
  | err e ↦ err e
  | ok _ ↦ elim (require m target) [
    | err e ↦ err e
    | ok _ ↦ ok (is_member target (targets origin m.transitions))
  ]
]

-- `idx - step` and `idx + step`, wrapped by Python's `%` or left out where they miss the sequence.
unfoldable pub position_back : StateMachine → ℕ → ℕ → Option ℕ
position_back m idx step =
    let n = length m.sequence in
    if m.cyclical
    then some ((idx + (n - step % n)) % n)
    else if leb step idx
    then some (idx - step)
    else none

unfoldable pub position_ahead : StateMachine → ℕ → ℕ → Option ℕ
position_ahead m idx step =
    let n = length m.sequence in
    if m.cyclical
    then some ((idx + step) % n)
    else if ltb (idx + step) n
    then some (idx + step)
    else none

-- The state at a position, if there is one.
unfoldable pub state_at : StateMachine → Option ℕ → Option ProcessStateLabel
state_at m none = none
state_at m (some i) = get_elem? m.sequence i

unfoldable pub consider :
    ProcessStateLabel → Option ProcessStateLabel → List ProcessStateLabel → List ProcessStateLabel
consider state none out = out
consider state (some candidate) out =
    if same_state candidate state || is_member candidate out then out else out ++ candidate ∷ []

-- The loop over `step` and `offset`, with `left` steps to go after `step`.
unfoldable pub adjacent_loop :
    StateMachine → ProcessStateLabel → ℕ → ℕ → ℕ → List ProcessStateLabel → List ProcessStateLabel
unfolding consider state_at
adjacent_loop m state idx step zero out = out
adjacent_loop m state idx step (suc left) out = adjacent_loop m state idx (suc step) left (
    consider state (state_at m (position_ahead m idx step))
      (consider state (state_at m (position_back m idx step)) out))

unfoldable pub adjacent_states :
    StateMachine → ProcessStateLabel → ℕ → Result (List ProcessStateLabel)
unfolding ordinal adjacent_loop
adjacent_states m state distance =
    if ltb distance 1 then err value_error else elim (ordinal m state) [
      | err e ↦ err e
      | ok idx ↦ ok (adjacent_loop m state idx 1 distance [])
    ]

abbrev pub s_curve : List ProcessStateLabel
s_curve =
    discovery ∷ early_adoption ∷ acceleration ∷ infrastructure_expansion ∷ saturation ∷ maturity
    ∷ []

abbrev pub commodity : List ProcessStateLabel
commodity =
    weak_demand ∷ demand_recovery ∷ inventory_draw ∷ supply_tightness ∷ price_acceleration
    ∷ supply_response ∷ oversupply ∷ downcycle ∷ []

abbrev pub bottleneck : List ProcessStateLabel
bottleneck =
    constraint_emerging ∷ constraint_binding ∷ response_mobilization ∷ buildout ∷ capacity_delivery
    ∷ constraint_relieved ∷ []

abbrev pub regulatory : List ProcessStateLabel
regulatory =
    announced ∷ enacted ∷ rulemaking ∷ implementation ∷ compliance_buildout ∷ enforcement
    ∷ normalization ∷ []

abbrev pub disruption : List ProcessStateLabel
disruption =
    trigger ∷ experimentation ∷ behavior_shift ∷ substitution ∷ incumbent_response ∷ reallocation
    ∷ new_equilibrium ∷ []

-- The sequence, the extra edges and the cyclical flag of each entry of `STATE_MACHINES`.
abbrev pub sequence_of : ProcessArchetype → List ProcessStateLabel
sequence_of infrastructure_s_curve = s_curve
sequence_of commodity_supply_cycle = commodity
sequence_of industrial_bottleneck = bottleneck
sequence_of regulatory_implementation = regulatory
sequence_of business_model_disruption = disruption

abbrev pub extra_of : ProcessArchetype → Table
extra_of infrastructure_s_curve = (acceleration, saturation ∷ []) ∷ []
extra_of commodity_supply_cycle = (downcycle, weak_demand ∷ []) ∷ []
extra_of industrial_bottleneck = (buildout, capacity_delivery ∷ response_mobilization ∷ []) ∷ []
extra_of regulatory_implementation = (implementation, compliance_buildout ∷ rulemaking ∷ []) ∷ []
extra_of business_model_disruption = []

abbrev pub is_cyclical : ProcessArchetype → Bool
is_cyclical commodity_supply_cycle = true
is_cyclical _ = false

unfoldable pub state_machine : ProcessArchetype → Result StateMachine
unfolding linear post_init
state_machine a = elim (linear (sequence_of a) (extra_of a)) [
  | err e ↦ err e
  | ok table ↦ post_init (record {
    archetype = a;
    sequence = sequence_of a;
    transitions = table;
    cyclical = is_cyclical a;
  })
]
