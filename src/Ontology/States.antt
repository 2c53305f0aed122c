-- ===== src/Ontology/States.antt =====
-- base.py and process_layer.py: the validators of `Entity`, `TemporalObservation`, `Process` and
-- `ProcessState`, each by the fields that it reads. A belief's number is not read.
pub mod Accepted
use econiq_ai.Prelude.{
  ℕ, ◌≡◌, Bool, true, false, not, ◌&&◌, ◌||◌, Option, none, some, List, [], ◌∷◌, String,
  value_error, Result, ok, err, ltb, if◌then◌else◌, any, str_eq,
}
use econiq_ai.Ontology.Labels.{ProcessArchetype, ProcessStateLabel}
use econiq_ai.Ontology.Archetypes.{StateMachine, require, can_transition, state_machine}

abbrev pub is_given {ℓ} : {A : Type ℓ} → Option A → Bool
is_given none = false
is_given (some a) = true

-- `Entity`: the window of validity of a revision.
pub record Entity : Type 0 where
  pub revision : ℕ
  pub valid_from : ℕ
  pub valid_to : Option ℕ

unfoldable pub window_ordered : Entity → Result Entity
window_ordered x = elim x.valid_to [
  | none ↦ ok x
  | some end ↦ if ltb end x.valid_from then err value_error else ok x
]

unfoldable pub is_current : Entity → Bool
is_current x = not (is_given x.valid_to)

pub record TemporalObservation : Type 0 where
  pub observed_at : ℕ
  pub recorded_at : ℕ

unfoldable pub recorded_after_observed : TemporalObservation → Result TemporalObservation
recorded_after_observed x = if ltb x.recorded_at x.observed_at then err value_error else ok x

-- `ProcessStatus` of enums.py
pub data ProcessStatus : Type 0 where
  candidate active dormant invalidated merged concluded : ProcessStatus

abbrev pub is_merged : ProcessStatus → Bool
is_merged merged = true
is_merged _ = false

pub record Process : Type 0 where
  pub archetype : Option ProcessArchetype
  pub archetype_confidence : Option ℕ
  pub status : ProcessStatus
  pub merged_into : Option ℕ

unfoldable pub process_valid : Process → Result Process
process_valid p =
    if is_given p.archetype_confidence && not (is_given p.archetype)
    then err value_error
    else if is_merged p.status && not (is_given p.merged_into)
    then err value_error
    else ok p

-- The names of the features stand for the features.
pub record ProcessState : Type 0 where
  pub archetype : ProcessArchetype
  pub categorical_state : ProcessStateLabel
  pub transition_beliefs : List ProcessStateLabel
  pub feature_names : List String

-- `len(names) == len(set(names))`
abbrev pub all_distinct : List String → Bool
all_distinct [] = true
all_distinct (x ∷ xs) = not (any (λ y. str_eq x y) xs) && all_distinct xs

-- The loop over the targets of `transition_beliefs`.
unfoldable pub beliefs_legal :
    StateMachine → ProcessStateLabel → List ProcessStateLabel → Result (Unit {0})
beliefs_legal machine state [] = ok tt
beliefs_legal machine state (target ∷ rest) = elim (require machine target) [
  | err e ↦ err e
  | ok _ ↦ elim (can_transition machine state target) [
    | err e ↦ err e
    | ok true ↦ beliefs_legal machine state rest
    | ok false ↦ err value_error
  ]
]

unfoldable pub state_legal_in : StateMachine → ProcessState → Result ProcessState
unfolding beliefs_legal
state_legal_in machine p = elim (require machine p.categorical_state) [
  | err e ↦ err e
  | ok _ ↦ elim (beliefs_legal machine p.categorical_state p.transition_beliefs) [
    | err e ↦ err e
    | ok _ ↦ if all_distinct p.feature_names then ok p else err value_error
  ]
]

-- `_state_legal_for_archetype`
unfoldable pub state_legal_for_archetype : ProcessState → Result ProcessState
unfolding state_legal_in
state_legal_for_archetype p = elim (state_machine p.archetype) [
  | err e ↦ err e
  | ok machine ↦ state_legal_in machine p
]
