-- ===== src/Ontology/Archetypes/Reach.antt =====
-- Where the transitions of archetypes.py lead.
use econiq_ai.Prelude.{
  ◌≡◌, refl, sym, ap, ◌∙◌, subst, inl, inr, true, some, List, [], ◌∷◌, Result, ok, err, In, drop,
  if◌then◌else◌,
}
use econiq_ai.Prelude.Membership.{any-In}
use econiq_ai.Ontology.Labels.{
  ProcessArchetype, infrastructure_s_curve, commodity_supply_cycle, industrial_bottleneck,
  regulatory_implementation, business_model_disruption, ProcessStateLabel, same_state,
  same_state_iff, discovery, weak_demand, constraint_emerging, announced, trigger,
}
use econiq_ai.Ontology.Archetypes.Tables.{is_member, targets, linear}
use econiq_ai.Ontology.Archetypes.{
  StateMachine, post_init, initial_state, terminal_states, allows, can_transition, sequence_of,
  is_cyclical, state_machine,
}

-- A run of transitions that `can_transition` grants.
pub data Reaches : StateMachine → ProcessStateLabel → ProcessStateLabel → Type 0 where
  stay : {m : StateMachine} {s : ProcessStateLabel} → Reaches m s s
  move :
      {m : StateMachine} {s u t : ProcessStateLabel}
      → can_transition m s u ≡ ok true
      → Reaches m u t
      → Reaches m s t

pub join :
    {m : StateMachine} {s u t : ProcessStateLabel} → Reaches m s u → Reaches m u t → Reaches m s t
join stay q = q
join (move e p) q = move e (join p q)

-- Each state of a list may go to the next.
abbrev pub IsPath : StateMachine → List ProcessStateLabel → Type 0
IsPath m [] = Unit
IsPath m (x ∷ []) = Unit
IsPath m (x ∷ y ∷ rest) = (can_transition m x y ≡ ok true) × IsPath m (y ∷ rest)

abbrev pub last_of : ProcessStateLabel → List ProcessStateLabel → ProcessStateLabel
last_of x [] = x
last_of x (y ∷ rest) = last_of y rest

path-Reaches :
    (m : StateMachine) (x : ProcessStateLabel) (xs : List ProcessStateLabel)
    → IsPath m (x ∷ xs)
    → (t : ProcessStateLabel) → In t (x ∷ xs)
    → Reaches m x t × Reaches m t (last_of x xs)
path-Reaches m x [] p t (inl e) = subst (λ s. Reaches m x s × Reaches m s x) (sym e) (stay, stay)
path-Reaches m x [] p t (inr h) = elim h [ ]
path-Reaches m x (y ∷ rest) (e, p) t (inl q) =
    let (there, end) = path-Reaches m y rest p y (inl refl) in
    subst (λ s. Reaches m x s × Reaches m s (last_of y rest)) (sym q) (stay, move e end)
path-Reaches m x (y ∷ rest) (e, p) t (inr h) =
    let (there, end) = path-Reaches m y rest p t h in (move e there, end)

is_member-In :
    (s : ProcessStateLabel) (xs : List ProcessStateLabel) → is_member s xs ≡ true → In s xs
is_member-In s xs h =
    let (x, m, e) = any-In (λ x. same_state s x) xs h in
    subst (λ y. In y xs) (sym ((same_state_iff s x).0 e)) m

-- The first state of each archetype and the last.
abbrev pub first_state : ProcessArchetype → ProcessStateLabel
first_state infrastructure_s_curve = discovery
first_state commodity_supply_cycle = weak_demand
first_state industrial_bottleneck = constraint_emerging
first_state regulatory_implementation = announced
first_state business_model_disruption = trigger

abbrev later_states : ProcessArchetype → List ProcessStateLabel
later_states a = drop 1 (sequence_of a)

abbrev pub final_state : ProcessArchetype → ProcessStateLabel
final_state a = last_of (first_state a) (later_states a)

-- The machine of an archetype.
abbrev IsAsDeclared : ProcessArchetype → StateMachine → Type 0
IsAsDeclared a m =
    (state_machine a ≡ ok m)
    × (m.sequence ≡ first_state a ∷ later_states a)
    × IsPath m (first_state a ∷ later_states a)
    × (initial_state m ≡ some (first_state a))
    × (terminal_states m ≡ (if is_cyclical a then [] else final_state a ∷ []))

as_declared : (a : ProcessArchetype) → (m : StateMachine) × IsAsDeclared a m
unfolding state_machine post_init linear initial_state terminal_states can_transition targets
as_declared infrastructure_s_curve =
    (_, (refl, refl, (refl, (refl, (refl, (refl, (refl, tt))))), refl, refl))
as_declared commodity_supply_cycle =
    (_, (refl, refl, (refl, (refl, (refl, (refl, (refl, (refl, (refl, tt))))))), refl, refl))
as_declared industrial_bottleneck =
    (_, (refl, refl, (refl, (refl, (refl, (refl, (refl, tt))))), refl, refl))
as_declared regulatory_implementation =
    (_, (refl, refl, (refl, (refl, (refl, (refl, (refl, (refl, tt)))))), refl, refl))
as_declared business_model_disruption =
    (_, (refl, refl, (refl, (refl, (refl, (refl, (refl, (refl, tt)))))), refl, refl))

-- Every archetype has a machine with an initial state, whose terminal states are its last state
-- alone, or none where it is cyclical.
state_machine-total :
    (a : ProcessArchetype)
    → (m : StateMachine) × (state_machine a ≡ ok m)
      × (initial_state m ≡ some (first_state a))
      × (terminal_states m ≡ (if is_cyclical a then [] else final_state a ∷ []))
state_machine-total a =
    let (m, (made, states, path, start, ends)) = as_declared a in (m, made, start, ends)

machine_of : Result StateMachine → StateMachine → StateMachine
machine_of (ok m) d = m
machine_of (err e) d = d

-- In the machine of an archetype, every state that it allows is reached from its first state, and
-- its last state is reached from there.
state_machine-Reaches :
    (a : ProcessArchetype) (m : StateMachine)
    → state_machine a ≡ ok m
    → (t : ProcessStateLabel) → allows m t ≡ true
    → Reaches m (first_state a) t × Reaches m t (final_state a)
unfolding allows machine_of
state_machine-Reaches a m is_made t h =
    let (n, (made, states, path, start, ends)) = as_declared a in
    let same : n ≡ m = ap (λ r. machine_of r n) (sym made ∙ is_made) in
    subst (λ k. Reaches k (first_state a) t × Reaches k t (final_state a)) same
      (path-Reaches n (first_state a) (later_states a) path t (
        is_member-In t (first_state a ∷ later_states a) (
          subst (λ xs. is_member t xs ≡ true) states
            (subst (λ k. is_member t k.sequence ≡ true) (sym same) h))))
