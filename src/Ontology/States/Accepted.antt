-- ===== src/Ontology/States/Accepted.antt =====
-- Which process states the validator of process_layer.py accepts.
use econiq_ai.Prelude.{◌≡◌, refl, ◌↔◌, true, List, [], ◌∷◌, ok, In, inl, inr, arith, sym, subst}
use econiq_ai.Ontology.Labels.{ProcessStateLabel}
use econiq_ai.Ontology.Archetypes.{StateMachine, allows, require, can_transition, state_machine}
use econiq_ai.Ontology.States.{ProcessState, all_distinct, beliefs_legal, state_legal_for_archetype}

head_legal :
    (m : StateMachine) (s x : ProcessStateLabel) (rest : List ProcessStateLabel)
    → beliefs_legal m s (x ∷ rest) ≡ ok tt
    → (can_transition m s x ≡ ok true) × (beliefs_legal m s rest ≡ ok tt)
unfolding beliefs_legal
head_legal m s x rest h = ground arith

-- A transition is granted only between states of the machine.
granted-require :
    (m : StateMachine) (s x : ProcessStateLabel)
    → can_transition m s x ≡ ok true
    → require m x ≡ ok tt
unfolding can_transition
granted-require m s x h = ground arith

-- Every belief is about a transition that the machine grants.
beliefs_legal-In :
    (m : StateMachine) (s : ProcessStateLabel) (targets : List ProcessStateLabel)
    → beliefs_legal m s targets ≡ ok tt
    → (t : ProcessStateLabel) → In t targets
    → can_transition m s t ≡ ok true
unfolding beliefs_legal
beliefs_legal-In m s [] h t i = elim i [ ]
beliefs_legal-In m s (x ∷ rest) h t (inl e) =
    subst (λ y. can_transition m s y ≡ ok true) (sym e) (head_legal m s x rest h).0
beliefs_legal-In m s (x ∷ rest) h t (inr i) =
    beliefs_legal-In m s rest (head_legal m s x rest h).1 t i

In-beliefs_legal :
    (m : StateMachine) (s : ProcessStateLabel) (targets : List ProcessStateLabel)
    → ((t : ProcessStateLabel) → In t targets → can_transition m s t ≡ ok true)
    → beliefs_legal m s targets ≡ ok tt
unfolding beliefs_legal
In-beliefs_legal m s [] h = refl
In-beliefs_legal m s (x ∷ rest) h =
    let granted = h x (inl refl) in
    ground (
      arith,
      granted,
      granted-require m s x granted,
      In-beliefs_legal m s rest (λ t i. h t (inr i)),
    )

accepted_parts :
    (p : ProcessState) (m : StateMachine)
    → state_machine p.archetype ≡ ok m
    → state_legal_for_archetype p ≡ ok p
    → (allows m p.categorical_state ≡ true)
      × (beliefs_legal m p.categorical_state p.transition_beliefs ≡ ok tt)
      × (all_distinct p.feature_names ≡ true)
unfolding state_legal_for_archetype require
accepted_parts p m made h = ground arith

-- The validator of a process state accepts it exactly if its label is a state of the machine of
-- its archetype, each belief is about a transition that the machine grants, and no feature is
-- named twice.
state_legal_iff :
    (p : ProcessState) (m : StateMachine)
    → state_machine p.archetype ≡ ok m
    → (state_legal_for_archetype p ≡ ok p) ↔ (
        (allows m p.categorical_state ≡ true)
        × ((t : ProcessStateLabel)
            → In t p.transition_beliefs
            → can_transition m p.categorical_state t ≡ ok true)
        × (all_distinct p.feature_names ≡ true))
unfolding state_legal_for_archetype require
state_legal_iff p m made = (
  λ h.
      let (known, fine, distinct) = accepted_parts p m made h in
      (known, beliefs_legal-In m p.categorical_state p.transition_beliefs fine, distinct),
  λ (known, granted, distinct).
      let fine = In-beliefs_legal m p.categorical_state p.transition_beliefs granted in
      ground arith,
)
