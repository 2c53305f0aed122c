-- ===== src/Ontology/Archetypes/Adjacent.antt =====
-- The loop of `adjacent_states` of archetypes.py.
use econiq_ai.Prelude.{
  ℕ, zero, suc, ◌+◌, ◌≤◌, ◌<◌, ◌≡◌, refl, sym, ap, ◌∙◌, subst, inl, inr, ◌⊎◌, ◌↔◌, Bool, true,
  false, ◌||◌, Option, none, some, List, [], ◌∷◌, ◌++◌, ok, In, arith, Bool-cases, if◌then◌else◌,
  ◌==◌, ==_iff,
}
use econiq_ai.Prelude.Membership.{any-In, In-append, In-append_left, In-append_right}
use econiq_ai.Ontology.Labels.{ProcessStateLabel, same_state, same_state_iff}
use econiq_ai.Ontology.Archetypes.Tables.{is_member}
use econiq_ai.Ontology.Archetypes.{
  StateMachine, ordinal, position_back, position_ahead, state_at, consider, adjacent_loop,
  adjacent_states,
}
use econiq_ai.Ontology.Archetypes.Positions.{IsAt, IsFound, IsFound-IsAt, ordinal-bound}

or_false : (a b : Bool) → (a || b) ≡ false → (a ≡ false) × (b ≡ false)
or_false true b e = cc
or_false false b e = (refl, e)

is_member-In :
    (s : ProcessStateLabel) (xs : List ProcessStateLabel) → is_member s xs ≡ true → In s xs
is_member-In s xs h =
    let (x, m, e) = any-In (λ x. same_state s x) xs h in
    subst (λ y. In y xs) (sym ((same_state_iff s x).0 e)) m

-- What the test of `consider` picks.
abbrev picked : Bool → ProcessStateLabel → List ProcessStateLabel → List ProcessStateLabel
picked b c out = if b then out else out ++ c ∷ []

module _ (state t : ProcessStateLabel) where
  In-consider :
      (o : Option ProcessStateLabel) (out : List ProcessStateLabel)
      → In t (consider state o out)
      → In t out ⊎ ((o ≡ some t) × (same_state t state ≡ false))
  unfolding consider
  In-consider none out h = inl h
  In-consider (some c) out h = elim (Bool-cases (same_state c state || is_member c out)) [
    | inl e ↦ inl (subst (λ b. In t (picked b c out)) e h)
    | inr e ↦ elim (In-append t out (c ∷ []) (subst (λ b. In t (picked b c out)) e h)) [
      | inl l ↦ inl l
      | inr last ↦ elim last [
        | inl q ↦ inr (
          ap some (sym q),
          subst (λ x. same_state x state ≡ false) (sym q)
              ((or_false (same_state c state) (is_member c out) e).0),
        )
        | inr r ↦ elim r [ ]
      ]
    ]
  ]

  consider-keeps :
      (o : Option ProcessStateLabel) (out : List ProcessStateLabel)
      → In t out
      → In t (consider state o out)
  unfolding consider
  consider-keeps none out h = h
  consider-keeps (some c) out h = elim (Bool-cases (same_state c state || is_member c out)) [
    | inl e ↦ subst (λ b. In t (picked b c out)) (sym e) h
    | inr e ↦ subst (λ b. In t (picked b c out)) (sym e) (In-append_left t out (c ∷ []) h)
  ]

  adds :
      (out : List ProcessStateLabel)
      → same_state t state ≡ false
      → In t (picked (same_state t state || is_member t out) t out)
  adds out d = elim (Bool-cases (is_member t out)) [
    | inl e ↦
        subst (λ b. In t (picked b t out)) (sym (ap (λ b. b || is_member t out) d ∙ e))
          (is_member-In t out e)
    | inr e ↦
        subst (λ b. In t (picked b t out)) (sym (ap (λ b. b || is_member t out) d ∙ e))
          (In-append_right t out (t ∷ []) (inl refl))
  ]

  consider-adds :
      (o : Option ProcessStateLabel) (out : List ProcessStateLabel)
      → o ≡ some t
      → same_state t state ≡ false
      → In t (consider state o out)
  unfolding consider
  consider-adds o out e d = subst (λ p. In t (consider state p out)) (sym e) (adds out d)

impossible : (j step : ℕ) → step ≤ j → j < step + 0 → ⊥
impossible j step low high = omega arith

module _ (m : StateMachine) (state t : ProcessStateLabel) (idx : ℕ) where
  abbrev behind : ℕ → Option ProcessStateLabel
  behind step = state_at m (position_back m idx step)

  abbrev beyond : ℕ → Option ProcessStateLabel
  beyond step = state_at m (position_ahead m idx step)

  -- The loop's body.
  abbrev half : ℕ → List ProcessStateLabel → List ProcessStateLabel
  half step out = consider state (behind step) out

  abbrev whole : ℕ → List ProcessStateLabel → List ProcessStateLabel
  whole step out = consider state (beyond step) (half step out)

  loop-keeps :
      (step left : ℕ) (out : List ProcessStateLabel)
      → In t out
      → In t (adjacent_loop m state idx step left out)
  unfolding adjacent_loop
  loop-keeps step zero out h = h
  loop-keeps step (suc left) out h = loop-keeps (suc step) left (whole step out) (
      consider-keeps state t (beyond step) (half step out)
        (consider-keeps state t (behind step) out h))

  loop_sound :
      (step left : ℕ) (out : List ProcessStateLabel)
      → In t (adjacent_loop m state idx step left out)
      → In t out
        ⊎ ((same_state t state ≡ false)
            × ((j : ℕ) × (step ≤ j) × (j < step + left) × IsFound m idx j t))
  unfolding adjacent_loop
  loop_sound step zero out h = inl h
  loop_sound step (suc left) out h = elim (loop_sound (suc step) left (whole step out) h) [
    | inr (d, (j, low, high, at)) ↦ inr (d, (j, omega arith, omega arith, at))
    | inl later ↦ elim (In-consider state t (beyond step) (half step out) later) [
      | inr (e, d) ↦ inr (d, (step, omega arith, omega arith, inr e))
      | inl sooner ↦ elim (In-consider state t (behind step) out sooner) [
        | inr (e, d) ↦ inr (d, (step, omega arith, omega arith, inl e))
        | inl was ↦ inl was
      ]
    ]
  ]

  loop_complete :
      (step left : ℕ) (out : List ProcessStateLabel) (j : ℕ)
      → step ≤ j
      → j < step + left
      → IsFound m idx j t
      → same_state t state ≡ false
      → In t (adjacent_loop m state idx step left out)
  unfolding adjacent_loop
  loop_complete step zero out j low high at d = elim (impossible j step low high) [ ]
  loop_complete step (suc left) out j low high at d = elim (Bool-cases (step == j)) [
    | inr e ↦ loop_complete (suc step) left (whole step out) j (ground arith) (omega arith) at d
    | inl e ↦
        let same : j ≡ step = sym ((==_iff step j).0 e) in
        loop-keeps (suc step) left (whole step out) (elim (subst (λ k. IsFound m idx k t) same at) [
          | inl back ↦
              consider-keeps state t (beyond step) (half step out)
                (consider-adds state t (behind step) out back d)
          | inr ahead ↦ consider-adds state t (beyond step) (half step out) ahead d
        ])
  ]

-- The list that the loop returns, where the state has a position and the distance is not 0.
adjacent_states-eq :
    (m : StateMachine) (state : ProcessStateLabel) (distance idx : ℕ)
    → 1 ≤ distance
    → ordinal m state ≡ ok idx
    → adjacent_states m state distance ≡ ok (adjacent_loop m state idx 1 distance [])
unfolding adjacent_states ordinal
adjacent_states-eq m state distance idx positive at = ground arith

-- For a state with a position and a distance of 1 or more, adjacent_states returns exactly the
-- other states from which at most that many positions ahead lead to the state, or to which they
-- lead from it, where the positions of a cyclical machine wrap around.
pub adjacent_states_iff :
    (m : StateMachine) (state : ProcessStateLabel) (distance idx : ℕ)
    → 1 ≤ distance
    → ordinal m state ≡ ok idx
    → (out : List ProcessStateLabel) × (adjacent_states m state distance ≡ ok out)
      × ((t : ProcessStateLabel)
          → In t out ↔ (
              (same_state t state ≡ false) × ((j : ℕ) × (1 ≤ j) × (j ≤ distance) × IsAt m idx j t)))
adjacent_states_iff m state distance idx positive at =
    let inside = ordinal-bound m state idx at in
    (
      adjacent_loop m state idx 1 distance [],
      adjacent_states-eq m state distance idx positive at,
      λ t. (
        λ h. elim (loop_sound m state t idx 1 distance [] h) [
          | inl none_yet ↦ elim none_yet [ ]
          | inr (d, (j, low, high, here)) ↦
              (d, (j, low, omega arith, (IsFound-IsAt m t idx j inside).0 here))
        ],
        λ (d, (j, low, high, here)).
            loop_complete m state t idx 1 distance [] j low (omega arith)
              ((IsFound-IsAt m t idx j inside).1 here) d,
      ),
    )
