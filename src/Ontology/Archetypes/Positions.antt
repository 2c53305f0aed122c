-- ===== src/Ontology/Archetypes/Positions.antt =====
-- The positions that `adjacent_states` of archetypes.py looks at, and what stands there.
use econiq_ai.Prelude.{
  ℕ, zero, suc, ◌+◌, ◌≤◌, ◌<◌, ◌≡◌, refl, sym, ap, ◌∙◌, subst, inl, inr, ◌⊎◌, ◌↔◌, Bool, true,
  false, Option, none, some, List, [], ◌∷◌, ok, err, value_error, Result, length, leb, ltb,
  get_elem?, ◌%◌, ◌-◌, arith, Bool-cases, if◌then◌else◌,
}
use native.Mathlib.Nat.{mod-lt, mod-eq_of_lt, mod-add-mod, add-mod-mod, add-mod_right}
use econiq_ai.Ontology.Labels.{ProcessStateLabel, same_state}
use econiq_ai.Ontology.Archetypes.{
  StateMachine, position_from, ordinal, position_back, position_ahead, state_at,
}

-- Walking `j` positions ahead leads from one position to the other; a cycle of `n` wraps around.
abbrev pub Leads : Bool → ℕ → ℕ → ℕ → ℕ → Type 0
Leads false n j from to = from + j ≡ to
Leads true n j from to = (from + j) % n ≡ to

-- `t` stands `j` positions back from position `idx`, or ahead of it.
abbrev pub IsAt : StateMachine → ℕ → ℕ → ProcessStateLabel → Type 0
IsAt m idx j t =
    (i : ℕ) × (get_elem? m.sequence i ≡ some t)
    × (Leads m.cyclical (length m.sequence) j i idx ⊎ Leads m.cyclical (length m.sequence) j idx i)

-- The same, by the positions that the loop computes.
abbrev pub IsFound : StateMachine → ℕ → ℕ → ProcessStateLabel → Type 0
IsFound m idx j t =
    (state_at m (position_back m idx j) ≡ some t) ⊎ (state_at m (position_ahead m idx j) ≡ some t)

mod_below : (j n : ℕ) → 0 < n → j % n < n
mod_below j n = mod-lt j

-- Going back `j` of `n` is going ahead by `n - j % n`.
back-Leads : (n j idx : ℕ) → idx < n → ((idx + (n - j % n)) % n + j) % n ≡ idx
back-Leads n j idx low =
    let r : j % n < n = mod_below j n (omega arith) in
    mod-add-mod (idx + (n - j % n)) n j
    ∙ sym (add-mod-mod (idx + (n - j % n)) j n)
    ∙ ap (λ k. k % n) (turn (j % n) (omega (arith, r)))
    ∙ add-mod_right idx n
    ∙ mod-eq_of_lt low
  where
    turn : (r : ℕ) → r ≤ n → idx + (n - r) + r ≡ idx + n
    turn r l = omega arith

Leads-back : (n j i idx : ℕ) → i < n → (i + j) % n ≡ idx → (idx + (n - j % n)) % n ≡ i
Leads-back n j i idx low e =
    let r : j % n < n = mod_below j n (omega arith) in
    ap (λ k. (k + (n - j % n)) % n) (sym e ∙ sym (add-mod-mod i j n))
    ∙ mod-add-mod (i + j % n) n (n - j % n)
    ∙ ap (λ k. k % n) (turn (j % n) (omega (arith, r)))
    ∙ add-mod_right i n
    ∙ mod-eq_of_lt low
  where
    turn : (r : ℕ) → r ≤ n → i + r + (n - r) ≡ i + n
    turn r l = omega arith

get_elem?-bound :
    {A : Type 0} (xs : List A) (i : ℕ) {x : A} → get_elem? xs i ≡ some x → i < length xs
get_elem?-bound [] i e = cc
get_elem?-bound (y ∷ xs) zero e = omega arith
get_elem?-bound (y ∷ xs) (suc i) e = let l = get_elem?-bound xs i e in omega arith

position-bound :
    (s : ProcessStateLabel) (i : ℕ) (xs : List ProcessStateLabel) {idx : ℕ}
    → position_from i s xs ≡ some idx
    → idx < i + length xs
unfolding position_from
position-bound s i [] e = cc
position-bound s i (x ∷ xs) e = elim (Bool-cases (same_state x s)) [
  | inl t ↦ ground (arith, t)
  | inr t ↦ let l = position-bound s (suc i) xs (rw t at e) in omega arith
]

ok_eq : {i k : ℕ} → ◌≡◌ {A = Result ℕ} (ok i) (ok k) → i ≡ k
ok_eq e = cc

pub ordinal-bound :
    (m : StateMachine) (s : ProcessStateLabel) (idx : ℕ)
    → ordinal m s ≡ ok idx
    → idx < length m.sequence
unfolding ordinal
ordinal-bound m s idx e = bound (position_from 0 s m.sequence) refl e
  where
    bound :
        (o : Option ℕ)
        → position_from 0 s m.sequence ≡ o
        → ◌≡◌ {A = Result ℕ} (elim o [ none ↦ err value_error | some i ↦ ok i ]) (ok idx)
        → idx < length m.sequence
    bound none p q = cc
    bound (some i) p q =
        let l = position-bound s 0 m.sequence (p ∙ ap some (ok_eq q)) in omega (arith, l)

abbrev back_of : Bool → ℕ → ℕ → ℕ → Option ℕ
back_of cyclical n idx step =
    if cyclical
    then some ((idx + (n - step % n)) % n)
    else if leb step idx
    then some (idx - step)
    else none

abbrev ahead_of : Bool → ℕ → ℕ → ℕ → Option ℕ
ahead_of cyclical n idx step =
    if cyclical
    then some ((idx + step) % n)
    else if ltb (idx + step) n
    then some (idx + step)
    else none

some_eq : {i k : ℕ} → ◌≡◌ {A = Option ℕ} (some i) (some k) → i ≡ k
some_eq e = cc

module _ (n idx i : ℕ) (inside : idx < n) (low : i < n) where
  back_iff :
      (cyclical : Bool) (j : ℕ) → (back_of cyclical n idx j ≡ some i) ↔ Leads cyclical n j i idx
  back_iff false j = elim (Bool-cases (leb j idx)) [
    | inl e ↦ (λ h. ground arith, λ h. ground arith)
    | inr e ↦ (λ h. ground arith, λ h. ground arith)
  ]
  back_iff true j = (
    λ h. subst (λ k. (k + j) % n ≡ idx) (some_eq h) (back-Leads n j idx inside),
    λ h. ap some (Leads-back n j i idx low h),
  )

  ahead_iff :
      (cyclical : Bool) (j : ℕ) → (ahead_of cyclical n idx j ≡ some i) ↔ Leads cyclical n j idx i
  ahead_iff false j = elim (Bool-cases (ltb (idx + j) n)) [
    | inl e ↦ (λ h. ground arith, λ h. ground arith)
    | inr e ↦ (λ h. ground arith, λ h. ground arith)
  ]
  ahead_iff true j = (λ h. some_eq h, λ h. ap some h)

module _ (m : StateMachine) (t : ProcessStateLabel) where
  state_at_found :
      (o : Option ℕ)
      → state_at m o ≡ some t
      → (i : ℕ) × (o ≡ some i) × (get_elem? m.sequence i ≡ some t)
  unfolding state_at
  state_at_found none h = cc
  state_at_found (some i) h = (i, refl, h)

  at_state :
      (i : ℕ) (o : Option ℕ) → o ≡ some i → get_elem? m.sequence i ≡ some t → state_at m o ≡ some t
  unfolding state_at
  at_state i o e h = subst (λ p. state_at m p ≡ some t) (sym e) h

  pub IsFound-IsAt : (idx j : ℕ) → idx < length m.sequence → IsFound m idx j t ↔ IsAt m idx j t
  unfolding position_back position_ahead
  IsFound-IsAt idx j inside = (
    λ h. elim h [
      | inl back ↦
          let (i, e, here) = state_at_found (position_back m idx j) back in
          let low = get_elem?-bound m.sequence i here in
          (i, here, inl ((back_iff (length m.sequence) idx i inside low m.cyclical j).0 e))
      | inr ahead ↦
          let (i, e, here) = state_at_found (position_ahead m idx j) ahead in
          let low = get_elem?-bound m.sequence i here in
          (i, here, inr ((ahead_iff (length m.sequence) idx i inside low m.cyclical j).0 e))
    ],
    λ (i, here, leads).
        let low = get_elem?-bound m.sequence i here in
        elim leads [
          | inl back ↦ inl (
              at_state i (position_back m idx j)
                ((back_iff (length m.sequence) idx i inside low m.cyclical j).1 back) here)
          | inr ahead ↦ inr (
              at_state i (position_ahead m idx j)
                ((ahead_iff (length m.sequence) idx i inside low m.cyclical j).1 ahead) here)
        ],
  )
