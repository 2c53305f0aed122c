-- ===== src/Orchestration/Outbox/Drawn.antt =====
-- events.py: the rows that `stage` adds have new ids, one each, and say what was emitted.
use econiq_ai.Prelude.{
  ℕ, suc, ◌+◌, ◌≤◌, ◌≡◌, ◌≢◌, refl, sym, ap, ◌∙◌, inl, inr, ◌⊎◌, List, [], ◌∷◌, ◌++◌, Option, none,
  some, count, length, ◌==◌, ==_iff, Bool-cases, arith,
}
use econiq_ai.Prelude.Counting.{count-append}
use econiq_ai.Orchestration.Store.{OutboxEvent, waiting, has_event_id}
use econiq_ai.Orchestration.Outbox.{Env, Emitted, stage_from, stage}
use econiq_ai.Orchestration.Handlers.{emitted_only}

-- A session draws each id once, and none that a row has already: what uuid4 promises.
pub record IsDrawnOnce (env : Env) (n : ℕ) (events : List OutboxEvent) : Type 0 where
  pub fresh : (j : ℕ) → count (has_event_id (env.uuid4 n j)) events ≡ 0
  pub distinct : (j k : ℕ) → env.uuid4 n j ≡ env.uuid4 n k → j ≡ k

-- A row that waits for its dispatch and says what was emitted.
abbrev pub IsRowOf : OutboxEvent → Emitted → Type 0
IsRowOf row e =
    (row.event_name ≡ e.name)
    × (row.subject_id ≡ e.subject_id)
    × (row.subject_type ≡ e.subject_type)
    × (row.payload ≡ e.payload)
    × ((t : ℕ) → e.occurred_at ≡ some t → row.occurred_at ≡ t)
    × (row.status ≡ waiting)
    × (row.dispatched_at ≡ none)

-- The rows are those of the events among the objects, one for each and in their order.
pub data AreRowsOf : List OutboxEvent → List (Option Emitted) → Type 0 where
  at_end : AreRowsOf [] []
  over_none :
      {rows : List OutboxEvent} {objects : List (Option Emitted)}
      → AreRowsOf rows objects
      → AreRowsOf rows (none ∷ objects)
  for_event :
      {rows : List OutboxEvent} {objects : List (Option Emitted)} (row : OutboxEvent) (e : Emitted)
      → IsRowOf row e
      → AreRowsOf rows objects
      → AreRowsOf (row ∷ rows) (some e ∷ objects)

module _ (env : Env) (n : ℕ) where
  instant :
      (o : Option ℕ) (j t : ℕ) → o ≡ some t → elim o [ none ↦ env.utcnow (n + j) | some s ↦ s ] ≡ t
  instant none j t e = cc
  instant (some s) j t e = cc

  stage_from-AreRowsOf :
      (j : ℕ) (objects : List (Option Emitted))
      → AreRowsOf (stage_from env n j (emitted_only objects)) objects
  unfolding stage_from
  stage_from-AreRowsOf j [] = at_end
  stage_from-AreRowsOf j (none ∷ objects) = over_none (stage_from-AreRowsOf j objects)
  stage_from-AreRowsOf j (some e ∷ objects) =
      for_event _ e (refl, refl, refl, refl, (λ t h. instant e.occurred_at j t h), refl, refl)
        (stage_from-AreRowsOf (suc j) objects)

  pub stage-AreRowsOf :
      (objects : List (Option Emitted)) → AreRowsOf (stage env n (emitted_only objects)) objects
  unfolding stage
  stage-AreRowsOf objects = stage_from-AreRowsOf 0 objects

  length-stage_from : (j : ℕ) (es : List Emitted) → length (stage_from env n j es) ≡ length es
  unfolding stage_from
  length-stage_from j [] = refl
  length-stage_from j (e ∷ es) = ground (arith, length-stage_from (suc j) es)

  pub length-stage : (es : List Emitted) → length (stage env n es) ≡ length es
  unfolding stage
  length-stage es = length-stage_from 0 es

  -- No row has an id that only earlier draws gave.
  later :
      (i j : ℕ) (es : List Emitted)
      → ((k : ℕ) → j ≤ k → env.uuid4 n k ≢ i)
      → count (has_event_id i) (stage_from env n j es) ≡ 0
  unfolding stage_from
  later i j [] h = refl
  later i j (e ∷ es) h =
      let other = h j (omega arith) in
      ground (arith, ==_iff (env.uuid4 n j) i, other, later i (suc j) es (λ k l. h k (omega arith)))

  once :
      (i j : ℕ) (es : List Emitted)
      → ((k l : ℕ) → env.uuid4 n k ≡ env.uuid4 n l → k ≡ l)
      → count (has_event_id i) (stage_from env n j es) ≤ 1
  unfolding stage_from
  once i j [] d = omega arith
  once i j (e ∷ es) d = elim (Bool-cases (env.uuid4 n j == i)) [
    | inr f ↦ ground (arith, once i (suc j) es d)
    | inl t ↦
        let same : env.uuid4 n j ≡ i = (==_iff (env.uuid4 n j) i).0 t in
        let none_left =
          later i (suc j) es (λ k l h. let z = d k j (h ∙ sym same) in omega (arith, z)) in
        ground (arith, none_left)
  ]

  drawn_cases :
      (i j : ℕ) (es : List Emitted)
      → (count (has_event_id i) (stage_from env n j es) ≡ 0) ⊎ ((k : ℕ) × (env.uuid4 n k ≡ i))
  unfolding stage_from
  drawn_cases i j [] = inl refl
  drawn_cases i j (e ∷ es) = elim (Bool-cases (env.uuid4 n j == i)) [
    | inl t ↦ inr (j, (==_iff (env.uuid4 n j) i).0 t)
    | inr f ↦ elim (drawn_cases i (suc j) es) [
      | inl z ↦ inl (ground (arith, z))
      | inr (k, same) ↦ inr (k, same)
    ]
  ]

  pub count-stage :
      (events : List OutboxEvent) (es : List Emitted) (i : ℕ)
      → IsDrawnOnce env n events
      → count (has_event_id i) events ≤ 1
      → count (has_event_id i) (events ++ stage env n es) ≤ 1
  unfolding stage
  count-stage events es i drawn before = elim (drawn_cases i 0 es) [
    | inl z ↦ omega (arith, z, before, count-append (has_event_id i) events (stage_from env n 0 es))
    | inr (k, same) ↦
        let new : count (has_event_id i) events ≡ 0 =
          sym (ap (λ h. count (has_event_id h) events) same) ∙ drawn.fresh k in
        omega (
          arith,
          new,
          once i 0 es drawn.distinct,
          count-append (has_event_id i) events (stage_from env n 0 es),
        )
  ]
