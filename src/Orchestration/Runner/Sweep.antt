-- ===== src/Orchestration/Runner/Sweep.antt =====
-- `Reconciler.reconcile` and `Worker.drain` of runner.py: what a sweep queues, and how long a drain is.
use econiq_ai.Prelude.{
  ℕ, ◌+◌, ◌≡◌, ap, inl, inr, List, [], ◌∷◌, String, some, Result, ok, In, length, length-append,
  take, if◌then◌else◌, arith,
}
use econiq_ai.Orchestration.Store.{Db}
use econiq_ai.Orchestration.Outbox.{Env}
use econiq_ai.Orchestration.Work.{Enqueued, Request}
use econiq_ai.Orchestration.Queue.Dedup.{enqueue_cases}
use econiq_ai.Orchestration.Stages.{StageDefinition, key_for, by_name}
use econiq_ai.Orchestration.Runner.Session.{World, M, continue, for_each}
use econiq_ai.Orchestration.Runner.Rules.{bind-eq-ok, for_each-reaches}
use econiq_ai.Orchestration.Runner.Dispatch.{
  HasOpen, session-eq-ok, enqueue_now-keeps, enqueue_now-reaches,
}
use econiq_ai.Orchestration.Runner.{enqueue_now, sweep_request, created_count, sweep}

module _ (env : Env) where
  -- One call adds a row exactly if it says so.
  enqueue_now-length :
      (r : Request) (w w' : World) (e : Enqueued)
      → enqueue_now env r w ≡ (ok e, w')
      → length w'.db.items ≡ length w.db.items + (if e.created then 1 else 0)
  unfolding enqueue_now
  enqueue_now-length r w w' e h =
      elim (enqueue_cases _ _ r w.db w'.db e (session-eq-ok _ w w' e h)) [
        | inl (new, stored, _) ↦
            rw (new, ap (λ (d : Db). length d.items) stored) (length-append w.db.items _)
        | inr (old, same, _) ↦ rw (old, ap (λ (d : Db). length d.items) same) (omega arith)
      ]

  for_each-length :
      {A : Type 0} (request : A → Request) (xs : List A) (w w' : World) (es : List Enqueued)
      → for_each (λ x. enqueue_now env (request x)) xs w ≡ (ok es, w')
      → length w'.db.items ≡ length w.db.items + created_count env es
  for_each-length request [] w w' es h = ground arith
  for_each-length {A} request (x ∷ rest) w w' es h =
      let act : A → M Enqueued = λ x. enqueue_now env (request x) in
      let (e, w1, first, more) =
        bind-eq-ok (act x) (λ b. λ v. continue (for_each act rest v) (λ bs. λ v. (ok (b ∷ bs), v)))
          w w' es h in
      let (es1, w2, loop, end) =
        bind-eq-ok (for_each act rest) (λ bs. λ v. (ok (e ∷ bs), v)) w1 w' es more in
      ground (
        arith,
        end,
        enqueue_now-length (request x) w w1 e first,
        for_each-length request rest w1 w2 es1 loop,
      )

  -- A sweep of a known stage that returns leaves an open item for each subject among the first
  -- limit that were found, and reports the number of rows that it added.
  pub sweep-queues :
      (limit : ℕ) (name : String) (stage : StageDefinition) (subjects : List ℕ) (w w' : World)
      (result : String × ℕ)
      → by_name name ≡ some stage
      → sweep env limit name subjects w ≡ (ok result, w')
      → (subject : ℕ) → In subject (take limit subjects)
      → HasOpen (key_for env.show_uuid stage (some subject)) w'
        × (length w'.db.items ≡ length w.db.items + result.1)
  unfolding sweep
  sweep-queues limit name stage subjects w w' result known h subject m =
      let act = λ (subject : ℕ). enqueue_now env (sweep_request env stage subject) in
      let (es, w1, loop, end) =
        bind-eq-ok (for_each act (take limit subjects))
          (λ es. λ v. (ok (name, created_count env es), v)) w w' result (rw (known, sweep) at h) in
      let final = ap (λ (r : Result (String × ℕ) × World). r.1) end in
      (
        rw (← final) (
            for_each-reaches act (λ s. HasOpen (key_for env.show_uuid stage (some s)))
              (λ s. enqueue_now-reaches env (sweep_request env stage s))
              (λ s other. enqueue_now-keeps env _ (sweep_request env stage other))
              (take limit subjects) w w1 es loop subject m),
        rw (← final) (
            ground (
              arith,
              end,
              for_each-length (sweep_request env stage) (take limit subjects) w w1 es loop,
            )),
      )
