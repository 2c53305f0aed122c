-- ===== src/Orchestration/Runner/Drain.antt =====
-- `Worker.run_once` and `drain` of runner.py: they never run more than they were asked to.
use econiq_ai.Prelude.{
  ℕ, zero, suc, ◌≤◌, ◌≡◌, Bool, List, [], ◌∷◌, ◌++◌, String, ok, length, length-append, length-map,
  length-take-le, arith,
}
use econiq_ai.Orchestration.Store.{Db}
use econiq_ai.Orchestration.Outbox.{Env}
use econiq_ai.Orchestration.Queue.{claim, selection}
use econiq_ai.Orchestration.Work.{ClaimedWork, default_lease}
use econiq_ai.Orchestration.Queue.Claim.{claim-eq-ok}
use econiq_ai.Orchestration.Runner.Session.{World, M, session, for_each}
use econiq_ai.Orchestration.Runner.Rules.{bind-eq-ok, length-for_each}
use econiq_ai.Orchestration.Runner.Dispatch.{session-eq-ok}
use econiq_ai.Orchestration.Runner.{execute, run_once, drain, drain_rest}
use econiq_ai.Orchestration.Handlers.{WorkResult, Registry}

module _ (env : Env) (registry : Registry) (worker : String) (locked : ℕ → Bool) where
  claim-length-le :
      (stages : List String) (limit now : ℕ) (db db' : Db) (cs : List ClaimedWork)
      → claim default_lease locked worker stages limit now db ≡ ok (cs, db')
      → length cs ≤ limit
  unfolding selection
  claim-length-le stages limit now db db' cs h =
      let (e, _, _) = claim-eq-ok default_lease locked worker stages limit now db h in
      rw e (rw length-map (length-take-le limit _))

  run_once-length-le :
      (stages : List String) (limit : ℕ) (w w' : World) (rs : List WorkResult)
      → run_once env registry worker locked stages limit w ≡ (ok rs, w')
      → length rs ≤ limit
  unfolding run_once
  run_once-length-le stages limit w w' rs h =
      let (cs, w1, claimed, rest) =
        bind-eq-ok
          (session env (λ n. claim default_lease locked worker stages limit (env.utcnow n)))
          (for_each (execute env registry worker locked)) w w' rs h in
      omega (
        arith,
        claim-length-le stages limit (env.utcnow w.drawn) w.db w1.db cs
            (session-eq-ok _ w w1 cs claimed),
        length-for_each (execute env registry worker locked) cs w1 w' rs rest,
      )

  rest-length-le :
      (left : ℕ) (more : M (List WorkResult))
      → ((w w' : World) (rs : List WorkResult) → more w ≡ (ok rs, w') → length rs ≤ left)
      → (batch : List WorkResult) (w w' : World) (rs : List WorkResult) → length batch ≤ 1
      → drain_rest env registry worker locked more batch w ≡ (ok rs, w')
      → length rs ≤ suc left
  unfolding drain_rest
  rest-length-le left more bound [] w w' rs one h = ground arith
  rest-length-le left more bound (r ∷ others) w w' rs one h =
      let (results, w1, ran, end) =
        bind-eq-ok more (λ results. λ v. (ok ((r ∷ others) ++ results), v)) w w' rs h in
      ground (arith, end, bound w w1 results ran, length-append (r ∷ others) results)

  -- A drain that returns has run max_items units of work at most.
  pub drain-length-le :
      (stages : List String) (max_items : ℕ) (w w' : World) (rs : List WorkResult)
      → drain env registry worker locked stages max_items w ≡ (ok rs, w')
      → length rs ≤ max_items
  unfolding drain drain_rest
  drain-length-le stages zero w w' rs h = ground arith
  drain-length-le stages (suc left) w w' rs h =
      let (batch, w1, first, rest) =
        bind-eq-ok (run_once env registry worker locked stages 1)
          (drain_rest env registry worker locked (drain env registry worker locked stages left)) w
          w' rs h in
      rest-length-le left (drain env registry worker locked stages left)
        (drain-length-le stages left) batch w1 w' rs (run_once-length-le stages 1 w w1 batch first)
        rest
