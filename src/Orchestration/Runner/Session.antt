-- ===== src/Orchestration/Runner/Session.antt =====
-- Actions on the database that may raise. `drawn` counts the readings of the clock and the ids
-- taken so far, so that every call gets its own.
use econiq_ai.Prelude.{ℕ, ◌+◌, List, [], ◌∷◌, Error, Result, ok, err}
use econiq_ai.Orchestration.Store.{Db}
use econiq_ai.Orchestration.Outbox.{Env}

pub record World : Type 0 where
  pub db : Db
  pub drawn : ℕ

abbrev pub M : Type 0 → Type 0
M A = World → Result A × World

module _ {A : Type 0} where
  abbrev pub pure : A → M A
  pure a w = (ok a, w)

  abbrev pub raise : Error → M A
  raise e w = (err e, w)

  abbrev pub finish_session : Result (A × Db) → World → Result A × World
  finish_session (ok r) w = (ok r.0, record { db = r.1; drawn = w.drawn + 1 })
  finish_session (err e) w = (err e, record { db = w.db; drawn = w.drawn + 1 })

  -- `async with session_factory() as session`: rolled back if the body raises.
  abbrev pub session : Env → (ℕ → Db → Result (A × Db)) → M A
  session env body w = finish_session (body w.drawn w.db) w

module _ {A B : Type 0} where
  abbrev pub continue : Result A × World → (A → M B) → Result B × World
  continue (ok a, w) f = f a w
  continue (err e, w) f = (err e, w)

  infixl 5 ◌>>=◌ ◌>>◌
  abbrev pub ◌>>=◌ : M A → (A → M B) → M B
  ◌>>=◌ m f w = continue (m w) f

  abbrev pub ◌>>◌ : M A → M B → M B
  m >> k = m >>= λ _. k

module _ {A B : Type 0} where
  -- `[await f(x) for x in xs]`
  abbrev pub for_each : (A → M B) → List A → M (List B)
  for_each f [] = pure []
  for_each f (x ∷ xs) = do r ← f x; rs ← for_each f xs; pure (r ∷ rs)
