-- ===== src/Orchestration/Work.antt =====
-- queue.py: priorities, what `enqueue` takes and returns, claimed work, depths and the backoff.
use econiq_ai.Prelude.{ℕ, zero, suc, ◌+◌, ◌-◌, Bool, true, false, Option, String, leb, min}
use econiq_ai.Orchestration.Store.{
  WorkStatus, pending, running, succeeded, failed, dead, superseded, Payload,
}

-- `Priority`: lower runs first.
abbrev pub urgent : ℕ
urgent = 10

abbrev pub live : ℕ
live = 50

abbrev pub default_priority : ℕ
default_priority = 100

abbrev pub reconciled : ℕ
reconciled = 150

abbrev pub backfill : ℕ
backfill = 500

-- The keyword arguments of `enqueue`.
pub record Request : Type 0 where
  pub stage : String
  pub idempotency_key : String
  pub subject_id : Option ℕ
  pub payload : Payload
  pub priority : ℕ
  pub run_after : Option ℕ
  pub max_attempts : ℕ
  pub trigger : String
  pub source_event_id : Option ℕ

pub record Enqueued : Type 0 where
  pub work_item_id : ℕ
  pub created : Bool

pub record ClaimedWork : Type 0 where
  pub work_item_id : ℕ
  pub stage : String
  pub subject_id : Option ℕ
  pub payload : Payload
  pub attempts : ℕ
  pub max_attempts : ℕ
  pub trigger : String

unfoldable pub is_final_attempt : ClaimedWork → Bool
is_final_attempt c = leb c.max_attempts c.attempts

pub record QueueDepth : Type 0 where
  pub pending : ℕ
  pub running : ℕ
  pub failed : ℕ
  pub dead : ℕ

unfoldable pub outstanding : QueueDepth → ℕ
outstanding d = d.pending + d.running + d.failed

-- 30 minutes, in seconds.
abbrev pub default_lease : ℕ
default_lease = 1800

-- `_BACKOFF[min(max(attempt - 1, 0), 2)]`; `-` on ℕ stops at 0 as the `max` does.
backoff_at : ℕ → ℕ
backoff_at zero = 30
backoff_at (suc zero) = 300
backoff_at _ = 1800

unfoldable pub backoff_for : ℕ → ℕ
unfolding backoff_at
backoff_for attempt = backoff_at (min (attempt - 1) 2)

abbrev pub status_is : WorkStatus → WorkStatus → Bool
status_is pending pending = true
status_is running running = true
status_is succeeded succeeded = true
status_is failed failed = true
status_is dead dead = true
status_is superseded superseded = true
status_is _ _ = false
