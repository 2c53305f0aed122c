-- ===== src/Orchestration/Store.antt =====
-- The rows that the orchestrator reads and writes, `WorkItem` and `OutboxEvent` of
-- packages/data-models (models.py, enums.py), with the constraints that Postgres enforces on
-- them, and one database session over them. Ids (UUIDs) and instants are numbers.
pub mod Consistency
use econiq_ai.Prelude.{
  ℕ, ◌+◌, ◌≤◌, String, ◌≡◌, Bool, true, false, not, ◌&&◌, ◌||◌, Option, none, some, List, [], ◌∷◌,
  Error, integrity_error, Result, ok, err, leb, ◌==◌, if◌then◌else◌, all, any, length, count,
  str_eq,
}
use econiq_ai.Prelude.Text.{codes}

pub data WorkStatus : Type 0 where
  pending running succeeded failed dead superseded : WorkStatus

-- A JSON value of a payload.
pub data Json : Type 0 where
  text : String → Json
  num : ℕ → Json
  flag : Bool → Json

abbrev pub Payload : Type 0
Payload = List (String × Json)

pub record WorkItem : Type 0 where
  pub work_item_id : ℕ
  pub stage : String
  pub subject_id : Option ℕ
  pub idempotency_key : String
  pub payload : Payload
  pub status : WorkStatus
  pub priority : ℕ
  pub run_after : ℕ
  pub attempts : ℕ
  pub max_attempts : ℕ
  pub claimed_at : Option ℕ
  pub claimed_by : Option String
  pub finished_at : Option ℕ
  pub last_error : Option String
  pub trigger : String
  pub source_event_id : Option ℕ

pub data DomainEvent : Type 0 where
  document_ingested claims_extracted event_created event_updated event_propagated : DomainEvent
  process_created process_updated state_transition_candidate state_recorded : DomainEvent
  bottleneck_updated capability_updated asset_updated thesis_critiqued : DomainEvent

pub data OutboxStatus : Type 0 where
  waiting dispatched : OutboxStatus

pub record OutboxEvent : Type 0 where
  pub outbox_event_id : ℕ
  pub event_name : DomainEvent
  pub subject_id : Option ℕ
  pub subject_type : Option String
  pub payload : Payload
  pub occurred_at : ℕ
  pub status : OutboxStatus
  pub dispatched_at : Option ℕ

pub record Db : Type 0 where
  pub items : List WorkItem
  pub events : List OutboxEvent

-- The predicate of the partial index: `status IN ('pending', 'running')`.
abbrev pub is_open : WorkStatus → Bool
is_open pending = true
is_open running = true
is_open _ = false

abbrev pub holds_key : String → WorkItem → Bool
holds_key k x = is_open x.status && str_eq x.idempotency_key k

abbrev pub has_id : ℕ → WorkItem → Bool
has_id i x = x.work_item_id == i

abbrev pub has_event_id : ℕ → OutboxEvent → Bool
has_event_id i e = e.outbox_event_id == i

-- `String(width)`: a longer text is refused.
unfoldable pub fits : ℕ → String → Bool
fits width s = leb (length (codes s)) width

abbrev pub fits_option : ℕ → Option String → Bool
fits_option width none = true
fits_option width (some s) = fits width s

-- The foreign key `source_event_id`, which may be NULL.
abbrev pub is_known : List OutboxEvent → Option ℕ → Bool
is_known events none = true
is_known events (some i) = any (has_event_id i) events

-- What the check, the widths of the columns and the foreign key say of one row.
unfoldable pub row_fits : List OutboxEvent → WorkItem → Bool
unfolding fits
row_fits events x =
    leb 1 x.max_attempts
    && fits 64 x.stage
    && fits 200 x.idempotency_key
    && fits_option 128 x.claimed_by
    && fits 32 x.trigger
    && is_known events x.source_event_id

-- The same, and the keys: one row among `items`.
row_allowed : List OutboxEvent → List WorkItem → WorkItem → Bool
unfolding row_fits
row_allowed events items x =
    leb (count (has_id x.work_item_id) items) 1
    && (not (is_open x.status) || leb (count (holds_key x.idempotency_key) items) 1)
    && row_fits events x

-- The primary key of `outbox_events`, at one row.
event_allowed : List OutboxEvent → OutboxEvent → Bool
event_allowed events e = leb (count (has_event_id e.outbox_event_id) events) 1

-- The primary keys, `uq_work_items_open_key`, `max_attempts_positive`, the foreign key and the
-- widths together.
unfoldable pub allowed : Db → Bool
unfolding row_allowed event_allowed
allowed db =
    all (row_allowed db.events db.items) db.items && all (event_allowed db.events) db.events

-- `session.commit()`: Postgres refuses a change that breaks a constraint.
unfoldable pub commit {ℓ} : {A : Type ℓ} → A → Db → Result (A × Db)
commit a db = if allowed db then ok (a, db) else err integrity_error
