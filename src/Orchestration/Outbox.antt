-- ===== src/Orchestration/Outbox.antt =====
-- events.py: `Outbox`. Ids and instants are drawn one by one: `uuid4 n j` is the `j`-th id that
-- session `n` draws, and `utcnow n` the `n`-th instant.
pub mod Drawn
use econiq_ai.Prelude.{
  ℕ, suc, zero, ◌+◌, Result, Bool, true, false, Option, none, some, List, [], ◌∷◌, ◌++◌, map,
  String, ltb, ◌==◌, take, filter, any, update_where,
}
use econiq_ai.Prelude.Sorting.{sort_by}
use econiq_ai.Orchestration.Store.{
  DomainEvent, Payload, OutboxEvent, waiting, dispatched, Db, commit,
}

-- What the program takes from outside: ids, the clock, and Python's `str` of a UUID and `repr`.
pub record Env : Type 0 where
  pub uuid4 : ℕ → ℕ → ℕ
  pub utcnow : ℕ → ℕ
  pub show_uuid : ℕ → String
  pub repr : String → String

pub record Emitted : Type 0 where
  pub name : DomainEvent
  pub subject_id : Option ℕ
  pub subject_type : Option String
  pub payload : Payload
  pub occurred_at : Option ℕ

pub record StoredEvent : Type 0 where
  pub outbox_event_id : ℕ
  pub name : DomainEvent
  pub subject_id : Option ℕ
  pub subject_type : Option String
  pub payload : Payload
  pub occurred_at : ℕ

abbrev outbox_row : Env → ℕ → ℕ → Emitted → OutboxEvent
outbox_row env n j e = record {
  outbox_event_id = env.uuid4 n j;
  event_name = e.name;
  subject_id = e.subject_id;
  subject_type = e.subject_type;
  payload = e.payload;
  occurred_at = elim e.occurred_at [ none ↦ env.utcnow (n + j) | some t ↦ t ];
  status = waiting;
  dispatched_at = none;
}

stage_from : Env → ℕ → ℕ → List Emitted → List OutboxEvent
stage_from env n j [] = []
stage_from env n j (e ∷ es) = outbox_row env n j e ∷ stage_from env n (suc j) es

-- `stage`: one row for each event, in an open session.
unfoldable pub stage : Env → ℕ → List Emitted → List OutboxEvent
unfolding stage_from
stage env n es = stage_from env n 0 es

-- `publish`: the same in a session of its own.
unfoldable pub publish : Env → ℕ → List Emitted → Db → Result (List ℕ × Db)
unfolding stage commit
publish env n es db =
    commit (map (λ r. r.outbox_event_id) (stage env n es))
      (record db { events = db.events ++ stage env n es })

abbrev pub is_waiting : OutboxEvent → Bool
is_waiting e = elim e.status [ waiting ↦ true | dispatched ↦ false ]

abbrev pub occurred_before : OutboxEvent → OutboxEvent → Bool
occurred_before x y = ltb x.occurred_at y.occurred_at

abbrev stored_event : OutboxEvent → StoredEvent
stored_event row = record {
  outbox_event_id = row.outbox_event_id;
  name = row.event_name;
  subject_id = row.subject_id;
  subject_type = row.subject_type;
  payload = row.payload;
  occurred_at = row.occurred_at;
}

unfoldable pub pending : ℕ → Db → List StoredEvent
pending limit db =
    map stored_event (take limit (sort_by occurred_before (filter is_waiting db.events)))

abbrev pub is_listed : List ℕ → OutboxEvent → Bool
is_listed ids e = any (λ i. e.outbox_event_id == i) ids

-- With no ids the source returns at once, which is the same update.
unfoldable pub mark_dispatched : List ℕ → ℕ → Db → Db
mark_dispatched ids now db = record db {
  events =
      update_where (is_listed ids) (λ e. record e { status = dispatched; dispatched_at = some now })
        db.events;
}
