-- ===== src/Orchestration/Samples.antt =====
-- A small queue, for the examples.
use econiq_ai.Prelude.{ℕ, String, Bool, false, none, some, List, []}
use econiq_ai.Orchestration.Store.{WorkItem, WorkStatus, pending, failed, Db}
use econiq_ai.Orchestration.Work.{Request}

abbrev pub an_item : ℕ → String → WorkStatus → WorkItem
an_item id key status = record {
  work_item_id = id;
  stage = "estimate_state";
  subject_id = some 7;
  idempotency_key = key;
  payload = [];
  status = status;
  priority = 50;
  run_after = 10;
  attempts = 0;
  max_attempts = 3;
  claimed_at = none;
  claimed_by = none;
  finished_at = none;
  last_error = none;
  trigger = "document_ingested";
  source_event_id = none;
}

abbrev pub first_item : WorkItem
first_item = an_item 1 "estimate_state:1" pending

abbrev pub second_item : WorkItem
second_item = an_item 2 "estimate_state:2" pending

abbrev pub failed_item : WorkItem
failed_item = an_item 3 "estimate_state:1" failed

abbrev pub db_of : List WorkItem → Db
db_of items = record { items = items; events = [] }

abbrev pub a_request : Request
a_request = record {
  stage = "estimate_state";
  idempotency_key = "estimate_state:1";
  subject_id = some 7;
  payload = [];
  priority = 50;
  run_after = none;
  max_attempts = 3;
  trigger = "document_ingested";
  source_event_id = none;
}

abbrev pub unlocked : ℕ → Bool
unlocked i = false
