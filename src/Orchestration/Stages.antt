-- ===== src/Orchestration/Stages.antt =====
-- stages.py: the declared pipeline, and which stages an event schedules.
pub mod Keys
use econiq_ai.Prelude.{
  ℕ, ◌≡◌, Bool, true, false, Option, none, some, List, [], ◌∷◌, map, String, Error, key_error,
  Result, ok, err, if◌then◌else◌, filter, any, find, str_eq,
}
use Prim.Native.String.{◌++◌}
use econiq_ai.Orchestration.Store.{
  DomainEvent, document_ingested, claims_extracted, event_created, event_updated, event_propagated,
  process_created, process_updated, state_transition_candidate, state_recorded, bottleneck_updated,
  capability_updated, asset_updated, thesis_critiqued,
}
use econiq_ai.Orchestration.Work.{live, default_priority, reconciled}

pub record StageDefinition : Type 0 where
  pub name : String
  pub triggered_by : List DomainEvent
  pub emits : List DomainEvent
  pub priority : ℕ
  pub max_attempts : ℕ
  pub concurrency : ℕ
  pub subject_from_payload : Bool

-- `f"{self.name}:{subject_id}" if subject_id else self.name`, over `str` of a UUID.
unfoldable pub key_for : (ℕ → String) → StageDefinition → Option ℕ → String
key_for show_uuid s none = s.name
key_for show_uuid s (some subject) = s.name ++ (":" ++ show_uuid subject)

abbrev pub extract_claims : StageDefinition
extract_claims = record {
  name = "extract_claims";
  triggered_by = document_ingested ∷ [];
  emits = claims_extracted ∷ [];
  priority = live;
  max_attempts = 3;
  concurrency = 8;
  subject_from_payload = true;
}

abbrev pub resolve_events : StageDefinition
resolve_events = record {
  name = "resolve_events";
  triggered_by = claims_extracted ∷ [];
  emits = event_created ∷ event_updated ∷ event_propagated ∷ [];
  priority = default_priority;
  max_attempts = 3;
  concurrency = 1;
  subject_from_payload = false;
}

abbrev pub discover_processes : StageDefinition
discover_processes = record {
  name = "discover_processes";
  triggered_by = event_propagated ∷ [];
  emits = process_created ∷ process_updated ∷ state_transition_candidate ∷ [];
  priority = live;
  max_attempts = 3;
  concurrency = 2;
  subject_from_payload = true;
}

abbrev pub estimate_state : StageDefinition
estimate_state = record {
  name = "estimate_state";
  triggered_by = process_created ∷ state_transition_candidate ∷ [];
  emits = state_recorded ∷ [];
  priority = default_priority;
  max_attempts = 3;
  concurrency = 2;
  subject_from_payload = true;
}

abbrev pub critique_process : StageDefinition
critique_process = record {
  name = "critique_process";
  triggered_by = state_recorded ∷ [];
  emits = thesis_critiqued ∷ [];
  priority = reconciled;
  max_attempts = 3;
  concurrency = 1;
  subject_from_payload = true;
}

abbrev pub map_capabilities : StageDefinition
map_capabilities = record {
  name = "map_capabilities";
  triggered_by = state_recorded ∷ [];
  emits = bottleneck_updated ∷ capability_updated ∷ [];
  priority = default_priority;
  max_attempts = 3;
  concurrency = 2;
  subject_from_payload = true;
}

abbrev pub discover_assets : StageDefinition
discover_assets = record {
  name = "discover_assets";
  triggered_by = capability_updated ∷ [];
  emits = asset_updated ∷ [];
  priority = default_priority;
  max_attempts = 3;
  concurrency = 2;
  subject_from_payload = true;
}

abbrev pub pipeline : List StageDefinition
pipeline =
    extract_claims ∷ resolve_events ∷ discover_processes ∷ estimate_state ∷ critique_process
    ∷ map_capabilities ∷ discover_assets ∷ []

abbrev pub event_name : DomainEvent → String
event_name document_ingested = "document.ingested"
event_name claims_extracted = "claims.extracted"
event_name event_created = "event.created"
event_name event_updated = "event.updated"
event_name event_propagated = "event.propagated"
event_name process_created = "process.created"
event_name process_updated = "process.updated"
event_name state_transition_candidate = "state.transition_candidate"
event_name state_recorded = "state.recorded"
event_name bottleneck_updated = "bottleneck.updated"
event_name capability_updated = "capability.updated"
event_name asset_updated = "asset.updated"
event_name thesis_critiqued = "thesis.critiqued"

-- Members of a `StrEnum` are equal when their texts are.
abbrev pub same_event : DomainEvent → DomainEvent → Bool
same_event a b = str_eq (event_name a) (event_name b)

unfoldable pub stages_for : DomainEvent → List StageDefinition
stages_for event = filter (λ s. any (same_event event) s.triggered_by) pipeline

-- `BY_NAME[name]`
unfoldable pub by_name : String → Option StageDefinition
by_name name = find (λ s. str_eq s.name name) pipeline
