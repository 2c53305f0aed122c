-- ===== src/Orchestration/Handlers.antt =====
-- runner.py and stages.py: the results of the dispatcher and the worker, handlers and payloads.
use econiq_ai.Prelude.{ℕ, Bool, Option, none, some, List, [], ◌∷◌, String, if◌then◌else◌, str_eq}
use econiq_ai.Orchestration.Store.{Payload, Json}
use econiq_ai.Orchestration.Outbox.{Emitted}

pub record DispatchResult : Type 0 where
  pub events_processed : ℕ
  pub work_enqueued : ℕ
  pub work_deduplicated : ℕ

pub record WorkResult : Type 0 where
  pub work_item_id : ℕ
  pub stage : String
  pub ok : Bool
  pub events_emitted : ℕ
  pub error : Option String
  pub dead : Bool

-- What a stage handler does: the objects it returns, of which `none` is no `Emitted`, or the name
-- and text of the exception that it raises.
pub data Outcome : Type 0 where
  returned : List (Option Emitted) → Outcome
  raised : String → String → Outcome

-- Handlers are outside the orchestrator: any function of the time, the subject and the payload.
abbrev pub Handler : Type 0
Handler = ℕ → Option ℕ → Payload → Outcome

abbrev pub Registry : Type 0
Registry = List (String × Handler)

unfoldable pub handler_for : Registry → String → Option Handler
handler_for [] stage = none
handler_for ((name, handler) ∷ rest) stage =
    if str_eq name stage then some handler else handler_for rest stage

-- `d[key] = value` on a payload, and `{**a, **b}`.
dict_set : String → Json → Payload → Payload
dict_set key value [] = (key, value) ∷ []
dict_set key value ((k, v) ∷ rest) =
    if str_eq k key then (k, value) ∷ rest else (k, v) ∷ dict_set key value rest

unfoldable pub dict_merge : Payload → Payload → Payload
unfolding dict_set
dict_merge a [] = a
dict_merge a ((k, v) ∷ rest) = dict_merge (dict_set k v a) rest

abbrev pub emitted_only : List (Option Emitted) → List Emitted
emitted_only [] = []
emitted_only (none ∷ rest) = emitted_only rest
emitted_only (some e ∷ rest) = e ∷ emitted_only rest
