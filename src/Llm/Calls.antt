-- ===== src/Llm/Calls.antt =====
-- service.py: the arguments and the results of `LLMService.structured`, and the texts that it writes.
use econiq_ai.Prelude.{
  ℕ, zero, suc, Bool, false, true, Option, none, some, List, [], ◌∷◌, ◌++◌, leb, ◌+◌, if◌then◌else◌,
  length, take,
}
use econiq_ai.Prelude.Text.{Text, codes, newline}
use econiq_ai.Llm.Types.{CompletionRequest, CompletionResult, CallRecord, TokenUsage, add_usage}
use econiq_ai.Llm.Json.{Json, object, end_object}
use econiq_ai.Llm.Reply.{Loaded}

-- what `provider.complete` returns or raises
pub data Completion : Type 0 where
  completed : CompletionResult → Completion
  refused raised : Text → Completion

pub record Provider : Type 0 where
  pub name : Text
  pub supports_structured_output : Bool
  pub complete : ℕ → CompletionRequest → Completion

pub record LlmSettings : Type 0 where
  pub max_tokens : ℕ
  pub default_effort : Text
  pub max_attempts : ℕ

-- what the validation makes of a value, or the text of its error
pub data Validated (T : Type 0) : Type 0 where
  valid : T → Validated T
  invalid : Text → Validated T

pub record Service (T : Type 0) : Type 0 where
  pub provider : Provider
  pub settings : LlmSettings
  pub loads : Text → Loaded
  pub dumps : Json → Text
  pub is_digit : ℕ → Bool
  -- `output_model`: its schema and its validation
  pub json_schema : Json
  pub validate : Json → Validated T

-- the arguments of `structured`
pub record Call : Type 0 where
  pub system : Text
  pub user_content : Text
  pub model : Text
  pub agent_name : Text
  pub agent_version : Text
  pub prompt_version : Text
  pub effort : Option Text
  pub max_attempts : Option ℕ
  pub metadata : List (Text × Text)

pub data Ending (T : Type 0) : Type 0 where
  returned : T → Ending T
  refusal provider_error : Text → Ending T
  -- OutputValidationError with its attempts and its last output, on the last attempt and after the loop
  invalid_output no_output : ℕ → Text → Ending T

-- The requests that were sent, the calls that were recorded, and how the call ended.
pub record StructuredOutcome (T : Type 0) : Type 0 where
  pub sent : List CompletionRequest
  pub calls : List CallRecord
  pub ending : Ending T

-- `_short`
unfoldable pub short : ℕ → Text → Text
short limit text = if leb (length text) limit then text else take limit text ++ (8230 ∷ [])

-- `_repair_instruction`
unfoldable pub repair_instruction : Text → Text
unfolding short
repair_instruction error =
    codes "Your previous response did not satisfy the required schema."
    ++ (newline
        ∷ newline
        ∷ (codes "Validation error:"
            ++ (newline
                ∷ (short 2000 error
                    ++ (newline
                        ∷ newline
                        ∷ codes
                            "Return a corrected JSON object only. Do not add commentary, do not invent fields that are not in the schema, and do not change any value that was already correct.")))))

-- `_with_inline_schema`
unfoldable pub with_inline_schema : Text → Text → Text
with_inline_schema system dumped =
    system
    ++ (newline
        ∷ newline
        ∷ (codes
              "Respond with a single JSON object and nothing else. It must validate against this JSON Schema:"
            ++ (newline ∷ dumped)))

-- a schema counts as false if there is none or if it is `{}`
unfoldable pub is_enforced : Option Json → Bool
is_enforced none = false
is_enforced (some (object end_object)) = false
is_enforced (some schema) = true

-- `max_attempts or self.settings.max_attempts`
unfoldable pub attempts_of : Option ℕ → ℕ → ℕ
attempts_of none default = default
attempts_of (some zero) default = default
attempts_of (some (suc n)) default = suc n

-- `StructuredCall.usage`
unfoldable pub usage_from : TokenUsage → List CallRecord → TokenUsage
unfolding add_usage
usage_from total [] = total
usage_from total (call ∷ calls) = usage_from (add_usage total call.usage) calls

-- `StructuredCall.cost_usd`: unknown if the cost of a call is.
unfoldable pub cost_from : ℕ → List CallRecord → Option ℕ
cost_from total [] = some total
cost_from total (call ∷ calls) = elim call.cost_usd [
  | none ↦ none
  | some cost ↦ cost_from (total + cost) calls
]
