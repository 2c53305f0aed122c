-- ===== src/Llm/Service.antt =====
-- service.py: `LLMService.structured`. The provider, json.loads, json.dumps and the validation by
-- pydantic are parameters. The provider's n-th call may depend on n; what it raises besides a refusal
-- leaves the call at once.
pub mod Attempts
pub mod Turns
pub mod Validity
use econiq_ai.Prelude.{
  ℕ, zero, suc, ◌+◌, Bool, true, false, Option, none, some, List, [], ◌∷◌, ◌++◌, ◌==◌, leb, any,
  not, ◌&&◌, if◌then◌else◌, length, take,
}
use econiq_ai.Prelude.Text.{Text, codes, or_else, newline}
use econiq_ai.Llm.Types.{
  Role, user, assistant, Message, CompletionRequest, CompletionResult, CallRecord, TokenUsage,
  no_usage, add_usage,
}
use econiq_ai.Llm.Costs.{estimate_cost_usd}
use econiq_ai.Llm.Json.{Json, object, end_object}
use econiq_ai.Llm.Reply.{loaded, malformed, parse_json}
use econiq_ai.Llm.Calls.{
  Completion, completed, refused, raised, Provider, LlmSettings, Validated, valid, invalid, Service,
  Call, Ending, returned, refusal, provider_error, invalid_output, no_output, StructuredOutcome,
  short, repair_instruction, with_inline_schema, is_enforced, attempts_of,
}
use econiq_ai.Llm.Recursion.{schema_is_recursive}
use econiq_ai.Llm.Schema.{sanitize_json_schema}

module _ {T : Type 0} (service : Service T) (call : Call) where
  unfoldable pub attempts : ℕ
  unfolding attempts_of
  attempts = attempts_of call.max_attempts service.settings.max_attempts

  unfoldable pub enforced_schema : Option Json
  unfolding sanitize_json_schema schema_is_recursive
  enforced_schema =
      if schema_is_recursive service.json_schema
      then none
      else if service.provider.supports_structured_output
      then some (sanitize_json_schema service.json_schema)
      else none

  unfoldable pub system_prompt : Text
  unfolding is_enforced enforced_schema with_inline_schema
  system_prompt =
      if is_enforced enforced_schema
      then call.system
      else with_inline_schema call.system (service.dumps service.json_schema)

  unfoldable pub completion_request : List Message → CompletionRequest
  unfolding system_prompt enforced_schema or_else
  completion_request messages = record {
    model = call.model;
    system = system_prompt;
    messages = messages;
    json_schema = enforced_schema;
    max_tokens = service.settings.max_tokens;
    effort = or_else call.effort (some service.settings.default_effort);
    metadata = call.metadata;
  }

  -- the record of an attempt that the provider refused
  unfoldable pub refusal_record : ℕ → Text → CallRecord
  refusal_record attempt error = record {
    agent_name = call.agent_name;
    agent_version = call.agent_version;
    prompt_version = call.prompt_version;
    provider = service.provider.name;
    model = call.model;
    attempt = attempt;
    usage = no_usage;
    latency_ms = 0;
    cost_usd = none;
    ok = false;
    error = some error;
  }

  -- the record of an attempt with a result, with the error if the result was not valid
  unfoldable pub result_record : ℕ → CompletionResult → Option Text → CallRecord
  unfolding estimate_cost_usd
  result_record attempt result error = record {
    agent_name = call.agent_name;
    agent_version = call.agent_version;
    prompt_version = call.prompt_version;
    provider = result.provider;
    model = result.model;
    attempt = attempt;
    usage = result.usage;
    latency_ms = result.latency_ms;
    cost_usd = estimate_cost_usd service.is_digit result.model result.usage;
    ok = elim error [ none ↦ true | some e ↦ false ];
    error = error;
  }

  -- `output_model.model_validate(_parse_json(result.text))`
  unfoldable pub read : Text → Validated T
  unfolding parse_json
  read text = elim (parse_json service.loads text) [
    | malformed error ↦ invalid error
    | loaded value ↦ service.validate value
  ]

  -- The end of an attempt with a result, or what the next attempts give.
  unfoldable pub after_validation :
      ℕ
      → List CompletionRequest
      → List CallRecord
      → CompletionResult
      → Validated T
      → (Text → StructuredOutcome T)
      → StructuredOutcome T
  unfolding result_record short attempts
  after_validation attempt sent calls result (valid value) rest = record {
    sent = sent;
    calls = calls ++ (result_record attempt result none ∷ []);
    ending = returned value;
  }
  after_validation attempt sent calls result (invalid error) rest =
      if attempt == attempts
      then record {
        sent = sent;
        calls = calls ++ (result_record attempt result (some (short 500 error)) ∷ []);
        ending = invalid_output attempts result.text;
      }
      else rest error

  unfoldable pub after_completion :
      ℕ
      → List CompletionRequest
      → List CallRecord
      → Completion
      → (CompletionResult → Text → StructuredOutcome T)
      → StructuredOutcome T
  unfolding refusal_record read after_validation
  after_completion attempt sent calls (raised error) rest = record {
    sent = sent;
    calls = calls;
    ending = provider_error error;
  }
  after_completion attempt sent calls (refused error) rest = record {
    sent = sent;
    calls = calls ++ (refusal_record attempt error ∷ []);
    ending = refusal error;
  }
  after_completion attempt sent calls (completed result) rest =
      after_validation attempt sent calls result (read result.text) (rest result)

  unfoldable pub repaired : List Message → CompletionResult → Text → List Message
  unfolding repair_instruction
  repaired messages result error =
      messages
      ++ (record { role = assistant; content = result.text }
          ∷ record { role = user; content = repair_instruction error }
          ∷ [])

  -- The rounds of the loop that are left, with the state of the loop.
  unfoldable pub attempts_from :
      ℕ → ℕ → List Message → List CompletionRequest → List CallRecord → Text → StructuredOutcome T
  unfolding completion_request after_completion repaired result_record short attempts
  attempts_from zero attempt messages sent calls last_text = record {
    sent = sent;
    calls = calls;
    ending = no_output attempts last_text;
  }
  attempts_from (suc left) attempt messages sent calls last_text =
      let sent_now = sent ++ (completion_request messages ∷ []) in
      after_completion attempt sent_now calls
        (service.provider.complete attempt (completion_request messages))
        λ result error.
          attempts_from left (attempt + 1) (repaired messages result error) sent_now
            (calls ++ (result_record attempt result (some (short 500 error)) ∷ [])) result.text

  unfoldable pub structured : StructuredOutcome T
  unfolding attempts_from attempts
  structured =
      attempts_from attempts 1 (record { role = user; content = call.user_content } ∷ []) [] [] []
