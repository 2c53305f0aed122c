-- ===== src/Llm/Types.antt =====
-- types.py and observability.py: requests, results and the record of a call. Latencies and costs are
-- natural numbers, in units that the program does not look at.
use econiq_ai.Prelude.{ℕ, Bool, Option, List, ◌+◌}
use econiq_ai.Prelude.Text.{Text}
use econiq_ai.Llm.Json.{Json}

pub data Role : Type 0 where
  user assistant : Role

pub record Message : Type 0 where
  pub role : Role
  pub content : Text

pub record CompletionRequest : Type 0 where
  pub model : Text
  pub system : Text
  pub messages : List Message
  pub json_schema : Option Json
  pub max_tokens : ℕ
  pub effort : Option Text
  pub metadata : List (Text × Text)

pub record TokenUsage : Type 0 where
  pub input_tokens : ℕ
  pub output_tokens : ℕ
  pub cache_read_input_tokens : ℕ
  pub cache_creation_input_tokens : ℕ

abbrev pub no_usage : TokenUsage
no_usage = record {
  input_tokens = 0;
  output_tokens = 0;
  cache_read_input_tokens = 0;
  cache_creation_input_tokens = 0;
}

-- `TokenUsage.__add__`
unfoldable pub add_usage : TokenUsage → TokenUsage → TokenUsage
add_usage u v = record {
  input_tokens = u.input_tokens + v.input_tokens;
  output_tokens = u.output_tokens + v.output_tokens;
  cache_read_input_tokens = u.cache_read_input_tokens + v.cache_read_input_tokens;
  cache_creation_input_tokens = u.cache_creation_input_tokens + v.cache_creation_input_tokens;
}

pub record CompletionResult : Type 0 where
  pub text : Text
  pub model : Text
  pub provider : Text
  pub usage : TokenUsage
  pub latency_ms : ℕ

pub record CallRecord : Type 0 where
  pub agent_name : Text
  pub agent_version : Text
  pub prompt_version : Text
  pub provider : Text
  pub model : Text
  pub attempt : ℕ
  pub usage : TokenUsage
  pub latency_ms : ℕ
  pub cost_usd : Option ℕ
  pub ok : Bool
  pub error : Option Text
