-- ===== src/Llm/Examples.antt =====
-- The theorems about LLM access at concrete calls.
use econiq_ai.Prelude.{
  ℕ, ◌≡◌, ◌⊎◌, refl, Bool, false, true, none, some, List, [], ◌∷◌, arith, leb, ◌==◌, ◌&&◌,
  if◌then◌else◌,
}
use econiq_ai.Prelude.Text.{Text, codes, strip, is_space, text_eq}
use econiq_ai.Llm.Json.{Json, number, string, object, end_object, field}
use econiq_ai.Llm.Types.{CompletionRequest, no_usage, user}
use econiq_ai.Llm.Calls.{completed, Provider, valid, Service, Call}
use econiq_ai.Llm.Reply.{Loaded, loaded, malformed, fenced, parse_json}
use econiq_ai.Llm.Reply.Prose.{parse_json-prose, braces}
use econiq_ai.Llm.Schema.{sanitize_json_schema}
use econiq_ai.Llm.Schema.Accepted.{sanitize-accepted, accepted, lacks_required}
use econiq_ai.Llm.Recursion.{Edges, search}
use econiq_ai.Llm.Recursion.Cycles.{HasCycle, search_decides}
use econiq_ai.Llm.Service.{attempts, completion_request, structured}
use econiq_ai.Llm.Service.Attempts.{structured_ends, Accounted}
use econiq_ai.Llm.Service.Validity.{structured_valid, IsAnswer}

-- json.loads on two texts: `{}` and all others
abbrev loads : Text → Loaded
loads s = if text_eq s (codes "{}") then loaded (object end_object) else malformed (codes "no JSON")

abbrev reply : Text
reply = codes "ok {} ."

parse_json-prose_example : parse_json loads reply ≡ loads (braces [])
unfolding is_space text_eq fenced strip
parse_json-prose_example =
    parse_json-prose loads reply (codes "ok ") [] (codes " .") (codes "no JSON") refl refl refl refl
      refl

-- an object with a bound and a default
abbrev schema : Json
schema = object (
    field (codes "type") (string (codes "object")) (
      field (codes "properties")
        (object (
          field (codes "n") (object (field (codes "minimum") (number (codes "0")) end_object))
            end_object))
        end_object))

sanitize-accepted_example : accepted true (sanitize_json_schema schema) ≡ true
unfolding lacks_required text_eq
sanitize-accepted_example = sanitize-accepted true schema (λ t. refl)

-- a tree of requirements, which refers to itself
abbrev tree : Edges
tree = (codes "Leaf", []) ∷ (codes "Node", codes "Leaf" ∷ codes "Node" ∷ []) ∷ []

search_decides_example :
    (cyclic : Bool) × (seen : List Text) × (search tree ≡ some (cyclic, seen))
    × ((cyclic ≡ false) ⊎ HasCycle tree)
search_decides_example = search_decides tree

-- A provider whose first reply is no JSON and whose second one is.
abbrev reply_of : ℕ → Text
reply_of n = if n == 1 then codes "no" else codes "{}"

abbrev provider : Provider
provider = record {
  name = codes "scripted";
  supports_structured_output = true;
  complete = λ n request. completed (record {
    text = reply_of n;
    model = request.model;
    provider = codes "scripted";
    usage = no_usage;
    latency_ms = 1;
  });
}

abbrev service : Service Json
service = record {
  provider = provider;
  settings = record { max_tokens = 16000; default_effort = codes "high"; max_attempts = 3 };
  loads = loads;
  dumps = λ value. codes "{}";
  is_digit = λ c. leb 48 c && leb c 57;
  json_schema = schema;
  validate = λ value. valid value;
}

abbrev call : Call
call = record {
  system = codes "s";
  user_content = codes "u";
  model = codes "m";
  agent_name = codes "a";
  agent_version = codes "1";
  prompt_version = codes "1";
  effort = none;
  max_attempts = some 2;
  metadata = [];
}

structured_ends_example : Accounted (attempts service call) (structured service call)
unfolding attempts
structured_ends_example = structured_ends service call (omega arith)

abbrev first_request : CompletionRequest
first_request = completion_request service call (record { role = user; content = codes "u" } ∷ [])

structured_valid_example : IsAnswer service call (structured service call).sent (object end_object)
unfolding structured is_space text_eq
structured_valid_example = structured_valid service call (object end_object) refl
