-- ===== src/Llm/Service/Turns.antt =====
-- service.py: the turns of the conversation that `structured` has with a provider.
use mathlib.Core.List.{map-append}
use econiq_ai.Prelude.{
  ℕ, zero, suc, ◌+◌, ◌≤◌, ◌<◌, ◌≡◌, refl, ◌∙◌, ap, inl, inr, some, List, [], ◌∷◌, ◌++◌, map, ◌==◌,
  arith, Bool-cases, In,
}
use econiq_ai.Prelude.Membership.{In-append}
use econiq_ai.Prelude.Text.{Text}
use econiq_ai.Llm.Types.{
  CompletionRequest, CompletionResult, CallRecord, Message, Role, user, assistant,
}
use econiq_ai.Llm.Calls.{
  Completion, completed, refused, raised, Validated, valid, invalid, Service, Call,
  StructuredOutcome, short,
}
use econiq_ai.Llm.Service.{
  attempts, completion_request, result_record, read, after_validation, after_completion, repaired,
  attempts_from, structured,
}

-- The turns of a request after so many repairs.
pub turns : ℕ → List Role
turns zero = user ∷ []
turns (suc n) = turns n ++ (assistant ∷ user ∷ [])

abbrev pub roles : List Message → List Role
roles messages = map (λ (m : Message). m.role) messages

-- A request in a conversation with less than so many repairs.
abbrev pub IsTurn : ℕ → CompletionRequest → Type 0
IsTurn limit request = (n : ℕ) × (n < limit) × (roles request.messages ≡ turns n)

abbrev AllTurns : {T : Type 0} → ℕ → StructuredOutcome T → Type 0
AllTurns limit outcome = (r : CompletionRequest) → In r outcome.sent → IsTurn limit r

module _ {T : Type 0} (service : Service T) (call : Call) where
  after_validation-AllTurns :
      (limit attempt : ℕ) (sent : List CompletionRequest) (calls : List CallRecord)
      (result : CompletionResult) (v : Validated T) (rest : Text → StructuredOutcome T)
      → ((r : CompletionRequest) → In r sent → IsTurn limit r)
      → ((error : Text) → AllTurns limit (rest error))
      → AllTurns limit (after_validation service call attempt sent calls result v rest)
  unfolding after_validation
  after_validation-AllTurns limit attempt sent calls result (valid value) rest h k = h
  after_validation-AllTurns limit attempt sent calls result (invalid error) rest h k =
      elim (Bool-cases (attempt == attempts service call)) [
        | inl e ↦ rw e h
        | inr e ↦ rw e (k error)
      ]

  after_completion-AllTurns :
      (limit attempt : ℕ) (sent : List CompletionRequest) (calls : List CallRecord)
      (completion : Completion) (rest : CompletionResult → Text → StructuredOutcome T)
      → ((r : CompletionRequest) → In r sent → IsTurn limit r)
      → ((result : CompletionResult) (error : Text) → AllTurns limit (rest result error))
      → AllTurns limit (after_completion service call attempt sent calls completion rest)
  unfolding after_completion
  after_completion-AllTurns limit attempt sent calls (raised error) rest h k = h
  after_completion-AllTurns limit attempt sent calls (refused error) rest h k = h
  after_completion-AllTurns limit attempt sent calls (completed result) rest h k =
      after_validation-AllTurns limit attempt sent calls result (read service call result.text)
        (rest result) h (k result)

  attempts_from-AllTurns :
      (limit left n attempt : ℕ) (messages : List Message) (sent : List CompletionRequest)
      (calls : List CallRecord) (last_text : Text)
      → n + left ≤ limit
      → roles messages ≡ turns n
      → ((r : CompletionRequest) → In r sent → IsTurn limit r)
      → AllTurns limit (attempts_from service call left attempt messages sent calls last_text)
  unfolding attempts_from turns repaired completion_request
  attempts_from-AllTurns limit zero n attempt messages sent calls last_text l e h = h
  attempts_from-AllTurns limit (suc left) n attempt messages sent calls last_text l e h =
      let now : (r : CompletionRequest)
          → In r (sent ++ (completion_request service call messages ∷ []))
          → IsTurn limit r =
        λ r m. elim (In-append r sent (completion_request service call messages ∷ []) m) [
          | inl o ↦ h r o
          | inr (inl q) ↦ (n, omega arith, rw q e)
          | inr (inr f) ↦ elim f [ ]
        ] in
      after_completion-AllTurns limit attempt
        (sent ++ (completion_request service call messages ∷ [])) calls
        (service.provider.complete attempt (completion_request service call messages)) _ now
        λ result error.
          attempts_from-AllTurns limit left (suc n) (attempt + 1)
            (repaired service call messages result error)
            (sent ++ (completion_request service call messages ∷ []))
            (calls ++ (result_record service call attempt result (some (short 500 error)) ∷ []))
            result.text (omega arith)
            (map-append (λ (m : Message). m.role) messages _
              ∙ ap (λ l. l ++ (assistant ∷ user ∷ [])) e)
            now

  -- Every request that structured sends has the turns of a conversation with fewer repairs than
  -- attempts: a user message, and for each repair an assistant message and a user message.
  structured-IsTurn :
      (request : CompletionRequest)
      → In request (structured service call).sent
      → IsTurn (attempts service call) request
  unfolding structured turns
  structured-IsTurn request m =
      attempts_from-AllTurns (attempts service call) (attempts service call) 0 1 _ [] [] []
        (omega arith) refl (λ r f. elim f [ ]) request m
