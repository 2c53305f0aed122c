-- ===== src/Llm/Service/Validity.antt =====
-- service.py: where the value of `structured` comes from.
use econiq_ai.Prelude.{
  ℕ, zero, suc, ◌+◌, ◌≡◌, refl, inl, inr, some, List, [], ◌∷◌, ◌++◌, subst, ◌==◌, length,
  length-append, arith, Bool-cases,
}
use econiq_ai.Prelude.Text.{Text}
use econiq_ai.Llm.Types.{CompletionRequest, CompletionResult, CallRecord, Message}
use econiq_ai.Llm.Calls.{
  Completion, completed, refused, raised, Validated, valid, invalid, Service, Call, Ending,
  returned, StructuredOutcome, short,
}
use econiq_ai.Llm.Service.{
  attempts, completion_request, result_record, read, after_validation, after_completion, repaired,
  attempts_from, structured,
}

module _ {T : Type 0} (service : Service T) (call : Call) where
  -- The last request's result passed the validation with this value.
  abbrev pub IsAnswer : List CompletionRequest → T → Type 0
  IsAnswer sent value =
      (front : List CompletionRequest) × (request : CompletionRequest) × (result : CompletionResult)
      × (sent ≡ front ++ (request ∷ []))
      × (service.provider.complete (length sent) request ≡ completed result)
      × (read service call result.text ≡ valid value)

  abbrev pub IsJustified : List CompletionRequest → Ending T → Type 0
  IsJustified sent (returned value) = IsAnswer sent value
  IsJustified sent _ = Unit

  abbrev Justified : StructuredOutcome T → Type 0
  Justified outcome = IsJustified outcome.sent outcome.ending

  after_validation-Justified :
      (attempt : ℕ) (request : CompletionRequest) (front : List CompletionRequest)
      (calls : List CallRecord) (result : CompletionResult) (v : Validated T)
      (rest : Text → StructuredOutcome T)
      → length front + 1 ≡ attempt
      → service.provider.complete attempt request ≡ completed result
      → read service call result.text ≡ v
      → ((error : Text) → Justified (rest error))
      → Justified
          (after_validation service call attempt (front ++ (request ∷ [])) calls result v rest)
  unfolding after_validation
  after_validation-Justified attempt request front calls result (valid value) rest e c r k =
      let n : length (front ++ (request ∷ [])) ≡ attempt =
        omega (arith, length-append front (request ∷ []), e) in
      (front, request, result, refl, rw n c, r)
  after_validation-Justified attempt request front calls result (invalid error) rest e c r k =
      elim (Bool-cases (attempt == attempts service call)) [
        | inl t ↦ rw t tt
        | inr f ↦ rw f (k error)
      ]

  after_completion-Justified :
      (attempt : ℕ) (request : CompletionRequest) (front : List CompletionRequest)
      (calls : List CallRecord) (completion : Completion)
      (rest : CompletionResult → Text → StructuredOutcome T)
      → length front + 1 ≡ attempt
      → service.provider.complete attempt request ≡ completion
      → ((result : CompletionResult) (error : Text) → Justified (rest result error))
      → Justified
          (after_completion service call attempt (front ++ (request ∷ [])) calls completion rest)
  unfolding after_completion
  after_completion-Justified attempt request front calls (raised error) rest e c k = tt
  after_completion-Justified attempt request front calls (refused error) rest e c k = tt
  after_completion-Justified attempt request front calls (completed result) rest e c k =
      after_validation-Justified attempt request front calls result (read service call result.text)
        (rest result) e c refl (k result)

  attempts_from-Justified :
      (left attempt : ℕ) (messages : List Message) (sent : List CompletionRequest)
      (calls : List CallRecord) (last_text : Text)
      → length sent + 1 ≡ attempt
      → Justified (attempts_from service call left attempt messages sent calls last_text)
  unfolding attempts_from
  attempts_from-Justified zero attempt messages sent calls last_text e = tt
  attempts_from-Justified (suc left) attempt messages sent calls last_text e =
      after_completion-Justified attempt (completion_request service call messages) sent calls
        (service.provider.complete attempt (completion_request service call messages)) _ e refl
        λ result error.
          attempts_from-Justified left (attempt + 1) (repaired service call messages result error)
            (sent ++ (completion_request service call messages ∷ []))
            (calls ++ (result_record service call attempt result (some (short 500 error)) ∷ []))
            result.text
            (omega (arith, e, length-append sent (completion_request service call messages ∷ [])))

  -- Where structured returns a value, the provider answered the last request that was sent, and
  -- the JSON in that answer passed the validation with this value.
  pub structured_valid :
      (value : T)
      → (structured service call).ending ≡ returned value
      → IsAnswer (structured service call).sent value
  unfolding structured
  structured_valid value e =
      subst (λ x. IsJustified (structured service call).sent x) e
        (attempts_from-Justified (attempts service call) 1 _ [] [] [] refl)
