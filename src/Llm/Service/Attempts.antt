-- ===== src/Llm/Service/Attempts.antt =====
-- service.py: how `structured` ends.
use econiq_ai.Prelude.{
  ℕ, zero, suc, ◌+◌, ◌≤◌, ◌<◌, ◌≡◌, refl, inl, inr, true, false, none, some, List, [], ◌∷◌, ◌++◌,
  ◌==◌, length, length-append, count, arith, Bool-cases,
}
use econiq_ai.Prelude.Counting.{count-append}
use econiq_ai.Prelude.Text.{Text}
use econiq_ai.Llm.Types.{CompletionRequest, CompletionResult, CallRecord, Message}
use econiq_ai.Llm.Calls.{
  Completion, completed, refused, raised, Validated, valid, invalid, Service, Call, Ending,
  returned, refusal, provider_error, invalid_output, no_output, StructuredOutcome, short,
}
use econiq_ai.Llm.Service.{
  attempts, completion_request, refusal_record, result_record, read, after_validation,
  after_completion, repaired, attempts_from, structured,
}

-- How many of the recorded calls succeed, and what each ending says of the numbers of requests that
-- were sent and of calls that were recorded.
pub IsAccounted : {T : Type 0} → ℕ → Ending T → ℕ → List CallRecord → Type 0
IsAccounted limit (returned value) sent calls =
    (sent ≤ limit) × (length calls ≡ sent) × (count (λ c. c.ok) calls ≡ 1)
IsAccounted limit (refusal error) sent calls =
    (sent ≤ limit) × (length calls ≡ sent) × (count (λ c. c.ok) calls ≡ 0)
IsAccounted limit (provider_error error) sent calls =
    (sent ≤ limit) × (length calls + 1 ≡ sent) × (count (λ c. c.ok) calls ≡ 0)
IsAccounted limit (invalid_output n text) sent calls =
    (n ≡ limit) × (sent ≡ limit) × (length calls ≡ sent) × (count (λ c. c.ok) calls ≡ 0)
IsAccounted limit (no_output n text) sent calls = ⊥

abbrev pub Accounted : {T : Type 0} → ℕ → StructuredOutcome T → Type 0
Accounted limit outcome = IsAccounted limit outcome.ending (length outcome.sent) outcome.calls

module _ {T : Type 0} (service : Service T) (call : Call) where
  -- what holds of the state when `sent` requests have been answered with no valid output
  record IsOpen (sent : List CompletionRequest) (calls : List CallRecord) : Type 0 where
    same : length calls ≡ length sent
    fails : count (λ c. c.ok) calls ≡ 0

  -- One request more, with its call or without one.
  module _ (request : CompletionRequest) (c : CallRecord) (sent : List CompletionRequest)
      (calls : List CallRecord) (h : IsOpen sent calls) where
    length-sent : length (sent ++ (request ∷ [])) ≡ length sent + 1
    length-sent = length-append sent (request ∷ [])

    length-calls : length (calls ++ (c ∷ [])) ≡ length sent + 1
    length-calls = omega (arith, h.same, length-append calls (c ∷ []))

    succeeded : c.ok ≡ true → count (λ r. r.ok) (calls ++ (c ∷ [])) ≡ 1
    succeeded e = ground (arith, h.fails, count-append (λ (r : CallRecord). r.ok) calls (c ∷ []))

    unsuccessful : c.ok ≡ false → count (λ r. r.ok) (calls ++ (c ∷ [])) ≡ 0
    unsuccessful e = ground (arith, h.fails, count-append (λ (r : CallRecord). r.ok) calls (c ∷ []))

    more-IsOpen : c.ok ≡ false → IsOpen (sent ++ (request ∷ [])) (calls ++ (c ∷ []))
    more-IsOpen e = record {
      same = omega (arith, length-sent, length-calls);
      fails = unsuccessful e;
    }

  after_validation-Accounted :
      (attempt : ℕ) (request : CompletionRequest) (sent : List CompletionRequest)
      (calls : List CallRecord) (result : CompletionResult) (v : Validated T)
      (rest : Text → StructuredOutcome T)
      → IsOpen sent calls
      → length sent + 1 ≡ attempt
      → attempt ≤ attempts service call
      → ((error : Text)
          → attempt < attempts service call
          → Accounted (attempts service call) (rest error))
      → Accounted
          (attempts service call)
          (after_validation service call attempt (sent ++ (request ∷ [])) calls result v rest)
  unfolding after_validation IsAccounted result_record
  after_validation-Accounted attempt request sent calls result (valid value) rest h e l k =
      let c = result_record service call attempt result none in
      (
        omega (arith, length-sent request c sent calls h),
        omega (arith, length-sent request c sent calls h, length-calls request c sent calls h),
        succeeded request c sent calls h refl,
      )
  after_validation-Accounted attempt request sent calls result (invalid error) rest h e l k =
      let c = result_record service call attempt result (some (short 500 error)) in
      elim (Bool-cases (attempt == attempts service call)) [
        | inl t ↦
            let q : attempt ≡ attempts service call = ground arith in
            rw t (
              refl,
              omega (arith, length-sent request c sent calls h, q),
              omega
                  (arith, length-sent request c sent calls h, length-calls request c sent calls h),
              unsuccessful request c sent calls h refl,
            )
        | inr f ↦ rw f (k error (ground arith))
      ]

  after_completion-Accounted :
      (attempt : ℕ) (request : CompletionRequest) (sent : List CompletionRequest)
      (calls : List CallRecord) (completion : Completion)
      (rest : CompletionResult → Text → StructuredOutcome T)
      → IsOpen sent calls
      → length sent + 1 ≡ attempt
      → attempt ≤ attempts service call
      → ((result : CompletionResult) (error : Text)
          → attempt < attempts service call
          → Accounted (attempts service call) (rest result error))
      → Accounted
          (attempts service call)
          (after_completion service call attempt (sent ++ (request ∷ [])) calls completion rest)
  unfolding after_completion IsAccounted refusal_record
  after_completion-Accounted attempt request sent calls (raised error) rest h e l k = (
    omega (arith, length-append sent (request ∷ [])),
    omega (arith, h.same, length-append sent (request ∷ [])),
    h.fails,
  )
  after_completion-Accounted attempt request sent calls (refused error) rest h e l k =
      let c = refusal_record service call attempt error in
      (
        omega (arith, length-sent request c sent calls h),
        omega (arith, length-sent request c sent calls h, length-calls request c sent calls h),
        unsuccessful request c sent calls h refl,
      )
  after_completion-Accounted attempt request sent calls (completed result) rest h e l k =
      after_validation-Accounted attempt request sent calls result (read service call result.text)
        (rest result) h e l (k result)

  attempts_from-Accounted :
      (left attempt : ℕ) (messages : List Message) (sent : List CompletionRequest)
      (calls : List CallRecord) (last_text : Text)
      → IsOpen sent calls
      → length sent + 1 ≡ attempt
      → left + attempt ≡ attempts service call + 1
      → attempt ≤ attempts service call
      → Accounted
          (attempts service call)
          (attempts_from service call left attempt messages sent calls last_text)
  unfolding attempts_from result_record
  attempts_from-Accounted zero attempt messages sent calls last_text h e n l = absurd (omega arith)
  attempts_from-Accounted (suc left) attempt messages sent calls last_text h e n l =
      after_completion-Accounted attempt (completion_request service call messages) sent calls
        (service.provider.complete attempt (completion_request service call messages)) _ h e l
        λ result error m.
          let c = result_record service call attempt result (some (short 500 error)) in
          attempts_from-Accounted left (attempt + 1) (repaired service call messages result error)
            (sent ++ (completion_request service call messages ∷ [])) (calls ++ (c ∷ []))
            result.text (more-IsOpen (completion_request service call messages) c sent calls h refl)
            (omega (arith, length-append sent (completion_request service call messages ∷ [])))
            (omega arith) (omega arith)

  -- With at least one attempt allowed, structured sends at most that many requests, and its loop
  -- always returns or raises: a returned value has one recorded success, every other ending has
  -- none, an OutputValidationError comes after all of the attempts, and each request is recorded
  -- except one at which the provider failed.
  pub structured_ends :
      1 ≤ attempts service call → Accounted (attempts service call) (structured service call)
  unfolding structured
  structured_ends h =
      attempts_from-Accounted (attempts service call) 1 _ [] [] []
        (record { same = refl; fails = refl }) refl (omega arith) h
