-- ===== src/Adapters/Resilient.antt =====
-- backend/adapters/resilient_adapter.py: `ResilientLLMAdapter`. What the outside world does during
-- one call of `complete` or `stream` is given for each candidate: the readings of the clock and the
-- provider's answer. `asyncio.timeout(remaining)` is the answer `timed_out`.
pub mod Fallback
pub mod Streaming
use neuralhub.Base.{
  ℕ, ◌+◌, ◌-◌, Bool, true, false, not, ◌||◌, Option, none, some, List, [], ◌∷◌, ◌++◌, ◌==◌,
  if◌then◌else◌, Text, codes, text_eq, has, Dict, put, Exception, str,
}
use neuralhub.Types.{ToolCall}
use neuralhub.Adapters.Breaker.{CircuitBreaker, is_open, record_success, record_failure}

-- backend/common/errors.py: `LLMError`.
pub record LlmError : Type 0 where
  pub code : Text
  pub message : Text
  pub provider : Text
  pub status_code : Option ℕ

pub record LlmCandidate : Type 0 where
  pub provider_id : Text
  pub model : Text

pub record ResilientAdapterConfig : Type 0 where
  pub fallback_error_codes : List Text
  pub deadline_seconds : ℕ
  pub circuit_threshold : ℕ
  pub circuit_seconds : ℕ

-- backend/common/types/llm.py: the parts of `LLMResponse` that the adapter reads or writes.
pub record LlmResponse : Type 0 where
  pub content : Text
  pub tool_calls : List ToolCall
  pub provider_metadata : Dict Text

-- What a provider's `complete` does: it answers, runs into the timeout, or raises.
pub data Answer : Type 0 where
  response : LlmResponse → Answer
  timed_out : Answer
  llm_error : LlmError → Answer
  exception : Exception → Answer

-- One candidate's turn: the clock at the breaker's check, at the deadline's check and at the
-- recording of a failure, and the answer.
pub record Turn : Type 0 where
  pub candidate : LlmCandidate
  pub checked_at : ℕ
  pub remaining_at : ℕ
  pub answer : Answer
  pub recorded_at : ℕ

pub data Outcome : Type 0 where
  answered : LlmResponse → Outcome
  failed : LlmError → Outcome

-- How the body of the loop ends: `continue` with the breaker and the errors that it adds, `break`,
-- or a return or raise.
pub data Flow : Type 0 where
  continue : CircuitBreaker → List LlmError → Flow
  break : Flow
  stop : CircuitBreaker → Outcome → Flow

-- How a provider's `stream` ends after its chunks.
pub data Ending : Type 0 where
  finished : Ending
  broken : LlmError → Ending
  crashed : Exception → Ending

pub record StreamTurn : Type 0 where
  pub candidate : LlmCandidate
  pub checked_at : ℕ
  pub chunks : List Text
  pub ending : Ending
  pub recorded_at : ℕ

-- How the body of the loop of `stream` ends: with the next candidate, or with the error that is
-- raised, if any. In both cases with the chunks that the consumer has seen of this candidate.
pub data StreamFlow : Type 0 where
  pass : CircuitBreaker → (seen : List Text) → List LlmError → StreamFlow
  close : CircuitBreaker → List Text → Option LlmError → StreamFlow

abbrev pub no_chunks : List Text → Bool
no_chunks [] = true
no_chunks (_ ∷ _) = false

abbrev pub router_error : (code message : Text) → LlmError
router_error code message = record {
  code = code;
  message = message;
  provider = codes "router";
  status_code = none;
}

unfoldable pub detail : List LlmError → Text
detail [] = []
detail (e ∷ []) = e.provider ++ codes ":" ++ e.code
detail (e ∷ es) = e.provider ++ codes ":" ++ e.code ++ codes "; " ++ detail es

unfoldable pub failed_error : List LlmError → LlmError
failed_error [] = router_error (codes "ALL_PROVIDERS_FAILED") (codes "No LLM provider available")
failed_error (e ∷ es) = router_error (codes "ALL_PROVIDERS_FAILED") (detail (e ∷ es))

module _ (show_int : ℕ → Text) (config : ResilientAdapterConfig) (primary : LlmCandidate) where
  unfoldable pub can_fallback : LlmError → Bool
  can_fallback e = has e.code config.fallback_error_codes

  -- `request.model or candidate.model` for the primary, the candidate's model for a fallback.
  unfoldable pub model_for_candidate : (request_model : Text) → LlmCandidate → Text
  model_for_candidate [] c = c.model
  model_for_candidate (m ∷ ms) c =
      if text_eq c.provider_id primary.provider_id then m ∷ ms else c.model

  unfoldable pub annotate_response : LlmResponse → LlmCandidate → LlmResponse
  annotate_response r c =
      let metadata =
        put (codes "selected_model") c.model
          (put (codes "selected_provider") c.provider_id r.provider_metadata) in
      record r {
        provider_metadata =
            if text_eq c.provider_id primary.provider_id
            then metadata
            else put (codes "fallback_from_provider") primary.provider_id metadata;
      }

  abbrev pub timeout_error : (remaining : ℕ) → LlmCandidate → LlmError
  timeout_error remaining c = record {
    code = codes "NETWORK_ERROR";
    message = codes "LLM call exceeded fallback deadline (" ++ show_int remaining ++ codes "s)";
    provider = c.provider_id;
    status_code = none;
  }

  abbrev pub remaining : (started : ℕ) → Turn → ℕ
  remaining started turn = started + config.deadline_seconds - turn.remaining_at

  -- The body of the loop for one candidate. `remaining <= 0` holds exactly when the truncated
  -- difference is 0, since `started + deadline_seconds` and the reading are not negative.
  unfoldable pub visit : (started : ℕ) → Turn → CircuitBreaker → Flow
  visit started turn b =
      let c = turn.candidate in
      if is_open b turn.checked_at c.provider_id
      then continue b []
      else if remaining started turn == 0
      then break
      else elim turn.answer [
        | response r ↦ stop (record_success b c.provider_id) (answered (annotate_response r c))
        | timed_out ↦
            continue (record_failure b turn.recorded_at c.provider_id)
              (timeout_error (remaining started turn) c ∷ [])
        | llm_error e ↦
            if can_fallback e
            then continue (record_failure b turn.recorded_at c.provider_id) (e ∷ [])
            else stop b (failed e)
        | exception x ↦ stop b (failed (router_error (codes "RESILIENT_COMPLETE_ERROR") (str x)))
      ]

  unfoldable pub complete_from :
      (started : ℕ) → List Turn → List LlmError → CircuitBreaker → CircuitBreaker × Outcome
  complete_from started [] errors b = (b, failed (failed_error errors))
  complete_from started (turn ∷ turns) errors b = elim (visit started turn b) [
    | continue b' es ↦ complete_from started turns (errors ++ es) b'
    | break ↦ (b, failed (failed_error errors))
    | stop b' o ↦ (b', o)
  ]

  unfoldable pub complete : (started : ℕ) → List Turn → CircuitBreaker → CircuitBreaker × Outcome
  complete started turns b = complete_from started turns [] b

  -- The body of the loop of `stream`. A chunk that was yielded has reached the consumer, so a later
  -- failure cannot fall back.
  unfoldable pub stream_visit : StreamTurn → CircuitBreaker → StreamFlow
  stream_visit turn b =
      let c = turn.candidate in
      if is_open b turn.checked_at c.provider_id then pass b [] [] else elim turn.ending [
        | finished ↦ close (record_success b c.provider_id) turn.chunks none
        | broken e ↦
            let after =
              if can_fallback e then record_failure b turn.recorded_at c.provider_id else b in
            if not (no_chunks turn.chunks) || not (can_fallback e)
            then close after turn.chunks (some e)
            else pass after turn.chunks (e ∷ [])
        | crashed x ↦
            close b turn.chunks (some (router_error (codes "RESILIENT_STREAM_ERROR") (str x)))
      ]

  unfoldable pub stream_from :
      List StreamTurn
      → List LlmError
      → CircuitBreaker
      → CircuitBreaker × List Text × Option LlmError
  stream_from [] errors b = (b, [], some (failed_error errors))
  stream_from (turn ∷ turns) errors b = elim (stream_visit turn b) [
    | pass b' seen es ↦
        let (after, later, raised) = stream_from turns (errors ++ es) b' in
        (after, seen ++ later, raised)
    | close b' chunks e ↦ (b', chunks, e)
  ]

  unfoldable pub stream :
      List StreamTurn → CircuitBreaker → CircuitBreaker × List Text × Option LlmError
  stream turns b = stream_from turns [] b
