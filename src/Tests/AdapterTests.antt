-- ===== src/Tests/AdapterTests.antt =====
-- backend/adapters/resilient_adapter.py with two candidates.
use neuralhub.Base.{
  ℕ, ◌+◌, ◌≤◌, ◌<◌, ◌≡◌, refl, ◌↔◌, true, some, List, [], ◌∷◌, arith, Text, codes, text_eq, has,
  get, put,
}
use neuralhub.Adapters.Breaker.{
  CircuitBreaker, is_open, record_success, failed_entry, entry_of, record_failure,
}
use neuralhub.Adapters.Breaker.Laws.{
  Report, reported, streak, last_failure, start, is_open-streak, success, failure,
}
use neuralhub.Adapters.Resilient.{
  LlmError, LlmCandidate, ResilientAdapterConfig, LlmResponse, Turn, Outcome, StreamTurn,
  annotate_response, visit, complete, stream, response, llm_error, answered, finished, broken,
  can_fallback,
}
use neuralhub.Adapters.Resilient.Fallback.{passes, Wins, Winner, complete_first, complete-Winner}
use neuralhub.Adapters.Resilient.Streaming.{FromOne, stream_one_source}

-- The provider `p` failed twice, after a success and a failure of another provider.
abbrev reports : List Report
reports =
    failure 12 (codes "p")
    ∷ failure 11 (codes "q")
    ∷ failure 10 (codes "p")
    ∷ success (codes "p")
    ∷ []

is_open-streak_example :
    is_open (reported (start 2 30) reports) 20 (codes "p") ≡ true
    ↔ (0 < streak (codes "p") reports)
      × (2 ≤ streak (codes "p") reports)
      × (20 < last_failure (codes "p") reports + 30)
is_open-streak_example = is_open-streak 2 30 reports (codes "p") 20

abbrev show_one : ℕ → Text
show_one n = n ∷ []

abbrev config : ResilientAdapterConfig
config = record {
  fallback_error_codes = codes "RATE_LIMIT" ∷ [];
  deadline_seconds = 60;
  circuit_threshold = 2;
  circuit_seconds = 30;
}

abbrev candidate : (provider_id : Text) → LlmCandidate
candidate i = record { provider_id = i; model = codes "m" }

abbrev limited : LlmError
limited = record {
  code = codes "RATE_LIMIT";
  message = codes "slow down";
  provider = codes "p";
  status_code = some 429;
}

abbrev said : LlmResponse
said = record { content = codes "hello"; tool_calls = []; provider_metadata = [] }

-- The first candidate is limited, and the second answers.
abbrev limited_turn : Turn
limited_turn = record {
  candidate = candidate (codes "p");
  checked_at = 1;
  remaining_at = 2;
  answer = llm_error limited;
  recorded_at = 3;
}

abbrev answering_turn : Turn
answering_turn = record {
  candidate = candidate (codes "q");
  checked_at = 4;
  remaining_at = 5;
  answer = response said;
  recorded_at = 6;
}

abbrev closed_breaker : CircuitBreaker
closed_breaker = record { threshold = 2; open_seconds = 30; entries = [] }

abbrev after_limit : CircuitBreaker
after_limit = record closed_breaker {
  entries = (codes "p", record { failures = 1; opened_until = 0 }) ∷ [];
}

limited_passes :
    passes show_one config (candidate (codes "p")) 0 closed_breaker (limited_turn ∷ [])
    ≡ some after_limit
unfolding passes visit is_open get can_fallback has text_eq record_failure put failed_entry entry_of
limited_passes = refl

answering-Wins : Wins show_one config (candidate (codes "p")) 0 after_limit answering_turn said
unfolding is_open get text_eq
answering-Wins = record { closed = refl; in_time = omega arith; answers = refl }

abbrev given_back : CircuitBreaker × Outcome
given_back = (
  record_success after_limit (codes "q"),
  answered (annotate_response show_one config (candidate (codes "p")) said (candidate (codes "q"))),
)

falls_back_once :
    complete show_one config
      (candidate (codes "p"))
      0
      (limited_turn ∷ answering_turn ∷ [])
      closed_breaker
    ≡ given_back
falls_back_once =
    complete_first show_one config (candidate (codes "p")) 0 closed_breaker after_limit
      (limited_turn ∷ []) [] answering_turn said limited_passes answering-Wins

complete-Winner_example :
    Winner show_one config
      (candidate (codes "p"))
      0
      (limited_turn ∷ answering_turn ∷ [])
      closed_breaker
      (record_success after_limit (codes "q"))
      (annotate_response show_one config (candidate (codes "p")) said (candidate (codes "q")))
complete-Winner_example =
    complete-Winner show_one config (candidate (codes "p")) 0 closed_breaker
      (record_success after_limit (codes "q")) (limited_turn ∷ answering_turn ∷ [])
      (annotate_response show_one config (candidate (codes "p")) said (candidate (codes "q")))
      falls_back_once

-- The first stream breaks before its first chunk, and the second finishes.
abbrev streams : List StreamTurn
streams =
    record {
      candidate = candidate (codes "p");
      checked_at = 1;
      chunks = [];
      ending = broken limited;
      recorded_at = 2;
    }
    ∷ record {
      candidate = candidate (codes "q");
      checked_at = 3;
      chunks = codes "hel" ∷ codes "lo" ∷ [];
      ending = finished;
      recorded_at = 4;
    }
    ∷ []

stream_one_source_example :
    FromOne show_one config
      (candidate (codes "p"))
      streams
      (stream show_one config (candidate (codes "p")) streams closed_breaker)
stream_one_source_example =
    stream_one_source show_one config (candidate (codes "p")) streams closed_breaker
