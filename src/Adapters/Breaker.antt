-- ===== src/Adapters/Breaker.antt =====
-- backend/adapters/resilient_adapter.py: `CircuitBreaker`. `monotonic()` is an argument, in ticks;
-- `open_seconds` is in the same ticks.
pub mod Laws
use neuralhub.Base.{
  ℕ, ◌+◌, Bool, false, none, some, ltb, leb, if◌then◌else◌, Text, Dict, get, put, del,
}

pub record CircuitEntry : Type 0 where
  pub failures : ℕ
  pub opened_until : ℕ

pub record CircuitBreaker : Type 0 where
  pub threshold : ℕ
  pub open_seconds : ℕ
  pub entries : Dict CircuitEntry

unfoldable pub is_open : CircuitBreaker → (now : ℕ) → (provider_id : Text) → Bool
is_open b now provider_id = elim (get provider_id b.entries) [
  | none ↦ false
  | some entry ↦ ltb now entry.opened_until
]

unfoldable pub record_success : CircuitBreaker → (provider_id : Text) → CircuitBreaker
record_success b provider_id = record b { entries = del provider_id b.entries }

-- `setdefault(provider_id, CircuitEntry())`.
unfoldable pub entry_of : CircuitBreaker → Text → CircuitEntry
entry_of b provider_id = elim (get provider_id b.entries) [
  | none ↦ record { failures = 0; opened_until = 0 }
  | some entry ↦ entry
]

unfoldable pub failed_entry : CircuitBreaker → (now : ℕ) → CircuitEntry → CircuitEntry
failed_entry b now entry = record {
  failures = entry.failures + 1;
  opened_until =
      if leb b.threshold (entry.failures + 1) then now + b.open_seconds else entry.opened_until;
}

unfoldable pub record_failure : CircuitBreaker → (now : ℕ) → (provider_id : Text) → CircuitBreaker
record_failure b now provider_id = record b {
  entries = put provider_id (failed_entry b now (entry_of b provider_id)) b.entries;
}
