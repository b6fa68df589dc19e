-- ===== src/Adapters/Breaker/Laws.antt =====
-- When the circuit of a provider is open.
use neuralhub.Base.{
  ℕ, ◌+◌, ◌≤◌, ◌<◌, ◌≡◌, refl, ◌↔◌, true, false, none, some, List, [], ◌∷◌, arith, leb, ◌==◌,
  if◌then◌else◌, Text, text_eq, text_eq_iff, get, get-put, get-del,
}
use neuralhub.Adapters.Breaker.{
  CircuitEntry, CircuitBreaker, is_open, record_success, entry_of, failed_entry, record_failure,
}

-- What callers report: a success, or a failure at some time, of a provider.
pub data Report : Type 0 where
  success : (provider_id : Text) → Report
  failure : (now : ℕ) (provider_id : Text) → Report

unfoldable pub report : CircuitBreaker → Report → CircuitBreaker
report b (success p) = record_success b p
report b (failure now p) = record_failure b now p

-- Reports, the latest first.
unfoldable pub reported : CircuitBreaker → List Report → CircuitBreaker
reported b [] = b
reported b (r ∷ rs) = report (reported b rs) r

-- The failures of a provider since its last success.
unfoldable pub streak : Text → List Report → ℕ
streak p [] = 0
streak p (success q ∷ rs) = elim (text_eq q p) [ true ↦ 0 | false ↦ streak p rs ]
streak p (failure now q ∷ rs) = let n = streak p rs in if text_eq q p then n + 1 else n

-- The time of the provider's latest failure since its last success.
unfoldable pub last_failure : Text → List Report → ℕ
last_failure p [] = 0
last_failure p (success q ∷ rs) = elim (text_eq q p) [ true ↦ 0 | false ↦ last_failure p rs ]
last_failure p (failure now q ∷ rs) = elim (text_eq q p) [ true ↦ now | false ↦ last_failure p rs ]

abbrev fresh : ℕ → ℕ → CircuitBreaker
fresh threshold open_seconds = record {
  threshold = threshold;
  open_seconds = open_seconds;
  entries = [];
}

module _ (threshold open_seconds : ℕ) where
  pub start : CircuitBreaker
  start = fresh threshold open_seconds

  settings :
      (rs : List Report)
      → ((reported (fresh threshold open_seconds) rs).threshold ≡ threshold)
        × ((reported (fresh threshold open_seconds) rs).open_seconds ≡ open_seconds)
  unfolding reported report record_success record_failure
  settings [] = (refl, refl)
  settings (success q ∷ rs) = settings rs
  settings (failure now q ∷ rs) = settings rs

  failed_entry-streak :
      (rs : List Report) (now : ℕ) (p : Text)
      → get p (reported (fresh threshold open_seconds) rs).entries ≡ (
          if streak p rs == 0
          then none
          else some (record {
            failures = streak p rs;
            opened_until =
                if leb threshold (streak p rs) then last_failure p rs + open_seconds else 0;
          }))
      → failed_entry
          (reported (fresh threshold open_seconds) rs)
          now
          (entry_of (reported (fresh threshold open_seconds) rs) p)
        ≡ record {
          failures = streak p rs + 1;
          opened_until = if leb threshold (streak p rs + 1) then now + open_seconds else 0;
        }
  unfolding failed_entry entry_of
  failed_entry-streak rs now p e = ground (arith, settings rs)

  get_empty : (p : Text) → get {V = CircuitEntry} p [] ≡ none
  unfolding get
  get_empty p = refl

  -- The entry of a provider is exactly its streak, and its deadline is that of the latest failure.
  entry-streak :
      (rs : List Report) (p : Text)
      → get p (reported (fresh threshold open_seconds) rs).entries ≡ (
          if streak p rs == 0
          then none
          else some (record {
            failures = streak p rs;
            opened_until =
                if leb threshold (streak p rs) then last_failure p rs + open_seconds else 0;
          }))
  unfolding reported report record_success record_failure streak last_failure
  entry-streak [] p = get_empty p
  entry-streak (success q ∷ rs) p =
      ground
        (arith, get-del q p (reported (fresh threshold open_seconds) rs).entries, entry-streak rs p)
  entry-streak (failure now q ∷ rs) p =
      let b = reported (fresh threshold open_seconds) rs in
      let entry = failed_entry b now (entry_of b q) in
      ground (
        arith,
        get-put q p entry b.entries,
        text_eq_iff q p,
        entry-streak rs p,
        entry-streak rs q,
        failed_entry-streak rs now p (entry-streak rs p),
      )

  -- The circuit of a provider is open at a time exactly when the provider has failed since its last
  -- success, at least as often in a row as the threshold says, and the time is before the latest
  -- failure plus the open time. Reports on other providers do not matter.
  pub is_open-streak :
      (rs : List Report) (p : Text) (now : ℕ)
      → is_open (reported start rs) now p ≡ true
        ↔ (0 < streak p rs) × (threshold ≤ streak p rs) × (now < last_failure p rs + open_seconds)
  unfolding is_open start
  is_open-streak rs p now =
      (λ h. ground (arith, entry-streak rs p), λ h. ground (arith, entry-streak rs p))
