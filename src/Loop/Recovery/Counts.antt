-- ===== src/Loop/Recovery/Counts.antt =====
-- What the tracker counts.
use neuralhub.Base.{
  ℕ, ◌+◌, ◌<◌, ◌≡◌, refl, ap, ◌∙◌, inl, inr, false, not, none, some, List, [], ◌∷◌, arith, ltb, leb,
  if◌then◌else◌, Option-cases, Text, text_eq, text_eq_iff, Dict, get, get-put, get-del, startswith,
  nonempty,
}
use neuralhub.Types.{ToolCall, ToolResult}
use neuralhub.Loop.Failures.{FailureTexts, signature}
use neuralhub.Loop.Recovery.{
  repeated_failure_header, ToolFailureRecoveryTracker, count_of, record_success, state_of,
  record_failure, annotate_call, annotate_from, split_from, split_repeated, annotate,
}

module _ (texts : FailureTexts) where
  -- The failures of the calls with a signature since the last success among them, where `n` is their
  -- number before the results; results of unknown calls and skipped calls do not count.
  unfoldable pub failures_since_success :
      (signature : Text) → Dict ToolCall → (n : ℕ) → List ToolResult → ℕ
  unfolding get startswith
  failures_since_success sig call_map n [] = n
  failures_since_success sig call_map n (r ∷ rs) = elim (get r.tool_call_id call_map) [
    | none ↦ failures_since_success sig call_map n rs
    | some call ↦
        failures_since_success sig call_map
          (if not (text_eq (signature texts call) sig)
            then n
            else if not r.is_error
            then 0
            else if startswith r.output repeated_failure_header
            then n
            else n + 1)
          rs
  ]

  annotate_call-count :
      (tracker : ToolFailureRecoveryTracker) (call : ToolCall) (r : ToolResult) (sig : Text)
      → count_of texts sig (annotate_call texts tracker call r).0 ≡ (
          if not (text_eq (signature texts call) sig)
          then count_of texts sig tracker
          else if not r.is_error
          then 0
          else if startswith r.output repeated_failure_header
          then count_of texts sig tracker
          else count_of texts sig tracker + 1)
  unfolding annotate_call record_success record_failure state_of
  annotate_call-count tracker call r sig =
      let d = get-del (signature texts call) sig tracker.states in
      let p =
        get-put (signature texts call) sig (record_failure texts tracker call r).1 tracker.states in
      ground (arith, text_eq_iff (signature texts call) sig)

  count-annotate_from :
      (results : List ToolResult) (tracker : ToolFailureRecoveryTracker) (call_map : Dict ToolCall)
      (sig : Text)
      → count_of texts sig (annotate_from texts tracker results call_map).0
        ≡ failures_since_success sig call_map (count_of texts sig tracker) results
  unfolding annotate_from failures_since_success
  count-annotate_from [] tracker call_map sig = refl
  count-annotate_from (r ∷ rs) tracker call_map sig =
      elim (Option-cases (get r.tool_call_id call_map)) [
        | inl e ↦
            rw (annotate_from, failures_since_success, e)
              (count-annotate_from rs tracker call_map sig)
        | inr (call, e) ↦
            let s = annotate_call texts tracker call r in
            rw (annotate_from, failures_since_success, e)
              (count-annotate_from rs s.0 call_map sig
                ∙ ap (λ n. failures_since_success sig call_map n rs)
                    (annotate_call-count tracker call r sig))
      ]

  annotate_call-threshold :
      (tracker : ToolFailureRecoveryTracker) (call : ToolCall) (r : ToolResult)
      → (annotate_call texts tracker call r).0.threshold ≡ tracker.threshold
  unfolding annotate_call record_success record_failure
  annotate_call-threshold tracker call r = ground arith

  annotate_from-threshold :
      (results : List ToolResult) (tracker : ToolFailureRecoveryTracker) (call_map : Dict ToolCall)
      → (annotate_from texts tracker results call_map).0.threshold ≡ tracker.threshold
  unfolding annotate_from
  annotate_from-threshold [] tracker call_map = refl
  annotate_from-threshold (r ∷ rs) tracker call_map =
      elim (Option-cases (get r.tool_call_id call_map)) [
        | inl e ↦ rw (annotate_from, e) (annotate_from-threshold rs tracker call_map)
        | inr (call, e) ↦
            let s = annotate_call texts tracker call r in
            rw (annotate_from, e)
              (annotate_from-threshold rs s.0 call_map ∙ annotate_call-threshold tracker call r)
      ]

  split-skips :
      (tracker : ToolFailureRecoveryTracker) (call : ToolCall)
      → 0 < tracker.threshold
      → nonempty (split_repeated texts tracker (call ∷ [])).0
        ≡ ltb (count_of texts (signature texts call) tracker) tracker.threshold
  unfolding split_repeated split_from
  split-skips tracker call h = ground arith

  -- With a threshold, the next call is let through after results have been annotated exactly when the
  -- calls with its signature have failed less often than the threshold since their last success, in
  -- these results and, if none of them is a success, before.
  pub split-after-annotate :
      (tracker : ToolFailureRecoveryTracker) (results : List ToolResult) (call_map : Dict ToolCall)
      (call : ToolCall)
      → 0 < tracker.threshold
      → nonempty (split_repeated texts (annotate texts tracker results call_map).0 (call ∷ [])).0
        ≡ ltb
            (failures_since_success
              (signature texts call)
              call_map
              (count_of texts (signature texts call) tracker)
              results)
            tracker.threshold
  unfolding annotate
  split-after-annotate tracker results call_map call h =
      let on : leb tracker.threshold 0 ≡ false = ground arith in
      let t = annotate_from-threshold results tracker call_map in
      let c = count-annotate_from results tracker call_map (signature texts call) in
      rw (annotate, on)
        (split-skips (annotate_from texts tracker results call_map).0 call (rw t h)
          ∙ (rw (c, t) refl))
