-- ===== src/Loop/Recovery.antt =====
-- backend/core/s01_agent_loop/failure_recovery.py: `ToolFailureRecoveryTracker` counts the failures
-- of each call since its last success, and skips a call that has failed too often.
pub mod Counts
pub mod Splitting
use neuralhub.Base.{
  ℕ, ◌+◌, ◌-◌, Bool, true, not, ◌||◌, Option, none, some, List, [], ◌∷◌, ◌++◌, ltb, leb,
  if◌then◌else◌, length, drop, Text, codes, Dict, get, put, del, rstrip, startswith, join,
}
use neuralhub.Types.{ToolCall, ToolResult, new_result}
use neuralhub.Loop.Failures.{FailureTexts, signature, call_summary, error_summary, fingerprint}

abbrev pub recovery_context_header : Text
recovery_context_header = codes "[失败恢复提示]"

abbrev pub repeated_failure_header : Text
repeated_failure_header = codes "[重复失败拦截]"

pub record ToolFailureState : Type 0 where
  pub signature : Text
  pub call_summary : Text
  pub count : ℕ
  pub last_fingerprint : Text
  pub recent_errors : List Text

pub record ToolFailureRecoveryTracker : Type 0 where
  pub threshold : ℕ
  pub consecutive_failures : ℕ
  pub states : Dict ToolFailureState
  pub recent_fingerprints : List Text

-- `xs[-n:]`.
abbrev pub last_of : ℕ → List Text → List Text
last_of n xs = drop (length xs - n) xs

unfoldable pub new_tracker : (threshold : ℕ) → ToolFailureRecoveryTracker
new_tracker threshold = record {
  threshold = threshold;
  consecutive_failures = 0;
  states = [];
  recent_fingerprints = [];
}

unfoldable pub repeated_failure_output : ToolFailureState → Text
unfolding join
repeated_failure_output state = join (codes "\n") (
    repeated_failure_header
    ∷ codes "该工具调用与最近失败指纹相同，已跳过真实执行。"
    ∷ (codes "失败指纹: " ++ state.last_fingerprint)
    ∷ (codes "调用摘要: " ++ state.call_summary)
    ∷ codes "这条路径已被判定为重复失败，继续尝试不会带来新信息。"
    ∷ codes "请换工具、换参数，或先解释失败原因后再继续。"
    ∷ [])

module _ (texts : FailureTexts) where
  open texts use {show_int}

  -- The count of the state that stands under the call's signature, 0 without one.
  abbrev pub count_of : (signature : Text) → ToolFailureRecoveryTracker → ℕ
  count_of signature tracker = elim (get signature tracker.states) [
    | none ↦ 0
    | some state ↦ state.count
  ]

  unfoldable pub recovery_context : ToolFailureState → (recent_fingerprints : List Text) → Text
  unfolding join
  recovery_context state recent = join (codes "\n") (
      []
      ∷ recovery_context_header
      ∷ (codes "相同调用失败次数: " ++ show_int state.count)
      ∷ (codes "失败指纹: " ++ state.last_fingerprint)
      ∷ (codes "调用摘要: " ++ state.call_summary)
      ∷ codes "不要再次用相同工具和相同参数重试。"
      ∷ codes "这可能已经进入死胡同：先反思根因，再决定是否继续。"
      ∷ codes "请先分析失败原因，然后换策略：读取上下文、缩小范围、换工具、改参数，或询问用户。"
      ∷ (codes "最近失败指纹: " ++ join (codes ", ") (last_of 3 recent))
      ∷ [])

  unfoldable pub append_recovery_context :
      ToolResult → ToolFailureState → (recent_fingerprints : List Text) → ToolResult
  unfolding recovery_context rstrip
  append_recovery_context result state recent = record result {
    output = rstrip result.output ++ recovery_context state recent;
  }

  -- The loop of `split_repeated`.
  unfoldable pub split_from :
      ToolFailureRecoveryTracker → List ToolCall → List ToolCall × List ToolResult
  unfolding signature repeated_failure_output
  split_from tracker [] = ([], [])
  split_from tracker (call ∷ calls) =
      let (allowed, skipped) = split_from tracker calls in
      elim (get (signature texts call) tracker.states) [
        | none ↦ (call ∷ allowed, skipped)
        | some state ↦
            if ltb state.count tracker.threshold
            then (call ∷ allowed, skipped)
            else (allowed, new_result call.id (repeated_failure_output state) true ∷ skipped)
      ]

  unfoldable pub split_repeated :
      ToolFailureRecoveryTracker → List ToolCall → List ToolCall × List ToolResult
  unfolding split_from
  split_repeated tracker calls =
      if leb tracker.threshold 0 then (calls, []) else split_from tracker calls

  unfoldable pub record_success : ToolFailureRecoveryTracker → ToolCall → ToolFailureRecoveryTracker
  unfolding signature del
  record_success tracker call = record tracker {
    consecutive_failures = 0;
    states = del (signature texts call) tracker.states;
  }

  -- The state of the call, or a new one.
  unfoldable pub state_of : ToolFailureRecoveryTracker → ToolCall → ToolFailureState
  unfolding signature call_summary get
  state_of tracker call = elim (get (signature texts call) tracker.states) [
    | some state ↦ state
    | none ↦ record {
      signature = signature texts call;
      call_summary = call_summary texts call;
      count = 0;
      last_fingerprint = [];
      recent_errors = [];
    }
  ]

  unfoldable pub record_failure :
      ToolFailureRecoveryTracker
      → ToolCall
      → ToolResult
      → ToolFailureRecoveryTracker × ToolFailureState
  unfolding state_of fingerprint error_summary put
  record_failure tracker call result =
      let old = state_of tracker call in
      let found = fingerprint texts call result in
      let state = record old {
        count = old.count + 1;
        last_fingerprint = found;
        recent_errors = last_of 2 old.recent_errors ++ error_summary result.output ∷ [];
      } in
      (
        record tracker {
          consecutive_failures = tracker.consecutive_failures + 1;
          states = put (signature texts call) state tracker.states;
          recent_fingerprints = last_of 4 tracker.recent_fingerprints ++ found ∷ [];
        },
        state,
      )

  unfoldable pub should_add_context : ToolFailureRecoveryTracker → ToolFailureState → Bool
  should_add_context tracker state =
      leb tracker.threshold state.count || leb tracker.threshold tracker.consecutive_failures

  -- The body of the loop of `annotate`, for a result whose call is known.
  unfoldable pub annotate_call :
      ToolFailureRecoveryTracker → ToolCall → ToolResult → ToolFailureRecoveryTracker × ToolResult
  unfolding record_success record_failure should_add_context append_recovery_context startswith
  annotate_call tracker call result =
      let (tracker', state) = record_failure tracker call result in
      if not result.is_error
      then (record_success tracker call, result)
      else if startswith result.output repeated_failure_header
      then (tracker, result)
      else (
        tracker',
        if should_add_context tracker' state
            then append_recovery_context result state tracker'.recent_fingerprints
            else result,
      )

  -- The body of the loop, with the call of the result, if there is one.
  unfoldable pub annotate_one :
      ToolFailureRecoveryTracker
      → Option ToolCall
      → ToolResult
      → ToolFailureRecoveryTracker × ToolResult
  unfolding annotate_call
  annotate_one tracker none result = (tracker, result)
  annotate_one tracker (some call) result = annotate_call tracker call result

  unfoldable pub annotate_from :
      ToolFailureRecoveryTracker
      → List ToolResult
      → Dict ToolCall
      → ToolFailureRecoveryTracker × List ToolResult
  unfolding annotate_one get
  annotate_from tracker [] call_map = (tracker, [])
  annotate_from tracker (result ∷ results) call_map =
      let (tracker', annotated) = annotate_one tracker (get result.tool_call_id call_map) result in
      let (tracker₂, rest) = annotate_from tracker' results call_map in (tracker₂, annotated ∷ rest)

  unfoldable pub annotate :
      ToolFailureRecoveryTracker
      → List ToolResult
      → Dict ToolCall
      → ToolFailureRecoveryTracker × List ToolResult
  unfolding annotate_from
  annotate tracker results call_map =
      if leb tracker.threshold 0 then (tracker, results) else annotate_from tracker results call_map
