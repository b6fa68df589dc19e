-- ===== src/Loop/Turn.antt =====
-- backend/core/s01_agent_loop/agent_loop_run.py: what an iteration does with the calls of a
-- response, from `split_repeated` to the results. The executor and the gate have the same registry,
-- as `AgentLoop.__init__` gives it to both. Events and logging are left out.
pub mod Signing
pub mod Answers
use neuralhub.Base.{ℕ, Bool, List, [], ◌∷◌, ◌++◌, Text, Dict, put, Result}
use neuralhub.Types.{Fields, ToolCall, ToolResult, SignedToolCall}
use neuralhub.Tools.Registry.{list_definitions}
use neuralhub.Tools.Gate.{Crypto, SecurityGate, authorize, force_sign}
use neuralhub.Tools.Executor.{execute_signed_batch, execute_signed_serial}
use neuralhub.Tools.Batching.{partition_by_side_effect, merge_results}
use neuralhub.Loop.Failures.{FailureTexts}
use neuralhub.Loop.Recovery.{ToolFailureRecoveryTracker, split_repeated, annotate}
use neuralhub.Loop.Review.{ReviewTexts}
use neuralhub.Loop.Approval.{Approvals, UserAction, review_tool_approvals, wait_tool_approvals}

pub record TurnState (X : Type 0) : Type 0 where
  pub tracker : ToolFailureRecoveryTracker
  pub gate : SecurityGate X
  pub approvals : Approvals

-- What comes from outside in a turn: the user's setting, the reviewing model's answer, and the
-- actions that arrive during each wait.
pub record TurnInput : Type 0 where
  pub auto_approve_tools : Bool
  pub review_answer : Result Text
  pub arrivals : List (List UserAction)

-- `{call.id: call for call in calls}`.
unfoldable pub call_map_from : Dict ToolCall → List ToolCall → Dict ToolCall
unfolding put
call_map_from d [] = d
call_map_from d (call ∷ calls) = call_map_from (put call.id call d) calls

unfoldable pub wait_if_any :
    Approvals → List ToolCall → List (List UserAction) → Approvals × List ToolCall × List ToolResult
unfolding wait_tool_approvals
wait_if_any s [] arrivals = (s, [], [])
wait_if_any s (call ∷ calls) arrivals = wait_tool_approvals s (call ∷ calls) arrivals

-- The calls that are pending: the approved ones, and the results of the others.
unfoldable pub ask_approvals :
    ReviewTexts
    → TurnInput
    → Approvals
    → (pending_approval : List ToolCall) → Approvals × List ToolCall × List ToolResult
unfolding review_tool_approvals wait_if_any
ask_approvals texts input s [] = (s, [], [])
ask_approvals texts input s (call ∷ calls) =
    let (s₁, auto_approved, auto_results, human_calls) =
      review_tool_approvals texts input.auto_approve_tools input.review_answer s (call ∷ calls) in
    let (s₂, human_approved, human_results) = wait_if_any s₁ human_calls input.arrivals in
    (s₂, auto_approved ++ human_approved, auto_results ++ human_results)

module _ (failure_texts : FailureTexts) (review_texts : ReviewTexts) (crypto : Crypto) {X : Type 0}
    (run : X → Fields → Result ToolResult) (time : ℕ → ℕ) where
  open failure_texts use {show_int}

  -- The signed calls, those that only read as a batch and the others one by one.
  unfoldable pub execute_signed_calls :
      SecurityGate X → List SignedToolCall → SecurityGate X × List ToolResult
  unfolding list_definitions partition_by_side_effect execute_signed_batch execute_signed_serial
      merge_results
  execute_signed_calls gate signed_calls =
      let (read_only_calls, write_calls) =
        partition_by_side_effect signed_calls (list_definitions gate.registry) in
      let (gate₁, read_results) =
        execute_signed_batch show_int run crypto gate.registry read_only_calls gate in
      let (gate₂, write_results) =
        execute_signed_serial show_int run crypto gate.registry write_calls gate₁ in
      (gate₂, merge_results read_results write_results signed_calls)

  unfoldable pub answer_calls :
      TurnState X → TurnInput → List ToolCall → TurnState X × List ToolResult
  unfolding split_repeated authorize ask_approvals force_sign execute_signed_calls annotate
      call_map_from
  answer_calls s input tool_calls =
      let (allowed_calls, skipped_results) = split_repeated failure_texts s.tracker tool_calls in
      let (gate₁, auth_result) = authorize crypto time s.gate allowed_calls in
      let (approvals, approved_calls, approval_results) =
        ask_approvals review_texts input s.approvals auth_result.pending_approval in
      let (gate₂, forced) = force_sign crypto time gate₁ approved_calls in
      let (gate₃, signed_results) =
        execute_signed_calls gate₂ (auth_result.signed_calls ++ forced) in
      let (tracker, results) =
        annotate failure_texts s.tracker
          (skipped_results ++ auth_result.rejected_results ++ approval_results ++ signed_results)
          (call_map_from [] tool_calls) in
      (record { tracker = tracker; gate = gate₃; approvals = approvals }, results)
