-- ===== src/Loop/Run.antt =====
-- backend/core/s01_agent_loop/agent_loop_run.py: `run_agent_loop`. What an iteration gets from
-- outside is its `IterationInput`. An exception that ends the run is a `Stop`, and so is its
-- cancellation. Metrics, tracing, logging and events are left out.
pub mod Histories
pub mod Compacted
pub mod Consistent
pub mod Answer
use neuralhub.Base.{
  ℕ, zero, suc, ◌+◌, ◌⊎◌, inl, inr, Bool, true, false, Option, none, some, List, [], ◌∷◌, ◌++◌,
  if◌then◌else◌, length, Text, codes, Exception, agent_error, Result, nonempty,
}
use neuralhub.Types.{
  Fields, ToolCall, ToolResult, Role, Message, new_message, user, assistant, tool, runtime_guard,
}
use neuralhub.Tools.Gate.{Crypto}
use neuralhub.History.Checkpoints.{MessageHistory, append, ensure_system_message, checkpoint_from}
use neuralhub.History.Orphans.{patch_orphan_tool_calls}
use neuralhub.Loop.Failures.{FailureTexts}
use neuralhub.Loop.Recovery.{new_tracker}
use neuralhub.Loop.Queue.{PendingMessageQueue, push_all}
use neuralhub.Loop.Guard.{AgentLoopGuard, new_guard, prompt_for_iteration}
use neuralhub.Loop.Review.{ReviewTexts}
use neuralhub.Loop.Approval.{Approvals, abort}
use neuralhub.Loop.Turn.{TurnState, TurnInput, answer_calls}
use neuralhub.Loop.Writeback.{CompactionRun, apply_layered_compaction}
use neuralhub.Loop.Response.{LlmResponse, response_content}

pub data AgentStatus : Type 0 where
  idle thinking compacting tool_calling waiting_approval done error : AgentStatus

pub data Stop : Type 0 where
  failed : Exception → Stop
  cancelled : Stop

pub data Step : Type 0 where
  continues : Step
  returns : Message → Step
  stops : Stop → Step

-- The fields of `AgentConfig` that the loop itself reads.
pub record LoopConfig : Type 0 where
  pub system_prompt : Text
  pub max_iterations : ℕ
  pub max_consecutive_tool_failures : ℕ
  pub dead_end_reflection_iteration : ℕ

pub record RunState (X : Type 0) : Type 0 where
  pub history : MessageHistory
  pub pending : PendingMessageQueue
  pub turn : TurnState X
  pub guard : AgentLoopGuard
  pub status : AgentStatus
  -- How many messages the run has made.
  pub made : ℕ

-- What the compressors do in one iteration, and whether the policy asks for the last of them.
pub record Compaction : Type 0 where
  pub second_level : CompactionRun
  pub third_level : CompactionRun
  pub whole : CompactionRun
  pub should_compact : List Message → Bool

-- In the order of an iteration: what the compressors do, the texts that the user queues until the
-- response is there, whether the run is aborted until then, the response or the stop in its place, the
-- answers for the tools, the texts that the user queues between the check of the queue and the return
-- (the loop awaits a metric there), the stop while the tools run with what the turn has done until
-- then, and what is queued and aborted during the tools.
pub record IterationInput (X : Type 0) : Type 0 where
  pub compaction : Compaction
  pub typed_before : List Text
  pub aborts_before : Bool
  pub response : LlmResponse ⊎ Stop
  pub turn : TurnInput
  pub typed_late : List Text
  pub tools_stop : Option (Stop × (TurnState X → TurnState X))
  pub typed_after : List Text
  pub aborts_after : Bool

abbrev pub optional_calls : List ToolCall → Option (List ToolCall)
optional_calls [] = none
optional_calls (c ∷ cs) = some (c ∷ cs)

abbrev pub directive : (content : Text) → Text
directive content =
    codes "<system_directive>\n" ++ content ++ codes "\n这是系统注入的运行时指令，不是用户的新任务。\n</system_directive>"

unfoldable pub compacted_by : Compaction → List Message → List Message
unfolding apply_layered_compaction
compacted_by c ms =
    (apply_layered_compaction c.second_level c.third_level c.whole c.should_compact ms).0

unfoldable pub abort_if : Bool → Approvals → Approvals
unfolding abort
abort_if yes' a = if yes' then abort a else a

module _ {X : Type 0} (stamp : ℕ → Text × ℕ) where
  unfoldable pub made_message : RunState X → Role → Text → Message
  made_message s role text = new_message (stamp s.made).0 (stamp s.made).1 role text

  -- `_append_message`, for a message that has just been made.
  unfoldable pub append_message : RunState X → Message → RunState X
  unfolding append
  append_message s m = record s { history = append s.history m; made = s.made + 1 }

  unfoldable pub inject : RunState X → List Text → RunState X
  unfolding append_message made_message
  inject s [] = s
  inject s (t ∷ ts) = inject (append_message s (made_message s user t)) ts

  -- The queued messages are drained into the history.
  unfoldable pub inject_pending : RunState X → RunState X
  unfolding inject
  inject_pending s = inject (record s { pending = [] }) s.pending

  unfoldable pub prompt_guard : (show_int : ℕ → Text) → RunState X → (iteration : ℕ) → RunState X
  unfolding prompt_for_iteration append_message made_message
  prompt_guard show_int s iteration =
      let (guard, prompt) = prompt_for_iteration show_int s.guard iteration in
      let s' = record s { guard = guard } in
      elim prompt [
        | none ↦ s'
        | some p ↦ append_message s' (record (made_message s' user (directive p.content)) {
          kind = runtime_guard;
          ephemeral = true;
        })
      ]

  unfoldable pub assistant_message : RunState X → LlmResponse → Message
  unfolding made_message response_content
  assistant_message s response = record (made_message s assistant (response_content response)) {
    tool_calls = optional_calls response.tool_calls;
    provider_metadata = response.provider_metadata;
  }

  unfoldable pub tool_message : RunState X → List ToolResult → Message
  unfolding made_message
  tool_message s results = record (made_message s tool []) { tool_results = some results }

  -- `_patch_and_checkpoint`.
  unfoldable pub patch_and_checkpoint : RunState X → RunState X
  unfolding patch_orphan_tool_calls checkpoint_from
  patch_and_checkpoint s =
      let existing_count = length s.history.messages in
      let patched = record s.history {
        messages = patch_orphan_tool_calls (stamp s.made).0 (stamp s.made).1 s.history.messages;
      } in
      record s { history = checkpoint_from patched existing_count; made = s.made + 1 }

  -- The `finally`.
  unfoldable pub end_run : RunState X → RunState X
  end_run s = record s {
    turn = record s.turn { approvals = record s.turn.approvals { aborted = false } };
  }

  module _ (failure_texts : FailureTexts) (review_texts : ReviewTexts) (crypto : Crypto)
      (run : X → Fields → Result ToolResult) (time : ℕ → ℕ) where
    open failure_texts use {show_int}

    -- The iteration up to the request, and with the response or the stop in its place.
    unfoldable pub prepare : RunState X → (iteration : ℕ) → IterationInput X → RunState X
    unfolding inject_pending prompt_guard push_all abort_if compacted_by
    prepare s iteration input =
        let injected = inject_pending (record s { status = thinking }) in
        let compacted = record injected {
          history = record injected.history {
            messages = compacted_by input.compaction injected.history.messages;
          };
        } in
        let prompted = prompt_guard show_int compacted iteration in
        record prompted {
          pending = push_all prompted.pending input.typed_before;
          turn = record prompted.turn {
            approvals = abort_if input.aborts_before prompted.turn.approvals;
          };
        }

    -- The calls of the response are answered; `s` has the assistant message already.
    unfoldable pub call_tools : RunState X → IterationInput X → List ToolCall → RunState X × Step
    unfolding answer_calls append_message tool_message push_all abort_if
    call_tools s input tool_calls =
        let calling = record s { status = tool_calling } in
        let (turn, results) =
          answer_calls failure_texts review_texts crypto run time calling.turn input.turn
            tool_calls in
        let answered =
          append_message (record calling { turn = turn }) (tool_message calling results) in
        let after = record answered {
          pending = push_all answered.pending input.typed_after;
          turn = record turn { approvals = abort_if input.aborts_after turn.approvals };
        } in
        elim input.tools_stop [
          | some (stop, done_until) ↦ (
            record calling {
              turn = done_until calling.turn;
              pending = push_all calling.pending input.typed_after;
            },
            stops stop,
          )
          | none ↦
              if after.turn.approvals.aborted
              then (
                after,
                stops (failed (agent_error (codes "LOOP_ABORTED") (codes "Agent loop aborted"))),
              )
              else (after, continues)
        ]

    unfoldable pub respond : RunState X → IterationInput X → LlmResponse → RunState X × Step
    unfolding append_message assistant_message call_tools push_all
    respond s input response =
        let message = assistant_message s response in
        let said = append_message s message in
        elim response.tool_calls [
          | [] ↦ if nonempty said.pending then (said, continues) else (
            record said { status = done; pending = push_all said.pending input.typed_late },
            returns message,
          )
          | call ∷ calls ↦ call_tools said input (call ∷ calls)
        ]

    unfoldable pub iterate : RunState X → (iteration : ℕ) → IterationInput X → RunState X × Step
    unfolding prepare respond
    iterate s iteration input =
        let ready = prepare s iteration input in
        elim input.response [
          | inr stop ↦ (ready, stops stop)
          | inl response ↦ respond ready input response
        ]

    -- The loop, with the number of the next iteration and of those that are left.
    unfoldable pub run_iterations :
        (ℕ → IterationInput X) → RunState X → (iteration left : ℕ) → RunState X × Step
    unfolding iterate
    run_iterations inputs s iteration zero = (
      s,
      stops (failed (agent_error (codes "LOOP_MAX_ITERATIONS") (codes "Max iterations exceeded"))),
    )
    run_iterations inputs s iteration (suc left) =
        let (s', step) = iterate s iteration (inputs iteration) in
        let rest = run_iterations inputs s' (iteration + 1) left in
        elim step [ continues ↦ rest | returns m ↦ (s', returns m) | stops stop ↦ (s', stops stop) ]

    -- The two `except` branches, each with the `finally`.
    unfoldable pub finish : RunState X × Step → RunState X × Step
    unfolding patch_and_checkpoint end_run
    finish (s, step) =
        let patched = patch_and_checkpoint s in
        elim step [
          | continues ↦ (end_run s, continues)
          | returns m ↦ (end_run s, returns m)
          | stops cancelled ↦ (end_run patched, stops cancelled)
          | stops (failed e) ↦ (end_run (record patched { status = error }), stops (failed e))
        ]

    -- The run up to its first iteration.
    unfoldable pub start_run : LoopConfig → RunState X → (user_message : Text) → RunState X
    unfolding new_tracker new_guard ensure_system_message inject_pending append_message made_message
    start_run config s user_message =
        let fresh = record s {
          history =
              ensure_system_message (stamp s.made).0 (stamp s.made).1 s.history
                config.system_prompt;
          turn = record s.turn {
            tracker = new_tracker config.max_consecutive_tool_failures;
            approvals = record s.turn.approvals { aborted = false };
          };
          guard = new_guard config.max_iterations config.dead_end_reflection_iteration;
          made = s.made + 1;
        } in
        let injected = inject_pending fresh in
        append_message injected (made_message injected user user_message)

    unfoldable pub run_agent_loop :
        LoopConfig → (ℕ → IterationInput X) → RunState X → (user_message : Text) → RunState X × Step
    unfolding start_run run_iterations finish
    run_agent_loop config inputs s user_message =
        finish (run_iterations inputs (start_run config s user_message) 1 config.max_iterations)
