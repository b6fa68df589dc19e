-- ===== src/Loop/Run/Consistent.antt =====
-- The history after a run.
use neuralhub.Base.{
  ℕ, zero, suc, ◌+◌, ◌≡◌, refl, sym, ◌⊎◌, inl, inr, true, false, List, [], ◌∷◌, ◌++◌, map,
  Bool-cases, Option-cases, length, Text, subset, Result, Sum-cases, List-cases, nonempty,
}
use neuralhub.Types.{Fields, ToolCall, ToolResult, is_tool, Message, user, runtime_guard}
use neuralhub.Tools.Gate.{Crypto}
use neuralhub.History.Checkpoints.{append, ensure_system_message, checkpoint_from-Checkpointed}
use neuralhub.History.Sanitize.{requests_tools, call_ids, result_ids}
use neuralhub.History.Sanitize.Answered.{IsConsistent}
use neuralhub.History.Orphans.{patch_orphan_tool_calls}
use neuralhub.Loop.Failures.{FailureTexts}
use neuralhub.Loop.Guard.{prompt_for_iteration}
use neuralhub.Loop.Review.{ReviewTexts}
use neuralhub.Loop.Turn.{answer_calls}
use neuralhub.Loop.Turn.Answers.{answer_calls-tally, same-subset}
use neuralhub.Loop.Response.{LlmResponse}
use neuralhub.Loop.Run.{
  RunState, IterationInput, LoopConfig, Step, Stop, continues, returns, stops, failed, cancelled,
  made_message, append_message, inject, inject_pending, prompt_guard, assistant_message,
  tool_message, patch_and_checkpoint, prepare, call_tools, respond, iterate, run_iterations, finish,
  start_run, run_agent_loop, directive, thinking, tool_calling, abort_if, end_run, compacted_by,
}
use neuralhub.Loop.Guard.{new_guard}
use neuralhub.History.Level2.{ArtifactTexts}
use neuralhub.Loop.Run.Compacted.{OnlySecond, compacted_by-IsConsistent}
use neuralhub.Loop.Recovery.{new_tracker}
use neuralhub.Loop.Run.Histories.{
  append-messages, append-IsConsistent, answered-IsConsistent, IsPatchable, consistent-IsPatchable,
  open-IsPatchable, ensure-IsConsistent,
}

-- A run that goes on or has an answer has a consistent history; one that stops, a patchable one.
abbrev IsSound : List Message → Step → Type 0
IsSound ms continues = IsConsistent ms
IsSound ms (returns m) = IsConsistent ms
IsSound ms (stops stop) = IsPatchable ms

pub Step-cases :
    (step : Step)
    → (step ≡ continues)
      ⊎ ((m : Message) × (step ≡ returns m))
      ⊎ ((stop : Stop) × (step ≡ stops stop))
Step-cases continues = inl refl
Step-cases (returns m) = inr (inl (m, refl))
Step-cases (stops stop) = inr (inr (stop, refl))

abbrev pub messages : {X : Type 0} → RunState X → List Message
messages s = s.history.messages

module _ {X : Type 0} (stamp : ℕ → Text × ℕ) where
  append_plain :
      (s : RunState X) (m : Message)
      → IsConsistent (messages s)
      → requests_tools m ≡ false
      → is_tool m.role ≡ false
      → IsConsistent (messages (append_message stamp s m))
  unfolding append_message
  append_plain s m h r t =
      rw (append-messages s.history m) (append-IsConsistent s.history.messages m h r t)

  user_plain :
      (s : RunState X) (t : Text)
      → (requests_tools (made_message stamp s user t) ≡ false)
        × (is_tool (made_message stamp s user t).role ≡ false)
  unfolding made_message requests_tools
  user_plain s t = (refl, refl)

  inject-IsConsistent :
      (ts : List Text) (s : RunState X)
      → IsConsistent (messages s)
      → IsConsistent (messages (inject stamp s ts))
  unfolding inject
  inject-IsConsistent [] s h = h
  inject-IsConsistent (t ∷ ts) s h =
      let p = user_plain s t in
      inject-IsConsistent ts (append_message stamp s (made_message stamp s user t))
        (append_plain s (made_message stamp s user t) h p.0 p.1)

  inject_pending-IsConsistent :
      (s : RunState X)
      → IsConsistent (messages s)
      → IsConsistent (messages (inject_pending stamp s))
  unfolding inject_pending
  inject_pending-IsConsistent s h = inject-IsConsistent s.pending (record s { pending = [] }) h

  prompt_guard-IsConsistent :
      (show_int : ℕ → Text) (s : RunState X) (i : ℕ)
      → IsConsistent (messages s)
      → IsConsistent (messages (prompt_guard stamp show_int s i))
  unfolding prompt_guard made_message requests_tools
  prompt_guard-IsConsistent show_int s i h =
      let g = prompt_for_iteration show_int s.guard i in
      elim (Option-cases g.1) [
        | inl e ↦ rw (prompt_guard, e) h
        | inr (p, e) ↦
            let s' = record s { guard = g.0 } in
            let m = record (made_message stamp s' user (directive p.content)) {
              kind = runtime_guard;
              ephemeral = true;
            } in
            rw (prompt_guard, e) (append_plain s' m h refl refl)
      ]

  patch-messages :
      (s : RunState X)
      → IsPatchable (messages s)
      → IsConsistent (messages (patch_and_checkpoint stamp s))
  unfolding patch_and_checkpoint
  patch-messages s p =
      let patched = record s.history {
        messages = patch_orphan_tool_calls (stamp s.made).0 (stamp s.made).1 s.history.messages;
      } in
      let c = checkpoint_from-Checkpointed patched (length s.history.messages) in
      rw c.kept (p.patched (stamp s.made).0 (stamp s.made).1)

  module _ (failure_texts : FailureTexts) (review_texts : ReviewTexts) (crypto : Crypto)
      (run : X → Fields → Result ToolResult) (time : ℕ → ℕ) where
    prepare-IsConsistent :
        (s : RunState X) (i : ℕ) (input : IterationInput X)
        → ((ms : List Message) → IsConsistent ms → IsConsistent (compacted_by input.compaction ms))
        → IsConsistent (messages s)
        → IsConsistent
            (messages (prepare stamp failure_texts review_texts crypto run time s i input))
    unfolding prepare
    prepare-IsConsistent s i input keeps h =
        let injected = inject_pending stamp (record s { status = thinking }) in
        let compacted = record injected {
          history = record injected.history {
            messages = compacted_by input.compaction injected.history.messages;
          };
        } in
        prompt_guard-IsConsistent failure_texts.show_int compacted i (
          keeps injected.history.messages
            (inject_pending-IsConsistent (record s { status = thinking }) h))

    tools-answered :
        (s : RunState X) (input : IterationInput X) (m : Message) (calls : List ToolCall)
        → call_ids m ≡ map (λ c. c.id) calls
        → let answers =
            answer_calls failure_texts review_texts crypto run time s.turn input.turn calls in
          subset (call_ids m) (result_ids (tool_message stamp s answers.1)) ≡ true
    unfolding tool_message
    tools-answered s input m calls ids =
        let answers =
          answer_calls failure_texts review_texts crypto run time s.turn input.turn calls in
        rw ids (
          same-subset (map (λ c. c.id) calls) (map (λ r. r.tool_call_id) answers.1) (λ k. sym (
            answer_calls-tally failure_texts review_texts crypto run time s.turn input.turn calls
              k)))

    call_tools-IsSound :
        (s : RunState X) (input : IterationInput X) (ms : List Message) (m : Message)
        (calls : List ToolCall)
        → messages s ≡ ms ++ m ∷ []
        → IsConsistent ms
        → requests_tools m ≡ true
        → call_ids m ≡ map (λ c. c.id) calls
        → let r = call_tools stamp failure_texts review_texts crypto run time s input calls in
          IsSound (messages r.0) r.1
    unfolding call_tools append_message tool_message made_message
    call_tools-IsSound s input ms m calls e h r ids =
        let calling = record s { status = tool_calling } in
        let answers =
          answer_calls failure_texts review_texts crypto run time s.turn input.turn calls in
        let t = tool_message stamp calling answers.1 in
        let whole : IsConsistent (append s.history t).messages = rw (append-messages s.history t) (
          rw e
            (answered-IsConsistent ms m t h r refl (tools-answered calling input m calls ids))) in
        elim (Option-cases input.tools_stop) [
          | inr ((stop, done_until), f) ↦ rw (call_tools, f) (rw e (open-IsPatchable ms m h r))
          | inl f ↦ elim (Bool-cases (abort_if input.aborts_after answers.0.approvals).aborted) [
            | inl g ↦
                rw (call_tools, f, g) (consistent-IsPatchable (append s.history t).messages whole)
            | inr g ↦ rw (call_tools, f, g) whole
          ]
        ]

    said-calls :
        (s : RunState X) (response : LlmResponse) (call : ToolCall) (calls : List ToolCall)
        → response.tool_calls ≡ call ∷ calls
        → let m = assistant_message stamp s response in
          (requests_tools m ≡ true) × (call_ids m ≡ map (λ c. c.id) (call ∷ calls))
    unfolding assistant_message made_message requests_tools
    said-calls s response call calls e = rw e (refl, refl)

    said-nothing :
        (s : RunState X) (response : LlmResponse)
        → response.tool_calls ≡ []
        → let m = assistant_message stamp s response in
          (requests_tools m ≡ false) × (is_tool m.role ≡ false)
    unfolding assistant_message made_message requests_tools
    said-nothing s response e = rw e (refl, refl)

    respond-IsSound :
        (s : RunState X) (input : IterationInput X) (response : LlmResponse)
        → IsConsistent (messages s)
        → let r = respond stamp failure_texts review_texts crypto run time s input response in
          IsSound (messages r.0) r.1
    unfolding respond
    respond-IsSound s input response h =
        let m = assistant_message stamp s response in
        let said = append_message stamp s m in
        elim (List-cases response.tool_calls) [
          | inl e ↦
              let n = said-nothing s response e in
              let c = append_plain s m h n.0 n.1 in
              elim (Bool-cases (nonempty said.pending)) [
                | inl f ↦ rw (respond, e, f) c
                | inr f ↦ rw (respond, e, f) c
              ]
          | inr (call, calls, e) ↦
              let n = said-calls s response call calls e in
              rw (respond, e)
                (call_tools-IsSound said input (messages s) m (call ∷ calls)
                  (append-messages s.history m) h n.0 n.1)
        ]

    iterate-IsSound :
        (s : RunState X) (i : ℕ) (input : IterationInput X)
        → ((ms : List Message) → IsConsistent ms → IsConsistent (compacted_by input.compaction ms))
        → IsConsistent (messages s)
        → let r = iterate stamp failure_texts review_texts crypto run time s i input in
          IsSound (messages r.0) r.1
    unfolding iterate
    iterate-IsSound s i input keeps h =
        let ready = prepare stamp failure_texts review_texts crypto run time s i input in
        let c = prepare-IsConsistent s i input keeps h in
        elim (Sum-cases input.response) [
          | inl (response, e) ↦ rw (iterate, e) (respond-IsSound ready input response c)
          | inr (stop, e) ↦ rw (iterate, e) (consistent-IsPatchable (messages ready) c)
        ]

    iterations-IsSound :
        (inputs : ℕ → IterationInput X) (left : ℕ) (s : RunState X) (i : ℕ)
        → ((j : ℕ) (ms : List Message)
            → IsConsistent ms
            → IsConsistent (compacted_by (inputs j).compaction ms))
        → IsConsistent (messages s)
        → let r = run_iterations stamp failure_texts review_texts crypto run time inputs s i left in
          IsSound (messages r.0) r.1
    unfolding run_iterations
    iterations-IsSound inputs zero s i keeps h = consistent-IsPatchable (messages s) h
    iterations-IsSound inputs (suc left) s i keeps h =
        let step = iterate stamp failure_texts review_texts crypto run time s i (inputs i) in
        let sound = iterate-IsSound s i (inputs i) (keeps i) h in
        elim (Step-cases step.1) [
          | inl e ↦
              rw (run_iterations, e)
                (iterations-IsSound inputs left step.0 (i + 1) keeps (rw e at sound))
          | inr (inl (m, e)) ↦ rw (run_iterations, e) (rw e at sound)
          | inr (inr (stop, e)) ↦ rw (run_iterations, e) (rw e at sound)
        ]

    finish-IsConsistent :
        (s : RunState X) (step : Step)
        → IsSound (messages s) step
        → IsConsistent
            (messages (finish stamp failure_texts review_texts crypto run time (s, step)).0)
    unfolding finish end_run
    finish-IsConsistent s continues h = h
    finish-IsConsistent s (returns m) h = h
    finish-IsConsistent s (stops cancelled) h = patch-messages s h
    finish-IsConsistent s (stops (failed e)) h = patch-messages s h

    start-IsConsistent :
        (config : LoopConfig) (s : RunState X) (user_message : Text)
        → IsConsistent (messages s)
        → IsConsistent (
            messages
              (start_run stamp failure_texts review_texts crypto run time config s user_message))
    unfolding start_run
    start-IsConsistent config s user_message h =
        let fresh = record s {
          history =
              ensure_system_message (stamp s.made).0 (stamp s.made).1 s.history
                config.system_prompt;
          turn = record s.turn {
            tracker = new_tracker config.max_consecutive_tool_failures;
            approvals = record s.turn.approvals { aborted = false };
          };
          guard = new_guard config.max_iterations config.dead_end_reflection_iteration;
          made = s.made + 1;
        } in
        let injected = inject_pending stamp fresh in
        let p = user_plain injected user_message in
        append_plain injected (made_message stamp injected user user_message)
          (inject_pending-IsConsistent fresh (
            ensure-IsConsistent (stamp s.made).0 (stamp s.made).1 s.history config.system_prompt h))
          p.0 p.1

    -- However a run ends, with an answer, aborted, at its limit of iterations, by an exception of the
    -- model or the tools, or cancelled, its history is one that a provider accepts: every message that
    -- requests tools is followed at once by a tool message with a result for each of its calls, and
    -- there is no other tool message. This is so if the history before the run is such a one, and if in
    -- no iteration the context is so large that it has to be summarized: the second level of the
    -- compaction may archive results, and no other run appends messages meanwhile.
    pub run-IsConsistent :
        (artifacts : ArtifactTexts) (session_id : Text) (config : LoopConfig)
        (inputs : ℕ → IterationInput X) (s : RunState X) (user_message : Text)
        → ((j : ℕ) → OnlySecond failure_texts artifacts session_id (inputs j).compaction)
        → IsConsistent s.history.messages
        → let r =
            run_agent_loop stamp failure_texts review_texts crypto run time config inputs s
              user_message in
          IsConsistent r.0.history.messages
    unfolding run_agent_loop
    run-IsConsistent artifacts session_id config inputs s user_message only h =
        let started =
          start_run stamp failure_texts review_texts crypto run time config s user_message in
        let r =
          run_iterations stamp failure_texts review_texts crypto run time inputs started 1
            config.max_iterations in
        finish-IsConsistent r.0 r.1 (
          iterations-IsSound inputs config.max_iterations started 1
            (λ j.
              compacted_by-IsConsistent failure_texts artifacts session_id (inputs j).compaction
                (only j))
            (start-IsConsistent config s user_message h))
