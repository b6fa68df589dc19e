-- ===== src/Loop/Run/Answer.antt =====
-- What a run answers with.
use neuralhub.Base.{
  ℕ, zero, suc, ◌+◌, ◌≡◌, refl, ap, inl, inr, false, none, some, List, [], ◌∷◌, Bool-cases,
  Option-cases, Text, Result, Sum-cases, List-cases, nonempty,
}
use neuralhub.Types.{Fields, ToolCall, ToolResult, Message}
use neuralhub.Tools.Gate.{Crypto}
use neuralhub.History.Orphans.{last_message, last-append}
use neuralhub.Loop.Failures.{FailureTexts}
use neuralhub.Loop.Review.{ReviewTexts}
use neuralhub.Loop.Queue.{push_all}
use neuralhub.Loop.Response.{LlmResponse}
use neuralhub.Loop.Turn.{answer_calls}
use neuralhub.Loop.Run.{
  RunState, IterationInput, LoopConfig, Step, continues, returns, stops, failed, cancelled,
  append_message, assistant_message, abort_if, prepare, call_tools, done, respond, iterate,
  run_iterations, finish, end_run, start_run, run_agent_loop, done,
}
use neuralhub.Loop.Run.Histories.{append-messages}
use neuralhub.Loop.Run.Consistent.{Step-cases}

-- The message is the last of the history, it asks for no tool, and the messages of the user that wait
-- are those of one iteration that came after its check of the queue.
pub record IsFinal {X : Type 0} (inputs : ℕ → IterationInput X) (s : RunState X) (m : Message)
    : Type 0 where
  pub is_last : last_message s.history.messages ≡ some m
  pub no_calls : m.tool_calls ≡ none
  pub only_late : (i : ℕ) × (s.pending ≡ push_all [] (inputs i).typed_late)

abbrev IsExpected : {X : Type 0} → (ℕ → IterationInput X) → RunState X → Step → Type 0
IsExpected inputs s (returns m) = IsFinal inputs s m
IsExpected inputs s continues = s ≡ s
IsExpected inputs s (stops stop) = s ≡ s

nothing_left : (ts : List Text) → nonempty ts ≡ false → ts ≡ []
nothing_left [] h = refl
nothing_left (t ∷ ts) h = cc

module _ {X : Type 0} (stamp : ℕ → Text × ℕ) (failure_texts : FailureTexts)
    (review_texts : ReviewTexts) (crypto : Crypto) (run : X → Fields → Result ToolResult)
    (time : ℕ → ℕ) where
  call_tools-IsExpected :
      (inputs : ℕ → IterationInput X) (s : RunState X) (input : IterationInput X)
      (calls : List ToolCall)
      → let r = call_tools stamp failure_texts review_texts crypto run time s input calls in
        IsExpected inputs r.0 r.1
  unfolding call_tools
  call_tools-IsExpected inputs s input calls =
      let answers =
        answer_calls failure_texts review_texts crypto run time s.turn input.turn calls in
      elim (Option-cases input.tools_stop) [
        | inr (stop, e) ↦ rw (call_tools, e) refl
        | inl e ↦ elim (Bool-cases (abort_if input.aborts_after answers.0.approvals).aborted) [
          | inl f ↦ rw (call_tools, e, f) refl
          | inr f ↦ rw (call_tools, e, f) refl
        ]
      ]

  said-IsFinal :
      (inputs : ℕ → IterationInput X) (i : ℕ) (s : RunState X) (response : LlmResponse)
      → response.tool_calls ≡ []
      → nonempty s.pending ≡ false
      → let m = assistant_message stamp s response in
        IsFinal inputs
          (record (append_message stamp s m) {
            status = done;
            pending = push_all s.pending (inputs i).typed_late;
          })
          m
  unfolding append_message assistant_message
  said-IsFinal inputs i s response e f =
      let m = assistant_message stamp s response in
      record {
        is_last = rw (append-messages s.history m) (last-append s.history.messages m);
        no_calls = rw e refl;
        only_late = (i, ap (λ p. push_all p (inputs i).typed_late) (nothing_left s.pending f));
      }

  respond-IsExpected :
      (inputs : ℕ → IterationInput X) (i : ℕ) (s : RunState X) (response : LlmResponse)
      → let r = respond stamp failure_texts review_texts crypto run time s (inputs i) response in
        IsExpected inputs r.0 r.1
  unfolding respond
  respond-IsExpected inputs i s response =
      let m = assistant_message stamp s response in
      let said = append_message stamp s m in
      elim (List-cases response.tool_calls) [
        | inl e ↦ elim (Bool-cases (nonempty s.pending)) [
          | inl f ↦ rw (respond, append_message, e, f) refl
          | inr f ↦
              let final = said-IsFinal inputs i s response e f in
              rw (respond, append_message, e, f) final
        ]
        | inr (call, calls, e) ↦
            rw (respond, e) (call_tools-IsExpected inputs said (inputs i) (call ∷ calls))
      ]

  iterate-IsExpected :
      (inputs : ℕ → IterationInput X) (s : RunState X) (i : ℕ)
      → let r = iterate stamp failure_texts review_texts crypto run time s i (inputs i) in
        IsExpected inputs r.0 r.1
  unfolding iterate
  iterate-IsExpected inputs s i =
      let ready = prepare stamp failure_texts review_texts crypto run time s i (inputs i) in
      elim (Sum-cases (inputs i).response) [
        | inl (response, e) ↦ rw (iterate, e) (respond-IsExpected inputs i ready response)
        | inr (stop, e) ↦ rw (iterate, e) refl
      ]

  iterations-IsExpected :
      (inputs : ℕ → IterationInput X) (left : ℕ) (s : RunState X) (i : ℕ)
      → let r = run_iterations stamp failure_texts review_texts crypto run time inputs s i left in
        IsExpected inputs r.0 r.1
  unfolding run_iterations
  iterations-IsExpected inputs zero s i = refl
  iterations-IsExpected inputs (suc left) s i =
      let step = iterate stamp failure_texts review_texts crypto run time s i (inputs i) in
      let expected = iterate-IsExpected inputs s i in
      elim (Step-cases step.1) [
        | inl e ↦ rw (run_iterations, e) (iterations-IsExpected inputs left step.0 (i + 1))
        | inr (inl (m, e)) ↦ rw (run_iterations, e) (rw e at expected)
        | inr (inr (stop, e)) ↦ rw (run_iterations, e) refl
      ]

  finish-IsExpected :
      (inputs : ℕ → IterationInput X) (s : RunState X) (step : Step)
      → IsExpected inputs s step
      → let r = finish stamp failure_texts review_texts crypto run time (s, step) in
        IsExpected inputs r.0 r.1
  unfolding finish end_run
  finish-IsExpected inputs s continues h = refl
  finish-IsExpected inputs s (returns m) h = record {
    is_last = h.is_last;
    no_calls = h.no_calls;
    only_late = h.only_late;
  }
  finish-IsExpected inputs s (stops cancelled) h = refl
  finish-IsExpected inputs s (stops (failed e)) h = refl

  -- A run that returns a message has it at the end of its history, without tool calls. It leaves no
  -- message of the user in the queue but those that one iteration gets after it has checked the queue,
  -- before the run returns.
  pub returns-IsFinal :
      (config : LoopConfig) (inputs : ℕ → IterationInput X) (s : RunState X) (user_message : Text)
      (m : Message)
      → (run_agent_loop stamp failure_texts review_texts crypto run time config inputs s
          user_message).1
        ≡ returns m
      → IsFinal inputs
          (run_agent_loop stamp failure_texts review_texts crypto run time config inputs s
            user_message).0
          m
  unfolding run_agent_loop
  returns-IsFinal config inputs s user_message m e =
      let started =
        start_run stamp failure_texts review_texts crypto run time config s user_message in
      let r =
        run_iterations stamp failure_texts review_texts crypto run time inputs started 1
          config.max_iterations in
      let expected =
        finish-IsExpected inputs r.0 r.1
          (iterations-IsExpected inputs config.max_iterations started 1) in
      rw e at expected
