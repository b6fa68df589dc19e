-- ===== src/Tests/LoopTests.antt =====
-- backend/core/s01_agent_loop: a turn with four calls, and a run of two iterations.
use neuralhub.Base.{
  ℕ, ◌+◌, ◌≤◌, ◌≡◌, refl, inl, Bool, true, false, none, List, [], ◌∷◌, ◌++◌, arith, ltb, ◌==◌,
  if◌then◌else◌, any, Text, codes, text_eq, has, value_error, ok, raise, tally, nonempty,
}
use neuralhub.Types.{ToolCall, ToolResult, new_result, Message, new_message, end, user, assistant}
use neuralhub.History.Sanitize.Answered.{consistent, IsConsistent}
use neuralhub.Loop.Run.Compacted.{OnlySecond}
use neuralhub.History.Level2.{ArtifactTexts, check_and_compact}
use neuralhub.Loop.Failures.{FailureTexts, signature}
use neuralhub.Loop.Recovery.{new_tracker, annotate, split_repeated, count_of}
use neuralhub.Loop.Recovery.Splitting.{call_ids, result_ids}
use neuralhub.Loop.Recovery.Counts.{failures_since_success, split-after-annotate}
use neuralhub.Loop.Guard.{
  new_guard, kinds_from, occurrences, final_convergence, dead_end_reflection, kinds_once,
}
use neuralhub.Loop.Writeback.{reattach_concurrent_messages, message_ids, reattach-tally}
use neuralhub.Loop.Review.{ReviewTexts}
use neuralhub.Loop.Approval.{Approvals, is_approved, approve_call, wait_tool_approvals}
use neuralhub.Loop.Approval.Outcomes.{wait_needs_approval}
use neuralhub.Loop.Turn.{TurnState, TurnInput, call_map_from, answer_calls}
use neuralhub.Loop.Turn.Answers.{answer_calls-tally}
use neuralhub.Loop.Run.{
  Compaction, RunState, IterationInput, LoopConfig, returns, idle, run_agent_loop,
}
use neuralhub.Loop.Run.Consistent.{run-IsConsistent}
use neuralhub.Loop.Run.Answer.{IsFinal, returns-IsFinal}
use neuralhub.Tests.GateTests.{plain_crypto, gate, call_of, calls}
use neuralhub.Tests.ExecutorTests.{one_int, run_tool}

abbrev plain_texts : FailureTexts
plain_texts = record {
  sha256_hex = λ t. t;
  dumps = λ fs. [];
  lower = λ t. t;
  error_pattern = λ t. none;
  show_int = one_int;
  is_zero = λ t. false;
}

-- The model's answer is no JSON.
abbrev silent_texts : ReviewTexts
silent_texts = record {
  fenced = λ t. none;
  loads = λ t. raise (value_error (codes "no JSON"));
  show_json = λ j. [];
  lower = λ t. t;
  validate = λ j. raise (value_error (codes "no review"));
}

abbrev quiet : Approvals
quiet = record { aborted = false; events = []; decisions = []; reasons = [] }

abbrev start_turn : TurnState ℕ
start_turn = record { tracker = new_tracker 2; gate = gate; approvals = quiet }

-- The human approves the second call.
abbrev approving : TurnInput
approving = record {
  auto_approve_tools = false;
  review_answer = raise (value_error (codes "offline"));
  arrivals = (approve_call (codes "2") ∷ []) ∷ [];
}

abbrev clock : ℕ → ℕ
clock n = n + 100

answer_calls-tally_example :
    tally (codes "2") (
      result_ids
        (answer_calls plain_texts silent_texts plain_crypto run_tool clock start_turn approving
          calls).1)
    ≡ tally (codes "2") (call_ids calls)
answer_calls-tally_example =
    answer_calls-tally plain_texts silent_texts plain_crypto run_tool clock start_turn approving
      calls (codes "2")

abbrev failing : List ToolResult
failing =
    new_result (codes "1") (codes "Error: no") true
    ∷ new_result (codes "3") (codes "Error: no") true
    ∷ []

split-after-annotate_example :
    nonempty
      (split_repeated plain_texts
        (annotate plain_texts (new_tracker 2) failing (call_map_from [] calls)).0
        (call_of (codes "4") (codes "Read") ∷ [])).0
    ≡ ltb
        (failures_since_success plain_texts
          (signature plain_texts (call_of (codes "4") (codes "Read")))
          (call_map_from [] calls)
          (count_of plain_texts
            (signature plain_texts (call_of (codes "4") (codes "Read")))
            (new_tracker 2))
          failing)
        2
unfolding new_tracker
split-after-annotate_example =
    split-after-annotate plain_texts (new_tracker 2) failing (call_map_from [] calls)
      (call_of (codes "4") (codes "Read")) (omega arith)

wait_needs_approval_example :
    has
      (codes "4")
      (call_ids (wait_tool_approvals quiet calls ((approve_call (codes "2") ∷ []) ∷ [])).1)
    ≡ false
unfolding is_approved any text_eq
wait_needs_approval_example =
    wait_needs_approval quiet calls ((approve_call (codes "2") ∷ []) ∷ []) (codes "4") refl refl

kinds_once_example :
    let kinds = kinds_from one_int (new_guard 3 2) 1 3 in
    (occurrences one_int final_convergence kinds ≡ 1)
    × (occurrences one_int dead_end_reflection kinds ≤ 1)
kinds_once_example = kinds_once one_int 3 2 (omega arith)

abbrev told : (id : Text) → Message
told i = new_message i 1 user (codes "hello")

reattach-tally_example :
    tally (codes "c") (
      message_ids (
        reattach_concurrent_messages
          (told (codes "s") ∷ [])
          (told (codes "a") ∷ told (codes "c") ∷ [])
          1))
    ≡ (if has (codes "c") (codes "s" ∷ [])
        then tally (codes "c") (codes "s" ∷ [])
        else tally (codes "c") (codes "c" ∷ []))
reattach-tally_example =
    reattach-tally (told (codes "s") ∷ []) (told (codes "a") ∷ []) (told (codes "c") ∷ [])
      (codes "c")

abbrev config : LoopConfig
config = record {
  system_prompt = codes "be brief";
  max_iterations = 3;
  max_consecutive_tool_failures = 2;
  dead_end_reflection_iteration = 2;
}

abbrev before_run : RunState ℕ
before_run = record {
  history = record { messages = []; checkpoint_fn = none; checkpoint_failed = false };
  pending = codes "earlier" ∷ [];
  turn = start_turn;
  guard = new_guard 3 2;
  status = idle;
  made = 0;
}

abbrev stamp : ℕ → Text × ℕ
stamp n = (n ∷ [], n)

abbrev plain_artifacts : ArtifactTexts
plain_artifacts = record {
  loads = λ t. raise (value_error (codes "no JSON"));
  dumps_json = λ j. [];
  show_json = λ j. [];
  write_artifact = λ output session call. codes "data/artifacts/" ++ call;
}

-- The second level archives as long as there is something to archive.
abbrev always : List Message → Bool
always ms = true

abbrev two_told : List Message
two_told = told (codes "a") ∷ told (codes "c") ∷ []

abbrev archiving : Compaction
archiving = record {
  second_level = record {
    answer =
        λ ms. ok (check_and_compact plain_texts plain_artifacts (codes "s1") always none false ms);
    appended = [];
  };
  third_level = record { answer = λ ms. ok ms; appended = [] };
  whole = record { answer = λ ms. ok ms; appended = [] };
  should_compact = λ ms. false;
}

archiving-OnlySecond : OnlySecond plain_texts plain_artifacts (codes "s1") archiving
archiving-OnlySecond = record {
  above = always;
  tools = none;
  write_raises = false;
  second = λ ms. refl;
  third = λ ms. refl;
  small = λ ms. refl;
  alone = (refl, refl);
}

-- The first response asks for the four tools, and the next has an answer.
abbrev first_calls : ℕ → List ToolCall
first_calls n = if n == 1 then calls else []

abbrev conversation : ℕ → IterationInput ℕ
conversation n = record {
  compaction = archiving;
  typed_before = [];
  aborts_before = false;
  response =
      inl (record { content = codes "ok"; tool_calls = first_calls n; provider_metadata = end });
  turn = approving;
  typed_late = codes "late" ∷ [];
  tools_stop = none;
  typed_after = [];
  aborts_after = false;
}

empty-IsConsistent : IsConsistent []
unfolding consistent
empty-IsConsistent = refl

run-IsConsistent_example :
    IsConsistent
      (run_agent_loop stamp plain_texts silent_texts plain_crypto run_tool clock config conversation
        before_run
        (codes "go")).0.history.messages
run-IsConsistent_example =
    run-IsConsistent stamp plain_texts silent_texts plain_crypto run_tool clock plain_artifacts
      (codes "s1") config conversation before_run (codes "go") (λ j. archiving-OnlySecond)
      empty-IsConsistent

-- A run whose first response is the answer.
abbrev at_once : ℕ → IterationInput ℕ
at_once n = conversation 2

abbrev final_answer : Message
final_answer = new_message (3 ∷ []) 3 assistant (codes "ok")

answered_at_once :
    (run_agent_loop stamp plain_texts silent_texts plain_crypto run_tool clock config at_once
      before_run
      (codes "go")).1
    ≡ returns final_answer
unfolding run_agent_loop
answered_at_once = refl

returns-IsFinal_example :
    IsFinal at_once
      (run_agent_loop stamp plain_texts silent_texts plain_crypto run_tool clock config at_once
        before_run
        (codes "go")).0
      final_answer
returns-IsFinal_example =
    returns-IsFinal stamp plain_texts silent_texts plain_crypto run_tool clock config at_once
      before_run (codes "go") final_answer answered_at_once
