-- ===== src/Loop/Turn/Answers.antt =====
-- Every call of a response gets exactly one result.
use neuralhub.Base.{
  ℕ, ◌+◌, ◌≡◌, sym, ap, ◌∙◌, true, List, [], ◌∷◌, ◌++◌, arith, Text, has_iff, subset, Result,
  subset_intro, tally, tally-append, has-same, no_tally,
}
use neuralhub.Types.{Fields, ToolCall, ToolResult, SignedToolCall}
use neuralhub.Tools.Registry.{list_definitions}
use neuralhub.Tools.Gate.{Crypto, SecurityGate, authorize, force_sign}
use neuralhub.Tools.Executor.{execute_signed_batch, execute_signed_serial}
use neuralhub.Tools.Executor.Batch.{execute_signed_batch-ids}
use neuralhub.Tools.Batching.{partition_by_side_effect, merge_results-ids}
use neuralhub.Loop.Failures.{FailureTexts}
use neuralhub.Loop.Recovery.{split_repeated}
use neuralhub.Loop.Recovery.Splitting.{call_ids, result_ids, split_repeated-tally, annotate-ids}
use neuralhub.Loop.Review.{ReviewTexts}
use neuralhub.Loop.Approval.{Approvals, UserAction, review_tool_approvals}
use neuralhub.Loop.Approval.Outcomes.{review-tally, wait-tally}
use neuralhub.Loop.Turn.{
  TurnState, TurnInput, call_map_from, wait_if_any, ask_approvals, execute_signed_calls,
  answer_calls,
}
use neuralhub.Loop.Turn.Signing.{
  signed_ids, call_ids-append, result_ids-append, signed_ids-append, authorize-tally,
  force_sign-ids, partition-tally, serial-tally,
}

wait_if_any-tally :
    (s : Approvals) (calls : List ToolCall) (arrivals : List (List UserAction)) (k : Text)
    → tally k (call_ids (wait_if_any s calls arrivals).1)
        + tally k (result_ids (wait_if_any s calls arrivals).2)
      ≡ tally k (call_ids calls)
unfolding wait_if_any
wait_if_any-tally s [] arrivals k = omega (arith, no_tally k)
wait_if_any-tally s (call ∷ calls) arrivals k = wait-tally s (call ∷ calls) arrivals k

call_tally-append :
    (k : Text) (xs ys : List ToolCall)
    → tally k (call_ids (xs ++ ys)) ≡ tally k (call_ids xs) + tally k (call_ids ys)
call_tally-append k xs ys = rw (call_ids-append xs ys) (tally-append k (call_ids xs) (call_ids ys))

result_tally-append :
    (k : Text) (xs ys : List ToolResult)
    → tally k (result_ids (xs ++ ys)) ≡ tally k (result_ids xs) + tally k (result_ids ys)
result_tally-append k xs ys =
    rw (result_ids-append xs ys) (tally-append k (result_ids xs) (result_ids ys))

signed_tally-append :
    (k : Text) (xs ys : List SignedToolCall)
    → tally k (signed_ids (xs ++ ys)) ≡ tally k (signed_ids xs) + tally k (signed_ids ys)
signed_tally-append k xs ys =
    rw (signed_ids-append xs ys) (tally-append k (signed_ids xs) (signed_ids ys))

-- Each pending call is approved or answered by a result.
ask-tally :
    (texts : ReviewTexts) (input : TurnInput) (s : Approvals) (calls : List ToolCall) (k : Text)
    → tally k (call_ids (ask_approvals texts input s calls).1)
        + tally k (result_ids (ask_approvals texts input s calls).2)
      ≡ tally k (call_ids calls)
unfolding ask_approvals
ask-tally texts input s [] k = omega (arith, no_tally k)
ask-tally texts input s (call ∷ calls) k =
    let reviewed =
      review_tool_approvals texts input.auto_approve_tools input.review_answer s (call ∷ calls) in
    let waited = wait_if_any reviewed.0 reviewed.3 input.arrivals in
    omega (
      arith,
      review-tally texts input.auto_approve_tools input.review_answer s (call ∷ calls) k,
      wait_if_any-tally reviewed.0 reviewed.3 input.arrivals k,
      call_tally-append k reviewed.1 waited.1,
      result_tally-append k reviewed.2 waited.2,
    )

pub same-subset : (xs ys : List Text) → ((k : Text) → tally k xs ≡ tally k ys) → subset xs ys ≡ true
same-subset xs ys h =
    subset_intro xs ys (λ k m. (has_iff k ys).0 (sym (has-same k xs ys (h k)) ∙ (has_iff k xs).1 m))

module _ (failure_texts : FailureTexts) (review_texts : ReviewTexts) (crypto : Crypto) {X : Type 0}
    (run : X → Fields → Result ToolResult) (time : ℕ → ℕ) where
  open failure_texts use {show_int}

  -- The signed calls are answered in their order, whichever of them only read.
  pub execute_signed_calls-ids :
      (gate : SecurityGate X) (calls : List SignedToolCall)
      → result_ids (execute_signed_calls failure_texts review_texts crypto run time gate calls).1
        ≡ signed_ids calls
  unfolding execute_signed_calls
  execute_signed_calls-ids gate calls =
      let parts = partition_by_side_effect calls (list_definitions gate.registry) in
      let reads = execute_signed_batch show_int run crypto gate.registry parts.0 gate in
      let writes = execute_signed_serial show_int run crypto gate.registry parts.1 reads.0 in
      merge_results-ids reads.1 writes.1 calls (
        same-subset (signed_ids calls) (result_ids (reads.1 ++ writes.1)) (λ k.
          let batch =
            ap (tally k)
              (execute_signed_batch-ids show_int run crypto gate.registry parts.0 gate) in
          omega (
            arith,
            batch,
            partition-tally calls (list_definitions gate.registry) k,
            serial-tally show_int run crypto gate.registry parts.1 reads.0 k,
            result_tally-append k reads.1 writes.1,
          )))

  -- Every call of a response gets exactly one result, whether it is skipped as a repeated failure,
  -- rejected by the gate, rejected in the review or by the human, or executed, alone or in a batch:
  -- each id occurs among the results as often as among the calls.
  pub answer_calls-tally :
      (s : TurnState X) (input : TurnInput) (calls : List ToolCall) (k : Text)
      → tally k
          (result_ids (answer_calls failure_texts review_texts crypto run time s input calls).1)
        ≡ tally k (call_ids calls)
  unfolding answer_calls
  answer_calls-tally s input calls k =
      let split = split_repeated failure_texts s.tracker calls in
      let auth = authorize crypto time s.gate split.0 in
      let asked = ask_approvals review_texts input s.approvals auth.1.pending_approval in
      let forced = force_sign crypto time auth.0 asked.1 in
      let done =
        execute_signed_calls failure_texts review_texts crypto run time forced.0
          (auth.1.signed_calls ++ forced.1) in
      let results = split.1 ++ auth.1.rejected_results ++ asked.2 ++ done.1 in
      omega (
        arith,
        ap (tally k) (annotate-ids failure_texts s.tracker results (call_map_from [] calls)),
        result_tally-append k split.1 auth.1.rejected_results,
        result_tally-append k (split.1 ++ auth.1.rejected_results) asked.2,
        result_tally-append k (split.1 ++ auth.1.rejected_results ++ asked.2) done.1,
        ap (tally k) (execute_signed_calls-ids forced.0 (auth.1.signed_calls ++ forced.1)),
        signed_tally-append k auth.1.signed_calls forced.1,
        ap (tally k) (force_sign-ids crypto time auth.0 asked.1),
        ask-tally review_texts input s.approvals auth.1.pending_approval k,
        authorize-tally crypto time s.gate split.0 k,
        split_repeated-tally failure_texts s.tracker calls k,
      )
