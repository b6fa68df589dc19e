-- ===== src/Loop/Recovery/Splitting.antt =====
-- No call and no result gets lost on the way through the tracker.
use neuralhub.Base.{
  ◌+◌, ◌≡◌, refl, ap, inl, inr, List, [], ◌∷◌, map, arith, leb, Bool-cases, Option-cases, Text,
  Dict, get, tally, no_tally,
}
use neuralhub.Types.{ToolCall, ToolResult}
use neuralhub.Loop.Failures.{FailureTexts}
use neuralhub.Loop.Recovery.{
  ToolFailureRecoveryTracker, append_recovery_context, split_from, split_repeated, annotate_call,
  annotate_from, annotate,
}

abbrev pub call_ids : List ToolCall → List Text
call_ids calls = map (λ c. c.id) calls

abbrev pub result_ids : List ToolResult → List Text
result_ids results = map (λ r. r.tool_call_id) results

module _ (texts : FailureTexts) where
  split_from-tally :
      (tracker : ToolFailureRecoveryTracker) (calls : List ToolCall) (k : Text)
      → tally k (call_ids (split_from texts tracker calls).0)
          + tally k (result_ids (split_from texts tracker calls).1)
        ≡ tally k (call_ids calls)
  unfolding split_from tally
  split_from-tally tracker [] k = refl
  split_from-tally tracker (call ∷ calls) k =
      let rest = split_from-tally tracker calls k in ground arith

  -- Each call is either allowed or answered by a result that says it was skipped, and none is both:
  -- every id occurs among the allowed calls and the skipped results together as often as among the
  -- calls.
  pub split_repeated-tally :
      (tracker : ToolFailureRecoveryTracker) (calls : List ToolCall) (k : Text)
      → tally k (call_ids (split_repeated texts tracker calls).0)
          + tally k (result_ids (split_repeated texts tracker calls).1)
        ≡ tally k (call_ids calls)
  unfolding split_repeated
  split_repeated-tally tracker calls k = elim (Bool-cases (leb tracker.threshold 0)) [
    | inl e ↦
        rw (split_repeated, e)
          (let none_skipped : tally k [] ≡ 0 = no_tally k in omega (arith, none_skipped))
    | inr e ↦ rw (split_repeated, e) (split_from-tally tracker calls k)
  ]

  annotate_call-id :
      (tracker : ToolFailureRecoveryTracker) (call : ToolCall) (result : ToolResult)
      → (annotate_call texts tracker call result).1.tool_call_id ≡ result.tool_call_id
  unfolding annotate_call append_recovery_context
  annotate_call-id tracker call result = ground arith

  annotate_from-ids :
      (tracker : ToolFailureRecoveryTracker) (results : List ToolResult) (call_map : Dict ToolCall)
      → result_ids (annotate_from texts tracker results call_map).1 ≡ result_ids results
  unfolding annotate_from
  annotate_from-ids tracker [] call_map = refl
  annotate_from-ids tracker (r ∷ rs) call_map = elim (Option-cases (get r.tool_call_id call_map)) [
    | inl e ↦
        rw (annotate_from, e)
          (ap (λ xs. r.tool_call_id ∷ xs) (annotate_from-ids tracker rs call_map))
    | inr (call, e) ↦
        let s = annotate_call texts tracker call r in
        rw (annotate_from, e)
          (rw (annotate_call-id tracker call r)
            (ap (λ xs. r.tool_call_id ∷ xs) (annotate_from-ids s.0 rs call_map)))
  ]

  -- The annotated results are the results, one for one and in their order: their ids are the same.
  pub annotate-ids :
      (tracker : ToolFailureRecoveryTracker) (results : List ToolResult) (call_map : Dict ToolCall)
      → result_ids (annotate texts tracker results call_map).1 ≡ result_ids results
  unfolding annotate
  annotate-ids tracker results call_map = elim (Bool-cases (leb tracker.threshold 0)) [
    | inl e ↦ rw (annotate, e) refl
    | inr e ↦ rw (annotate, e) (annotate_from-ids tracker results call_map)
  ]
