-- ===== src/History/Level2/Shape.antt =====
-- Archiving changes what results say, and not which calls they answer.
use neuralhub.Base.{
  ℕ, zero, suc, ◌-◌, ◌≡◌, refl, ap, ◌∙◌, inl, inr, Bool, true, false, not, ◌&&◌, ◌||◌, Option, none,
  some, List, [], ◌∷◌, ◌++◌, map, arith, leb, if◌then◌else◌, Bool-cases, length, take, drop, Text,
  Dict, take-append-drop, nonempty,
}
use neuralhub.Types.{ToolCall, ToolResult, is_tool, Message, or_empty, ToolDefinition}
use neuralhub.Loop.Failures.{FailureTexts}
use neuralhub.History.Sanitize.{result_ids, requests_tools}
use neuralhub.History.Sanitize.Answered.{consistent, IsConsistent}
use neuralhub.History.Level2.{
  ArtifactTexts, sink_tool_result, archive_results, should_archive_result, archive_messages,
  tool_calls_by_id, compact_oldest_large_tool_result, compact_while, bare_in, check_and_compact,
  should_archive_result, has_read_history,
}

same_tail :
    (m : Message) (xs ys : List Message)
    → ((b : Option Message) → consistent b xs ≡ consistent b ys)
    → (a : Option Message) → consistent a (m ∷ xs) ≡ consistent a (m ∷ ys)
unfolding consistent
same_tail m xs ys h none = let e = h (if requests_tools m then some m else none) in ground arith
same_tail m xs ys h (some a) = let e = h none in ground arith

same_tool :
    (m m' : Message) (xs ys : List Message)
    → is_tool m.role ≡ true
    → m'.role ≡ m.role
    → result_ids m' ≡ result_ids m
    → ((b : Option Message) → consistent b xs ≡ consistent b ys)
    → (a : Option Message) → consistent a (m' ∷ xs) ≡ consistent a (m ∷ ys)
unfolding consistent
same_tool m m' xs ys t r ids h none = rw r (rw t refl)
same_tool m m' xs ys t r ids h (some a) = let e = h none in rw (r, ids, e) refl

module _ (failure_texts : FailureTexts) (artifacts : ArtifactTexts) (session_id : Text) where
  sink-id :
      (r : ToolResult)
      → (sink_tool_result failure_texts artifacts session_id r).tool_call_id ≡ r.tool_call_id
  unfolding sink_tool_result
  sink-id r = ground arith

  archive_results-ids :
      (calls : Dict ToolCall) (c : Bool) (rs : List ToolResult)
      → map (λ r. r.tool_call_id) (archive_results failure_texts artifacts session_id calls c rs).0
        ≡ map (λ r. r.tool_call_id) rs
  unfolding archive_results
  archive_results-ids calls c [] = refl
  archive_results-ids calls c (r ∷ rs) =
      let archives = not c && should_archive_result failure_texts artifacts session_id r calls in
      let rest = archive_results-ids calls (c || archives) rs in
      elim (Bool-cases archives) [
        | inl e ↦
            rw (archive_results, e)
              (rw (sink-id r) (ap (λ ids. r.tool_call_id ∷ ids) (rw e at rest)))
        | inr e ↦ rw (archive_results, e) (ap (λ ids. r.tool_call_id ∷ ids) (rw e at rest))
      ]

  archive-consistent :
      (calls : Dict ToolCall) (ms : List Message) (c : Bool) (a : Option Message)
      (tail : List Message)
      → consistent a ((archive_messages failure_texts artifacts session_id calls c ms).0 ++ tail)
        ≡ consistent a (ms ++ tail)
  unfolding archive_messages
  archive-consistent calls [] c a tail = refl
  archive-consistent calls (m ∷ ms) c a tail =
      let results =
        archive_results failure_texts artifacts session_id calls c (or_empty m.tool_results) in
      elim (Bool-cases (c || not (is_tool m.role) || not (nonempty (or_empty m.tool_results)))) [
        | inl e ↦
            rw (archive_messages, e)
              (same_tail m
                ((archive_messages failure_texts artifacts session_id calls c ms).0 ++ tail)
                (ms ++ tail) (λ b. archive-consistent calls ms c b tail) a)
        | inr e ↦
            let t : is_tool m.role ≡ true = ground arith in
            rw (archive_messages, e)
              (same_tool m (record m { tool_results = some results.0 })
                ((archive_messages failure_texts artifacts session_id calls results.1 ms).0 ++ tail)
                (ms ++ tail) t refl (archive_results-ids calls c (or_empty m.tool_results))
                (λ b. archive-consistent calls ms results.1 b tail) a)
      ]

  oldest-IsConsistent :
      (ms : List Message)
      → IsConsistent ms
      → IsConsistent (compact_oldest_large_tool_result failure_texts artifacts session_id ms).0
  unfolding compact_oldest_large_tool_result
  oldest-IsConsistent ms h = elim (Bool-cases (leb (length ms) 6)) [
    | inl e ↦ rw (compact_oldest_large_tool_result, e) h
    | inr e ↦
        let n = length ms - 6 in
        rw (compact_oldest_large_tool_result, e)
          (archive-consistent (tool_calls_by_id [] (take n ms)) (take n ms) false none (drop n ms)
            ∙ (ap (consistent none) (take-append-drop n ms) ∙ h))
  ]

  while-IsConsistent :
      (above : List Message → Bool) (bound : ℕ) (ms : List Message)
      → IsConsistent ms
      → IsConsistent (compact_while failure_texts artifacts session_id above bound ms)
  unfolding compact_while
  while-IsConsistent above zero ms h = h
  while-IsConsistent above (suc bound) ms h =
      let r = compact_oldest_large_tool_result failure_texts artifacts session_id ms in
      let c = oldest-IsConsistent ms h in
      let rest = while-IsConsistent above bound r.0 c in
      elim (Bool-cases (above ms)) [
        | inr e ↦ rw (compact_while, e) h
        | inl e ↦ elim (Bool-cases r.1) [
          | inl f ↦ rw (compact_while, e, f) rest
          | inr f ↦ rw (compact_while, e, f) c
        ]
      ]

  -- The second level of the compaction leaves a consistent history consistent.
  pub check_and_compact-IsConsistent :
      (above : List Message → Bool) (tools : Option (List ToolDefinition)) (write_raises : Bool)
      (ms : List Message)
      → IsConsistent ms
      → IsConsistent
          (check_and_compact failure_texts artifacts session_id above tools write_raises ms)
  unfolding check_and_compact
  check_and_compact-IsConsistent above tools write_raises ms h =
      elim (Bool-cases (has_read_history tools)) [
        | inr e ↦ rw (check_and_compact, e) h
        | inl e ↦ elim (Bool-cases write_raises) [
          | inl f ↦ rw (check_and_compact, e, f) h
          | inr f ↦
              rw (check_and_compact, e, f)
                (while-IsConsistent above (bare_in failure_texts artifacts session_id ms) ms h)
        ]
      ]
