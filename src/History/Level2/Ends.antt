-- ===== src/History/Level2/Ends.antt =====
-- The loop of the second level ends: each round gives a result an artifact, and such a result is not
-- archived again.
use neuralhub.Base.{
  ℕ, zero, suc, ◌+◌, ◌-◌, ◌≤◌, ◌≡◌, refl, sym, ap, ◌∙◌, inl, inr, Bool, true, false, not, ◌&&◌,
  ◌||◌, none, some, List, [], ◌∷◌, ◌++◌, arith, leb, if◌then◌else◌, Bool-cases, Option-cases,
  length, take, drop, Text, codes, text_eq, Dict, get, take-append-drop, nonempty,
}
use neuralhub.Types.{ToolCall, ToolResult, is_tool, Message, or_empty}
use neuralhub.Loop.Failures.{FailureTexts}
use neuralhub.History.Level2.{
  ArtifactTexts, sink_tool_result, should_archive_result, archive_results, archive_messages,
  tool_calls_by_id, compact_oldest_large_tool_result, compact_while, bare_results, bare_in,
  mentions_path, is_history_read, token_count,
}

nonempty_snoc {ℓ} : {A : Type ℓ} (xs : List A) (x : A) → nonempty (xs ++ x ∷ []) ≡ true
nonempty_snoc [] x = refl
nonempty_snoc (y ∷ ys) x = refl

module _ (failure_texts : FailureTexts) (artifacts : ArtifactTexts) (session_id : Text) where
  abbrev bare : List ToolResult → ℕ
  bare rs = bare_results failure_texts artifacts session_id rs

  abbrev all_bare : List Message → ℕ
  all_bare ms = bare_in failure_texts artifacts session_id ms

  abbrev archived : Dict ToolCall → Bool → List ToolResult → List ToolResult × Bool
  archived calls c rs = archive_results failure_texts artifacts session_id calls c rs

  abbrev rewritten : Dict ToolCall → Bool → List Message → List Message × Bool
  rewritten calls c ms = archive_messages failure_texts artifacts session_id calls c ms

  archived_before :
      (calls : Dict ToolCall) (rs : List ToolResult) → archived calls true rs ≡ (rs, true)
  unfolding archive_results
  archived_before calls [] = refl
  archived_before calls (r ∷ rs) = rw (archive_results, archived_before calls rs) refl

  bare_before :
      (r : ToolResult) (calls : Dict ToolCall)
      → (if nonempty r.artifacts || mentions_path r.output
          then false
          else elim (get r.tool_call_id calls) [
            | none ↦ true
            | some call ↦
                not (text_eq call.name (codes "read_history"))
                && not (
                    text_eq call.name (codes "Read")
                    && is_history_read failure_texts artifacts session_id call)
          ])
        ≡ true
      → nonempty r.artifacts ≡ false
  bare_before r calls h = elim (Bool-cases (nonempty r.artifacts)) [
    | inl e ↦ let c : false ≡ true = rw e at h in cc
    | inr e ↦ e
  ]

  sink_bare :
      (r : ToolResult) (calls : Dict ToolCall)
      → should_archive_result failure_texts artifacts session_id r calls ≡ true
      → (nonempty r.artifacts ≡ false)
        × (nonempty (sink_tool_result failure_texts artifacts session_id r).artifacts ≡ true)
  unfolding should_archive_result sink_tool_result
  sink_bare r calls h = elim (Bool-cases (leb (token_count r.output) 500)) [
    | inl e ↦ let c : false ≡ true = rw (should_archive_result, e) at h in cc
    | inr e ↦ (
      bare_before r calls (rw (should_archive_result, e) at h),
      rw (sink_tool_result, e) (nonempty_snoc r.artifacts _),
    )
  ]

  archive_results-count :
      (calls : Dict ToolCall) (rs : List ToolResult)
      → ((archived calls false rs).1 ≡ true → bare (archived calls false rs).0 + 1 ≡ bare rs)
        × ((archived calls false rs).1 ≡ false → (archived calls false rs).0 ≡ rs)
  unfolding archive_results bare_results
  archive_results-count calls [] = (λ h. cc, λ h. refl)
  archive_results-count calls (r ∷ rs) =
      let s = should_archive_result failure_texts artifacts session_id r calls in
      elim (Bool-cases s) [
        | inl e ↦
            let b = sink_bare r calls e in
            rw (archive_results, e, archived_before calls rs) (λ h. ground arith, λ h. cc)
        | inr e ↦
            let rest = archive_results-count calls rs in
            rw (archive_results, e)
              (λ h. let n = rest.0 h in ground arith, λ h. ap (λ xs. r ∷ xs) (rest.1 h))
      ]

  rewritten_before :
      (calls : Dict ToolCall) (ms : List Message) → rewritten calls true ms ≡ (ms, true)
  unfolding archive_messages
  rewritten_before calls [] = refl
  rewritten_before calls (m ∷ ms) = rw (archive_messages, rewritten_before calls ms) refl

  same_results :
      (m : Message)
      → nonempty (or_empty m.tool_results) ≡ true
      → record m { tool_results = some (or_empty m.tool_results) } ≡ m
  same_results m h = elim (Option-cases m.tool_results) [
    | inl e ↦ let c : false ≡ true = rw e at h in cc
    | inr (rs, e) ↦
        let same : some (or_empty m.tool_results) ≡ m.tool_results = rw e refl in
        ap (λ o. record m { tool_results = o }) same
  ]

  archive_messages-count :
      (calls : Dict ToolCall) (ms : List Message)
      → ((rewritten calls false ms).1 ≡ true
          → all_bare (rewritten calls false ms).0 + 1 ≡ all_bare ms)
        × ((rewritten calls false ms).1 ≡ false → (rewritten calls false ms).0 ≡ ms)
  unfolding archive_messages bare_in
  archive_messages-count calls [] = (λ h. cc, λ h. refl)
  archive_messages-count calls (m ∷ ms) =
      let rs = or_empty m.tool_results in
      let own = archive_results-count calls rs in
      let rest = archive_messages-count calls ms in
      elim (Bool-cases (not (is_tool m.role) || not (nonempty rs))) [
        | inl e ↦
            rw (archive_messages, e)
              (λ h. let n = rest.0 h in omega arith, λ h. ap (λ xs. m ∷ xs) (rest.1 h))
        | inr e ↦ elim (Bool-cases (archived calls false rs).1) [
          | inl f ↦
              let n = own.0 f in
              rw (archive_messages, e, f, rewritten_before calls ms) (λ h. omega arith, λ h. cc)
          | inr f ↦
              let some_results : nonempty rs ≡ true = ground arith in
              let same = own.1 f in
              let own_message = same_results m some_results in
              rw (archive_messages, e, f, same)
                (λ h. let n = rest.0 h in omega arith, λ h. (λ i. own_message i ∷ rest.1 h i))
        ]
      ]

  all_bare-append : (xs ys : List Message) → all_bare (xs ++ ys) ≡ all_bare xs + all_bare ys
  unfolding bare_in
  all_bare-append [] ys = omega arith
  all_bare-append (x ∷ xs) ys = omega (arith, all_bare-append xs ys)

  abbrev oldest : List Message → List Message × Bool
  oldest ms = compact_oldest_large_tool_result failure_texts artifacts session_id ms

  oldest-count :
      (ms : List Message) → (oldest ms).1 ≡ true → all_bare (oldest ms).0 + 1 ≡ all_bare ms
  unfolding compact_oldest_large_tool_result
  oldest-count ms h = elim (Bool-cases (leb (length ms) 6)) [
    | inl e ↦ let c : false ≡ true = rw (compact_oldest_large_tool_result, e) at h in cc
    | inr e ↦
        let n = length ms - 6 in
        let head = rewritten (tool_calls_by_id [] (take n ms)) false (take n ms) in
        let count =
          (archive_messages-count (tool_calls_by_id [] (take n ms)) (take n ms)).0
            (rw (compact_oldest_large_tool_result, e) at h) in
        rw (compact_oldest_large_tool_result, e)
          (omega (
            arith,
            count,
            all_bare-append head.0 (drop n ms),
            all_bare-append (take n ms) (drop n ms),
            ap all_bare (take-append-drop n ms),
          ))
  ]

  oldest-same : (ms : List Message) → (oldest ms).1 ≡ false → (oldest ms).0 ≡ ms
  unfolding compact_oldest_large_tool_result
  oldest-same ms h = elim (Bool-cases (leb (length ms) 6)) [
    | inl e ↦ rw (compact_oldest_large_tool_result, e) refl
    | inr e ↦
        let n = length ms - 6 in
        let same =
          (archive_messages-count (tool_calls_by_id [] (take n ms)) (take n ms)).1
            (rw (compact_oldest_large_tool_result, e) at h) in
        rw (compact_oldest_large_tool_result, e)
          (ap (λ xs. xs ++ drop n ms) same ∙ take-append-drop n ms)
  ]

  abbrev looped : (List Message → Bool) → ℕ → List Message → List Message
  looped above bound ms = compact_while failure_texts artifacts session_id above bound ms

  -- Without a bare result there is nothing to archive.
  nothing_bare : (ms : List Message) → all_bare ms ≡ 0 → (oldest ms).1 ≡ false
  nothing_bare ms z = elim (Bool-cases (oldest ms).1) [
    | inl e ↦
        let n = oldest-count ms e in
        absurd (let c : all_bare (oldest ms).0 + 1 ≡ 0 = n ∙ z in omega arith)
    | inr e ↦ e
  ]

  looped_stays :
      (above : List Message → Bool) (bound : ℕ) (ms : List Message)
      → all_bare ms ≡ 0
      → looped above bound ms ≡ ms
  unfolding compact_while
  looped_stays above zero ms z = refl
  looped_stays above (suc bound) ms z =
      let still = nothing_bare ms z in
      elim (Bool-cases (above ms)) [
        | inl e ↦ rw (compact_while, e, still) (oldest-same ms still)
        | inr e ↦ rw (compact_while, e) refl
      ]

  -- The bound is enough: the loop gives the same with every bound that is at least the number of
  -- results without an artifact.
  pub compact_while_enough :
      (above : List Message → Bool) (n m : ℕ) (ms : List Message)
      → bare_in failure_texts artifacts session_id ms ≤ n
      → bare_in failure_texts artifacts session_id ms ≤ m
      → compact_while failure_texts artifacts session_id above n ms
        ≡ compact_while failure_texts artifacts session_id above m ms
  unfolding compact_while
  compact_while_enough above zero m ms a b = sym (looped_stays above m ms (omega (arith, a)))
  compact_while_enough above (suc n) zero ms a b = looped_stays above (suc n) ms (omega (arith, b))
  compact_while_enough above (suc n) (suc m) ms a b = elim (Bool-cases (above ms)) [
    | inr e ↦ rw (compact_while, e) refl
    | inl e ↦ elim (Bool-cases (oldest ms).1) [
      | inr f ↦ rw (compact_while, e, f) refl
      | inl f ↦
          let fewer = oldest-count ms f in
          rw (compact_while, e, f)
            (compact_while_enough above n m (oldest ms).0 (omega arith) (omega arith))
    ]
  ]
