-- ===== src/History/Sanitize/Answered.antt =====
-- What a history needs so that a provider accepts it, and that the repair always gives it.
use neuralhub.Base.{
  ℕ, ◌+◌, ◌≡◌, refl, ap, ◌∙◌, inl, inr, Bool, true, false, not, ◌&&◌, ◌||◌, Option, none, some,
  List, [], ◌∷◌, ◌++◌, map, arith, if◌then◌else◌, Bool-cases, Option-cases, Text, subset,
  subset_refl, nonempty,
}
use neuralhub.Types.{ToolCall, ToolResult, new_result, is_tool, Message, or_empty}
use neuralhub.History.Sanitize.{
  orphan_tool_output, call_ids, result_ids, requests_tools, consumed, answers,
  find_matching_tool_message_index, build_orphan_tool_message, sanitize_one, sanitize_from,
  sanitize_message_history,
}

-- `awaiting` is the assistant message whose calls the next message has to answer.
unfoldable pub consistent : (awaiting : Option Message) → List Message → Bool
consistent none [] = true
consistent (some _) [] = false
consistent (some a) (t ∷ ts) =
    is_tool t.role && subset (call_ids a) (result_ids t) && consistent none ts
consistent none (m ∷ ms) =
    not (is_tool m.role) && consistent (if requests_tools m then some m else none) ms

-- Every message that requests tools is followed at once by a tool message that has a result for
-- each of its calls, and there is no other tool message.
abbrev pub IsConsistent : List Message → Type 0
IsConsistent ms = consistent none ms ≡ true

find-answers :
    (i : ℕ) (ms : List Message) (a : Message) (ks : List ℕ) (found : ℕ × Message)
    → find_matching_tool_message_index i ms a ks ≡ some found
    → answers a found.1 ≡ true
unfolding find_matching_tool_message_index
find-answers i (m ∷ ms) a ks found e =
    let rest : find_matching_tool_message_index (i + 1) ms a ks ≡ some found
        → answers a found.1 ≡ true =
      find-answers (i + 1) ms a ks found in
    elim (Bool-cases (not (consumed i ks) && answers a m)) [
      | inl hit ↦ ground arith
      | inr miss ↦ ground arith
    ]
find-answers i [] a ks found e = ground arith

subset_orphans :
    (cs : List ToolCall) (text : Text)
    → map
        (λ (r : ToolResult). r.tool_call_id)
        (map (λ (c : ToolCall). new_result c.id text true) cs)
      ≡ map (λ (c : ToolCall). c.id) cs
subset_orphans [] text = refl
subset_orphans (c ∷ cs) text = ap (λ xs. c.id ∷ xs) (subset_orphans cs text)

orphan_nonempty : (m : Message) → requests_tools m ≡ true → nonempty (or_empty m.tool_calls) ≡ true
unfolding requests_tools
orphan_nonempty m h = ground arith

nonempty-map {ℓ ℓ'} :
    {A : Type ℓ} {B : Type ℓ'} (f : A → B) (xs : List A)
    → nonempty xs ≡ true
    → nonempty (map f xs) ≡ true
nonempty-map f [] h = h
nonempty-map f (x ∷ xs) h = refl

module _ (new_id : Text) (now : ℕ) where
  pub orphan-answers :
      (m : Message)
      → requests_tools m ≡ true
      → answers m (build_orphan_tool_message new_id now m) ≡ true
  unfolding requests_tools answers build_orphan_tool_message
  orphan-answers m h =
      let ids = subset_orphans (or_empty m.tool_calls) orphan_tool_output in
      let s : subset (call_ids m) (result_ids (build_orphan_tool_message new_id now m)) ≡ true =
        rw ids (subset_refl (call_ids m)) in
      let n =
        nonempty-map (λ c. new_result c.id orphan_tool_output true) (or_empty m.tool_calls)
          (orphan_nonempty m h) in
      ground arith

  step_keeps :
      (i : ℕ) (m : Message) (ms : List Message) (ks : List ℕ) (rest : List Message)
      → consistent none ((sanitize_one new_id now i m ms ks).0 ++ rest) ≡ consistent none rest
  unfolding consistent sanitize_one answers
  step_keeps i m ms ks rest = elim (Bool-cases (consumed i ks || is_tool m.role)) [
    | inl skip ↦ rw skip refl
    | inr keep' ↦ elim (Bool-cases (requests_tools m)) [
      | inr plain ↦ ground arith
      | inl calls ↦ elim (Option-cases (find_matching_tool_message_index (i + 1) ms m ks)) [
        | inl missing ↦ let a = orphan-answers m calls in ground arith
        | inr (found, e) ↦ let a = find-answers (i + 1) ms m ks found e in ground arith
      ]
    ]
  ]

  from-IsConsistent :
      (i : ℕ) (ms : List Message) (ks : List ℕ) → IsConsistent (sanitize_from new_id now i ms ks)
  unfolding sanitize_from consistent
  from-IsConsistent i [] ks = refl
  from-IsConsistent i (m ∷ ms) ks =
      let s = sanitize_one new_id now i m ms ks in
      step_keeps i m ms ks (sanitize_from new_id now (i + 1) ms s.1)
      ∙ from-IsConsistent (i + 1) ms s.1

  -- Whatever the history was, in its repair every message that requests tools is followed at once
  -- by a tool message with a result for each of its calls, and there is no other tool message.
  pub sanitize-IsConsistent :
      (ms : List Message) → IsConsistent (sanitize_message_history new_id now ms)
  unfolding sanitize_message_history
  sanitize-IsConsistent ms = from-IsConsistent 0 ms []
