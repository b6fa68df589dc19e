-- ===== src/History/Sanitize/Idempotent.antt =====
-- The repair of a consistent history.
use neuralhub.Base.{
  ℕ, ◌+◌, ◌≤◌, ◌≡◌, refl, ap, ◌∙◌, inl, inr, Bool, true, false, ◌&&◌, List, [], ◌∷◌, ◌++◌, map,
  arith, ltb, ◌==◌, Bool-cases, all, Text, has, subset, nonempty,
}
use neuralhub.Types.{ToolCall, ToolResult, is_tool, Message, or_empty}
use neuralhub.History.Sanitize.{
  consumed, requests_tools, answers, find_matching_tool_message_index, sanitize_one, sanitize_from,
  sanitize_message_history, call_ids, result_ids,
}
use neuralhub.History.Sanitize.Answered.{consistent, IsConsistent, sanitize-IsConsistent}

consumed-below :
    (i j : ℕ) (ks : List ℕ) → all (λ k. ltb k i) ks ≡ true → i ≤ j → consumed j ks ≡ false
unfolding consumed all
consumed-below i j [] h le = refl
consumed-below i j (k ∷ ks) h le =
    let rest : all (λ k'. ltb k' i) ks ≡ true → consumed j ks ≡ false =
      λ r. consumed-below i j ks r le in
    ground arith

below-grow :
    (i : ℕ) (ks : List ℕ) → all (λ k. ltb k i) ks ≡ true → all (λ k. ltb k (i + 1)) ks ≡ true
unfolding all
below-grow i [] h = refl
below-grow i (k ∷ ks) h =
    let rest : all (λ k'. ltb k' i) ks ≡ true → all (λ k'. ltb k' (i + 1)) ks ≡ true =
      below-grow i ks in
    ground arith

below_cons :
    (i : ℕ) (ks : List ℕ)
    → all (λ k. ltb k (i + 1)) ks ≡ true
    → all (λ k. ltb k (i + 1)) (i ∷ ks) ≡ true
unfolding all
below_cons i ks h = ground arith

some_result :
    (cs : List ToolCall) (rs : List ToolResult) {b : Bool}
    → nonempty cs ≡ true
    → subset (map (λ c. c.id) cs) (map (λ r. r.tool_call_id) rs) ≡ true
    → b ≡ true
    → (b && nonempty rs && subset (map (λ c. c.id) cs) (map (λ r. r.tool_call_id) rs)) ≡ true
unfolding subset has
some_result cs (r ∷ rs) n s h = ground arith
some_result (c ∷ cs) [] n s h = ground arith
some_result [] [] n s h = ground arith

-- A message with a result for each call of a message that has calls has results.
answers_intro :
    (m t : Message)
    → requests_tools m ≡ true
    → is_tool t.role ≡ true
    → subset (call_ids m) (result_ids t) ≡ true
    → answers m t ≡ true
unfolding requests_tools answers subset has
answers_intro m t r h s =
    some_result (or_empty m.tool_calls) (or_empty t.tool_results) (ground arith) s h

module _ (new_id : Text) (now : ℕ) where
  unfold_step :
      (i : ℕ) (m : Message) (ms : List Message) (ks : List ℕ)
      → sanitize_from new_id now i (m ∷ ms) ks
        ≡ (sanitize_one new_id now i m ms ks).0
          ++ sanitize_from new_id now (i + 1) ms (sanitize_one new_id now i m ms ks).1
  unfolding sanitize_from
  unfold_step i m ms ks = refl

  nothing_left : (i : ℕ) (ks : List ℕ) → sanitize_from new_id now i [] ks ≡ []
  unfolding sanitize_from
  nothing_left i ks = refl

  -- A message that requests no tools stays.
  plain_step :
      (i : ℕ) (m : Message) (ms : List Message) (ks : List ℕ)
      → consumed i ks ≡ false
      → is_tool m.role ≡ false
      → requests_tools m ≡ false
      → sanitize_from new_id now i (m ∷ ms) ks ≡ m ∷ sanitize_from new_id now (i + 1) ms ks
  unfolding sanitize_from sanitize_one
  plain_step i m ms ks c t r = rw (c, t, r) refl

  answered_one :
      (i : ℕ) (m t : Message) (ms : List Message) (ks : List ℕ)
      → all (λ k. ltb k i) ks ≡ true
      → is_tool m.role ≡ false
      → requests_tools m ≡ true
      → answers m t ≡ true
      → sanitize_one new_id now i m (t ∷ ms) ks ≡ (m ∷ t ∷ [], (i + 1) ∷ ks)
  unfolding sanitize_one find_matching_tool_message_index
  answered_one i m t ms ks h nt r a =
      let c = consumed-below i i ks h (omega arith) in
      let d = consumed-below i (i + 1) ks h (omega arith) in rw (c, nt, r, d, a) refl

  -- The answer that was taken is skipped when the loop comes to it.
  skipped_step :
      (i : ℕ) (t : Message) (ms : List Message) (ks : List ℕ)
      → sanitize_from new_id now i (t ∷ ms) (i ∷ ks) ≡ sanitize_from new_id now (i + 1) ms (i ∷ ks)
  unfolding sanitize_from sanitize_one consumed
  skipped_step i t ms ks = let e : (i == i) ≡ true = ground arith in rw e refl

  answered_step :
      (i : ℕ) (m t : Message) (ms : List Message) (ks : List ℕ)
      → sanitize_one new_id now i m (t ∷ ms) ks ≡ (m ∷ t ∷ [], (i + 1) ∷ ks)
      → sanitize_from new_id now i (m ∷ t ∷ ms) ks
        ≡ m ∷ t ∷ sanitize_from new_id now (i + 1 + 1) ms ((i + 1) ∷ ks)
  answered_step i m t ms ks e =
      let next : List Message × List ℕ → List Message =
        λ s. s.0 ++ sanitize_from new_id now (i + 1) (t ∷ ms) s.1 in
      unfold_step i m (t ∷ ms) ks ∙ ap next e ∙ ap (λ xs. m ∷ t ∷ xs) (skipped_step (i + 1) t ms ks)

  from_keeps :
      (i : ℕ) (ms : List Message) (ks : List ℕ)
      → all (λ k. ltb k i) ks ≡ true
      → IsConsistent ms
      → sanitize_from new_id now i ms ks ≡ ms
  unfolding consistent
  from_keeps i [] ks h c = nothing_left i ks
  from_keeps i (m ∷ []) ks h c =
      let r : requests_tools m ≡ false = ground arith in
      plain_step i m [] ks (consumed-below i i ks h (omega arith)) (ground arith) r
      ∙ ap (λ xs. m ∷ xs) (from_keeps (i + 1) [] ks (below-grow i ks h) refl)
  from_keeps i (m ∷ t ∷ ms) ks h c = elim (Bool-cases (requests_tools m)) [
    | inr r ↦
        plain_step i m (t ∷ ms) ks (consumed-below i i ks h (omega arith)) (ground arith) r
        ∙ ap (λ xs. m ∷ xs) (from_keeps (i + 1) (t ∷ ms) ks (below-grow i ks h) (ground arith))
    | inl r ↦
        let a : answers m t ≡ true = answers_intro m t r (ground arith) (ground arith) in
        let c' : IsConsistent ms = ground arith in
        let below = below-grow (i + 1) ks (below-grow i ks h) in
        answered_step i m t ms ks (answered_one i m t ms ks h (ground arith) r a)
        ∙ ap (λ xs. m ∷ t ∷ xs)
            (from_keeps (i + 1 + 1) ms ((i + 1) ∷ ks) (below_cons (i + 1) ks below) c')
  ]

  -- A history that is consistent already is not changed.
  pub sanitize_keeps :
      (ms : List Message) → IsConsistent ms → sanitize_message_history new_id now ms ≡ ms
  unfolding sanitize_message_history all
  sanitize_keeps ms h = from_keeps 0 ms [] refl h

-- The repair is idempotent: a history that was repaired is not changed by another repair, with
-- whatever ids and times.
pub sanitize_idempotent :
    (new_id again_id : Text) (now later : ℕ) (ms : List Message)
    → sanitize_message_history again_id later (sanitize_message_history new_id now ms)
      ≡ sanitize_message_history new_id now ms
sanitize_idempotent new_id again_id now later ms =
    sanitize_keeps again_id later (sanitize_message_history new_id now ms)
      (sanitize-IsConsistent new_id now ms)
