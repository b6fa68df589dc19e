-- ===== src/Tools/Executor/Batch.antt =====
-- The results of a signed batch.
use neuralhub.Base.{
  ℕ, ◌+◌, ◌-◌, ◌/◌, ◌≤◌, ◌<◌, ◌≡◌, refl, ap, ◌∙◌, ◌⊎◌, inl, inr, true, false, Option, none, some,
  List, [], ◌∷◌, ◌++◌, map, arith, leb, ◌==◌, if◌then◌else◌, Bool-cases, Option-cases, length, take,
  drop, length-append, Text, Result, length-take, length-drop,
}
use neuralhub.Types.{Fields, ToolCall, ToolResult, SignedToolCall}
use neuralhub.Tools.Registry.{ToolRegistry}
use neuralhub.Tools.Gate.{Crypto, SecurityGate}
use neuralhub.Tools.Executor.{
  finalize_result, error_result, execute, execute_signed, insert_by_sequence, sorted_by_sequence,
  enumerate, run_sorted, ordered_at, ordered_from, execute_signed_batch, max_output_chars,
  truncation_marker, truncate_output,
}

-- The entry with an index, in a list of calls that carry their place in the batch.
unfoldable call_at : (index : ℕ) → List (ℕ × SignedToolCall) → Option SignedToolCall
call_at i [] = none
call_at i (x ∷ xs) = if x.0 == i then some x.1 else call_at i xs

abbrev id_of_call : Option SignedToolCall → Option Text
id_of_call none = none
id_of_call (some c) = some c.tool_call.id

abbrev id_of_result : Option ToolResult → Option Text
id_of_result none = none
id_of_result (some r) = some r.tool_call_id

call_at-enumerate :
    (i start : ℕ) (cs : List SignedToolCall) → i < start → call_at i (enumerate start cs) ≡ none
unfolding call_at enumerate
call_at-enumerate i start [] h = refl
call_at-enumerate i start (c ∷ cs) h =
    let rest = call_at-enumerate i (start + 1) cs (omega arith) in ground arith

-- Inserting a call with a new index keeps what every index finds.
call_at-insert :
    (i : ℕ) (x : ℕ × SignedToolCall) (xs : List (ℕ × SignedToolCall))
    → call_at x.0 xs ≡ none
    → call_at i (insert_by_sequence x xs) ≡ call_at i (x ∷ xs)
unfolding call_at insert_by_sequence
call_at-insert i x [] h = refl
call_at-insert i x (y ∷ ys) h =
    let rest : call_at x.0 ys ≡ none → call_at i (insert_by_sequence x ys) ≡ call_at i (x ∷ ys) =
      call_at-insert i x ys in
    ground arith

call_at-sorted :
    (i start : ℕ) (cs : List SignedToolCall)
    → call_at i (sorted_by_sequence (enumerate start cs)) ≡ call_at i (enumerate start cs)
unfolding sorted_by_sequence enumerate call_at
call_at-sorted i start [] = refl
call_at-sorted i start (c ∷ cs) =
    let fresh =
      call_at-sorted start (start + 1) cs ∙ call_at-enumerate start (start + 1) cs (omega arith) in
    let rest = call_at-sorted i (start + 1) cs in
    call_at-insert i (start, c) (sorted_by_sequence (enumerate (start + 1) cs)) fresh
    ∙ ap (λ o. if start == i then some c else o) rest

own_place :
    (start : ℕ) (c : SignedToolCall) (cs : List SignedToolCall)
    → id_of_call (call_at start (enumerate start (c ∷ cs))) ≡ some c.tool_call.id
unfolding enumerate call_at
own_place start c cs = let e : (start == start) ≡ true = ground arith in rw e refl

next_place :
    (j start : ℕ) (c : SignedToolCall) (cs : List SignedToolCall)
    → start + 1 ≤ j
    → id_of_call (call_at j (enumerate start (c ∷ cs)))
      ≡ id_of_call (call_at j (enumerate (start + 1) cs))
unfolding enumerate call_at
next_place j start c cs h = let e : (start == j) ≡ false = ground arith in rw e refl

nothing_here :
    (i : ℕ) (rs : List (ℕ × ToolResult)) (k : Text)
    → ordered_at i rs ≡ none
    → id_of_result (ordered_at i rs) ≡ some k
    → ⊥
nothing_here i rs k n h = ground arith

the_id :
    (i : ℕ) (rs : List (ℕ × ToolResult)) (r : ToolResult) (k : Text)
    → ordered_at i rs ≡ some r
    → id_of_result (ordered_at i rs) ≡ some k
    → r.tool_call_id ≡ k
the_id i rs r k n h = ground arith

-- A loop over the places of a batch whose every place has a result.
ids_in_order :
    (start : ℕ) (cs : List SignedToolCall) (rs : List (ℕ × ToolResult))
    → ((j : ℕ)
        → start ≤ j
        → id_of_result (ordered_at j rs) ≡ id_of_call (call_at j (enumerate start cs)))
    → map (λ r. r.tool_call_id) (ordered_from start cs rs) ≡ map (λ c. c.tool_call.id) cs
unfolding ordered_from enumerate call_at
ids_in_order start [] rs h = refl
ids_in_order start (c ∷ cs) rs h =
    let here : id_of_result (ordered_at start rs) ≡ some c.tool_call.id =
      h start (omega arith) ∙ own_place start c cs in
    let rest =
      ids_in_order (start + 1) cs rs (λ j le. h j (omega arith) ∙ next_place j start c cs le) in
    elim (Option-cases (ordered_at start rs)) [
      | inl n ↦ absurd (nothing_here start rs c.tool_call.id n here)
      | inr (r, n) ↦
          let own : r.tool_call_id ≡ c.tool_call.id = the_id start rs r c.tool_call.id n here in
          rw (ordered_from, n, own) (ap (λ xs. c.tool_call.id ∷ xs) rest)
    ]

pieces_bound :
    (h k : ℕ) (out marker : Text)
    → length (take h out ++ marker ++ drop k out) ≤ h + length marker + (length out - k)
pieces_bound h k out marker = omega (
  arith,
  length-append (take h out ++ marker) (drop k out),
  length-append (take h out) marker,
  length-take h out,
  length-drop k out,
)

-- What a tool gives back is bounded: its output after truncation is at most the tool's limit and one
-- marker long, and it is the output itself unless that is longer than the limit.
pub truncate_output-bound :
    (show_int : ℕ → Text) (tool_name output : Text)
    → (length (truncate_output show_int tool_name output)
        ≤ max_output_chars tool_name
          + length (truncation_marker show_int (length output - max_output_chars tool_name)))
      × ((truncate_output show_int tool_name output ≡ output)
          ⊎ (max_output_chars tool_name < length output))
unfolding truncate_output
truncate_output-bound show_int tool_name output =
    let top = max_output_chars tool_name in
    let marker = truncation_marker show_int (length output - top) in
    elim (Bool-cases (leb (length output) top)) [
      | inl few ↦
          let e : length output ≤ top = ground arith in
          rw (truncate_output, few) (omega arith, inl refl)
      | inr many ↦
          let e : top < length output = ground arith in
          let p = pieces_bound (top / 2) (length output - (top - top / 2)) output marker in
          rw (truncate_output, many) (omega arith, inr e)
    ]

module _ (show_int : ℕ → Text) {X : Type 0} (run : X → Fields → Result ToolResult)
    (crypto : Crypto) where
  -- A result carries the id of its call, whatever the tool answers or raises.
  pub execute-id :
      (registry : ToolRegistry X) (call : ToolCall)
      → (execute show_int run registry call).tool_call_id ≡ call.id
  unfolding execute error_result finalize_result
  execute-id registry call = ground arith

  pub signed-id :
      (registry : ToolRegistry X) (call : SignedToolCall) (gate : SecurityGate X)
      → (execute_signed show_int run crypto registry call gate).1.tool_call_id ≡ call.tool_call.id
  unfolding execute_signed error_result finalize_result
  signed-id registry call gate = let e = execute-id registry call.tool_call in ground arith

  sorted-ids :
      (registry : ToolRegistry X) (gate : SecurityGate X) (xs : List (ℕ × SignedToolCall)) (i : ℕ)
      → id_of_result (ordered_at i (run_sorted show_int run crypto registry gate xs).1)
        ≡ id_of_call (call_at i xs)
  unfolding run_sorted ordered_at call_at
  sorted-ids registry gate [] i = refl
  sorted-ids registry gate (x ∷ xs) i =
      let s = execute_signed show_int run crypto registry x.1 gate in
      let e = signed-id registry x.1 gate in let rest = sorted-ids registry s.0 xs i in ground arith

  -- A signed batch gives exactly one result for each call, in the order of the calls, although the
  -- calls are verified in the order of their sequence numbers: the ids of the results are the ids of
  -- the calls.
  pub execute_signed_batch-ids :
      (registry : ToolRegistry X) (calls : List SignedToolCall) (gate : SecurityGate X)
      → map (λ r. r.tool_call_id) (execute_signed_batch show_int run crypto registry calls gate).1
        ≡ map (λ c. c.tool_call.id) calls
  unfolding execute_signed_batch
  execute_signed_batch-ids registry calls gate =
      let xs = sorted_by_sequence (enumerate 0 calls) in
      ids_in_order 0 calls (run_sorted show_int run crypto registry gate xs).1
        (λ j le. sorted-ids registry gate xs j ∙ ap id_of_call (call_at-sorted j 0 calls))
