-- ===== src/Tools/Executor.antt =====
-- backend/core/s02_tools/executor.py. A tool's executor is a function from the arguments to its
-- result or exception; the executors that `gather` runs do not touch the gate or the registry.
-- Logging, metrics and tracing are left out.
pub mod Batch
use neuralhub.Base.{
  ℕ, ◌+◌, ◌-◌, ◌/◌, true, Option, none, some, List, [], ◌∷◌, ◌++◌, map, leb, ◌==◌, if◌then◌else◌,
  length, take, drop, Text, codes, has, str, Result, ok, raise,
}
use neuralhub.Types.{Fields, ToolCall, ToolResult, new_result, SignedToolCall}
use neuralhub.Tools.Registry.{ToolRegistry, lookup_tool}
use neuralhub.Tools.Gate.{Crypto, SecurityGate, verify}

unfoldable pub aggregate_tool_names : List Text
aggregate_tool_names =
    codes "spawn_agent" ∷ codes "orchestrate_agents" ∷ codes "dispatch_agent" ∷ []

unfoldable pub max_output_chars : (tool_name : Text) → ℕ
unfolding aggregate_tool_names
max_output_chars tool_name = if has tool_name aggregate_tool_names then 48000 else 12000

-- `sorted(…, key=sequence)`, which keeps the order of equal keys.
unfoldable pub insert_by_sequence :
    ℕ × SignedToolCall → List (ℕ × SignedToolCall) → List (ℕ × SignedToolCall)
insert_by_sequence x [] = x ∷ []
insert_by_sequence x (y ∷ ys) =
    let rest = insert_by_sequence x ys in
    if leb x.1.sequence y.1.sequence then x ∷ y ∷ ys else y ∷ rest

unfoldable pub sorted_by_sequence : List (ℕ × SignedToolCall) → List (ℕ × SignedToolCall)
sorted_by_sequence [] = []
sorted_by_sequence (x ∷ xs) = insert_by_sequence x (sorted_by_sequence xs)

unfoldable pub enumerate : (start : ℕ) → List SignedToolCall → List (ℕ × SignedToolCall)
enumerate i [] = []
enumerate i (c ∷ cs) = (i, c) ∷ enumerate (i + 1) cs

-- `ordered[index]`, which is `None` until a result is put there.
unfoldable pub ordered_at : (index : ℕ) → List (ℕ × ToolResult) → Option ToolResult
ordered_at i [] = none
ordered_at i (x ∷ xs) = if x.0 == i then some x.1 else ordered_at i xs

unfoldable pub ordered_from :
    (index : ℕ) → List SignedToolCall → List (ℕ × ToolResult) → List ToolResult
unfolding ordered_at
ordered_from i [] rs = []
ordered_from i (c ∷ cs) rs =
    let rest = ordered_from (i + 1) cs rs in
    elim (ordered_at i rs) [ none ↦ rest | some r ↦ r ∷ rest ]

module _ (show_int : ℕ → Text) where
  abbrev pub truncation_marker : ℕ → Text
  truncation_marker n = codes "\n...[truncated " ++ show_int n ++ codes " characters]...\n"

  -- `output[:head_chars]` and `output[-tail_chars:]`, of an output that is longer than both.
  unfoldable pub truncate_output : (tool_name output : Text) → Text
  truncate_output tool_name output =
      let max_chars = max_output_chars tool_name in
      let head_chars = max_chars / 2 in
      let tail_chars = max_chars - head_chars in
      if leb (length output) max_chars
      then output
      else take head_chars output
        ++ truncation_marker (length output - max_chars)
        ++ drop (length output - tail_chars) output

  unfoldable pub finalize_result : ToolCall → ToolResult → ToolResult
  finalize_result call r = record r {
    tool_call_id = call.id;
    output = truncate_output call.name r.output;
  }

  unfoldable pub error_result : ToolCall → (output : Text) → ToolResult
  error_result call text = finalize_result call (new_result call.id text true)

  module _ {X : Type 0} (run : X → Fields → Result ToolResult) where
    unfoldable pub execute : ToolRegistry X → ToolCall → ToolResult
    execute registry call = elim (lookup_tool call.name registry) [
      | raise e ↦ error_result call (str e)
      | ok found ↦ elim found [
        | none ↦ error_result call (codes "Unknown tool: " ++ call.name)
        | some entry ↦ elim (run entry.1 call.arguments) [
          | ok r ↦ finalize_result call r
          | raise e ↦ error_result call (str e)
        ]
      ]
    ]

    unfoldable pub execute_batch : ToolRegistry X → List ToolCall → List ToolResult
    execute_batch registry calls = map (execute registry) calls

    abbrev pub unverified : Text
    unverified = codes "HMAC verification failed"

    module _ (crypto : Crypto) where
      unfoldable pub execute_signed :
          ToolRegistry X → SignedToolCall → SecurityGate X → SecurityGate X × ToolResult
      unfolding execute verify
      execute_signed registry signed_call gate =
          let (gate', valid) = verify crypto gate signed_call in
          (
            gate',
            if valid
                then execute registry signed_call.tool_call
                else error_result signed_call.tool_call unverified,
          )

      -- The loop over the sorted calls: what each call gets, with its place in the batch.
      unfoldable pub run_sorted :
          ToolRegistry X
          → SecurityGate X
          → List (ℕ × SignedToolCall)
          → SecurityGate X × List (ℕ × ToolResult)
      unfolding execute_signed
      run_sorted registry gate [] = (gate, [])
      run_sorted registry gate (x ∷ xs) =
          let (gate', r) = execute_signed registry x.1 gate in
          let (gate₂, rs) = run_sorted registry gate' xs in (gate₂, (x.0, r) ∷ rs)

      unfoldable pub execute_signed_batch :
          ToolRegistry X → List SignedToolCall → SecurityGate X → SecurityGate X × List ToolResult
      unfolding run_sorted ordered_from
      execute_signed_batch registry calls gate =
          let (gate', rs) = run_sorted registry gate (sorted_by_sequence (enumerate 0 calls)) in
          (gate', ordered_from 0 calls rs)

      unfoldable pub serial_from :
          ToolRegistry X
          → List (ℕ × SignedToolCall)
          → SecurityGate X
          → SecurityGate X × List ToolResult
      unfolding execute_signed
      serial_from registry [] gate = (gate, [])
      serial_from registry (x ∷ xs) gate =
          let (gate', r) = execute_signed registry x.1 gate in
          let (gate₂, rs) = serial_from registry xs gate' in (gate₂, r ∷ rs)

      unfoldable pub execute_signed_serial :
          ToolRegistry X → List SignedToolCall → SecurityGate X → SecurityGate X × List ToolResult
      unfolding serial_from
      execute_signed_serial registry calls gate =
          serial_from registry (sorted_by_sequence (enumerate 0 calls)) gate
