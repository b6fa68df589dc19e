-- ===== src/Tests/ExecutorTests.antt =====
-- backend/core/s02_tools/executor.py with a batch that comes out of order.
use neuralhub.Base.{
  ℕ, ◌+◌, ◌-◌, ◌≤◌, ◌<◌, ◌≡◌, refl, ◌⊎◌, true, false, List, [], ◌∷◌, ◌++◌, map, ◌==◌, if◌then◌else◌,
  length, Text, codes, text_eq, has, subset, value_error, str, Result, ok, raise,
}
use neuralhub.Types.{Fields, ToolResult, new_result, SignedToolCall}
use neuralhub.Tools.Registry.{lookup_tool}
use neuralhub.Tools.Gate.{sign}
use neuralhub.Tools.Executor.{
  max_output_chars, truncation_marker, truncate_output, execute_signed_batch, finalize_result,
  enumerate, insert_by_sequence, error_result, sorted_by_sequence,
}
use neuralhub.Tools.Executor.Batch.{truncate_output-bound, execute_signed_batch-ids}
use neuralhub.Tests.GateTests.{plain_crypto, gate, call_of}

abbrev pub one_int : ℕ → Text
one_int n = n ∷ []

-- The tool number 1 answers, the others raise.
abbrev pub run_tool : ℕ → Fields → Result ToolResult
run_tool n fs =
    if n == 1 then ok (new_result [] (codes "done") false) else raise (value_error (codes "no"))

abbrev signed_call : (sequence : ℕ) (id name : Text) → SignedToolCall
signed_call n i name = record {
  tool_call = call_of i name;
  sequence = n;
  timestamp = n;
  signature = sign plain_crypto gate (call_of i name) n n;
}

-- The later number stands first, and the number of the last call was accepted before.
abbrev batch : List SignedToolCall
batch =
    signed_call 9 (codes "x") (codes "Read")
    ∷ signed_call 8 (codes "y") (codes "Bash")
    ∷ signed_call 3 (codes "z") (codes "Read")
    ∷ []

outputs :
    map
      (λ (r : ToolResult). r.output)
      (execute_signed_batch one_int run_tool plain_crypto gate.registry batch gate).1
    ≡ codes "done" ∷ codes "no" ∷ codes "HMAC verification failed" ∷ []
unfolding execute_signed_batch sorted_by_sequence enumerate insert_by_sequence text_eq lookup_tool
    error_result finalize_result truncate_output max_output_chars str has
outputs = refl

execute_signed_batch-ids_example :
    map
      (λ (r : ToolResult). r.tool_call_id)
      (execute_signed_batch one_int run_tool plain_crypto gate.registry batch gate).1
    ≡ map (λ (c : SignedToolCall). c.tool_call.id) batch
execute_signed_batch-ids_example =
    execute_signed_batch-ids one_int run_tool plain_crypto gate.registry batch gate

truncate_output-bound_example :
    (length (truncate_output one_int (codes "Read") (codes "short"))
      ≤ max_output_chars (codes "Read")
        + length
            (truncation_marker one_int (length (codes "short") - max_output_chars (codes "Read"))))
    × ((truncate_output one_int (codes "Read") (codes "short") ≡ codes "short")
        ⊎ (max_output_chars (codes "Read") < length (codes "short")))
truncate_output-bound_example = truncate_output-bound one_int (codes "Read") (codes "short")

abbrev done_as : (id : Text) → ToolResult
done_as i = new_result i (codes "done") false

results_cover :
    subset (map (λ (c : SignedToolCall). c.tool_call.id) batch) (
      map
        (λ (r : ToolResult). r.tool_call_id)
        ((done_as (codes "x") ∷ done_as (codes "z") ∷ []) ++ done_as (codes "y") ∷ []))
    ≡ true
unfolding subset has text_eq
results_cover = refl
