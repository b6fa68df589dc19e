-- ===== src/History/Boundary.antt =====
-- backend/core/s06_context_compression/boundary.py.
pub mod Cut
use neuralhub.Base.{
  ℕ, ◌-◌, Bool, true, false, not, ◌&&◌, List, [], ◌∷◌, ◌++◌, map, ◌==◌, if◌then◌else◌, length, take,
  drop, Text, has,
}
use neuralhub.Types.{ToolCall, ToolResult, is_tool, Message, or_empty}

unfoldable pub results_available : (available : List Text) → List ToolResult → Bool
results_available ids [] = true
results_available ids (r ∷ rs) = has r.tool_call_id ids && results_available ids rs

-- `_tool_results_paired`, with the ids that the loop has seen so far.
unfoldable pub paired_from : (available : List Text) → List Message → Bool
unfolding results_available
paired_from ids [] = true
paired_from ids (m ∷ ms) =
    let ids' = map (λ (c : ToolCall). c.id) (or_empty m.tool_calls) ++ ids in
    results_available ids' (or_empty m.tool_results) && paired_from ids' ms

unfoldable pub tool_results_paired : List Message → Bool
tool_results_paired recent = paired_from [] recent

-- `while recent and stays_out(recent): old.append(recent.pop(0))`.
unfoldable pub move_while :
    (List Message → Bool) → (old recent : List Message) → List Message × List Message
move_while stays_out old [] = (old, [])
move_while stays_out old (m ∷ ms) =
    let moved = move_while stays_out (old ++ m ∷ []) ms in
    if stays_out (m ∷ ms) then moved else (old, m ∷ ms)

unfoldable pub starts_with_tool : List Message → Bool
starts_with_tool [] = false
starts_with_tool (m ∷ _) = is_tool m.role

unfoldable pub align_recent_boundary : List Message → (reserve : ℕ) → List Message × List Message
unfolding tool_results_paired move_while starts_with_tool
align_recent_boundary non_system reserve =
    if reserve == 0
    then (non_system, [])
    else (let recent = drop (length non_system - reserve) non_system in
        let old = take (length non_system - length recent) non_system in
        let (old', recent') = move_while starts_with_tool old recent in
        move_while (λ ms. not (tool_results_paired ms)) old' recent')
