-- ===== src/History/Orphans.antt =====
-- backend/core/s01_agent_loop/agent_loop_orphan.py: when the loop stops between an assistant
-- message's calls and their results, the calls get error results.
use neuralhub.Base.{
  ℕ, ◌≡◌, refl, ◌∙◌, true, not, Option, none, some, List, [], ◌∷◌, ◌++◌, map, arith, if◌then◌else◌,
  Text,
}
use neuralhub.Types.{ToolResult, new_result, Message, new_message, or_empty, tool}
use mathlib.Core.List.{append_assoc}
use neuralhub.History.Sanitize.{
  requests_tools, orphan_tool_output, answers, build_orphan_tool_message,
}
use neuralhub.History.Sanitize.Answered.{consistent, IsConsistent, orphan-answers}

unfoldable pub build_orphan_tool_results : Message → List ToolResult
build_orphan_tool_results m =
    map (λ c. new_result c.id orphan_tool_output true) (or_empty m.tool_calls)

-- `messages[-1]`.
unfoldable pub last_message : List Message → Option Message
last_message [] = none
last_message (m ∷ ms) = elim ms [ [] ↦ some m | n ∷ ns ↦ last_message ms ]

unfoldable pub patch_orphan_tool_calls : (new_id : Text) (now : ℕ) → List Message → List Message
unfolding requests_tools build_orphan_tool_results last_message
patch_orphan_tool_calls new_id now ms = elim (last_message ms) [
  | none ↦ ms
  | some last ↦
      if not (requests_tools last)
      then ms
      else ms
        ++ record (new_message new_id now tool []) {
          tool_results = some (build_orphan_tool_results last);
        }
          ∷ []
]

pub last-append : (ms : List Message) (m : Message) → last_message (ms ++ m ∷ []) ≡ some m
unfolding last_message
last-append [] m = refl
last-append (x ∷ []) m = refl
last-append (x ∷ y ∷ ms) m = last-append (y ∷ ms) m

pub consistent-append :
    (a : Option Message) (xs ys : List Message)
    → consistent a xs ≡ true
    → consistent a (xs ++ ys) ≡ consistent none ys
unfolding consistent
consistent-append none [] ys h = refl
consistent-append (some a) [] ys h = ground arith
consistent-append (some a) (t ∷ ts) ys h =
    let rest = consistent-append none ts ys (ground arith) in ground arith
consistent-append none (m ∷ ms) ys h =
    let rest = consistent-append (if requests_tools m then some m else none) ms ys (ground arith) in
    ground arith

pair_consistent :
    (m t : Message)
    → requests_tools m ≡ true
    → answers m t ≡ true
    → consistent none (m ∷ t ∷ []) ≡ true
unfolding consistent answers requests_tools
pair_consistent m t r a = ground arith

-- A consistent history that breaks off after an assistant message with calls is consistent again
-- once it is patched.
pub patch-IsConsistent :
    (new_id : Text) (now : ℕ) (ms : List Message) (m : Message)
    → IsConsistent ms
    → requests_tools m ≡ true
    → IsConsistent (patch_orphan_tool_calls new_id now (ms ++ m ∷ []))
unfolding patch_orphan_tool_calls build_orphan_tool_message
patch-IsConsistent new_id now ms m h r =
    let t = build_orphan_tool_message new_id now m in
    let patched : patch_orphan_tool_calls new_id now (ms ++ m ∷ []) ≡ (ms ++ m ∷ []) ++ t ∷ [] =
      rw (patch_orphan_tool_calls, last-append ms m, r) refl in
    rw patched (
      rw (append_assoc ms (m ∷ []) (t ∷ [])) (
        consistent-append none ms (m ∷ t ∷ []) h
        ∙ pair_consistent m t r (orphan-answers new_id now m r)))
