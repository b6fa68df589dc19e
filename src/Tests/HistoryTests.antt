-- ===== src/Tests/HistoryTests.antt =====
-- The repair of backend/common/message_history.py and the cut of boundary.py at one history.
use neuralhub.Base.{
  ℕ, ◌≡◌, refl, false, not, some, List, [], ◌∷◌, Text, codes, text_eq, has, subset, value_error,
  Result, raise,
}
use neuralhub.Types.{
  Fields, ToolCall, new_result, is_tool, Message, new_message, end, user, assistant, tool,
}
use neuralhub.History.Sanitize.{
  requests_tools, answers, build_orphan_tool_message, sanitize_one, sanitize_from,
  sanitize_message_history,
}
use neuralhub.History.Sanitize.Answered.{consistent, IsConsistent, sanitize-IsConsistent}
use neuralhub.History.Sanitize.Idempotent.{sanitize_keeps}
use neuralhub.History.Boundary.{align_recent_boundary, paired_from}
use neuralhub.History.Boundary.Cut.{IsCut, align_recent_boundary-IsCut}
use neuralhub.History.Checkpoints.{MessageHistory}
use neuralhub.History.Compressor.{compact}
use neuralhub.History.Compressor.Again.{compact_again}

abbrev search_call : ToolCall
search_call = record { id = codes "c1"; name = codes "search"; arguments = end }

abbrev question : Message
question = new_message (codes "m1") 1 user (codes "find it")

abbrev asking : Message
asking = record (new_message (codes "m2") 2 assistant []) { tool_calls = some (search_call ∷ []) }

abbrev stray : Message
stray = record (new_message (codes "m3") 3 tool []) {
  tool_results = some (new_result (codes "c9") (codes "?") false ∷ []);
}

abbrev answer : Message
answer = record (new_message (codes "m4") 4 tool []) {
  tool_results = some (new_result (codes "c1") (codes "found") false ∷ []);
}

-- A question, a stray result, a call whose answer comes late, and another stray result.
abbrev history : List Message
history = question ∷ stray ∷ asking ∷ question ∷ answer ∷ stray ∷ []

repaired :
    sanitize_message_history (codes "n") 9 history ≡ question ∷ asking ∷ answer ∷ question ∷ []
unfolding sanitize_message_history sanitize_from sanitize_one build_orphan_tool_message subset has
    text_eq
repaired = refl

sanitize-IsConsistent_example : IsConsistent (sanitize_message_history (codes "n") 9 history)
sanitize-IsConsistent_example = sanitize-IsConsistent (codes "n") 9 history

tidy-IsConsistent : IsConsistent (question ∷ asking ∷ answer ∷ [])
unfolding consistent answers requests_tools subset has text_eq
tidy-IsConsistent = refl

sanitize_keeps_example :
    sanitize_message_history (codes "n") 9 (question ∷ asking ∷ answer ∷ [])
    ≡ question ∷ asking ∷ answer ∷ []
sanitize_keeps_example =
    sanitize_keeps (codes "n") 9 (question ∷ asking ∷ answer ∷ []) tidy-IsConsistent

-- The answer would be the first recent message, so it moves to the old part.
cut :
    align_recent_boundary (question ∷ asking ∷ answer ∷ question ∷ []) 2
    ≡ (question ∷ asking ∷ answer ∷ [], question ∷ [])
unfolding align_recent_boundary paired_from
cut = refl

align_recent_boundary-IsCut_example :
    IsCut
      (question ∷ asking ∷ answer ∷ question ∷ [])
      2
      (align_recent_boundary (question ∷ asking ∷ answer ∷ question ∷ []) 2)
align_recent_boundary-IsCut_example =
    align_recent_boundary-IsCut (question ∷ asking ∷ answer ∷ question ∷ []) 2

-- The model that writes the summaries is not there.
abbrev silent : Text → Result Text
silent prompt = raise (value_error (codes "no model"))

abbrev plain_dumps : Fields → Text
plain_dumps fs = []

abbrev plain_int : ℕ → Text
plain_int n = n ∷ []

compact_again_example :
    compact plain_dumps plain_int silent (codes "k") 12 2 (
      compact plain_dumps plain_int silent
        (codes "n")
        9
        2
        (question ∷ asking ∷ answer ∷ question ∷ []))
    ≡ compact plain_dumps plain_int silent
        (codes "n")
        9
        2
        (question ∷ asking ∷ answer ∷ question ∷ [])
compact_again_example =
    compact_again plain_dumps plain_int silent silent (codes "n") (codes "k") 9 12 2
      (question ∷ asking ∷ answer ∷ question ∷ [])

settled_question : IsConsistent (question ∷ [])
unfolding consistent requests_tools
settled_question = refl

-- Results of tools cannot be stored.
abbrev watched : MessageHistory
watched = record {
  messages = question ∷ asking ∷ answer ∷ [];
  checkpoint_fn = some (λ m. not (is_tool m.role));
  checkpoint_failed = false;
}
