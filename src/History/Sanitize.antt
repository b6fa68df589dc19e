-- ===== src/History/Sanitize.antt =====
-- backend/common/message_history.py. A deep copy is the value itself. The loop has the messages
-- from `index` on, and gives what it appends to `sanitized`.
pub mod Answered
pub mod Idempotent
use neuralhub.Base.{
  ℕ, ◌+◌, Bool, true, false, not, ◌&&◌, ◌||◌, Option, none, some, List, [], ◌∷◌, ◌++◌, map, ◌==◌,
  if◌then◌else◌, Text, codes, subset, nonempty,
}
use neuralhub.Types.{new_result, is_tool, is_assistant, Message, new_message, or_empty, tool}

abbrev pub orphan_tool_output : Text
orphan_tool_output = codes "[error] tool execution failed, no response captured"

abbrev pub call_ids : Message → List Text
call_ids m = map (λ c. c.id) (or_empty m.tool_calls)

abbrev pub result_ids : Message → List Text
result_ids m = map (λ r. r.tool_call_id) (or_empty m.tool_results)

-- `message.role == "assistant" and message.tool_calls`.
unfoldable pub requests_tools : Message → Bool
requests_tools m = is_assistant m.role && nonempty (or_empty m.tool_calls)

-- `index in consumed_tool_indices`.
unfoldable pub consumed : ℕ → List ℕ → Bool
consumed i [] = false
consumed i (k ∷ ks) = (i == k) || consumed i ks

unfoldable pub answers : Message → Message → Bool
answers assistant_message candidate =
    is_tool candidate.role
    && nonempty (or_empty candidate.tool_results)
    && subset (call_ids assistant_message) (result_ids candidate)

-- The index of the first match, with the message that stands there.
unfoldable pub find_matching_tool_message_index :
    (index : ℕ) → List Message → Message → (consumed_tool_indices : List ℕ) → Option (ℕ × Message)
unfolding consumed answers
find_matching_tool_message_index i [] a ks = none
find_matching_tool_message_index i (m ∷ ms) a ks =
    if not (consumed i ks) && answers a m
    then some (i, m)
    else find_matching_tool_message_index (i + 1) ms a ks

module _ (new_id : Text) (now : ℕ) where
  unfoldable pub build_orphan_tool_message : Message → Message
  build_orphan_tool_message m = record (new_message new_id now tool []) {
    tool_results =
        some (map (λ c. new_result c.id orphan_tool_output true) (or_empty m.tool_calls));
  }

  -- The messages that the loop appends for one message, and the indices it consumes.
  unfoldable pub sanitize_one :
      (index : ℕ)
      → Message
      → List Message
      → (consumed_tool_indices : List ℕ) → List Message × List ℕ
  unfolding consumed requests_tools find_matching_tool_message_index build_orphan_tool_message
  sanitize_one i m ms ks =
      if consumed i ks || is_tool m.role
      then ([], ks)
      else if not (requests_tools m)
      then (m ∷ [], ks)
      else elim (find_matching_tool_message_index (i + 1) ms m ks) [
        | none ↦ (m ∷ build_orphan_tool_message m ∷ [], ks)
        | some found ↦ (m ∷ found.1 ∷ [], found.0 ∷ ks)
      ]

  unfoldable pub sanitize_from : (index : ℕ) → List Message → List ℕ → List Message
  sanitize_from i [] ks = []
  sanitize_from i (m ∷ ms) ks =
      let (appended, ks') = sanitize_one i m ms ks in appended ++ sanitize_from (i + 1) ms ks'

  unfoldable pub sanitize_message_history : List Message → List Message
  sanitize_message_history ms = sanitize_from 0 ms []
