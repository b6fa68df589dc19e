-- ===== src/History/Compressor.antt =====
-- backend/core/s06_context_compression/compressor.py. What the model answers to the request for a
-- summary is a function of the prompt; `dumps` and `show_int` print JSON and numbers.
pub mod Again
use neuralhub.Base.{
  ℕ, ◌+◌, ◌-◌, not, ◌&&◌, none, some, List, [], ◌∷◌, ◌++◌, map, leb, if◌then◌else◌, length, take,
  keep, Text, codes, Dict, get, put, Exception, agent_error, str, Result, ok, raise, strip, join,
  nonempty,
}
use neuralhub.Types.{
  Fields, ToolCall, ToolResult, Role, is_system, is_tool, Message, or_empty, user, assistant,
  system, tool,
}
use neuralhub.History.Summaries.{is_summary_message, build_summary_message}
use neuralhub.History.Boundary.{align_recent_boundary}

unfoldable pub put_calls : Dict Text → List ToolCall → Dict Text
put_calls names [] = names
put_calls names (c ∷ cs) = put_calls (put c.id c.name names) cs

unfoldable pub name_index_from : Dict Text → List Message → Dict Text
unfolding put_calls
name_index_from names [] = names
name_index_from names (m ∷ ms) = name_index_from (put_calls names (or_empty m.tool_calls)) ms

unfoldable pub build_tool_name_index : List Message → Dict Text
build_tool_name_index ms = name_index_from [] ms

unfoldable pub role_name : Role → Text
role_name user = codes "user"
role_name assistant = codes "assistant"
role_name system = codes "system"
role_name tool = codes "tool"

abbrev pub system_messages : List Message → List Message
system_messages ms = keep (λ m. is_system m.role) ms

abbrev pub summary_messages : List Message → List Message
summary_messages ms = keep (λ m. not (is_system m.role) && is_summary_message m) ms

abbrev pub non_system_messages : List Message → List Message
non_system_messages ms = keep (λ m. not (is_system m.role) && not (is_summary_message m)) ms

-- `ContextCompressionError(message)`.
abbrev pub compression_error : (message : Text) → Exception
compression_error message = agent_error (codes "CONTEXT_COMPRESSION_FAILED") message

abbrev pub message_of : Exception → Text
message_of (agent_error code message) = message
message_of e = str e

module _ (dumps : Fields → Text) (show_int : ℕ → Text) where
  unfoldable pub clip_text : Text → (limit : ℕ) → Text
  clip_text text limit =
      if leb (length text) limit
      then text
      else take limit text
        ++ codes "...[truncated "
        ++ show_int (length text - limit)
        ++ codes " chars]"

  unfoldable pub render_tool_call : ToolCall → Text
  unfolding clip_text
  render_tool_call call =
      call.name ++ codes "(" ++ clip_text (dumps call.arguments) 200 ++ codes ")"

  unfoldable pub render_result : Dict Text → ToolResult → Text
  unfolding clip_text
  render_result tool_names r =
      elim (get r.tool_call_id tool_names) [ none ↦ codes "unknown_tool" | some n ↦ n ]
      ++ codes "["
      ++ (if r.is_error then codes "error" else codes "ok")
      ++ codes "]="
      ++ clip_text r.output 200

  unfoldable pub render_tool_message : Message → Dict Text → Text
  unfolding render_result join
  render_tool_message m tool_names =
      if not (nonempty (or_empty m.tool_results))
      then codes "role=tool ; no_results"
      else join (codes " ; ")
          (codes "role=tool" ∷ map (render_result tool_names) (or_empty m.tool_results))

  unfoldable pub render_message : Message → Dict Text → Text
  unfolding render_tool_message role_name render_tool_call join clip_text
  render_message m tool_names =
      if is_tool m.role
      then render_tool_message m tool_names
      else join (codes " ; ") (
          (codes "role=" ++ role_name m.role)
            ∷ (if nonempty m.content
                then (codes "content=" ++ clip_text m.content 1000) ∷ []
                else [])
          ++ (if nonempty (or_empty m.tool_calls)
              then (codes "tool_calls="
                  ++ join (codes " | ") (map render_tool_call (or_empty m.tool_calls)))
                ∷ []
              else []))

  unfoldable pub numbered_lines : (limit index : ℕ) → Dict Text → List Message → List Text
  unfolding render_message clip_text
  numbered_lines limit i tool_names [] = []
  numbered_lines limit i tool_names (m ∷ ms) =
      (show_int i ++ codes ". " ++ clip_text (render_message m tool_names) limit)
      ∷ numbered_lines limit (i + 1) tool_names ms

  unfoldable pub build_summary_prompt : List Message → Text
  unfolding numbered_lines build_tool_name_index join
  build_summary_prompt ms = join (codes "\n") (
      codes "请压缩下面的较早历史，供 agent 后续继续执行任务。"
      ∷ codes "必须遵守 P1-P6 保留优先级，并按 system 中的 structured_summary XML 格式输出。"
      ∷ codes "没有内容的字段写“无”。"
      ∷ []
      ∷ codes "[历史开始]"
      ∷ (numbered_lines 1200 1 (build_tool_name_index ms) ms ++ codes "[历史结束]" ∷ []))

  unfoldable pub build_fallback_summary : List Message → Text
  unfolding numbered_lines build_tool_name_index join clip_text
  build_fallback_summary ms =
      let lines = join (codes "\n") (numbered_lines 100 1 (build_tool_name_index ms) ms) in
      let details = if nonempty lines then lines else codes "无" in
      codes "<structured_summary>\n"
      ++ codes "  <goal>摘要模型调用失败，需基于降级摘要继续。</goal>\n"
      ++ codes "  <constraints>无</constraints>\n"
      ++ codes "  <identifiers>降级摘要可能不完整，关键标识符需回查历史。</identifiers>\n"
      ++ codes "  <decisions>无</decisions>\n"
      ++ codes "  <failures>摘要模型调用失败，已按较早消息截断生成摘要。</failures>\n"
      ++ codes "  <pending>"
      ++ clip_text details 1800
      ++ codes "</pending>\n"
      ++ codes "  <narrative>较早历史已被降级压缩，继续任务前应优先确认关键约束和路径。</narrative>\n"
      ++ codes "</structured_summary>"

  module _ (ask_model : (prompt : Text) → Result Text) (new_id : Text) (now : ℕ) where
    -- The summary, or the message of the error; an empty answer is an error.
    unfoldable pub request_summary : List Message → Result Text
    unfolding build_summary_prompt
    request_summary ms = elim (ask_model (build_summary_prompt ms)) [
      | raise e ↦ raise (compression_error (str e))
      | ok text ↦
          if nonempty (strip text)
          then ok (strip text)
          else raise (compression_error (codes "Summary response was empty"))
    ]

    unfoldable pub summary_for : List Message → Message
    unfolding request_summary build_fallback_summary build_summary_message
    summary_for old = elim (request_summary old) [
      | ok text ↦ build_summary_message new_id now text [] []
      | raise e ↦ build_summary_message new_id now (build_fallback_summary old) [] (message_of e)
    ]

    unfoldable pub compact : (reserve_count : ℕ) → List Message → List Message
    unfolding summary_for is_summary_message align_recent_boundary
    compact reserve_count ms =
        if leb (length (non_system_messages ms)) reserve_count
        then ms
        else (let (old, recent) = align_recent_boundary (non_system_messages ms) reserve_count in
            if not (nonempty old)
            then ms
            else system_messages ms ++ (summary_messages ms ++ summary_for old ∷ recent))
