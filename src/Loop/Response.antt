-- ===== src/Loop/Response.antt =====
-- The response of a model: `LLMResponse` of backend/common/types/llm.py, its assembly from a stream
-- in backend/core/s01_agent_loop/streaming.py, and `response_content` of agent_loop_support.py. The
-- usage counts and the events are left out.
use neuralhub.Base.{
  not, ◌&&◌, ◌||◌, Option, none, some, List, [], ◌∷◌, ◌++◌, if◌then◌else◌, Text, codes, Result, ok,
  lstrip, rstrip, strip, nonempty,
}
use neuralhub.Types.{Json, Items, Fields, ToolCall, string, array, object, nil, cons, end, field}
use neuralhub.Loop.Failures.{argument}
use neuralhub.Loop.Review.{field_or}

pub record LlmResponse : Type 0 where
  pub content : Text
  pub tool_calls : List ToolCall
  pub provider_metadata : Fields

-- `provider_metadata.get("reasoning_content", "") or ""`; the adapters put a text there.
unfoldable pub reasoning_content : Fields → Text
unfolding argument
reasoning_content fs = elim (argument (codes "reasoning_content") fs) [ string t ↦ t | _ ↦ [] ]

unfoldable pub response_content : LlmResponse → Text
unfolding reasoning_content lstrip rstrip
response_content r =
    if nonempty (strip r.content) || nonempty r.tool_calls
    then r.content
    else reasoning_content r.provider_metadata

-- The chunks of a stream, after `str(chunk.data or "")` and `_tool_call` have read their data: a
-- block of thinking is a dictionary, and a call without a name is dropped there.
pub data StreamChunk : Type 0 where
  text_chunk reasoning_chunk : Text → StreamChunk
  thinking_chunk : Fields → StreamChunk
  call_chunk : Option ToolCall → StreamChunk
  usage_chunk : StreamChunk

pub record Collected : Type 0 where
  pub content_parts : Text
  pub reasoning_parts : Text
  pub thinking_blocks : List Fields
  pub tool_calls : List ToolCall

abbrev pub nothing_collected : Collected
nothing_collected = record {
  content_parts = [];
  reasoning_parts = [];
  thinking_blocks = [];
  tool_calls = [];
}

unfoldable pub collect : Collected → StreamChunk → Collected
collect c (text_chunk t) = record c { content_parts = c.content_parts ++ t }
collect c (reasoning_chunk t) = record c { reasoning_parts = c.reasoning_parts ++ t }
collect c (thinking_chunk fs) = record c { thinking_blocks = c.thinking_blocks ++ fs ∷ [] }
collect c (call_chunk none) = c
collect c (call_chunk (some call)) = record c { tool_calls = c.tool_calls ++ call ∷ [] }
collect c usage_chunk = c

unfoldable pub collect_all : Collected → List StreamChunk → Collected
unfolding collect
collect_all c [] = c
collect_all c (x ∷ xs) = collect_all (collect c x) xs

abbrev pub items_of : List Fields → Items
items_of [] = nil
items_of (fs ∷ more) = cons (object fs) (items_of more)

-- `"".join(str(block.get("thinking", "")) for block in thinking_blocks)`.
unfoldable pub thinking_text : (show_json : Json → Text) → List Fields → Text
unfolding field_or
thinking_text show_json [] = []
thinking_text show_json (fs ∷ more) =
    show_json (field_or (codes "thinking") (string []) fs) ++ thinking_text show_json more

unfoldable pub metadata_of : (show_json : Json → Text) → (reasoning : Text) → List Fields → Fields
unfolding thinking_text
metadata_of show_json reasoning blocks =
    let thinking = object (
      field (codes "type") (string (codes "thinking"))
        (field (codes "thinking") (string reasoning) end)) in
    let own = if nonempty reasoning then cons thinking nil else nil in
    let shown = if nonempty blocks then items_of blocks else own in
    let text = if nonempty reasoning then reasoning else thinking_text show_json blocks in
    let listed = field (codes "thinking_blocks") (array shown) end in
    if not (nonempty reasoning) && not (nonempty blocks)
    then end
    else if nonempty text
    then field (codes "reasoning_content") (string text)
        (field (codes "thinking") (string text) listed)
    else listed

-- Without any chunk the adapter's `complete` is asked, whose answer or exception is the last
-- argument.
unfoldable pub complete_with_stream :
    (show_json : Json → Text)
    → List StreamChunk
    → (complete : Result LlmResponse) → Result LlmResponse
unfolding collect_all metadata_of
complete_with_stream show_json [] complete = complete
complete_with_stream show_json (x ∷ xs) complete =
    let c = collect_all nothing_collected (x ∷ xs) in
    ok (record {
      content = c.content_parts;
      tool_calls = c.tool_calls;
      provider_metadata = metadata_of show_json c.reasoning_parts c.thinking_blocks;
    })
