-- ===== src/History/Level2.antt =====
-- backend/core/s06_context_compression/level1_artifact.py, level2_compact.py and the second level of
-- layered_compressor.py: while the context is too large, the oldest large tool result is written to a
-- file, and the history keeps a brief of it. Writing the files gives their paths, or one of the writes
-- of a run of the loop raises, which is an input of `check_and_compact`; whether a number of
-- tokens is above the threshold is a test, since the source divides floating point numbers.
pub mod Shape
pub mod Ends
use neuralhub.Base.{
  ℕ, zero, suc, ◌+◌, ◌-◌, max, Bool, true, false, not, ◌&&◌, ◌||◌, Option, none, some, List, [],
  ◌∷◌, ◌++◌, map, leb, ◌==◌, if◌then◌else◌, length, take, drop, any, Text, codes, text_eq, Dict,
  get, put, Result, ok, raise, is_space, lstrip, rstrip, strip, startswith, nonempty, split_at,
  ends_line,
}
use neuralhub.Types.{
  Json, Items, Fields, ToolCall, ToolResult, is_tool, Message, or_empty, ToolDefinition, null,
  string, array, object, nil, cons, end, field, file,
}
use neuralhub.History.Summaries.{estimate_tokens}
use neuralhub.Loop.Failures.{FailureTexts, argument, or_else}

pub record ArtifactTexts : Type 0 where
  pub loads : Text → Result Json
  pub dumps_json : Json → Text
  pub show_json : Json → Text
  pub write_artifact : (output session_id tool_call_id : Text) → Text

unfoldable pub token_count : Text → ℕ
unfolding estimate_tokens
token_count text = if nonempty text then max 1 (estimate_tokens text) else 0

abbrev pub take_items : ℕ → Items → Items
take_items zero js = nil
take_items (suc n) nil = nil
take_items (suc n) (cons j js) = cons j (take_items n js)

abbrev pub take_fields : ℕ → Fields → Fields
take_fields zero fs = end
take_fields (suc n) end = end
take_fields (suc n) (field k j fs) = field k j (take_fields n fs)

-- `text.strip().splitlines()[0]`, and "" for a blank text.
unfoldable pub first_line : Text → Text
unfolding split_at ends_line lstrip rstrip
first_line text = elim (split_at ends_line [] (strip text)) [ [] ↦ [] | line ∷ lines ↦ line ]

abbrev pub history_roots : List Text
history_roots = codes "data/artifacts/" ∷ codes "data/sessions/" ∷ codes "data/steps/" ∷ []

-- A root with a character behind it that is no white space.
unfoldable pub starts_path : Text → List Text → Bool
unfolding startswith is_space
starts_path text [] = false
starts_path text (root ∷ roots) =
    (startswith text root
      && elim (drop (length root) text) as (λ _. Bool) [ [] ↦ false | c ∷ cs ↦ not (is_space c) ])
    || starts_path text roots

-- `_PATH_RE.search(text)`.
unfoldable pub mentions_path : Text → Bool
unfolding starts_path
mentions_path [] = false
mentions_path (c ∷ cs) = starts_path (c ∷ cs) history_roots || mentions_path cs

-- `value.replace("\\", "/").lstrip("./")`.
unfoldable pub relative : Text → Text
relative [] = []
relative (c ∷ cs) =
    let rest = relative cs in
    let kept = map (λ d. if d == 92 then 47 else d) cs in
    if c == 46 || c == 47 || c == 92 then rest else c ∷ kept

-- The dictionary of the calls by id.
unfoldable pub put_calls_by_id : Dict ToolCall → List ToolCall → Dict ToolCall
unfolding put
put_calls_by_id d [] = d
put_calls_by_id d (c ∷ cs) = put_calls_by_id (put c.id c d) cs

unfoldable pub tool_calls_by_id : Dict ToolCall → List Message → Dict ToolCall
unfolding put_calls_by_id
tool_calls_by_id d [] = d
tool_calls_by_id d (m ∷ ms) = tool_calls_by_id (put_calls_by_id d (or_empty m.tool_calls)) ms

unfoldable pub has_read_history : Option (List ToolDefinition) → Bool
unfolding any text_eq
has_read_history none = true
has_read_history (some ts) = any (λ t. text_eq t.name (codes "read_history")) ts

module _ (failure_texts : FailureTexts) (artifacts : ArtifactTexts) (session_id : Text) where
  open artifacts use {loads, dumps_json, show_json, write_artifact}
  open failure_texts use {show_int}

  unfoldable pub clip : Text → (limit : ℕ) → Text
  clip text limit =
      if leb (length text) limit
      then text
      else take limit text
        ++ codes "...[truncated "
        ++ show_int (length text - limit)
        ++ codes " chars]"

  unfoldable pub brief_json : Json → Text
  unfolding clip
  brief_json (array js) = clip (dumps_json (array (take_items 3 js))) 800
  brief_json (object fs) = clip (dumps_json (object (take_fields 3 fs))) 800
  brief_json j = clip (show_json j) 800

  -- An output that is no JSON, or `null`, is shown by its first line.
  unfoldable pub extract_brief : ToolResult → Text
  unfolding brief_json first_line clip
  extract_brief r =
      let prefix = if r.is_error then codes "[工具结果摘要:error]" else codes "[工具结果摘要]" in
      let line = first_line r.output in
      let shown = clip (if nonempty line then line else r.output) 800 in
      prefix
      ++ codes "\n"
      ++ elim (loads r.output) [ raise e ↦ shown | ok null ↦ shown | ok j ↦ brief_json j ]

  unfoldable pub sink_tool_result : ToolResult → ToolResult
  unfolding token_count extract_brief
  sink_tool_result r =
      let session = if nonempty session_id then session_id else codes "default" in
      let path = write_artifact r.output session r.tool_call_id in
      if leb (token_count r.output) 500 then r else record r {
        output = extract_brief r ++ codes "\n完整结果: " ++ path;
        artifacts =
            r.artifacts
            ++ record {
              kind = file;
              path = path;
              mime_type = codes "application/json";
              label = [];
              source = [];
              temporary = false;
            }
              ∷ [];
      }

  unfoldable pub is_history_read : ToolCall → Bool
  unfolding argument or_else relative any startswith
  is_history_read call =
      let path =
        or_else failure_texts
          (or_else failure_texts (argument (codes "path") call.arguments)
            (argument (codes "file_path") call.arguments))
          (string []) in
      any (λ root. startswith (relative (show_json path)) root) history_roots

  unfoldable pub should_archive_result : ToolResult → Dict ToolCall → Bool
  unfolding token_count mentions_path get is_history_read text_eq
  should_archive_result r calls =
      if leb (token_count r.output) 500
      then false
      else if nonempty r.artifacts || mentions_path r.output
      then false
      else elim (get r.tool_call_id calls) [
        | none ↦ true
        | some call ↦
            not (text_eq call.name (codes "read_history"))
            && not (text_eq call.name (codes "Read") && is_history_read call)
      ]

  -- The loop over the results of one message, with the flag `compacted`.
  unfoldable pub archive_results :
      Dict ToolCall → (compacted : Bool) → List ToolResult → List ToolResult × Bool
  unfolding should_archive_result sink_tool_result
  archive_results calls compacted [] = ([], compacted)
  archive_results calls compacted (r ∷ rs) =
      let archives = not compacted && should_archive_result r calls in
      let (rest, compacted') = archive_results calls (compacted || archives) rs in
      ((if archives then sink_tool_result r else r) ∷ rest, compacted')

  unfoldable pub archive_messages :
      Dict ToolCall → (compacted : Bool) → List Message → List Message × Bool
  unfolding archive_results
  archive_messages calls compacted [] = ([], compacted)
  archive_messages calls compacted (m ∷ ms) =
      let (rest, unchanged) = archive_messages calls compacted ms in
      let (results, now_compacted) = archive_results calls compacted (or_empty m.tool_results) in
      let (rest', compacted') = archive_messages calls now_compacted ms in
      if compacted || not (is_tool m.role) || not (nonempty (or_empty m.tool_results))
      then (m ∷ rest, unchanged)
      else (record m { tool_results = some results } ∷ rest', compacted')

  unfoldable pub compact_oldest_large_tool_result : List Message → List Message × Bool
  unfolding archive_messages tool_calls_by_id
  compact_oldest_large_tool_result ms =
      let n = length ms - 6 in
      let (head, changed) = archive_messages (tool_calls_by_id [] (take n ms)) false (take n ms) in
      if leb (length ms) 6 then (ms, false) else (head ++ drop n ms, changed)

  -- The `while` loop; `above` tests the usage of a history.
  unfoldable pub compact_while :
      (above : List Message → Bool) → (bound : ℕ) → List Message → List Message
  unfolding compact_oldest_large_tool_result
  compact_while above zero ms = ms
  compact_while above (suc bound) ms =
      let (compacted, changed) = compact_oldest_large_tool_result ms in
      let rest = compact_while above bound compacted in
      if above ms then (if changed then rest else compacted) else ms

  -- The results that have no artifact yet; each round of the loop gives one of them an artifact.
  unfoldable pub bare_results : List ToolResult → ℕ
  bare_results [] = 0
  bare_results (r ∷ rs) = let n = bare_results rs in if nonempty r.artifacts then n else n + 1

  unfoldable pub bare_in : List Message → ℕ
  unfolding bare_results
  bare_in [] = 0
  bare_in (m ∷ ms) = bare_results (or_empty m.tool_results) + bare_in ms

  -- If writing a file raises, then all is left as it was.
  unfoldable pub check_and_compact :
      (above : List Message → Bool)
      → (tools : Option (List ToolDefinition)) → (write_raises : Bool) → List Message
      → List Message
  unfolding compact_while bare_in has_read_history
  check_and_compact above tools write_raises ms =
      if not (has_read_history tools)
      then ms
      else if write_raises
      then ms
      else compact_while above (bare_in ms) ms
