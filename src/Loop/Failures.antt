-- ===== src/Loop/Failures.antt =====
-- backend/core/s01_agent_loop/failure_recovery.py, the names that failures of tools are known by:
-- the signature of a call, its summary and the kind of its error. SHA-256, `json.dumps`, `str.lower`,
-- the regular expressions, the printing of numbers and the truth value of a number are the
-- parameters of `FailureTexts`.
use neuralhub.Base.{
  ℕ, ◌-◌, Bool, true, false, not, Option, none, some, List, [], ◌∷◌, ◌++◌, map, leb, ◌==◌,
  if◌then◌else◌, length, take, Text, codes, text_eq, lstrip, rstrip, strip, contains, join,
  nonempty, split_at, nonempty_parts, words, ends_line,
}
use neuralhub.Types.{
  Json, Fields, ToolCall, ToolResult, null, boolean, number, string, array, object, nil, cons, end,
  field,
}

pub record FailureTexts : Type 0 where
  pub sha256_hex : Text → Text
  pub dumps : Fields → Text
  pub lower : Text → Text
  -- The group of the first of the three patterns that the output matches.
  pub error_pattern : Text → Option Text
  pub show_int : ℕ → Text
  pub is_zero : Text → Bool

-- `call.arguments.get(key)`, where a missing key gives `None`.
unfoldable pub argument : (key : Text) → Fields → Json
argument key end = null
argument key (field k v fs) = let rest = argument key fs in if text_eq k key then v else rest

unfoldable pub shorten : (value : Text) → (limit : ℕ) → Text
unfolding join words
shorten value limit =
    let normalized = join (codes " ") (words value) in
    if leb (length normalized) limit then normalized else take (limit - 3) normalized ++ codes "..."

unfoldable pub error_summary : (output : Text) → Text
unfolding shorten split_at ends_line nonempty_parts lstrip rstrip
error_summary output =
    elim (nonempty_parts (map (λ line. strip line) (split_at ends_line [] output))) [
      | [] ↦ shorten (codes "empty error") 160
      | line ∷ lines ↦ shorten line 160
    ]

-- `text.replace(" ", "_")`.
unfoldable pub underscored : Text → Text
underscored t = map (λ c. if c == 32 then 95 else c) t

abbrev pub error_markers : List Text
error_markers =
    codes "permission denied"
    ∷ codes "not found"
    ∷ codes "no such file"
    ∷ codes "timeout"
    ∷ codes "connection"
    ∷ []

unfoldable pub first_marker : (lowered : Text) → List Text → Option Text
unfolding contains
first_marker lowered [] = none
first_marker lowered (m ∷ ms) =
    let rest = first_marker lowered ms in if contains lowered m then some m else rest

module _ (texts : FailureTexts) where
  open texts use {sha256_hex, dumps, lower, error_pattern, is_zero}

  -- Whether a value, as a condition, counts as true.
  unfoldable pub truthy : Json → Bool
  truthy null = false
  truthy (boolean b) = b
  truthy (number t) = not (is_zero t)
  truthy (string t) = nonempty t
  truthy (array nil) = false
  truthy (array (cons j js)) = true
  truthy (object end) = false
  truthy (object (field k j fs)) = true

  -- `a or b`.
  unfoldable pub or_else : Json → Json → Json
  unfolding truthy
  or_else a b = if truthy a then a else b

  unfoldable pub normalized_args : Fields → Text
  unfolding shorten
  normalized_args arguments = shorten (dumps arguments) 240

  unfoldable pub signature : ToolCall → Text
  unfolding normalized_args
  signature call =
      let payload = call.name ++ codes ":" ++ normalized_args call.arguments in
      call.name ++ codes ":" ++ take 12 (sha256_hex payload)

  -- A text that is not blank is the detail; anything else is replaced by the arguments.
  unfoldable pub detail_text : Fields → Json → Text
  unfolding normalized_args lstrip rstrip
  detail_text arguments (string t) = if nonempty (strip t) then t else normalized_args arguments
  detail_text arguments _ = normalized_args arguments

  unfoldable pub call_summary : ToolCall → Text
  unfolding argument or_else detail_text shorten
  call_summary call =
      let detail =
        or_else
          (or_else (argument (codes "command") call.arguments)
            (argument (codes "path") call.arguments))
          (argument (codes "url") call.arguments) in
      shorten (call.name ++ codes "(" ++ detail_text call.arguments detail ++ codes ")") 260

  unfoldable pub error_kind : (output : Text) → Text
  unfolding underscored first_marker shorten error_summary
  error_kind output = elim (error_pattern output) [
    | some found ↦ underscored found
    | none ↦ elim (first_marker (lower output) error_markers) [
      | some marker ↦ underscored marker
      | none ↦
          let kind = shorten (error_summary output) 48 in
          if nonempty kind then kind else codes "unknown_error"
    ]
  ]

  unfoldable pub fingerprint : ToolCall → ToolResult → Text
  unfolding signature error_kind
  fingerprint call result = signature call ++ codes ":" ++ error_kind result.output
