-- ===== src/Agents/Contract.antt =====
-- backend/core/s04_sub_agents/result_contract.py: the result of a sub-agent, read from its output.
-- The regular expression for a fenced block, `json.loads`, the validation of the model, the printing
-- of numbers and the answers of the repairing model are parameters. Metrics are left out.
pub mod Repair
use neuralhub.Base.{
  ℕ, zero, suc, ◌+◌, Bool, false, not, ◌&&◌, Option, none, some, List, [], ◌∷◌, ◌++◌, ltb, ◌==◌,
  if◌then◌else◌, length, take, drop, Text, codes, Exception, str, Result, ok, raise, lstrip, rstrip,
  strip, startswith,
}
use neuralhub.Types.{Json, Fields, object, end}
use neuralhub.Loop.Review.{find_char, rfind_char}

pub data ResultStatus : Type 0 where
  passed warning failed unparsed : ResultStatus

pub data FindingSeverity : Type 0 where
  p0 p1 p2 : FindingSeverity

pub record Finding : Type 0 where
  pub severity : FindingSeverity
  pub title : Text
  pub evidence : List Text
  pub recommendation : Text

pub record AgentResult : Type 0 where
  pub status : ResultStatus
  pub summary : Text
  pub findings : List Finding
  pub artifacts : List Text
  pub next_steps : List Text
  pub extra : Fields
  pub raw_output : Option Text

-- `AgentResultV1(status=…, summary=…, findings=…)`, the other fields at their defaults.
abbrev pub new_agent_result : ResultStatus → (summary : Text) → List Finding → AgentResult
new_agent_result status text findings = record {
  status = status;
  summary = text;
  findings = findings;
  artifacts = [];
  next_steps = [];
  extra = end;
  raw_output = none;
}

-- What decoding and validation give: a value, a `JSONDecodeError`, `ValidationError` or
-- `ResultContractError` with its text, or another exception, such as the `ValueError` for a number with
-- too many digits or the `RecursionError`.
pub data Decoding (A : Type 0) : Type 0 where
  decoded : A → Decoding A
  invalid : (message : Text) → Decoding A
  raises : Exception → Decoding A

pub record ContractTexts : Type 0 where
  pub fenced : Text → Option Text
  pub loads : Text → Decoding Json
  pub validate : Fields → Decoding AgentResult
  pub show_int : ℕ → Text

-- `text[start : end + 1]` for the first "{" and the last "}", if they stand in this order.
unfoldable pub braced : Text → Text
unfolding find_char rfind_char
braced text = elim (find_char 123 text) [
  | none ↦ text
  | some start ↦ elim (rfind_char 125 text) [
    | none ↦ text
    | some last ↦ if ltb start last then drop start (take (last + 1) text) else text
  ]
]

abbrev pub ends_with : Text → (c : ℕ) → Bool
ends_with text c = elim (rfind_char c text) [ none ↦ false | some i ↦ i + 1 == length text ]

-- The output of the fallback, with the last error.
unfoldable pub fallback_agent_result : (raw_output error : Text) → AgentResult
fallback_agent_result raw_output err =
    record (new_agent_result unparsed (codes "原始输出无法解析，已降级保存") (
      record {
        severity = p1;
        title = codes "子 agent 输出格式错误";
        evidence = take 500 err ∷ [];
        recommendation = codes "检查该 role 的 prompt 或 result_contract";
      }
      ∷ [])) { raw_output = some raw_output }

abbrev pub max_repair_input_chars : ℕ
max_repair_input_chars = 12000

module _ (texts : ContractTexts) where
  open texts use {fenced, loads, validate, show_int}

  unfoldable pub extract_json : (raw_output : Text) → Text
  unfolding braced startswith lstrip rstrip rfind_char
  extract_json raw_output =
      let stripped = strip raw_output in
      let text = elim (fenced stripped) as (λ _. Text) [
        | some inner ↦ strip inner
        | none ↦ stripped
      ] in
      if startswith text (codes "{") && ends_with text 125 then text else braced text

  -- `ResultContractError` takes the place of the exceptions that the source names; any other one
  -- escapes.
  unfoldable pub parse_agent_result : (raw_output : Text) → Decoding AgentResult
  unfolding extract_json
  parse_agent_result raw_output = elim (loads (extract_json raw_output)) [
    | invalid message ↦ invalid message
    | raises e ↦ raises e
    | decoded (object fs) ↦ validate fs
    | decoded _ ↦ invalid (codes "结果必须是 JSON object")
  ]

  -- The attempts: `repair` is what the model answers to a candidate and its error, in time, or the
  -- exception. Every exception leads to the next attempt.
  unfoldable pub repair_loop :
      (repair : ℕ → (candidate error : Text) → Result Text)
      → (attempts : ℕ) → (candidate error raw_output : Text) → AgentResult
  unfolding parse_agent_result fallback_agent_result str
  repair_loop repair zero candidate err raw_output = fallback_agent_result raw_output err
  repair_loop repair (suc n) candidate err raw_output = elim (repair n candidate err) [
    | raise e ↦ repair_loop repair n candidate (str e) raw_output
    | ok answer ↦ elim (parse_agent_result answer) [
      | decoded r ↦ r
      | invalid message ↦ repair_loop repair n answer message raw_output
      | raises e ↦ repair_loop repair n answer (str e) raw_output
    ]
  ]

  -- `has_model` is `adapter is not None and model`.
  unfoldable pub coerce_agent_result :
      (has_model : Bool)
      → (repair : ℕ → (candidate error : Text) → Result Text) → (max_repair_attempts : ℕ)
      → (raw_output : Text) → Result AgentResult
  unfolding parse_agent_result repair_loop fallback_agent_result
  coerce_agent_result has_model repair max_repair_attempts raw_output =
      elim (parse_agent_result raw_output) [
        | decoded r ↦ ok r
        | raises e ↦ raise e
        | invalid message ↦
            if not has_model
            then ok (fallback_agent_result raw_output message)
            else if ltb max_repair_input_chars (length raw_output)
            then ok (
                fallback_agent_result raw_output (
                  message
                  ++ codes "; output too large for LLM repair ("
                  ++ show_int (length raw_output)
                  ++ codes " chars)"))
            else ok (repair_loop repair max_repair_attempts raw_output message raw_output)
      ]
