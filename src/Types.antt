-- ===== src/Types.antt =====
-- backend/common/types: the messages, tool calls, tool results and definitions that all components
-- exchange. A `datetime` or clock reading is a native number of ticks, a JSON value is `Json`.
use neuralhub.Base.{ℕ, Bool, true, false, Option, none, some, List, [], Text}

-- Values of `Any` that come from JSON. A number keeps its text.
mutual
  pub data Json : Type 0 where
    null : Json
    boolean : Bool → Json
    number string : Text → Json
    array : Items → Json
    object : Fields → Json

  pub data Items : Type 0 where
    nil : Items
    cons : Json → Items → Items

  pub data Fields : Type 0 where
    end : Fields
    field : Text → Json → Fields → Fields

pub record ToolCall : Type 0 where
  pub id : Text
  pub name : Text
  pub arguments : Fields

pub data ChangeType : Type 0 where
  create modify delete : ChangeType

pub record FileDiff : Type 0 where
  pub path : Text
  pub unified_diff : Text
  pub change_type : ChangeType

pub data ArtifactKind : Type 0 where
  image file : ArtifactKind

pub record ToolArtifact : Type 0 where
  pub kind : ArtifactKind
  pub path : Text
  pub mime_type : Text
  pub label : Text
  pub source : Text
  pub temporary : Bool

pub record ToolResult : Type 0 where
  pub tool_call_id : Text
  pub output : Text
  pub is_error : Bool
  pub diffs : List FileDiff
  pub artifacts : List ToolArtifact

-- `ToolResult(tool_call_id=…, output=…, is_error=…)`, the other fields at their defaults.
abbrev pub new_result : (tool_call_id output : Text) → Bool → ToolResult
new_result call text failed = record {
  tool_call_id = call;
  output = text;
  is_error = failed;
  diffs = [];
  artifacts = [];
}

pub data Role : Type 0 where
  user assistant system tool : Role

abbrev pub is_system : Role → Bool
is_system system = true
is_system _ = false

abbrev pub is_tool : Role → Bool
is_tool tool = true
is_tool _ = false

abbrev pub is_assistant : Role → Bool
is_assistant assistant = true
is_assistant _ = false

pub data MessageKind : Type 0 where
  user_request summary runtime_guard runtime_context skill_context memory_context : MessageKind

pub record Message : Type 0 where
  pub id : Text
  pub role : Role
  pub content : Text
  pub kind : MessageKind
  pub ephemeral : Bool
  pub tool_calls : Option (List ToolCall)
  pub tool_results : Option (List ToolResult)
  pub timestamp : ℕ
  pub provider_metadata : Fields

-- `Message(role=…, content=…)`, with the generated id and the time of its making.
abbrev pub new_message : (id : Text) (now : ℕ) → Role → Text → Message
new_message i now r text = record {
  id = i;
  role = r;
  content = text;
  kind = user_request;
  ephemeral = false;
  tool_calls = none;
  tool_results = none;
  timestamp = now;
  provider_metadata = end;
}

-- `x or []`, for an optional list.
abbrev pub or_empty {ℓ} : {A : Type ℓ} → Option (List A) → List A
or_empty none = []
or_empty (some xs) = xs

pub record ToolDefinition : Type 0 where
  pub name : Text
  pub description : Text
  pub category : Text
  pub parameters : Fields
  pub requires_approval : Bool
  pub side_effect : Bool

-- backend/common/types/security.py.
pub record SecurityPolicy : Type 0 where
  pub allowed_tools : List Text
  pub dangerous_tools : List Text
  pub max_calls_per_turn : ℕ

pub record SignedToolCall : Type 0 where
  pub tool_call : ToolCall
  pub sequence : ℕ
  pub timestamp : ℕ
  pub signature : Text
