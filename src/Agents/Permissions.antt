-- ===== src/Agents/Permissions.antt =====
-- backend/core/s04_sub_agents/permission_policy.py: the registry of a sub-agent, filtered from its
-- parent's. An executor is the parent's, or the parent's behind the read-only guard.
pub mod Filtered
use neuralhub.Base.{
  Bool, true, false, not, ◌&&◌, ◌||◌, none, some, List, [], ◌∷◌, ◌++◌, if◌then◌else◌, keep, Text,
  codes, text_eq, has, Exception, agent_error, str, Result, ok, raise, ◌>>=◌, lstrip, rstrip, strip,
}
use neuralhub.Types.{Json, Fields, ToolResult, new_result, ToolDefinition, string}
use neuralhub.Agents.Stages.{PermissionLevel, readonly, readwrite}
use neuralhub.Agents.ReadonlyGuard.{is_readonly_blocked}
use neuralhub.Tools.Registry.{ToolRegistry, empty, register, lookup_tool, list_definitions}
use neuralhub.Loop.Review.{field_or}

abbrev pub recursive_tool_names : List Text
recursive_tool_names = codes "dispatch_agent" ∷ codes "orchestrate_agents" ∷ []

abbrev pub write_tool_names : List Text
write_tool_names = codes "Write" ∷ codes "str_replace" ∷ codes "file_edit" ∷ []

abbrev pub default_readonly_tools : List Text
default_readonly_tools =
    codes "Read" ∷ codes "Glob" ∷ codes "Grep" ∷ codes "read_history" ∷ codes "Bash" ∷ []

abbrev pub default_readwrite_tools : List Text
default_readwrite_tools =
    codes "Read"
    ∷ codes "Glob"
    ∷ codes "Grep"
    ∷ codes "read_history"
    ∷ codes "Write"
    ∷ codes "str_replace"
    ∷ codes "file_edit"
    ∷ codes "Bash"
    ∷ []

pub record IsolatedRegistryConfig : Type 0 where
  pub permission_level : PermissionLevel
  pub allowed_tool_names : List Text

abbrev pub is_readonly : PermissionLevel → Bool
is_readonly readonly = true
is_readonly readwrite = false

pub data IsolatedExecutor (X : Type 0) : Type 0 where
  direct : X → IsolatedExecutor X
  readonly_bash : X → IsolatedExecutor X

unfoldable pub resolve_allowed_tools : IsolatedRegistryConfig → List Text
unfolding keep has
resolve_allowed_tools config = elim config.allowed_tool_names [
  | t ∷ ts ↦ keep (λ n. not (has n recursive_tool_names)) (t ∷ ts)
  | [] ↦
      if is_readonly config.permission_level
      then default_readonly_tools
      else default_readwrite_tools
]

abbrev pub isolated : {X : Type 0} → PermissionLevel → (name : Text) → X → IsolatedExecutor X
isolated level name executor =
    if is_readonly level && text_eq name (codes "Bash")
    then readonly_bash executor
    else direct executor

abbrev pub failed_tool : (output : Text) → ToolResult
failed_tool text = new_result [] text true

-- The result for an exception of the executor; its own `PermissionPolicyError` is one too.
unfoldable pub failure_of : Exception → ToolResult
unfolding str
failure_of (agent_error code message) =
    if text_eq code (codes "SUB_AGENT_PERMISSION_ERROR")
    then failed_tool (codes "权限拒绝: " ++ message)
    else failed_tool (codes "只读命令执行失败: " ++ str (agent_error code message))
failure_of e = failed_tool (codes "只读命令执行失败: " ++ str e)

module _ {X : Type 0} where
  unfoldable pub filter_from :
      IsolatedRegistryConfig
      → (parent : ToolRegistry X) → (allowed : List Text) → List ToolDefinition
      → ToolRegistry (IsolatedExecutor X)
      → Result (ToolRegistry (IsolatedExecutor X))
  unfolding has lookup_tool register
  filter_from config parent allowed [] child = ok child
  filter_from config parent allowed (d ∷ ds) child =
      if has d.name recursive_tool_names || not (has d.name allowed)
      then filter_from config parent allowed ds child
      else lookup_tool d.name parent >>= λ registered. elim registered [
        | none ↦ filter_from config parent allowed ds child
        | some entry ↦
            if is_readonly config.permission_level && has d.name write_tool_names
            then filter_from config parent allowed ds child
            else register d (isolated config.permission_level d.name entry.1) child >>= λ child'.
                filter_from config parent allowed ds child'
      ]

  unfoldable pub build_isolated_registry :
      (parent : ToolRegistry X)
      → IsolatedRegistryConfig
      → Result (ToolRegistry (IsolatedExecutor X))
  unfolding filter_from resolve_allowed_tools list_definitions empty
  build_isolated_registry parent config =
      filter_from config parent (resolve_allowed_tools config) (list_definitions parent) empty

  module _ (shlex_split : Text → Result (List Text)) (lower : Text → Text) (show_json : Json → Text)
      (run : X → Fields → Result ToolResult) where
    -- `str(args.get("command", "")).strip()`.
    abbrev pub command_of : Fields → Text
    command_of args = strip (show_json (field_or (codes "command") (string []) args))

    -- Calling an executor of the child. An exception of the guarded one becomes a result.
    unfoldable pub run_isolated : IsolatedExecutor X → Fields → Result ToolResult
    unfolding is_readonly_blocked field_or failure_of lstrip rstrip
    run_isolated (direct executor) args = run executor args
    run_isolated (readonly_bash executor) args =
        if is_readonly_blocked shlex_split lower (command_of args)
        then ok (failed_tool (codes "权限拒绝: readonly 模式下不允许执行修改命令: " ++ command_of args))
        else elim (run executor args) [ ok r ↦ ok r | raise e ↦ ok (failure_of e) ]
