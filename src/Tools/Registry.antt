-- ===== src/Tools/Registry.antt =====
-- backend/core/s02_tools/registry.py: two dictionaries with the same keys. `X` is the type of the
-- executors, which the registry only hands out.
pub mod Laws
use neuralhub.Base.{
  ◌≡◌, Bool, true, false, Option, none, some, List, [], ◌++◌, map, if◌then◌else◌, Text, codes, Dict,
  get, put, del, is_some, agent_error, key_error, Result, ok, raise,
}
use neuralhub.Types.{ToolDefinition}

pub record ToolRegistry (X : Type 0) : Type 0 where
  pub tools : Dict ToolDefinition
  pub executors : Dict X

module _ {X : Type 0} where
  unfoldable pub empty : ToolRegistry X
  empty = record { tools = []; executors = [] }

  unfoldable pub register : ToolDefinition → X → ToolRegistry X → Result (ToolRegistry X)
  unfolding get put
  register definition executor r =
      if is_some (get definition.name r.tools)
      then raise (
          agent_error (codes "TOOL_ALREADY_REGISTERED")
            (codes "Tool already registered: " ++ definition.name))
      else ok (record {
        tools = put definition.name definition r.tools;
        executors = put definition.name executor r.executors;
      })

  -- `self._executors[name]` raises `KeyError` for a definition without executor.
  unfoldable pub executor_of :
      Text → ToolDefinition → Option X → Result (Option (ToolDefinition × X))
  executor_of name definition none = raise (key_error name)
  executor_of name definition (some x) = ok (some (definition, x))

  unfoldable pub lookup_tool : Text → ToolRegistry X → Result (Option (ToolDefinition × X))
  unfolding get executor_of
  lookup_tool name r = elim (get name r.tools) [
    | none ↦ ok none
    | some definition ↦ executor_of name definition (get name r.executors)
  ]

  unfoldable pub list_definitions : ToolRegistry X → List ToolDefinition
  list_definitions r = map (λ entry. entry.1) r.tools

  unfoldable pub remove : Text → ToolRegistry X → ToolRegistry X × Bool
  unfolding get del
  remove name r =
      if is_some (get name r.tools)
      then (record { tools = del name r.tools; executors = del name r.executors }, true)
      else (r, false)

  unfoldable pub has_tool : Text → ToolRegistry X → Bool
  unfolding get
  has_tool name r = is_some (get name r.tools)

  -- The two dictionaries have the same keys, and each definition stands under its own name.
  pub record IsConsistent (r : ToolRegistry X) : Type 0 where
    pub same_keys : (k : Text) → is_some (get k r.tools) ≡ is_some (get k r.executors)
    pub named : (k : Text) (d : ToolDefinition) → get k r.tools ≡ some d → d.name ≡ k
