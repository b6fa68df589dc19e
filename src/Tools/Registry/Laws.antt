-- ===== src/Tools/Registry/Laws.antt =====
-- What the tool registry keeps between its operations.
use neuralhub.Base.{
  ◌≡◌, inl, inr, Option, none, some, arith, if◌then◌else◌, Option-cases, Text, text_eq, text_eq_iff,
  get, get-put, get-del, is_some, ok,
}
use neuralhub.Types.{ToolDefinition}
use neuralhub.Tools.Registry.{ToolRegistry, register, lookup_tool, remove, has_tool, IsConsistent}

module _ {X : Type 0} where
  -- Registering a tool in a consistent registry leaves it consistent.
  pub register-IsConsistent :
      (d : ToolDefinition) (x : X) (r r' : ToolRegistry X)
      → IsConsistent r
      → register d x r ≡ ok r'
      → IsConsistent r'
  unfolding register
  register-IsConsistent d x r r' c e = record {
    same_keys = λ k.
        ground (arith, get-put d.name k d r.tools, get-put d.name k x r.executors, c.same_keys k);
    named = λ k f. ground (arith, get-put d.name k d r.tools, text_eq_iff d.name k, c.named k f);
  }

  -- Removing a tool leaves a consistent registry consistent.
  pub remove-IsConsistent :
      (name : Text) (r : ToolRegistry X) → IsConsistent r → IsConsistent (remove name r).0
  unfolding remove
  remove-IsConsistent name r c = record {
    same_keys =
        λ k. ground (arith, get-del name k r.tools, get-del name k r.executors, c.same_keys k);
    named = λ k f. ground (arith, get-del name k r.tools, c.named k f);
  }

  -- `get` of a consistent registry never raises `KeyError`, and finds a tool exactly when `has` says so.
  pub lookup_tool_total :
      (k : Text) (r : ToolRegistry X)
      → IsConsistent r
      → (o : Option (ToolDefinition × X)) × (lookup_tool k r ≡ ok o) × (is_some o ≡ has_tool k r)
  unfolding lookup_tool has_tool
  lookup_tool_total k r c = elim (Option-cases (get k r.executors)) [
    | inl e ↦ (none, ground (arith, c.same_keys k), ground (arith, c.same_keys k))
    | inr (x, e) ↦ elim (Option-cases (get k r.tools)) [
      | inl f ↦ (none, ground arith, ground arith)
      | inr (d, f) ↦ (some (d, x), ground arith, ground arith)
    ]
  ]

  -- After a registration the new name gives the new tool, and every other name what it gave before.
  pub lookup_tool-register :
      (d : ToolDefinition) (x : X) (r r' : ToolRegistry X) (k : Text)
      → register d x r ≡ ok r'
      → lookup_tool k r' ≡ (if text_eq d.name k then ok (some (d, x)) else lookup_tool k r)
  unfolding register lookup_tool
  lookup_tool-register d x r r' k e =
      ground (arith, get-put d.name k d r.tools, get-put d.name k x r.executors)

  -- After a removal the name gives nothing, and every other name what it gave before.
  pub lookup_tool-remove :
      (name : Text) (r : ToolRegistry X) (k : Text)
      → lookup_tool k (remove name r).0 ≡ (if text_eq name k then ok none else lookup_tool k r)
  unfolding remove lookup_tool
  lookup_tool-remove name r k =
      ground (arith, get-del name k r.tools, get-del name k r.executors, text_eq_iff name k)
