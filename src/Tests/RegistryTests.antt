-- ===== src/Tests/RegistryTests.antt =====
-- backend/core/s02_tools/registry.py with two tools.
use neuralhub.Base.{
  ℕ, ◌≡◌, refl, false, some, [], ◌∷◌, arith, Text, codes, text_eq, text_eq_iff, get, ok,
}
use neuralhub.Types.{ToolDefinition, end}
use neuralhub.Tools.Registry.{ToolRegistry, register, IsConsistent}

abbrev define : (name : Text) → ToolDefinition
define n = record {
  name = n;
  description = [];
  category = codes "file";
  parameters = end;
  requires_approval = false;
  side_effect = false;
}

abbrev one_tool : ToolRegistry ℕ
one_tool = record {
  tools = (codes "Read", define (codes "Read")) ∷ [];
  executors = (codes "Read", 1) ∷ [];
}

abbrev two_tools : ToolRegistry ℕ
two_tools = record {
  tools = (codes "Read", define (codes "Read")) ∷ (codes "Write", define (codes "Write")) ∷ [];
  executors = (codes "Read", 1) ∷ (codes "Write", 2) ∷ [];
}

second_registered : register (define (codes "Write")) 2 one_tool ≡ ok two_tools
unfolding register text_eq
second_registered = refl

one_tool-name : (k : Text) (d : ToolDefinition) → get k one_tool.tools ≡ some d → d.name ≡ k
unfolding get
one_tool-name k d e = ground (arith, text_eq_iff (codes "Read") k)

one_tool-IsConsistent : IsConsistent one_tool
unfolding get
one_tool-IsConsistent = record {
  same_keys = λ k. ground arith;
  named = λ k d e. one_tool-name k d e;
}
