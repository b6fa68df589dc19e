-- ===== src/Tools/Batching.antt =====
-- backend/core/s01_agent_loop/tool_batching.py: the calls of a turn are split into those that only
-- read and those that may write, and their results are put back into the order of the calls.
use neuralhub.Base.{
  ◌≡◌, refl, ap, inl, inr, Bool, true, false, not, none, some, List, [], ◌∷◌, ◌++◌, map, arith,
  if◌then◌else◌, Bool-cases, Option-cases, Text, text_eq, text_eq_iff, has, subset, Dict, get, put,
  get-put, is_some,
}
use neuralhub.Types.{ToolResult, ToolDefinition, SignedToolCall}

-- The dictionary of the definitions by name; a later definition of a name replaces an earlier one.
unfoldable pub by_name_from : Dict ToolDefinition → List ToolDefinition → Dict ToolDefinition
by_name_from d [] = d
by_name_from d (t ∷ ts) = by_name_from (put t.name t d) ts

unfoldable pub is_read_only : Dict ToolDefinition → SignedToolCall → Bool
is_read_only by_name signed_call = elim (get signed_call.tool_call.name by_name) [
  | none ↦ false
  | some d ↦ not d.side_effect
]

-- The loop: a call goes to the end of one of the two lists.
unfoldable pub partition_from :
    Dict ToolDefinition
    → (read_only write calls : List SignedToolCall) → List SignedToolCall × List SignedToolCall
unfolding is_read_only
partition_from by_name rs ws [] = (rs, ws)
partition_from by_name rs ws (c ∷ cs) =
    let as_read = partition_from by_name (rs ++ c ∷ []) ws cs in
    let as_write = partition_from by_name rs (ws ++ c ∷ []) cs in
    if is_read_only by_name c then as_read else as_write

unfoldable pub partition_by_side_effect :
    List SignedToolCall → List ToolDefinition → List SignedToolCall × List SignedToolCall
unfolding partition_from by_name_from
partition_by_side_effect calls tools = partition_from (by_name_from [] tools) [] [] calls

unfoldable pub by_call_id_from : Dict ToolResult → List ToolResult → Dict ToolResult
by_call_id_from d [] = d
by_call_id_from d (r ∷ rs) = by_call_id_from (put r.tool_call_id r d) rs

unfoldable pub merge_from : Dict ToolResult → List SignedToolCall → List ToolResult
merge_from d [] = []
merge_from d (c ∷ cs) =
    let rest = merge_from d cs in elim (get c.tool_call.id d) [ none ↦ rest | some r ↦ r ∷ rest ]

unfoldable pub merge_results :
    (read_results write_results : List ToolResult) → List SignedToolCall → List ToolResult
unfolding merge_from by_call_id_from
merge_results read_results write_results calls =
    merge_from (by_call_id_from [] (read_results ++ write_results)) calls

-- What the dictionary finds under an id has this id, and it finds a result for every id there is.
IsKeyed : Dict ToolResult → Type 0
IsKeyed d = (k : Text) (r : ToolResult) → get k d ≡ some r → r.tool_call_id ≡ k

empty-IsKeyed : IsKeyed []
unfolding IsKeyed get
empty-IsKeyed k r e = ground arith

missing : (d : Dict ToolResult) (k : Text) → get k d ≡ none → is_some (get k d) ≡ true → ⊥
missing d k n f = ground arith

put-IsKeyed : (r : ToolResult) (d : Dict ToolResult) → IsKeyed d → IsKeyed (put r.tool_call_id r d)
unfolding IsKeyed
put-IsKeyed r d h k s e =
    let g = get-put r.tool_call_id k r d in
    let a = text_eq_iff r.tool_call_id k in let b = h k s in ground arith

by_call_id-IsKeyed :
    (rs : List ToolResult) (d : Dict ToolResult) → IsKeyed d → IsKeyed (by_call_id_from d rs)
unfolding by_call_id_from
by_call_id-IsKeyed [] d h = h
by_call_id-IsKeyed (r ∷ rs) d h = by_call_id-IsKeyed rs (put r.tool_call_id r d) (put-IsKeyed r d h)

by_call_id-keeps :
    (rs : List ToolResult) (d : Dict ToolResult) (k : Text)
    → is_some (get k d) ≡ true
    → is_some (get k (by_call_id_from d rs)) ≡ true
unfolding by_call_id_from
by_call_id-keeps [] d k h = h
by_call_id-keeps (r ∷ rs) d k h =
    let g = get-put r.tool_call_id k r d in
    by_call_id-keeps rs (put r.tool_call_id r d) k (ground arith)

by_call_id-has :
    (rs : List ToolResult) (d : Dict ToolResult) (k : Text)
    → has k (map (λ r. r.tool_call_id) rs) ≡ true
    → is_some (get k (by_call_id_from d rs)) ≡ true
unfolding by_call_id_from has
by_call_id-has (r ∷ rs) d k h =
    let g = get-put r.tool_call_id k r d in
    let a = text_eq_iff r.tool_call_id k in
    let b = text_eq_iff k r.tool_call_id in
    elim (Bool-cases (text_eq r.tool_call_id k)) [
      | inl e ↦ by_call_id-keeps rs (put r.tool_call_id r d) k (ground arith)
      | inr e ↦ by_call_id-has rs (put r.tool_call_id r d) k (ground arith)
    ]
by_call_id-has [] d k h = ground arith

merge_from-ids :
    (d : Dict ToolResult) (cs : List SignedToolCall) (ids : List Text)
    → IsKeyed d
    → ((k : Text) → has k ids ≡ true → is_some (get k d) ≡ true)
    → subset (map (λ c. c.tool_call.id) cs) ids ≡ true
    → map (λ r. r.tool_call_id) (merge_from d cs) ≡ map (λ c. c.tool_call.id) cs
unfolding merge_from subset IsKeyed
merge_from-ids d [] ids keyed found s = refl
merge_from-ids d (c ∷ cs) ids keyed found s =
    let rest = merge_from-ids d cs ids keyed found (ground arith) in
    let f = found c.tool_call.id (ground arith) in
    elim (Option-cases (get c.tool_call.id d)) [
      | inl n ↦ absurd (missing d c.tool_call.id n f)
      | inr (r, n) ↦
          rw (merge_from, n, keyed c.tool_call.id r n) (ap (λ xs. c.tool_call.id ∷ xs) rest)
    ]

-- The results come back in the order of the calls, whichever part each call went to: if there is a
-- result for the id of every call, the ids of the merged results are the ids of the calls.
pub merge_results-ids :
    (read_results write_results : List ToolResult) (calls : List SignedToolCall)
    → subset
        (map (λ c. c.tool_call.id) calls)
        (map (λ r. r.tool_call_id) (read_results ++ write_results))
      ≡ true
    → map (λ r. r.tool_call_id) (merge_results read_results write_results calls)
      ≡ map (λ c. c.tool_call.id) calls
unfolding merge_results
merge_results-ids reads writes calls h =
    merge_from-ids (by_call_id_from [] (reads ++ writes)) calls
      (map (λ r. r.tool_call_id) (reads ++ writes))
      (by_call_id-IsKeyed (reads ++ writes) [] empty-IsKeyed)
      (λ k m. by_call_id-has (reads ++ writes) [] k m) h
