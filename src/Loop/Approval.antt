-- ===== src/Loop/Approval.antt =====
-- backend/core/s01_agent_loop/agent_loop_approval.py: calls wait for the decision of a human. What
-- arrives during a wait, until its end, is a list of actions; the wait times out if the event of the
-- call is not set then.
pub mod Outcomes
use neuralhub.Base.{
  Bool, true, false, not, Option, none, some, List, [], ◌∷◌, ◌++◌, map, if◌then◌else◌, drop, Text,
  codes, Dict, get, put, Result, del_all, nonempty,
}
use neuralhub.Types.{ToolCall, ToolResult, new_result}
use neuralhub.Loop.Review.{
  ReviewResult, ReviewTexts, review_tool_calls, auto_approve, require_human, auto_reject,
}

pub data UserAction : Type 0 where
  approve_call reject_call : (tool_call_id : Text) → UserAction
  abort_run : UserAction

-- An event is whether it is set.
pub record Approvals : Type 0 where
  pub aborted : Bool
  pub events : Dict Bool
  pub decisions : Dict Bool
  pub reasons : Dict Text

unfoldable pub resolve_tool_call :
    Approvals → (tool_call_id : Text) → (approved : Bool) → Approvals × Bool
unfolding get put
resolve_tool_call s id approved = elim (get id s.events) [
  | none ↦ (s, false)
  | some was_set ↦
      (record s { decisions = put id approved s.decisions; events = put id true s.events }, true)
]

unfoldable pub approve_tool_call : Approvals → (tool_call_id : Text) → Approvals × Bool
unfolding resolve_tool_call
approve_tool_call s id = resolve_tool_call s id true

unfoldable pub reject_tool_call : Approvals → (tool_call_id : Text) → Approvals × Bool
unfolding resolve_tool_call
reject_tool_call s id = resolve_tool_call s id false

-- `AgentLoop.abort`.
unfoldable pub abort : Approvals → Approvals
abort s = record s { aborted = true; events = map (λ e. (e.0, true)) s.events }

unfoldable pub act : Approvals → UserAction → Approvals
unfolding approve_tool_call reject_tool_call abort
act s (approve_call id) = (approve_tool_call s id).0
act s (reject_call id) = (reject_tool_call s id).0
act s abort_run = abort s

unfoldable pub act_all : Approvals → List UserAction → Approvals
unfolding act
act_all s [] = s
act_all s (a ∷ as') = act_all (act s a) as'

abbrev pub approval_result : ToolCall → (reason : Text) → ToolResult
approval_result call reason = new_result call.id reason true

-- Whether `wait_for` ends by the event, and not by the timeout.
unfoldable pub is_set : (tool_call_id : Text) → Approvals → Bool
unfolding get
is_set id s = elim (get id s.events) [ none ↦ false | some set ↦ set ]

unfoldable pub is_approved : (tool_call_id : Text) → Approvals → Bool
unfolding get
is_approved id s = elim (get id s.decisions) [ none ↦ false | some d ↦ d ]

-- The state after the wait and, if the call is not approved, its result.
unfoldable pub wait_one_approval :
    Approvals → ToolCall → List UserAction → Approvals × Option ToolResult
unfolding act_all is_set is_approved put
wait_one_approval s call arrivals =
    let after = act_all s arrivals in
    let waited =
      if is_set call.id after
      then after
      else record after { decisions = put call.id false after.decisions } in
    if s.aborted then (s, some (approval_result call (codes "工具调用已取消。"))) else (
      waited,
      if is_approved call.id waited
          then none
          else some (approval_result call (codes "工具调用未获得人工审批。")),
    )

-- The actions of the next wait.
abbrev pub next_actions : List (List UserAction) → List UserAction
next_actions [] = []
next_actions (actions ∷ later_ones) = actions

-- The loop over the calls; each has its actions, and the last ones none.
unfoldable pub wait_each :
    Approvals → List ToolCall → List (List UserAction) → Approvals × List ToolCall × List ToolResult
unfolding wait_one_approval
wait_each s [] arrivals = (s, [], [])
wait_each s (call ∷ calls) arrivals =
    let (s', rejection) = wait_one_approval s call (next_actions arrivals) in
    let (s₂, approved, rejected) = wait_each s' calls (drop 1 arrivals) in
    elim rejection [
      | none ↦ (s₂, call ∷ approved, rejected)
      | some r ↦ (s₂, approved, r ∷ rejected)
    ]

unfoldable pub open_events : List ToolCall → Dict Bool → Dict Bool
unfolding put
open_events [] d = d
open_events (call ∷ calls) d = open_events calls (put call.id false d)

unfoldable pub close_events : List Text → Approvals → Approvals
unfolding del_all
close_events ids s = record s {
  events = del_all ids s.events;
  decisions = del_all ids s.decisions;
  reasons = del_all ids s.reasons;
}

unfoldable pub wait_tool_approvals :
    Approvals → List ToolCall → List (List UserAction) → Approvals × List ToolCall × List ToolResult
unfolding wait_each open_events close_events
wait_tool_approvals s calls arrivals =
    let (s', approved, rejected) =
      wait_each (record s { events = open_events calls s.events }) calls arrivals in
    (close_events (map (λ c. c.id) calls) s', approved, rejected)

-- The loop over the reviewed calls: the approved ones, the results of the rejected ones, and those
-- that are left to the human.
unfoldable pub sort_reviewed :
    Approvals
    → List (ToolCall × ReviewResult)
    → Approvals × List ToolCall × List ToolResult × List ToolCall
unfolding put
sort_reviewed s [] = (s, [], [], [])
sort_reviewed s (x ∷ xs) =
    let explained =
      if nonempty x.1.reason then record s { reasons = put x.0.id x.1.reason s.reasons } else s in
    let (s₁, approved₁, rejected₁, human₁) = sort_reviewed s xs in
    let (s₂, approved₂, rejected₂, human₂) = sort_reviewed explained xs in
    elim x.1.decision [
      | auto_approve ↦ (s₁, x.0 ∷ approved₁, rejected₁, human₁)
      | auto_reject ↦
          (s₁, approved₁, approval_result x.0 (codes "自动拒绝：" ++ x.1.reason) ∷ rejected₁, human₁)
      | require_human ↦ (s₂, approved₂, rejected₂, x.0 ∷ human₂)
    ]

unfoldable pub review_tool_approvals :
    (texts : ReviewTexts)
    → (auto_approve_tools : Bool) → (answer : Result Text) → Approvals
    → List ToolCall
    → Approvals × List ToolCall × List ToolResult × List ToolCall
unfolding sort_reviewed review_tool_calls
review_tool_approvals texts auto_approve_tools answer s calls =
    if not auto_approve_tools
    then (s, [], [], calls)
    else sort_reviewed s (review_tool_calls texts answer calls)
