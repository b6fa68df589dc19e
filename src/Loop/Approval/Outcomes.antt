-- ===== src/Loop/Approval/Outcomes.antt =====
-- Who may let a call through.
use neuralhub.Base.{
  ◌+◌, ◌≡◌, refl, ap, ◌∙◌, inl, inr, Bool, true, false, ◌||◌, none, some, List, [], ◌∷◌, map, arith,
  if◌then◌else◌, Bool-cases, Option-cases, drop, any, Text, text_eq, text_eq_iff, has, put, get-put,
  Result, tally, no_tally, nonempty,
}
use neuralhub.Types.{ToolCall, ToolResult}
use neuralhub.Loop.Review.{ReviewResult, ReviewTexts, review_tool_calls, review-calls}
use neuralhub.Loop.Approval.{
  UserAction, Approvals, wait_one_approval, wait_each, open_events, wait_tool_approvals,
  sort_reviewed, review_tool_approvals, resolve_tool_call, approve_tool_call, reject_tool_call,
  abort, act, act_all, is_approved, approve_call, reject_call, abort_run, next_actions,
}
use neuralhub.Loop.Recovery.Splitting.{call_ids, result_ids}

wait_one-id :
    (s : Approvals) (call : ToolCall) (arrivals : List UserAction) (r : ToolResult)
    → (wait_one_approval s call arrivals).1 ≡ some r
    → r.tool_call_id ≡ call.id
unfolding wait_one_approval
wait_one-id s call arrivals r h = ground arith

wait_each-tally :
    (calls : List ToolCall) (s : Approvals) (arrivals : List (List UserAction)) (k : Text)
    → tally k (call_ids (wait_each s calls arrivals).1)
        + tally k (result_ids (wait_each s calls arrivals).2)
      ≡ tally k (call_ids calls)
unfolding wait_each tally
wait_each-tally [] s arrivals k = refl
wait_each-tally (call ∷ calls) s arrivals k =
    let w = wait_one_approval s call (next_actions arrivals) in
    let rest = wait_each-tally calls w.0 (drop 1 arrivals) k in
    elim (Option-cases w.1) [
      | inl e ↦ rw (wait_each, e) (ground arith)
      | inr (r, e) ↦
          let same = wait_one-id s call (next_actions arrivals) r e in
          rw (wait_each, e) (ground arith)
    ]

-- Each waiting call is either approved or rejected by a result, and none is both: every id occurs
-- among the approved calls and the results together as often as among the calls.
pub wait-tally :
    (s : Approvals) (calls : List ToolCall) (arrivals : List (List UserAction)) (k : Text)
    → tally k (call_ids (wait_tool_approvals s calls arrivals).1)
        + tally k (result_ids (wait_tool_approvals s calls arrivals).2)
      ≡ tally k (call_ids calls)
unfolding wait_tool_approvals
wait-tally s calls arrivals k =
    wait_each-tally calls (record s { events = open_events calls s.events }) arrivals k

sort_reviewed-tally :
    (xs : List (ToolCall × ReviewResult)) (s : Approvals) (k : Text)
    → tally k (call_ids (sort_reviewed s xs).1)
        + tally k (result_ids (sort_reviewed s xs).2)
        + tally k (call_ids (sort_reviewed s xs).3)
      ≡ tally k (call_ids (map (λ p. p.0) xs))
unfolding sort_reviewed tally
sort_reviewed-tally [] s k = refl
sort_reviewed-tally (x ∷ xs) s k =
    let rest = sort_reviewed-tally xs s k in
    let rest₂ =
      sort_reviewed-tally xs
        (if nonempty x.1.reason then record s { reasons = put x.0.id x.1.reason s.reasons } else s)
        k in
    ground arith

-- Each call under review is approved, rejected by a result, or left to the human, and only one of
-- these.
pub review-tally :
    (texts : ReviewTexts) (auto_approve_tools : Bool) (answer : Result Text) (s : Approvals)
    (calls : List ToolCall) (k : Text)
    → let reviewed = review_tool_approvals texts auto_approve_tools answer s calls in
      tally k (call_ids reviewed.1)
        + tally k (result_ids reviewed.2)
        + tally k (call_ids reviewed.3)
      ≡ tally k (call_ids calls)
unfolding review_tool_approvals
review-tally texts false answer s calls k = ground (arith, no_tally k)
review-tally texts true answer s calls k =
    sort_reviewed-tally (review_tool_calls texts answer calls) s k
    ∙ ap (λ cs. tally k (call_ids cs)) (review-calls texts answer calls)

abbrev pub approves : (tool_call_id : Text) → UserAction → Bool
approves k (approve_call id) = text_eq id k
approves k _ = false

abbrev pub any_approves : (tool_call_id : Text) → List (List UserAction) → Bool
any_approves k arrivals = any (λ actions. any (approves k) actions) arrivals

act-approved :
    (s : Approvals) (a : UserAction) (k : Text)
    → is_approved k (act s a) ≡ true
    → (is_approved k s || approves k a) ≡ true
unfolding act is_approved approve_tool_call reject_tool_call resolve_tool_call abort
act-approved s (approve_call id) k h = let p = get-put id k true s.decisions in ground arith
act-approved s (reject_call id) k h = let p = get-put id k false s.decisions in ground arith
act-approved s abort_run k h = ground arith

act_all-approved :
    (actions : List UserAction) (s : Approvals) (k : Text)
    → is_approved k (act_all s actions) ≡ true
    → (is_approved k s || any (approves k) actions) ≡ true
unfolding act_all any
act_all-approved [] s k h = ground arith
act_all-approved (a ∷ actions) s k h =
    let rest = act_all-approved actions (act s a) k h in
    let first = act-approved s a k in ground arith

wait_one-approved :
    (s : Approvals) (call : ToolCall) (arrivals : List UserAction) (k : Text)
    → is_approved k (wait_one_approval s call arrivals).0 ≡ true
    → (is_approved k s || any (approves k) arrivals) ≡ true
unfolding wait_one_approval is_approved
wait_one-approved s call arrivals k h =
    let after = act_all-approved arrivals s k in
    let p = get-put call.id k false (act_all s arrivals).decisions in ground arith

wait_one-none :
    (s : Approvals) (call : ToolCall) (arrivals : List UserAction)
    → (wait_one_approval s call arrivals).1 ≡ none
    → is_approved call.id (wait_one_approval s call arrivals).0 ≡ true
unfolding wait_one_approval
wait_one-none s call arrivals h = ground arith

any_approves_next :
    (k : Text) (arrivals : List (List UserAction))
    → (any (approves k) (next_actions arrivals) || any_approves k (drop 1 arrivals))
      ≡ any_approves k arrivals
unfolding any
any_approves_next k [] = refl
any_approves_next k (a ∷ more) = refl

approved_head :
    (k : Text) (call : ToolCall) (s s' : Approvals) (ids : List Text)
    (arrivals : List (List UserAction))
    → is_approved call.id s' ≡ true
    → (is_approved k s' ≡ true
        → (is_approved k s || any (approves k) (next_actions arrivals)) ≡ true)
    → (has k ids ≡ true → (is_approved k s' || any_approves k (drop 1 arrivals)) ≡ true)
    → has k (call.id ∷ ids) ≡ true
    → (is_approved k s || any_approves k arrivals) ≡ true
unfolding has
approved_head k call s s' ids arrivals own here rest h =
    let more = any_approves_next k arrivals in
    elim (Bool-cases (text_eq call.id k)) [
      | inl e ↦
          let same = (text_eq_iff call.id k).0 e in let now = here (rw same at own) in ground arith
      | inr e ↦ let later_one = rest (rw e at h) in ground arith
    ]

wait_each-approved :
    (calls : List ToolCall) (s : Approvals) (arrivals : List (List UserAction)) (k : Text)
    → has k (call_ids (wait_each s calls arrivals).1) ≡ true
    → (is_approved k s || any_approves k arrivals) ≡ true
unfolding wait_each has any
wait_each-approved [] s arrivals k h = cc
wait_each-approved (call ∷ calls) s arrivals k h =
    let actions = next_actions arrivals in
    let w = wait_one_approval s call actions in
    let rest = wait_each-approved calls w.0 (drop 1 arrivals) k in
    let here = wait_one-approved s call actions k in
    let more = any_approves_next k arrivals in
    elim (Option-cases w.1) [
      | inl e ↦
          let own = wait_one-none s call actions e in
          approved_head k call s w.0 (call_ids (wait_each w.0 calls (drop 1 arrivals)).1) arrivals
            own here rest (rw (wait_each, e) at h)
      | inr (r, e) ↦ let later_one = rest (rw (wait_each, e) at h) in ground arith
    ]

-- The wait for a human approves no call by itself: if no decision for an id is open and no approval
-- of it arrives, `wait_tool_approvals` has no call with this id among the approved ones.
pub wait_needs_approval :
    (s : Approvals) (calls : List ToolCall) (arrivals : List (List UserAction)) (k : Text)
    → is_approved k s ≡ false
    → any_approves k arrivals ≡ false
    → has k (call_ids (wait_tool_approvals s calls arrivals).1) ≡ false
unfolding wait_tool_approvals is_approved
wait_needs_approval s calls arrivals k closed silent =
    let opened = record s { events = open_events calls s.events } in
    elim (Bool-cases (has k (call_ids (wait_each opened calls arrivals).1))) [
      | inl e ↦ let h = wait_each-approved calls opened arrivals k e in ground arith
      | inr e ↦ e
    ]
