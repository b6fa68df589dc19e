-- ===== src/Plan/Phase.antt =====
-- backend/core/s01_agent_loop/plan_state_machine.py, with `PlanPhase` of plan_models.py.
pub mod Paths
use neuralhub.Base.{
  Bool, true, false, not, ◌&&◌, List, [], ◌∷◌, ◌++◌, if◌then◌else◌, any, Text, codes, Exception,
  agent_error, Result, ok, raise,
}

pub data PlanPhase : Type 0 where
  idle recon planning plan_ready confirming awaiting_approval executing paused : PlanPhase
  completed partial_failed cancelled : PlanPhase

-- The value of the enumeration's member, by which it is stored and printed.
unfoldable pub value : PlanPhase → Text
value idle = codes "idle"
value recon = codes "recon"
value planning = codes "planning"
value plan_ready = codes "plan_ready"
value confirming = codes "confirming"
value awaiting_approval = codes "awaiting_approval"
value executing = codes "executing"
value paused = codes "paused"
value completed = codes "completed"
value partial_failed = codes "partial_failed"
value cancelled = codes "cancelled"

abbrev pub phase_eq : PlanPhase → PlanPhase → Bool
phase_eq idle idle = true
phase_eq recon recon = true
phase_eq planning planning = true
phase_eq plan_ready plan_ready = true
phase_eq confirming confirming = true
phase_eq awaiting_approval awaiting_approval = true
phase_eq executing executing = true
phase_eq paused paused = true
phase_eq completed completed = true
phase_eq partial_failed partial_failed = true
phase_eq cancelled cancelled = true
phase_eq _ _ = false

abbrev pub terminal_phases : List PlanPhase
terminal_phases = completed ∷ partial_failed ∷ cancelled ∷ []

abbrev pub plan_transitions : List (PlanPhase × PlanPhase)
plan_transitions =
    (idle, recon)
    ∷ (recon, planning)
    ∷ (planning, recon)
    ∷ (planning, plan_ready)
    ∷ (plan_ready, executing)
    ∷ (plan_ready, confirming)
    ∷ (plan_ready, awaiting_approval)
    ∷ (confirming, executing)
    ∷ (awaiting_approval, executing)
    ∷ (executing, completed)
    ∷ (executing, partial_failed)
    ∷ (executing, paused)
    ∷ (paused, executing)
    ∷ (idle, cancelled)
    ∷ (recon, cancelled)
    ∷ (planning, cancelled)
    ∷ (plan_ready, cancelled)
    ∷ (confirming, cancelled)
    ∷ (awaiting_approval, cancelled)
    ∷ (executing, cancelled)
    ∷ (paused, cancelled)
    ∷ []

unfoldable pub validate_transition : (current target : PlanPhase) → Bool
unfolding any
validate_transition current target =
    any (λ edge. phase_eq edge.0 current && phase_eq edge.1 target) plan_transitions

abbrev pub invalid_transition : (current target : PlanPhase) → Exception
invalid_transition current target =
    agent_error (codes "PLAN_INVALID_TRANSITION")
      (codes "Invalid phase transition: " ++ value current ++ codes " → " ++ value target)

unfoldable pub transition : (current target : PlanPhase) → Result PlanPhase
unfolding validate_transition
transition current target =
    if not (validate_transition current target)
    then raise (invalid_transition current target)
    else ok target

unfoldable pub is_terminal : PlanPhase → Bool
unfolding any
is_terminal phase = any (phase_eq phase) terminal_phases
