-- ===== src/Tests/PlanTests.antt =====
-- The phases of backend/core/s01_agent_loop/plan_state_machine.py along one plan.
use neuralhub.Base.{◌≡◌, refl, ◌≢◌, List, [], ◌∷◌, arith, Elem, ok}
use neuralhub.Plan.Phase.{
  PlanPhase, transition, idle, recon, planning, plan_ready, awaiting_approval, executing, completed,
  cancelled,
}
use neuralhub.Plan.Phase.Paths.{follow, follow-plan_ready}

abbrev course : List PlanPhase
course = recon ∷ planning ∷ plan_ready ∷ awaiting_approval ∷ executing ∷ completed ∷ []

course_follows : follow idle course ≡ ok completed
unfolding follow transition
course_follows = refl

not_cancelled : completed ≢ cancelled
not_cancelled e = ground (arith, e)

follow-plan_ready_example : Elem plan_ready course
follow-plan_ready_example =
    follow-plan_ready idle course completed refl course_follows not_cancelled refl
