-- ===== src/Agents/Waves.antt =====
-- backend/core/s04_sub_agents/dynamic_orchestrator.py: tasks run in waves, and a planner decides after
-- each wave how to go on. The planner and the runner are parameters; a decision may depend on the
-- number of the wave. The trace of the tasks is output.
pub mod Limits
use neuralhub.Base.{
  ℕ, zero, suc, ◌+◌, Bool, true, false, not, Option, none, some, List, [], ◌∷◌, ◌++◌, map, ltb,
  if◌then◌else◌, length, Text, codes, text_eq, distinct, put, Exception, agent_error, str, Result,
  ok, raise, ◌>>=◌,
}
use neuralhub.Types.{Json, boolean, number}
use neuralhub.Agents.Contract.{AgentResult, new_agent_result, failed}
use neuralhub.Agents.Dag.{TaskSpec, Results, task_name}
use neuralhub.Loop.Review.{set_field}

pub data OrchestratorDecision : Type 0 where
  spawn_more : (next_tasks : List TaskSpec) → OrchestratorDecision
  finish : OrchestratorDecision

pub record DynamicOrchestratorConfig : Type 0 where
  pub max_waves : ℕ
  pub max_concurrent : ℕ

pub record Planner : Type 0 where
  pub initial_wave : Result (List TaskSpec)
  pub decide : (wave : ℕ) → (wave_results all_results : Results) → Result OrchestratorDecision
  pub verify : (all_results : Results) → Result AgentResult

abbrev pub dynamic_error : (message : Text) → Exception
dynamic_error message = agent_error (codes "DYNAMIC_ORCHESTRATOR_ERROR") message

-- What the loop has when it ends: the waves, whether tasks are left, and all results.
pub record Waves : Type 0 where
  pub waves_executed : ℕ
  pub circuit_breaker_hit : Bool
  pub all_results : Results

module _ (show_int : ℕ → Text) where
  unfoldable pub validate_wave : List TaskSpec → (max_concurrent : ℕ) → Option Exception
  unfolding distinct
  validate_wave tasks max_concurrent =
      if ltb max_concurrent (length tasks)
      then some (
          dynamic_error (
            codes "单轮子 agent 数超过上限: requested="
            ++ show_int (length tasks)
            ++ codes ", max_concurrent="
            ++ show_int max_concurrent))
      else if not (distinct (map (λ t. t.id) tasks))
      then some (dynamic_error (codes "单轮任务 id 不能重复"))
      else none

  unfoldable pub coerce_wave_result : TaskSpec → Result AgentResult → AgentResult
  unfolding str
  coerce_wave_result task (ok r) = r
  coerce_wave_result task (raise e) =
      new_agent_result failed (task_name task ++ codes " 执行失败: " ++ str e) []

  module _ (runner : TaskSpec → Result AgentResult) where
    -- `{task.id: … for task, result in zip(tasks, results)}`.
    unfoldable pub results_from : Results → List TaskSpec → Results
    unfolding coerce_wave_result put
    results_from results [] = results
    results_from results (t ∷ ts) =
        results_from (put t.id (coerce_wave_result t (runner t)) results) ts

    unfoldable pub run_wave : List TaskSpec → (max_concurrent : ℕ) → Result Results
    unfolding validate_wave results_from
    run_wave tasks max_concurrent = elim (validate_wave tasks max_concurrent) [
      | some e ↦ raise e
      | none ↦ ok (results_from [] tasks)
    ]

    -- `all_results.update(wave_results)`.
    unfoldable pub update_all : Results → (wave_results : Results) → Results
    unfolding put
    update_all results [] = results
    update_all results (p ∷ ps) = update_all (put p.0 p.1 results) ps

    module _ (planner : Planner) (config : DynamicOrchestratorConfig) where
      -- The `while` loop, with the waves that are left.
      unfoldable pub wave_loop :
          (left : ℕ)
          → (next_tasks : List TaskSpec) → (waves_executed : ℕ) → (all_results : Results)
          → Result Waves
      unfolding run_wave update_all
      wave_loop left [] executed all_results = ok (record {
        waves_executed = executed;
        circuit_breaker_hit = false;
        all_results = all_results;
      })
      wave_loop zero (t ∷ ts) executed all_results = ok (record {
        waves_executed = executed;
        circuit_breaker_hit = true;
        all_results = all_results;
      })
      wave_loop (suc left) (t ∷ ts) executed all_results =
          run_wave (t ∷ ts) config.max_concurrent >>= λ wave_results.
          planner.decide (executed + 1) wave_results (update_all all_results wave_results)
          >>= λ decision. elim decision [
            | finish ↦ ok (record {
              waves_executed = executed + 1;
              circuit_breaker_hit = false;
              all_results = update_all all_results wave_results;
            })
            | spawn_more next_tasks ↦
                wave_loop left next_tasks (executed + 1) (update_all all_results wave_results)
          ]

      unfoldable pub run_waves : Result Waves
      unfolding wave_loop
      run_waves = planner.initial_wave >>= λ tasks. wave_loop config.max_waves tasks 0 []

      abbrev pub flag : Bool → Json
      flag b = boolean b

      unfoldable pub with_run_metadata : AgentResult → Waves → AgentResult
      unfolding set_field
      with_run_metadata final w = record final {
        extra = set_field (codes "task_count") (number (show_int (length w.all_results))) (
            set_field (codes "circuit_breaker_hit") (flag w.circuit_breaker_hit) (
              set_field (codes "waves_executed") (number (show_int w.waves_executed)) final.extra));
      }

      -- A `DynamicOrchestratorError` passes, any other exception becomes one.
      unfoldable pub as_dynamic_error : {A : Type 0} → Result A → Result A
      unfolding str text_eq
      as_dynamic_error (ok a) = ok a
      as_dynamic_error (raise (agent_error code message)) =
          if text_eq code (codes "DYNAMIC_ORCHESTRATOR_ERROR")
          then raise (agent_error code message)
          else raise (dynamic_error (str (agent_error code message)))
      as_dynamic_error (raise e) = raise (dynamic_error (str e))

      -- `DynamicOrchestrator.run`.
      unfoldable pub run_dynamic : Result AgentResult
      unfolding run_waves with_run_metadata as_dynamic_error
      run_dynamic = as_dynamic_error (
          run_waves >>= λ w.
          planner.verify w.all_results >>= λ final. ok (with_run_metadata final w))
