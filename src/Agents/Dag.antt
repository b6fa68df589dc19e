-- ===== src/Agents/Dag.antt =====
-- backend/core/s04_sub_agents/static_dag.py: `StaticDagScheduler` runs tasks stage by stage; a task
-- whose dependency has failed is blocked. The runner is a parameter: from a task and the results of
-- its dependencies, its result, or that it was too late or raised.
pub mod Lookups
pub mod Stage
pub mod Solved
use neuralhub.Base.{
  ℕ, Bool, true, false, ◌||◌, Option, none, some, List, [], ◌∷◌, ◌++◌, map, if◌then◌else◌, Text,
  codes, Dict, get, put, Exception, agent_error, key_error, str, Result, ok, raise, ◌>>=◌, join,
}
use neuralhub.Types.{Items, boolean, string, array, nil, cons, end, field, summary}
use neuralhub.Agents.Stages.{AgentTask, ResolvedStage, null_list, resolve_stages, readonly}
use neuralhub.Agents.Contract.{ResultStatus, AgentResult, new_agent_result, failed, unparsed, p1}

pub data OnDepFailure : Type 0 where
  block proceed : OnDepFailure

pub record TaskSpec : Type 0 where
  pub id : Text
  pub role : Text
  pub input : Text
  pub tools : List Text
  pub permission : Text
  pub depends_on : List Text
  pub on_dep_failure : OnDepFailure
  pub timeout_seconds : ℕ

pub data RunnerOutcome : Type 0 where
  finished : AgentResult → RunnerOutcome
  too_late : RunnerOutcome
  raised : Exception → RunnerOutcome

abbrev pub Results : Type 0
Results = Dict AgentResult

abbrev pub static_dag_error : (message : Text) → Exception
static_dag_error message = agent_error (codes "STATIC_DAG_ERROR") message

unfoldable pub as_dag_error : Result Results → Result Results
unfolding str
as_dag_error (ok results) = ok results
as_dag_error (raise e) = raise (static_dag_error (str e))

abbrev pub agent_task_of : TaskSpec → AgentTask
agent_task_of t = record {
  role = t.id;
  task = t.input;
  permission = readonly;
  allowed_tools = [];
  depends_on = t.depends_on;
}

unfoldable pub resolve_task_stages : List TaskSpec → Result (List ResolvedStage)
unfolding resolve_stages str
resolve_task_stages tasks = elim (resolve_stages (map agent_task_of tasks)) [
  | ok stages ↦ ok stages
  | raise e ↦ raise (static_dag_error (str e))
]

-- `{task.id: task for task in tasks}`.
unfoldable pub task_map_from : Dict TaskSpec → List TaskSpec → Dict TaskSpec
unfolding put
task_map_from d [] = d
task_map_from d (t ∷ ts) = task_map_from (put t.id t d) ts

abbrev pub is_failure : ResultStatus → Bool
is_failure failed = true
is_failure unparsed = true
is_failure _ = false

-- The dependencies that have failed; `previous_results[dep]` raises for a dependency without result.
unfoldable pub failed_dependencies : Results → List Text → Result (List Text)
unfolding get
failed_dependencies results [] = ok []
failed_dependencies results (dep ∷ deps) = elim (get dep results) [
  | none ↦ raise (key_error dep)
  | some r ↦ failed_dependencies results deps >>= λ failing.
      ok (if is_failure r.status then dep ∷ failing else failing)
]

abbrev pub proceeds : OnDepFailure → Bool
proceeds proceed = true
proceeds block = false

-- The list of texts as a JSON array.
abbrev pub texts_of : List Text → Items
texts_of [] = nil
texts_of (t ∷ ts) = cons (string t) (texts_of ts)

unfoldable pub blocked_by : TaskSpec → (failing : List Text) → AgentResult
unfolding join
blocked_by task failing =
    record (new_agent_result failed
      (codes "任务 " ++ task.id ++ codes " 因依赖失败被阻塞: " ++ join (codes ", ") failing)
      (record {
        severity = p1;
        title = codes "下游任务被阻塞";
        evidence = failing;
        recommendation = codes "先修复失败依赖，或将 on_dep_failure 设为 proceed";
      }
        ∷ [])) {
          extra =
              field (codes "blocked") (boolean true)
                (field (codes "blocked_by") (array (texts_of failing)) end);
        }

unfoldable pub blocked_result :
    TaskSpec → (previous_results : Results) → Result (Option AgentResult)
unfolding failed_dependencies blocked_by
blocked_result task results = failed_dependencies results task.depends_on >>= λ failing. ok (
    if null_list failing || proceeds task.on_dep_failure
    then none
    else some (blocked_by task failing))

unfoldable pub failed_result : (summary : Text) → AgentResult
failed_result text = new_agent_result failed text (
    record { severity = p1; title = codes "静态 DAG 子任务失败"; evidence = []; recommendation = [] } ∷ [])

-- `{dep: previous_results[dep] for dep in task.depends_on}`.
unfoldable pub dependency_results : (collected results : Results) → List Text → Result Results
unfolding get put
dependency_results collected results [] = ok collected
dependency_results collected results (dep ∷ deps) = elim (get dep results) [
  | none ↦ raise (key_error dep)
  | some r ↦ dependency_results (put dep r collected) results deps
]

abbrev pub task_name : TaskSpec → Text
task_name task = codes "任务 " ++ task.id

unfoldable pub result_of : TaskSpec → RunnerOutcome → AgentResult
unfolding failed_result str
result_of task (finished r) = r
result_of task too_late = failed_result (task_name task ++ codes " 执行超时")
result_of task (raised e) = failed_result (task_name task ++ codes " 执行失败: " ++ str e)

module _ (runner : TaskSpec → Results → RunnerOutcome) where
  unfoldable pub run_one : TaskSpec → (previous_results : Results) → Result (Text × AgentResult)
  unfolding dependency_results result_of
  run_one task results = dependency_results [] results task.depends_on >>= λ context.
      ok (task.id, result_of task (runner task context))

  -- The loop over the tasks of a stage: those that can run, and the results with those of the blocked.
  unfoldable pub split_stage :
      (task_map : Dict TaskSpec) → Results → List Text → Result (List TaskSpec × Results)
  unfolding blocked_result get put
  split_stage task_map results [] = ok ([], results)
  split_stage task_map results (k ∷ ks) = elim (get k task_map) [
    | none ↦ raise (key_error k)
    | some task ↦ blocked_result task results >>= λ blocked. elim blocked [
      | some r ↦ split_stage task_map (put task.id r results) ks
      | none ↦ split_stage task_map results ks >>= λ s. ok (task ∷ s.0, s.1)
    ]
  ]

  -- `asyncio.gather`.
  unfoldable pub gather : List TaskSpec → (previous_results : Results) → Result Results
  unfolding run_one
  gather [] results = ok []
  gather (t ∷ ts) results = run_one t results >>= λ r. gather ts results >>= λ rs. ok (r ∷ rs)

  -- `results.update(pairs)`.
  unfoldable pub update : Results → (pairs : Results) → Results
  unfolding put
  update results [] = results
  update results (p ∷ ps) = update (put p.0 p.1 results) ps

  unfoldable pub run_stage : (task_map : Dict TaskSpec) → Results → ResolvedStage → Result Results
  unfolding split_stage gather update
  run_stage task_map results stage = split_stage task_map results stage.task_roles >>= λ s.
      gather s.0 s.1 >>= λ pairs. ok (update s.1 pairs)

  unfoldable pub run_stages :
      (task_map : Dict TaskSpec) → Results → List ResolvedStage → Result Results
  unfolding run_stage
  run_stages task_map results [] = ok results
  run_stages task_map results (stage ∷ stages) =
      run_stage task_map results stage >>= λ results'. run_stages task_map results' stages

  -- `StaticDagScheduler.run`: a `StaticDagError` passes, any other exception becomes one.
  unfoldable pub run_dag : List TaskSpec → Result Results
  unfolding resolve_task_stages run_stages task_map_from as_dag_error
  run_dag tasks = resolve_task_stages tasks >>= λ stages.
      as_dag_error (run_stages (task_map_from [] tasks) [] stages)

  -- What a task's result is, given the results of its dependencies.
  unfoldable pub run_task : TaskSpec → Results → Result AgentResult
  unfolding blocked_result run_one
  run_task task results = blocked_result task results >>= λ blocked. elim blocked [
    | some r ↦ ok r
    | none ↦ run_one task results >>= λ p. ok p.1
  ]
