-- ===== src/Tests/AgentTests.antt =====
-- backend/core/s04_sub_agents: three tasks of which the first fails, and a read-only sub-agent.
use neuralhub.Base.{
  ℕ, ◌≡◌, refl, true, false, none, some, List, [], ◌∷◌, arith, Elem, keep, Text, codes, text_eq,
  has, subset, distinct, get, del, value_error, Result, ok, raise, del_all, words,
}
use neuralhub.Agents.Stages.{
  ResolvedStage, readonly, ready_roles, rounds, is_ready, check_known, check_tasks,
}
use neuralhub.Agents.Contract.{AgentResult, ContractTexts, invalid, raises, coerce_agent_result}
use neuralhub.Agents.Contract.Repair.{IsFrom, coerce-IsFrom}
use neuralhub.Agents.Dag.{
  TaskSpec, RunnerOutcome, raised, Results, block, proceed, resolve_task_stages, run_task, run_dag,
}
use neuralhub.Agents.Dag.Solved.{run_dag-solves}
use neuralhub.Agents.ReadonlyGuard.{
  blocked_within, is_readonly_blocked, exec_wrappers, readonly_allowed_prefixes,
  readonly_git_subcommands,
}
use neuralhub.Agents.ReadonlyGuard.Depth.{guard_depth}
use neuralhub.Agents.Permissions.{
  IsolatedRegistryConfig, IsolatedExecutor, readonly_bash, direct, build_isolated_registry,
}
use neuralhub.Agents.Permissions.Filtered.{IsGranted, build-IsGranted}
use neuralhub.Tools.Registry.{ToolRegistry}
use neuralhub.Agents.Waves.{
  Planner, DynamicOrchestratorConfig, Waves, spawn_more, coerce_wave_result, run_waves,
}
use neuralhub.Agents.Waves.Limits.{IsLimited, run_waves-IsLimited}
use neuralhub.Tests.GateTests.{gate}
use neuralhub.Tests.ExecutorTests.{one_int}

abbrev spec_for : (id : Text) (depends_on : List Text) → TaskSpec
spec_for i deps = record {
  id = i;
  role = [];
  input = codes "work";
  tools = [];
  permission = codes "readonly";
  depends_on = deps;
  on_dep_failure = block;
  timeout_seconds = 300;
}

-- `b` is blocked by `a`, and `c` runs although `b` has failed.
abbrev specs : List TaskSpec
specs =
    record (spec_for (codes "c") (codes "b" ∷ [])) { on_dep_failure = proceed }
    ∷ spec_for (codes "a") []
    ∷ spec_for (codes "b") (codes "a" ∷ [])
    ∷ []

abbrev spec_stages : List ResolvedStage
spec_stages =
    record { stage_id = 0; task_roles = codes "a" ∷ [] }
    ∷ record { stage_id = 1; task_roles = codes "b" ∷ [] }
    ∷ record { stage_id = 2; task_roles = codes "c" ∷ [] }
    ∷ []

abbrev raising : TaskSpec → Results → RunnerOutcome
raising t results = raised (value_error (codes "down"))

specs_resolve : resolve_task_stages specs ≡ ok spec_stages
unfolding resolve_task_stages distinct has text_eq check_tasks check_known rounds ready_roles keep
    is_ready get subset del_all del
specs_resolve = refl

run_dag-solves_example :
    (results : Results) × (run_dag raising specs ≡ ok results)
    × ((t : TaskSpec)
        → Elem t specs
        → (r : AgentResult) × (get t.id results ≡ some r) × (run_task raising t results ≡ ok r))
run_dag-solves_example = run_dag-solves raising specs spec_stages specs_resolve

abbrev split_words : Text → Result (List Text)
split_words t = ok (words t)

abbrev look : Text
look = codes "git log | wc"

look_passes : is_readonly_blocked split_words (λ t. t) look ≡ false
unfolding is_readonly_blocked exec_wrappers text_eq readonly_allowed_prefixes
    readonly_git_subcommands
look_passes = refl

-- The guard has no list of arguments for git: a subcommand that can read or write passes.
tag_passes : is_readonly_blocked split_words (λ t. t) (codes "git tag v1") ≡ false
unfolding is_readonly_blocked exec_wrappers text_eq readonly_allowed_prefixes
    readonly_git_subcommands
tag_passes = refl

-- The program inside a process substitution is not looked at, and `>&` is no redirection.
substitution_passes : is_readonly_blocked split_words (λ t. t) (codes "cat <(touch x)") ≡ false
unfolding is_readonly_blocked exec_wrappers text_eq readonly_allowed_prefixes
substitution_passes = refl

output_passes : is_readonly_blocked split_words (λ t. t) (codes "cat x >& cat") ≡ false
unfolding is_readonly_blocked exec_wrappers text_eq readonly_allowed_prefixes
output_passes = refl

guard_depth_example :
    blocked_within split_words (λ t. t) 20 look ≡ is_readonly_blocked split_words (λ t. t) look
guard_depth_example = guard_depth split_words (λ t. t) 20 look (omega arith)

abbrev readonly_config : IsolatedRegistryConfig
readonly_config = record { permission_level = readonly; allowed_tool_names = [] }

abbrev child : ToolRegistry (IsolatedExecutor ℕ)
child = record {
  tools = gate.registry.tools;
  executors = (codes "Read", direct 1) ∷ (codes "Bash", readonly_bash 2) ∷ [];
}

child_built : build_isolated_registry gate.registry readonly_config ≡ ok child
unfolding build_isolated_registry text_eq
child_built = refl

bash_found : get (codes "Bash") child.executors ≡ some (readonly_bash 2)
unfolding get text_eq
bash_found = refl

build-IsGranted_example : IsGranted readonly_config gate.registry (codes "Bash") (readonly_bash 2)
build-IsGranted_example =
    build-IsGranted readonly_config gate.registry child (codes "Bash") (readonly_bash 2) child_built
      bash_found

-- Nothing is JSON, and the model answers with the candidate.
abbrev no_json : ContractTexts
no_json = record {
  fenced = λ t. none;
  loads = λ t. invalid (codes "no JSON");
  validate = λ fs. raises (value_error (codes "no result"));
  show_int = one_int;
}

coerce-IsFrom_example :
    IsFrom no_json
      (λ n c e. ok c)
      true
      2
      (codes "done")
      (coerce_agent_result no_json true (λ n c e. ok c) 2 (codes "done"))
coerce-IsFrom_example = coerce-IsFrom no_json (λ n c e. ok c) true 2 (codes "done")

-- A planner that always wants one more task.
abbrev eager : Planner
eager = record {
  initial_wave = ok (spec_for (codes "t") [] ∷ []);
  decide = λ n wave all_results. ok (spawn_more (spec_for (n ∷ []) [] ∷ []));
  verify = λ all_results. raise (value_error (codes "unused"));
}

abbrev two_waves : DynamicOrchestratorConfig
two_waves = record { max_waves = 2; max_concurrent = 1 }

abbrev no_agent : TaskSpec → Result AgentResult
no_agent t = raise (value_error (codes "down"))

abbrev downs : (id : Text) → AgentResult
downs i = coerce_wave_result one_int (spec_for i []) (no_agent (spec_for i []))

abbrev both_waves : Waves
both_waves = record {
  waves_executed = 2;
  circuit_breaker_hit = true;
  all_results = (codes "t", downs (codes "t")) ∷ (1 ∷ [], downs (1 ∷ [])) ∷ [];
}

both_run : run_waves one_int no_agent eager two_waves ≡ ok both_waves
unfolding run_waves has text_eq
both_run = refl

run_waves-IsLimited_example : IsLimited 1 2 0 0 both_waves
run_waves-IsLimited_example =
    run_waves-IsLimited one_int no_agent eager two_waves both_waves both_run
