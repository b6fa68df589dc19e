-- ===== src/Agents/Dag/Lookups.antt =====
-- A task's result depends on the results of its dependencies only, and is there if they are.
use neuralhub.Base.{
  ◌≡◌, refl, inl, inr, true, false, ◌||◌, Option, none, some, List, [], ◌∷◌, if◌then◌else◌,
  Option-cases, Elem, Text, get, put, is_some, ok, ◌>>=◌,
}
use neuralhub.Agents.Contract.{AgentResult}
use neuralhub.Agents.Stages.{null_list}
use neuralhub.Agents.Dag.{
  TaskSpec, RunnerOutcome, Results, is_failure, failed_dependencies, proceeds, blocked_by,
  blocked_result, dependency_results, result_of, run_one, run_task,
}

abbrev pub Agree : List Text → Results → Results → Type 0
Agree deps r s = (d : Text) → Elem d deps → get d r ≡ get d s

abbrev pub Present : List Text → Results → Type 0
Present deps r = (d : Text) → Elem d deps → is_some (get d r) ≡ true

failed_dependencies-Agree :
    (deps : List Text) (r s : Results)
    → Agree deps r s
    → failed_dependencies r deps ≡ failed_dependencies s deps
unfolding failed_dependencies
failed_dependencies-Agree [] r s a = refl
failed_dependencies-Agree (d ∷ ds) r s a =
    let rest = failed_dependencies-Agree ds r s (λ x m. a x (inr m)) in
    let here = a d (inl refl) in
    elim (Option-cases (get d s)) [
      | inl e ↦ rw (failed_dependencies, here, e) refl
      | inr (x, e) ↦ rw (failed_dependencies, here, e) (rw rest refl)
    ]

dependency_results-Agree :
    (deps : List Text) (c r s : Results)
    → Agree deps r s
    → dependency_results c r deps ≡ dependency_results c s deps
unfolding dependency_results
dependency_results-Agree [] c r s a = refl
dependency_results-Agree (d ∷ ds) c r s a =
    let here = a d (inl refl) in
    elim (Option-cases (get d s)) [
      | inl e ↦ rw (dependency_results, here, e) refl
      | inr (x, e) ↦
          rw (dependency_results, here, e)
            (dependency_results-Agree ds (put d x c) r s (λ y m. a y (inr m)))
    ]

pub blocked_result-Agree :
    (t : TaskSpec) (r s : Results)
    → Agree t.depends_on r s
    → blocked_result t r ≡ blocked_result t s
unfolding blocked_result
blocked_result-Agree t r s a = rw (failed_dependencies-Agree t.depends_on r s a) refl

present_some :
    (d : Text) (r : Results) → is_some (get d r) ≡ true → (x : AgentResult) × (get d r ≡ some x)
present_some d r h = elim (Option-cases (get d r)) [
  | inl e ↦ let c : false ≡ true = rw e at h in cc
  | inr x ↦ x
]

failed_dependencies-present :
    (deps : List Text) (r : Results)
    → Present deps r
    → (fs : List Text) × (failed_dependencies r deps ≡ ok fs)
unfolding failed_dependencies
failed_dependencies-present [] r p = ([], refl)
failed_dependencies-present (d ∷ ds) r p =
    let (x, e) = present_some d r (p d (inl refl)) in
    let (fs, f) = failed_dependencies-present ds r (λ y m. p y (inr m)) in
    (if is_failure x.status then d ∷ fs else fs, rw (failed_dependencies, e, f) refl)

dependency_results-present :
    (deps : List Text) (c r : Results)
    → Present deps r
    → (s : Results) × (dependency_results c r deps ≡ ok s)
unfolding dependency_results
dependency_results-present [] c r p = (c, refl)
dependency_results-present (d ∷ ds) c r p =
    let (x, e) = present_some d r (p d (inl refl)) in
    let (s, f) = dependency_results-present ds (put d x c) r (λ y m. p y (inr m)) in
    (s, rw (dependency_results, e) f)

pub blocked_result-present :
    (t : TaskSpec) (r : Results)
    → Present t.depends_on r
    → (b : Option AgentResult) × (blocked_result t r ≡ ok b)
unfolding blocked_result
blocked_result-present t r p =
    let (fs, e) = failed_dependencies-present t.depends_on r p in
    (
      if null_list fs || proceeds t.on_dep_failure then none else some (blocked_by t fs),
      rw (blocked_result, e) refl,
    )

module _ (runner : TaskSpec → Results → RunnerOutcome) where
  pub run_one-Agree :
      (t : TaskSpec) (r s : Results)
      → Agree t.depends_on r s
      → run_one runner t r ≡ run_one runner t s
  unfolding run_one
  run_one-Agree t r s a = rw (dependency_results-Agree t.depends_on [] r s a) refl

  pub run_task-Agree :
      (t : TaskSpec) (r s : Results)
      → Agree t.depends_on r s
      → run_task runner t r ≡ run_task runner t s
  unfolding run_task
  run_task-Agree t r s a = λ i. blocked_result-Agree t r s a i >>= λ blocked. elim blocked [
    | some x ↦ ok x
    | none ↦ run_one-Agree t r s a i >>= λ p. ok p.1
  ]

  -- The pair of a task that runs has its id.
  pub run_one-present :
      (t : TaskSpec) (r : Results)
      → Present t.depends_on r
      → (x : AgentResult) × (run_one runner t r ≡ ok (t.id, x))
  unfolding run_one
  run_one-present t r p =
      let (s, e) = dependency_results-present t.depends_on [] r p in
      (result_of t (runner t s), rw (run_one, e) refl)
