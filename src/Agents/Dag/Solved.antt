-- ===== src/Agents/Dag/Solved.antt =====
-- All stages: the results that `StaticDagScheduler.run` returns.
use neuralhub.Base.{
  ℕ, ◌+◌, ◌≡◌, refl, sym, ap, ◌∙◌, inl, inr, true, false, none, some, List, [], ◌∷◌, ◌++◌, map,
  arith, Bool-cases, Option-cases, Elem, Text, text_eq_refl, has, has_iff, distinct, Dict, get, put,
  get-put, is_some, ok, ◌>>=◌, has-append, some-injective, Result-cases,
}
use mathlib.Core.List.{append-nil, append_assoc}
use neuralhub.Agents.Contract.{AgentResult}
use neuralhub.Agents.Stages.{AgentTask, ResolvedStage, roles, resolve_stages}
use neuralhub.Agents.Stages.Layers.{
  IsStage, IsLayered, placed, ok_distinct, resolve_stages-IsLayered,
}
use neuralhub.Agents.Dag.{
  TaskSpec, RunnerOutcome, Results, agent_task_of, resolve_task_stages, task_map_from, run_task,
  run_stages, run_dag, as_dag_error,
}
use neuralhub.Agents.Dag.Lookups.{Agree, run_task-Agree}
use neuralhub.Agents.Dag.Stage.{IsReady, IsKept, IsStaged, run_stage-IsStaged}

has-false :
    (k : Text) (xs ys : List Text)
    → (Elem k xs → has k ys ≡ false)
    → has k ys ≡ true
    → has k xs ≡ false
has-false k xs ys h m = elim (Bool-cases (has k xs)) [
  | inl e ↦ let c : true ≡ false = sym m ∙ h ((has_iff k xs).0 e) in cc
  | inr e ↦ e
]

map_from-other :
    (k : Text) (ts : List TaskSpec) (d : Dict TaskSpec)
    → has k (map (λ t. t.id) ts) ≡ false
    → get k (task_map_from d ts) ≡ get k d
unfolding task_map_from has
map_from-other k [] d h = refl
map_from-other k (t ∷ ts) d h =
    let g = get-put t.id k t d in map_from-other k ts (put t.id t d) (ground arith) ∙ (ground arith)

map_from-task :
    (t : TaskSpec) (ts : List TaskSpec) (d : Dict TaskSpec)
    → distinct (map (λ u. u.id) ts) ≡ true
    → Elem t ts
    → get t.id (task_map_from d ts) ≡ some t
unfolding task_map_from distinct
map_from-task t [] d n m = elim m [ ]
map_from-task t (u ∷ us) d n (inl e) =
    let other_ids : has u.id (map (λ v. v.id) us) ≡ false = ground arith in
    rw e (
      map_from-other u.id us (put u.id u d) other_ids
      ∙ get-put u.id u.id u d
      ∙ rw (text_eq_refl u.id) refl)
map_from-task t (u ∷ us) d n (inr m) = map_from-task t us (put u.id u d) (ground arith) m

roles-specs : (ts : List TaskSpec) → roles (map agent_task_of ts) ≡ map (λ t. t.id) ts
roles-specs [] = refl
roles-specs (t ∷ ts) = ap (λ ids. t.id ∷ ids) (roles-specs ts)

spec_of :
    (a : AgentTask) (ts : List TaskSpec)
    → Elem a (map agent_task_of ts)
    → (t : TaskSpec) × Elem t ts × (a ≡ agent_task_of t)
spec_of a [] m = elim m [ ]
spec_of a (t ∷ ts) (inl e) = (t, inl refl, e)
spec_of a (t ∷ ts) (inr m) = let (u, n, e) = spec_of a ts m in (u, inr n, e)

Elem-ids : (t : TaskSpec) (ts : List TaskSpec) → Elem t ts → Elem t.id (map (λ u. u.id) ts)
Elem-ids t [] m = elim m [ ]
Elem-ids t (u ∷ us) (inl e) = inl (rw e refl)
Elem-ids t (u ∷ us) (inr m) = inr (Elem-ids t us m)

module _ (runner : TaskSpec → Results → RunnerOutcome) (tasks : List TaskSpec)
    (nodup : distinct (map (λ t. t.id) tasks) ≡ true) where
  abbrev tasks_by_id : Dict TaskSpec
  tasks_by_id = task_map_from [] tasks

  -- The tasks seen so far have results, which fit together, and no other task has one.
  record IsSolved (seen : List Text) (now : Results) : Type 0 where
    found : (k : Text) → has k seen ≡ true → is_some (get k now) ≡ true
    fresh : (k : Text) → has k seen ≡ false → get k now ≡ none
    solved :
        (k : Text) (t : TaskSpec) (r : AgentResult)
        → get k tasks_by_id ≡ some t
        → get k now ≡ some r
        → run_task runner t now ≡ ok r
    closed :
        (k : Text) (t : TaskSpec) (d : Text)
        → has k seen ≡ true
        → get k tasks_by_id ≡ some t
        → Elem d t.depends_on
        → has d seen ≡ true

  stage_task :
      (seen : List Text) (id : ℕ) (s : ResolvedStage) (k : Text)
      → IsStage (map agent_task_of tasks) seen id s
      → Elem k s.task_roles
      → (t : TaskSpec) × (get k tasks_by_id ≡ some t)
        × (t.id ≡ k)
        × ((d : Text) → Elem d t.depends_on → has d seen ≡ true)
  stage_task seen id s k stage m =
      let (a, n, e, deps) = stage.after_deps k m in
      let (t, n', eq) = spec_of a tasks n in
      let same : t.id ≡ k = sym (ap (λ b. b.role) eq) ∙ e in
      (
        t,
        rw (← same) (map_from-task t tasks [] nodup n'),
        same,
        λ d dm. (has_iff d seen).1 (deps d (rw eq dm)),
      )

  stage-IsReady :
      (seen : List Text) (id : ℕ) (s : ResolvedStage) (now : Results)
      → IsStage (map agent_task_of tasks) seen id s
      → IsSolved seen now
      → (k : Text) → Elem k s.task_roles
      → (t : TaskSpec) × IsReady runner tasks_by_id s.task_roles now t × (t.id ≡ k)
  stage-IsReady seen id s now stage solved k m =
      let (t, found, same, deps) = stage_task seen id s k stage m in
      (
        t,
        record {
          in_stage = rw same ((has_iff k s.task_roles).1 m);
          mapped = rw same found;
          earlier = λ d dm. has-false d s.task_roles seen (stage.unseen d) (deps d dm);
          present = λ d dm. solved.found d (deps d dm);
        },
        same,
      )

  start-IsKept :
      (seen : List Text) (id : ℕ) (s : ResolvedStage) (now : Results)
      → IsStage (map agent_task_of tasks) seen id s
      → IsSolved seen now
      → IsKept runner tasks_by_id s.task_roles now now
  start-IsKept seen id s now stage solved = record {
    outside = λ k h. refl;
    inside = λ k r h e.
        let none_yet = solved.fresh k (stage.unseen k ((has_iff k s.task_roles).0 h)) in
        let c : none ≡ some r = sym none_yet ∙ e in cc;
  }

  -- A task that was seen keeps its result in the stage.
  seen_keeps :
      (seen : List Text) (id : ℕ) (s : ResolvedStage) (now later_on : Results) (k : Text)
      → IsStage (map agent_task_of tasks) seen id s
      → IsKept runner tasks_by_id s.task_roles now later_on
      → has k seen ≡ true
      → get k later_on ≡ get k now
  seen_keeps seen id s now later_on k stage kept h =
      kept.outside k (has-false k s.task_roles seen (stage.unseen k) h)

  seen_closed :
      (seen : List Text) (id : ℕ) (s : ResolvedStage) (now : Results)
      → IsStage (map agent_task_of tasks) seen id s
      → IsSolved seen now
      → (k : Text) (t : TaskSpec) (d : Text) → has k (seen ++ s.task_roles) ≡ true
      → get k tasks_by_id ≡ some t
      → Elem d t.depends_on
      → has d seen ≡ true
  seen_closed seen id s now stage solved k t d h e m = elim (Bool-cases (has k seen)) [
    | inl old ↦ solved.closed k t d old e m
    | inr not_old ↦
        let in_stage : has k s.task_roles ≡ true =
          (let a = has-append k seen s.task_roles in ground arith) in
        let (u, found, same, deps) =
          stage_task seen id s k stage ((has_iff k s.task_roles).0 in_stage) in
        let eq : t ≡ u = some-injective (sym e ∙ found) in deps d (rw eq at m)
  ]

  staged_solved :
      (seen : List Text) (id : ℕ) (s : ResolvedStage) (now later_on : Results)
      → IsStage (map agent_task_of tasks) seen id s
      → IsSolved seen now
      → IsStaged runner tasks_by_id s.task_roles now later_on
      → (k : Text) (t : TaskSpec) (r : AgentResult) → has k (seen ++ s.task_roles) ≡ true
      → get k tasks_by_id ≡ some t
      → get k later_on ≡ some r
      → run_task runner t later_on ≡ ok r
  staged_solved seen id s now later_on stage solved staged k t r h e f =
      let agree : Agree t.depends_on later_on now = λ d m.
        seen_keeps seen id s now later_on d stage staged.kept
          (seen_closed seen id s now stage solved k t d h e m) in
      run_task-Agree runner t later_on now agree ∙ elim (Bool-cases (has k s.task_roles)) [
        | inl here ↦ staged.kept.inside k r here f t e
        | inr elsewhere ↦ solved.solved k t r e (sym (staged.kept.outside k elsewhere) ∙ f)
      ]

  staged-IsSolved :
      (seen : List Text) (id : ℕ) (s : ResolvedStage) (now later_on : Results)
      → IsStage (map agent_task_of tasks) seen id s
      → IsSolved seen now
      → IsStaged runner tasks_by_id s.task_roles now later_on
      → IsSolved (seen ++ s.task_roles) later_on
  staged-IsSolved seen id s now later_on stage solved staged =
      let fresh_later : (k : Text) → has k (seen ++ s.task_roles) ≡ false → get k later_on ≡ none =
        λ k h.
          let a = has-append k seen s.task_roles in
          staged.kept.outside k (ground arith) ∙ solved.fresh k (ground arith) in
      record {
        found = λ k h. elim (Bool-cases (has k seen)) [
          | inl old ↦
              rw (seen_keeps seen id s now later_on k stage staged.kept old) (solved.found k old)
          | inr not_old ↦
              let a = has-append k seen s.task_roles in
              let in_stage : has k s.task_roles ≡ true = ground arith in
              staged.covers k ((has_iff k s.task_roles).0 in_stage)
        ];
        fresh = fresh_later;
        solved = λ k t r e f. elim (Bool-cases (has k (seen ++ s.task_roles))) [
          | inl h ↦ staged_solved seen id s now later_on stage solved staged k t r h e f
          | inr h ↦ let c : none ≡ some r = sym (fresh_later k h) ∙ f in cc
        ];
        closed = λ k t d h e m.
            let old = seen_closed seen id s now stage solved k t d h e m in
            let a = has-append d seen s.task_roles in ground arith;
      }

  stages-IsSolved :
      (stages : List ResolvedStage) (seen : List Text) (id : ℕ) (now : Results)
      → IsLayered (map agent_task_of tasks) seen id stages
      → IsSolved seen now
      → (results : Results) × (run_stages runner tasks_by_id now stages ≡ ok results)
        × IsSolved (seen ++ placed stages) results
  unfolding run_stages
  stages-IsSolved [] seen id now l solved = (now, refl, rw append-nil solved)
  stages-IsSolved (s ∷ ss) seen id now (l, ls) solved =
      let (later_on, e, staged) =
        run_stage-IsStaged runner tasks_by_id s.task_roles now s refl
          (stage-IsReady seen id s now l solved) (start-IsKept seen id s now l solved) in
      let (results, f, done) =
        stages-IsSolved ss (seen ++ s.task_roles) (id + 1) later_on ls
          (staged-IsSolved seen id s now later_on l solved staged) in
      (results, rw (run_stages, e) f, rw (← append_assoc) done)

  nothing-IsSolved : IsSolved [] []
  unfolding has get
  nothing-IsSolved = record {
    found = λ k h. cc;
    fresh = λ k h. refl;
    solved = λ k t r e f. cc;
    closed = λ k t d h e m. cc;
  }

stages_of :
    (tasks : List TaskSpec) (stages : List ResolvedStage)
    → resolve_task_stages tasks ≡ ok stages
    → resolve_stages (map agent_task_of tasks) ≡ ok stages
unfolding resolve_task_stages
stages_of tasks stages e = elim (Result-cases (resolve_stages (map agent_task_of tasks))) [
  | inl (s, f) ↦ f ∙ (rw (resolve_task_stages, f) at e)
  | inr (x, f) ↦ let c = rw (resolve_task_stages, f) at e in cc
]

-- If the dependencies of the tasks can be resolved into stages, the scheduler raises nothing, whatever
-- the runner answers: every task has a result, and each result is the one that the task has, run or
-- blocked, when its dependencies have the results that are returned for them.
pub run_dag-solves :
    (runner : TaskSpec → Results → RunnerOutcome) (tasks : List TaskSpec)
    (stages : List ResolvedStage)
    → resolve_task_stages tasks ≡ ok stages
    → (results : Results) × (run_dag runner tasks ≡ ok results)
      × ((t : TaskSpec)
          → Elem t tasks
          → (r : AgentResult) × (get t.id results ≡ some r) × (run_task runner t results ≡ ok r))
unfolding run_dag as_dag_error
run_dag-solves runner tasks stages e =
    let e' = stages_of tasks stages e in
    let (layers, same) = resolve_stages-IsLayered (map agent_task_of tasks) stages e' in
    let d = (ok_distinct (map agent_task_of tasks) stages e').0 in
    let nodup : distinct (map (λ t. t.id) tasks) ≡ true = rw (roles-specs tasks) at d in
    let (results, f, done) =
      stages-IsSolved runner tasks nodup stages [] 0 [] layers
        (nothing-IsSolved runner tasks nodup) in
    (
      results,
      (λ i. e i >>= λ found. as_dag_error (run_stages runner (task_map_from [] tasks) [] found))
          ∙ ap as_dag_error f,
      λ t m.
          let k = (same t.id).0 (rw (roles-specs tasks) (Elem-ids t tasks m)) in
          let h = done.found t.id ((has_iff t.id (placed stages)).1 k) in
          elim (Option-cases (get t.id results)) [
            | inl n ↦ let c : false ≡ true = rw n at h in cc
            | inr (r, n) ↦ (r, n, done.solved t.id t r (map_from-task t tasks [] nodup m) n)
          ],
    )
