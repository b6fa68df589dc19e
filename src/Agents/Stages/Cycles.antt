-- ===== src/Agents/Stages/Cycles.antt =====
-- When `resolve_stages` succeeds: the tasks have no cycle.
use neuralhub.Base.{
  ℕ, zero, suc, ◌+◌, ◌≤◌, ◌<◌, ◌≡◌, refl, inl, inr, true, false, none, some, List, [], ◌∷◌, ◌++◌,
  arith, Bool-cases, Option-cases, length, Elem, Text, has, has_iff, subset, distinct, Dict, get,
  is_some, ok, Elem-keep_intro, del_all, get_head,
}
use neuralhub.Agents.Stages.{
  AgentTask, ResolvedStage, roles, pending_of, is_ready, ready_roles, null_list, rounds,
  resolve_stages, check_tasks, check_known,
}
use neuralhub.Agents.Stages.Rounds.{
  Waits, start-Waits, round-Waits, round_shrinks, Elem-roles, length-pending_of,
}

-- A set of tasks that `resolve_stages` is meant to accept: there are some, no role stands twice,
-- every dependency is a role, and `rank` falls along each dependency.
pub record IsAcyclic (tasks : List AgentTask) (rank : Text → ℕ) : Type 0 where
  pub some_tasks : null_list tasks ≡ false
  pub nodup : distinct (roles tasks) ≡ true
  pub known : (t : AgentTask) (d : Text) → Elem t tasks → Elem d t.depends_on → Elem d (roles tasks)
  pub falls : (t : AgentTask) (d : Text) → Elem t tasks → Elem d t.depends_on → rank d < rank t.role

subset-false :
    (xs ys : List Text) → subset xs ys ≡ false → (k : Text) × Elem k xs × (has k ys ≡ false)
unfolding subset
subset-false [] ys h = cc
subset-false (x ∷ xs) ys h = elim (Bool-cases (has x ys)) [
  | inr no' ↦ (x, inl refl, no')
  | inl in' ↦ let (k, m, q) = subset-false xs ys (ground arith) in (k, inr m, q)
]

module _ (tasks : List AgentTask) (rank : Text → ℕ) (acyclic : IsAcyclic tasks rank) where
  not_ready :
      (resolved : List Text) (pending : Dict (List Text)) (k : Text)
      → null_list (ready_roles (roles tasks) resolved pending) ≡ true
      → Elem k (roles tasks)
      → is_ready resolved pending k ≡ false
  unfolding ready_roles
  not_ready resolved pending k h m = elim (Bool-cases (is_ready resolved pending k)) [
    | inr no' ↦ no'
    | inl ready ↦
        let n = Elem-keep_intro (is_ready resolved pending) k (roles tasks) m ready in
        absurd (empty_Elem _ h n)
  ]
    where
      empty_Elem : (xs : List Text) → null_list xs ≡ true → Elem k xs → ⊥
      empty_Elem [] e n = n
      empty_Elem (x ∷ xs) e n = cc

  blocked_dep :
      (resolved : List Text) (pending : Dict (List Text)) (k : Text) (deps : List Text)
      → get k pending ≡ some deps
      → is_ready resolved pending k ≡ false
      → subset deps resolved ≡ false
  unfolding is_ready
  blocked_dep resolved pending k deps e h = ground arith

  -- Whatever waits, if nothing is ready, waits for something of a smaller rank that waits too.
  no_deadlock :
      (bound : ℕ) (resolved : List Text) (pending : Dict (List Text)) (k : Text)
      → Waits tasks resolved pending
      → null_list (ready_roles (roles tasks) resolved pending) ≡ true
      → rank k < bound
      → is_some (get k pending) ≡ true
      → ⊥
  no_deadlock zero resolved pending k w h lt s = omega arith
  no_deadlock (suc bound) resolved pending k w h lt s = elim (Option-cases (get k pending)) [
    | inl e ↦ let c : false ≡ true = rw e at s in cc
    | inr (deps, e) ↦
        let (t, m, p, q) = w.faithful k deps e in
        let waits = not_ready resolved pending k h (rw p at (Elem-roles t tasks m)) in
        let (d, n, out) =
          subset-false deps resolved (blocked_dep resolved pending k deps e waits) in
        let n' : Elem d t.depends_on = rw q n in
        let lower : rank d < rank k = rw p at (acyclic.falls t d m n') in
        elim (w.covered d (acyclic.known t d m n')) [
          | inl still ↦ no_deadlock bound resolved pending d w h (omega arith) still
          | inr done ↦
              let c = (has_iff d resolved).1 done in let f : false ≡ true = rw out at c in cc
        ]
  ]

  rounds_total :
      (bound : ℕ) (resolved : List Text) (pending : Dict (List Text)) (id : ℕ)
      → Waits tasks resolved pending
      → length pending ≤ bound
      → (stages : List ResolvedStage) × (rounds bound (roles tasks) resolved pending id ≡ ok stages)
  unfolding rounds
  rounds_total bound resolved [] id w h = ([], refl)
  rounds_total zero resolved (p ∷ ps) id w h = absurd (omega arith)
  rounds_total (suc bound) resolved ((k, v) ∷ ps) id w h =
      let pending : Dict (List Text) = (k, v) ∷ ps in
      let ready = ready_roles (roles tasks) resolved pending in
      elim (Bool-cases (null_list ready)) [
        | inl stuck ↦ absurd (
            no_deadlock (suc (rank k)) resolved pending k w stuck (omega arith)
              (rw (get_head k v ps)))
        | inr moves ↦
            let shrinks = round_shrinks (roles tasks) resolved pending moves in
            let (rest, e) =
              rounds_total bound (resolved ++ ready) (del_all ready pending) (id + 1)
                (round-Waits tasks resolved ready pending w) (omega arith) in
            (record { stage_id = id; task_roles = ready } ∷ rest, rw (moves, e))
      ]

  check_known-none :
      (ds : List Text) (role : Text)
      → ((d : Text) → Elem d ds → Elem d (roles tasks))
      → check_known (roles tasks) role ds ≡ none
  unfolding check_known
  check_known-none [] role h = refl
  check_known-none (d ∷ ds) role h =
      let first = (has_iff d (roles tasks)).1 (h d (inl refl)) in
      rw first (check_known-none ds role (λ x m. h x (inr m)))

  check_tasks-none :
      (ts : List AgentTask)
      → ((t : AgentTask) → Elem t ts → Elem t tasks)
      → check_tasks (roles tasks) ts ≡ none
  unfolding check_tasks
  check_tasks-none [] h = refl
  check_tasks-none (t ∷ ts) h =
      let m = h t (inl refl) in
      let ih = check_tasks-none ts (λ x n. h x (inr n)) in
      let deps = check_known-none t.depends_on t.role (λ d n. acyclic.known t d m n) in
      elim (Bool-cases (has t.role t.depends_on)) [
        | inl self ↦
            absurd (omega (arith, acyclic.falls t t.role m ((has_iff t.role t.depends_on).0 self)))
        | inr other' ↦ rw (other', deps) ih
      ]

  -- Tasks without a cycle are resolved: if there is a task, no role stands twice, every dependency
  -- is the role of a task, and some rank falls along each dependency, `resolve_stages` returns stages.
  pub resolve_stages_total : (stages : List ResolvedStage) × (resolve_stages tasks ≡ ok stages)
  unfolding resolve_stages
  resolve_stages_total =
      let (stages, e) =
        rounds_total (length tasks) [] (pending_of tasks) 0 (start-Waits tasks)
          (omega (arith, length-pending_of tasks)) in
      (stages, rw (acyclic.some_tasks, acyclic.nodup, check_tasks-none tasks (λ t m. m)) e)
