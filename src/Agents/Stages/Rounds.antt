-- ===== src/Agents/Stages/Rounds.antt =====
-- The state of the loop of `resolve_stages`: what a round keeps, and that the bound is enough.
use neuralhub.Base.{
  ℕ, zero, suc, ◌+◌, ◌≤◌, ◌<◌, ◌≡◌, refl, sym, ap, ◌≢◌, ◌⊎◌, inl, inr, true, false, some, List, [],
  ◌∷◌, ◌++◌, arith, Bool-cases, length, Elem, Text, text_eq, text_eq_iff, has, has_iff, Dict, get,
  del, is_some, raise, Elem-append_left, Elem-append_right, Elem-keep, has-append, del_all,
  get-del_all, length-del_lt, length-del_all_le, map-eq-raise,
}
use neuralhub.Agents.Stages.{
  AgentTask, roles, pending_of, is_ready, ready_roles, null_list, rounds, resolve_stages,
  out_of_rounds, check_tasks, check_known,
}

-- Every role waits or is resolved, and not both; what waits, waits with the dependencies of its task.
pub record Waits (tasks : List AgentTask) (resolved : List Text) (pending : Dict (List Text))
    : Type 0 where
  pub covered :
      (k : Text) → Elem k (roles tasks) → (is_some (get k pending) ≡ true) ⊎ Elem k resolved
  pub apart : (k : Text) → is_some (get k pending) ≡ true → has k resolved ≡ false
  pub faithful :
      (k : Text) (deps : List Text)
      → get k pending ≡ some deps
      → (t : AgentTask) × Elem t tasks × (t.role ≡ k) × (t.depends_on ≡ deps)

pub Elem-roles : (t : AgentTask) (ts : List AgentTask) → Elem t ts → Elem t.role (roles ts)
Elem-roles t (u ∷ ts) (inl e) = inl (ap (λ (x : AgentTask). x.role) e)
Elem-roles t (u ∷ ts) (inr m) = inr (Elem-roles t ts m)
Elem-roles t [] m = elim m [ ]

pub roles-Elem :
    (k : Text) (ts : List AgentTask)
    → Elem k (roles ts)
    → (t : AgentTask) × Elem t ts × (t.role ≡ k)
roles-Elem k (u ∷ ts) (inl e) = (u, inl refl, sym e)
roles-Elem k (u ∷ ts) (inr m) = let (t, n, e) = roles-Elem k ts m in (t, inr n, e)
roles-Elem k [] m = elim m [ ]

pending_of-covers :
    (ts : List AgentTask) (k : Text) → Elem k (roles ts) → is_some (get k (pending_of ts)) ≡ true
unfolding get
pending_of-covers (t ∷ ts) k (inl e) = ground (arith, text_eq_iff t.role k)
pending_of-covers (t ∷ ts) k (inr m) = ground (arith, pending_of-covers ts k m)
pending_of-covers [] k m = elim m [ ]

pending_of-faithful :
    (ts : List AgentTask) (k : Text) (deps : List Text)
    → get k (pending_of ts) ≡ some deps
    → (t : AgentTask) × Elem t ts × (t.role ≡ k) × (t.depends_on ≡ deps)
unfolding get
pending_of-faithful [] k deps e = cc
pending_of-faithful (t ∷ ts) k deps e = elim (Bool-cases (text_eq t.role k)) [
  | inl same ↦ (t, inl refl, (text_eq_iff t.role k).0 same, ground arith)
  | inr other' ↦
      let e' : get k (pending_of ts) ≡ some deps = ground arith in
      let (u, m, p, q) = pending_of-faithful ts k deps e' in (u, inr m, p, q)
]

pub start-Waits : (ts : List AgentTask) → Waits ts [] (pending_of ts)
unfolding has
start-Waits ts = record {
  covered = λ k m. inl (pending_of-covers ts k m);
  apart = λ k e. refl;
  faithful = pending_of-faithful ts;
}

-- A round moves the ready roles, and keeps the state.
pub round-Waits :
    (ts : List AgentTask) (resolved ready : List Text) (pending : Dict (List Text))
    → Waits ts resolved pending
    → Waits ts (resolved ++ ready) (del_all ready pending)
round-Waits ts resolved ready pending w = record {
  covered = λ k m. elim (Bool-cases (has k ready)) [
    | inl moved ↦ inr (Elem-append_right k resolved ready ((has_iff k ready).0 moved))
    | inr stays ↦ elim (w.covered k m) [
      | inl waits ↦ inl (rw (get-del_all ready k pending, stays) waits)
      | inr done ↦ inr (Elem-append_left k resolved ready done)
    ]
  ];
  apart =
      λ k e. ground (arith, get-del_all ready k pending, has-append k resolved ready, w.apart k);
  faithful = λ k deps e. w.faithful k deps (ground (arith, get-del_all ready k pending));
}

ready_waits :
    (resolved : List Text) (pending : Dict (List Text)) (k : Text)
    → is_ready resolved pending k ≡ true
    → is_some (get k pending) ≡ true
unfolding is_ready
ready_waits resolved pending k h = ground arith

del_all_shrinks :
    (ready : List Text) (pending : Dict (List Text))
    → null_list ready ≡ false
    → ((k : Text) → Elem k ready → is_some (get k pending) ≡ true)
    → length (del_all ready pending) < length pending
unfolding del_all
del_all_shrinks [] pending e h = cc
del_all_shrinks (k ∷ ks) pending e h =
    omega (arith, length-del_lt k pending (h k (inl refl)), length-del_all_le ks (del k pending))

-- A round that finds a ready role makes `pending` shorter.
pub round_shrinks :
    (task_order resolved : List Text) (pending : Dict (List Text))
    → null_list (ready_roles task_order resolved pending) ≡ false
    → length (del_all (ready_roles task_order resolved pending) pending) < length pending
unfolding ready_roles
round_shrinks task_order resolved pending h =
    del_all_shrinks (ready_roles task_order resolved pending) pending h
      λ k m. ready_waits resolved pending k (Elem-keep _ k task_order m).1

-- The bound is enough: with a bound that `pending` does not exceed, the loop never runs out of it.
rounds_enough :
    (bound : ℕ) (task_order resolved : List Text) (pending : Dict (List Text)) (stage_id : ℕ)
    → length pending ≤ bound
    → rounds bound task_order resolved pending stage_id ≢ raise out_of_rounds
unfolding rounds
rounds_enough bound task_order resolved [] stage_id h = λ e. cc
rounds_enough zero task_order resolved (p ∷ ps) stage_id h = absurd (omega arith)
rounds_enough (suc bound) task_order resolved (p ∷ ps) stage_id h =
    let ready = ready_roles task_order resolved (p ∷ ps) in
    elim (Bool-cases (null_list ready)) [
      | inl stuck ↦ rw stuck (λ e. cc)
      | inr moves ↦
          let shrinks = round_shrinks task_order resolved (p ∷ ps) moves in
          rw moves λ e.
            rounds_enough bound task_order (resolved ++ ready) (del_all ready (p ∷ ps))
              (stage_id + 1) (omega arith) (map-eq-raise _ _ _ e)
    ]

pub length-pending_of : (ts : List AgentTask) → length (pending_of ts) ≡ length ts
length-pending_of [] = refl
length-pending_of (t ∷ ts) = ap suc (length-pending_of ts)

check_known-ne :
    (known : List Text) (role : Text) (ds : List Text)
    → check_known known role ds ≢ some out_of_rounds
unfolding check_known
check_known-ne known role [] = λ e. cc
check_known-ne known role (d ∷ ds) = ground (arith, check_known-ne known role ds)

check_tasks-ne :
    (known : List Text) (ts : List AgentTask) → check_tasks known ts ≢ some out_of_rounds
unfolding check_tasks
check_tasks-ne known [] = λ e. cc
check_tasks-ne known (t ∷ ts) =
    ground (arith, check_tasks-ne known ts, check_known-ne known t.role t.depends_on)

-- `resolve_stages` ends: the number of tasks is a bound on the rounds that is never exceeded.
pub resolve_stages_ends : (ts : List AgentTask) → resolve_stages ts ≢ raise out_of_rounds
unfolding resolve_stages
resolve_stages_ends ts = ground (
  arith,
  check_tasks-ne (roles ts) ts,
  length-pending_of ts,
  rounds_enough (length ts) (roles ts) [] (pending_of ts) 0,
)
