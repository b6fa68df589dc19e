-- ===== src/Agents/Stages.antt =====
-- backend/common/types/sub_agent.py: `resolve_stages`, Kahn's algorithm by layers. The set
-- `resolved` is the list of its members, and the dictionary `pending` maps a role to its
-- dependencies. A round removes at least one role, so the number of tasks bounds the rounds.
pub mod Rounds
pub mod Layers
pub mod Cycles
use neuralhub.Base.{
  ℕ, zero, suc, ◌+◌, Bool, true, false, not, Option, none, some, List, [], ◌∷◌, ◌++◌, if◌then◌else◌,
  length, keep, Text, codes, has, subset, distinct, Dict, get, Exception, value_error, other,
  Result, ok, raise, ◌>>=◌, del_all,
}

pub data PermissionLevel : Type 0 where
  readonly readwrite : PermissionLevel

pub record AgentTask : Type 0 where
  pub role : Text
  pub task : Text
  pub permission : PermissionLevel
  pub allowed_tools : List Text
  pub depends_on : List Text

pub record ResolvedStage : Type 0 where
  pub stage_id : ℕ
  pub task_roles : List Text

abbrev pub roles : List AgentTask → List Text
roles [] = []
roles (t ∷ ts) = t.role ∷ roles ts

abbrev pub empty_error : Exception
empty_error = value_error (codes "tasks 至少包含一个任务")

abbrev pub duplicate_error : Exception
duplicate_error = value_error (codes "tasks 中的 role 不能重复")

abbrev pub cycle_error : Exception
cycle_error = value_error (codes "任务依赖存在循环，无法推导执行阶段")

-- No exception of the program: the value of the loop when its bound is too small.
abbrev pub out_of_rounds : Exception
out_of_rounds = other (codes "out of rounds")

abbrev pub self_error : Text → Exception
self_error role = value_error (codes "任务 " ++ role ++ codes " 不能依赖自己")

abbrev pub unknown_error : (role dependency : Text) → Exception
unknown_error role dependency =
    value_error (codes "任务 " ++ role ++ codes " 依赖了不存在的角色: " ++ dependency)

-- The inner loop over `task.depends_on`.
unfoldable pub check_known : (known : List Text) (role : Text) → List Text → Option Exception
check_known known role [] = none
check_known known role (d ∷ ds) =
    let rest = check_known known role ds in
    if has d known then rest else some (unknown_error role d)

-- The loop that refuses a task which depends on itself or on an unknown role.
unfoldable pub check_tasks : (known : List Text) → List AgentTask → Option Exception
check_tasks known [] = none
check_tasks known (t ∷ ts) =
    let rest = check_tasks known ts in
    if has t.role t.depends_on
    then some (self_error t.role)
    else elim (check_known known t.role t.depends_on) [ some e ↦ some e | none ↦ rest ]

abbrev pub pending_of : List AgentTask → Dict (List Text)
pending_of [] = []
pending_of (t ∷ ts) = (t.role, t.depends_on) ∷ pending_of ts

-- `role_name in pending and pending[role_name].issubset(resolved)`.
unfoldable pub is_ready : (resolved : List Text) (pending : Dict (List Text)) → Text → Bool
is_ready resolved pending role = elim (get role pending) [
  | none ↦ false
  | some deps ↦ subset deps resolved
]

unfoldable pub ready_roles :
    (task_order resolved : List Text) (pending : Dict (List Text)) → List Text
ready_roles task_order resolved pending = keep (is_ready resolved pending) task_order

abbrev pub null_list {ℓ} : {A : Type ℓ} → List A → Bool
null_list [] = true
null_list (_ ∷ _) = false

-- The `while pending` loop. `stages.append` puts the stage in front of what the later rounds give.
unfoldable pub rounds :
    (bound : ℕ) (task_order resolved : List Text) (pending : Dict (List Text)) (stage_id : ℕ)
    → Result (List ResolvedStage)
rounds bound task_order resolved [] stage_id = ok []
rounds zero task_order resolved (p ∷ ps) stage_id = raise out_of_rounds
rounds (suc bound) task_order resolved (p ∷ ps) stage_id =
    let ready = ready_roles task_order resolved (p ∷ ps) in
    let rest =
      rounds bound task_order (resolved ++ ready) (del_all ready (p ∷ ps)) (stage_id + 1) in
    if null_list ready
    then raise cycle_error
    else rest >>= λ stages. ok (record { stage_id = stage_id; task_roles = ready } ∷ stages)

unfoldable pub resolve_stages : List AgentTask → Result (List ResolvedStage)
resolve_stages tasks =
    if null_list tasks
    then raise empty_error
    else if not (distinct (roles tasks))
    then raise duplicate_error
    else elim (check_tasks (roles tasks) tasks) [
      | some e ↦ raise e
      | none ↦ rounds (length tasks) (roles tasks) [] (pending_of tasks) 0
    ]
