-- ===== src/Tests/StageTests.antt =====
-- `resolve_stages` of backend/common/types/sub_agent.py on a small plan.
use neuralhub.Base.{
  ℕ, ◌<◌, ◌≡◌, refl, ap, ◌≢◌, ◌↔◌, inl, inr, List, [], ◌∷◌, arith, if◌then◌else◌, Elem, keep, Text,
  codes, text_eq, has, subset, distinct, get, del, ok, raise, del_all,
}
use mathlib.Core.Path.{subst}
use neuralhub.Agents.Stages.{
  AgentTask, ResolvedStage, roles, cycle_error, out_of_rounds, rounds, resolve_stages, readonly,
  check_known, is_ready, ready_roles, check_tasks,
}
use neuralhub.Agents.Stages.Rounds.{resolve_stages_ends}
use neuralhub.Agents.Stages.Layers.{placed, IsLayered, resolve_stages-IsLayered}
use neuralhub.Agents.Stages.Cycles.{IsAcyclic, resolve_stages_total}

abbrev task_for : (role : Text) (depends_on : List Text) → AgentTask
task_for r ds = record {
  role = r;
  task = codes "work";
  permission = readonly;
  allowed_tools = [];
  depends_on = ds;
}

-- `b` needs `a`, and `c` needs both.
abbrev diamond : List AgentTask
diamond =
    task_for (codes "c") (codes "a" ∷ codes "b" ∷ [])
    ∷ task_for (codes "a") []
    ∷ task_for (codes "b") (codes "a" ∷ [])
    ∷ []

abbrev diamond_stages : List ResolvedStage
diamond_stages =
    record { stage_id = 0; task_roles = codes "a" ∷ [] }
    ∷ record { stage_id = 1; task_roles = codes "b" ∷ [] }
    ∷ record { stage_id = 2; task_roles = codes "c" ∷ [] }
    ∷ []

diamond_resolves : resolve_stages diamond ≡ ok diamond_stages
unfolding resolve_stages rounds distinct has text_eq check_tasks check_known ready_roles keep
    is_ready get subset del_all del
diamond_resolves = refl

two_in_a_circle :
    resolve_stages
      (task_for (codes "a") (codes "b" ∷ []) ∷ task_for (codes "b") (codes "a" ∷ []) ∷ [])
    ≡ raise cycle_error
unfolding resolve_stages rounds distinct has text_eq check_tasks check_known ready_roles keep
    is_ready get subset
two_in_a_circle = refl

resolve_stages-IsLayered_example :
    IsLayered diamond [] 0 diamond_stages
    × ((k : Text) → Elem k (roles diamond) ↔ Elem k (placed diamond_stages))
resolve_stages-IsLayered_example = resolve_stages-IsLayered diamond diamond_stages diamond_resolves

resolve_stages_ends_example : resolve_stages diamond ≢ raise out_of_rounds
resolve_stages_ends_example = resolve_stages_ends diamond

abbrev chain : List AgentTask
chain = task_for (codes "b") (codes "a" ∷ []) ∷ task_for (codes "a") [] ∷ []

-- The rank counts the dependencies.
abbrev chain_rank : Text → ℕ
chain_rank k = if text_eq k (codes "a") then 0 else 1

head_of : (d : Text) → Elem d (codes "a" ∷ []) → d ≡ codes "a"
head_of d (inl e) = e
head_of d (inr x) = elim x [ ]

chain_edge :
    (t : AgentTask) (d : Text)
    → Elem t chain
    → Elem d t.depends_on
    → (t.role ≡ codes "b") × (d ≡ codes "a")
chain_edge t d (inl e) m = (
  ap (λ (x : AgentTask). x.role) e,
  head_of d (subst (λ (x : AgentTask). Elem d x.depends_on) e m),
)
chain_edge t d (inr (inl e)) m = elim (subst (λ (x : AgentTask). Elem d x.depends_on) e m) [ ]
chain_edge t d (inr (inr x)) m = elim x [ ]

chain_known : (t : AgentTask) (d : Text) → Elem t chain → Elem d t.depends_on → Elem d (roles chain)
chain_known t d m n = let (r, e) = chain_edge t d m n in inr (inl e)

chain_falls :
    (t : AgentTask) (d : Text)
    → Elem t chain
    → Elem d t.depends_on
    → chain_rank d < chain_rank t.role
unfolding text_eq
chain_falls t d m n = let (r, e) = chain_edge t d m n in rw (r, e) (omega arith)

chain-IsAcyclic : IsAcyclic chain chain_rank
unfolding distinct has text_eq
chain-IsAcyclic = record {
  some_tasks = refl;
  nodup = refl;
  known = chain_known;
  falls = chain_falls;
}

resolve_stages_total_example : (stages : List ResolvedStage) × (resolve_stages chain ≡ ok stages)
resolve_stages_total_example = resolve_stages_total chain chain_rank chain-IsAcyclic
