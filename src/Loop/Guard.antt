-- ===== src/Loop/Guard.antt =====
-- backend/core/s01_agent_loop/agent_loop_guard.py: `AgentLoopGuard` gives a prompt to a run that has
-- taken many iterations, and one to its last iteration.
use neuralhub.Base.{
  ℕ, zero, suc, ◌+◌, ◌≤◌, ◌<◌, max, ◌≡◌, refl, inl, inr, Bool, true, false, not, ◌&&◌, Option, none,
  some, List, [], ◌∷◌, ◌++◌, arith, leb, if◌then◌else◌, Bool-cases, Text, codes, join,
}

pub data GuardKind : Type 0 where
  dead_end_reflection final_convergence : GuardKind

pub record LoopGuardPrompt : Type 0 where
  pub kind : GuardKind
  pub content : Text

pub record AgentLoopGuard : Type 0 where
  pub max_iterations : ℕ
  pub dead_end_iteration : ℕ
  pub dead_end_emitted : Bool
  pub final_emitted : Bool

-- `AgentLoopGuard(config)`, from the two numbers of the configuration.
unfoldable pub new_guard : (max_iterations dead_end_reflection_iteration : ℕ) → AgentLoopGuard
new_guard max_iterations dead_end = record {
  max_iterations = max 1 max_iterations;
  dead_end_iteration = max 1 dead_end;
  dead_end_emitted = false;
  final_emitted = false;
}

module _ (show_int : ℕ → Text) where
  unfoldable pub dead_end_reflection_prompt : (iteration : ℕ) → Text
  unfolding join
  dead_end_reflection_prompt iteration = join (codes "\n") (
      codes "[死胡同反思]"
      ∷ (codes "你已经进行了 " ++ show_int iteration ++ codes " 轮思考/工具调用，继续重复探索的收益可能很低。")
      ∷ codes "请先停下来判断：当前是否卡在错误路径、无关细节、重复读取、重复失败或目标不清。"
      ∷ codes "下一步只能选择一种策略："
      ∷ codes "1. 明确换策略：换工具、换参数、缩小范围，说明为什么新策略不同。"
      ∷ codes "2. 已有信息足够：停止调用工具，直接输出阶段性结论或最终答案。"
      ∷ codes "3. 信息不足且无法推进：明确说明卡点，并向用户提出一个具体问题。"
      ∷ codes "不要继续进行没有新增信息的读取、搜索或重试。"
      ∷ codes "必须继续遵守本次任务原有的输出协议和格式；"
      ∷ codes "如果原任务要求 JSON、代码块或固定模板，最终输出仍必须使用该格式。"
      ∷ [])

  unfoldable pub final_convergence_prompt : (iteration max_iterations : ℕ) → Text
  unfolding join
  final_convergence_prompt iteration max_iterations = join (codes "\n") (
      codes "[最终收口提示]"
      ∷ (codes "这是第 "
          ++ show_int iteration
          ++ codes "/"
          ++ show_int max_iterations
          ++ codes " 轮，已经到达本次 AgentLoop 的执行上限。")
      ∷ codes "本轮必须优先收口：如果没有绝对必要，不要再调用工具。"
      ∷ codes "请基于已有上下文给出最可靠的结论；如仍不能完成，说明已尝试路径、失败原因和下一步建议。"
      ∷ codes "必须继续遵守本次任务原有的输出协议和格式；"
      ∷ codes "如果原任务要求 JSON、代码块或固定模板，最终输出仍必须使用该格式。"
      ∷ [])

  -- `remaining <= 0` is `max_iterations <= iteration`.
  unfoldable pub prompt_for_iteration :
      AgentLoopGuard → (iteration : ℕ) → AgentLoopGuard × Option LoopGuardPrompt
  unfolding final_convergence_prompt dead_end_reflection_prompt
  prompt_for_iteration g iteration =
      if leb g.max_iterations iteration && not g.final_emitted
      then (
        record g { final_emitted = true },
        some (record {
          kind = final_convergence;
          content = final_convergence_prompt iteration g.max_iterations;
        }),
      )
      else if leb g.dead_end_iteration iteration && not g.dead_end_emitted
      then (
        record g { dead_end_emitted = true },
        some
            (record { kind = dead_end_reflection; content = dead_end_reflection_prompt iteration }),
      )
      else (g, none)

  abbrev pub kind_of : Option LoopGuardPrompt → Option GuardKind
  kind_of none = none
  kind_of (some p) = some p.kind

  -- The kinds of the prompts of `count` iterations from `iteration` on.
  unfoldable pub kinds_from : AgentLoopGuard → (iteration count : ℕ) → List (Option GuardKind)
  unfolding prompt_for_iteration
  kinds_from g iteration zero = []
  kinds_from g iteration (suc n) =
      let (g', prompt) = prompt_for_iteration g iteration in
      kind_of prompt ∷ kinds_from g' (iteration + 1) n

  abbrev pub is_kind : GuardKind → Option GuardKind → Bool
  is_kind dead_end_reflection (some dead_end_reflection) = true
  is_kind final_convergence (some final_convergence) = true
  is_kind _ _ = false

  unfoldable pub occurrences : GuardKind → List (Option GuardKind) → ℕ
  occurrences k [] = 0
  occurrences k (x ∷ xs) = let n = occurrences k xs in if is_kind k x then n + 1 else n

  -- No prompt of a kind is given once it is marked, and else at most one is.
  final_limit :
      (n : ℕ) (g : AgentLoopGuard) (i : ℕ)
      → occurrences final_convergence (kinds_from g i n) ≤ (if g.final_emitted then 0 else 1)
  unfolding kinds_from occurrences prompt_for_iteration
  final_limit zero g i = ground arith
  final_limit (suc n) g i =
      let rest = final_limit n (prompt_for_iteration g i).0 (i + 1) in ground arith

  dead_end_limit :
      (n : ℕ) (g : AgentLoopGuard) (i : ℕ)
      → occurrences dead_end_reflection (kinds_from g i n) ≤ (if g.dead_end_emitted then 0 else 1)
  unfolding kinds_from occurrences prompt_for_iteration
  dead_end_limit zero g i = ground arith
  dead_end_limit (suc n) g i =
      let rest = dead_end_limit n (prompt_for_iteration g i).0 (i + 1) in ground arith

  final_at :
      (n : ℕ) (g : AgentLoopGuard) (i : ℕ)
      → g.final_emitted ≡ false
      → i ≤ g.max_iterations
      → g.max_iterations < i + n
      → occurrences final_convergence (kinds_from g i n) ≡ 1
  unfolding kinds_from occurrences prompt_for_iteration
  final_at zero g i f a b = ground arith
  final_at (suc n) g i f a b =
      let g' = (prompt_for_iteration g i).0 in
      elim (Bool-cases (leb g.max_iterations i)) [
        | inl e ↦
            let rest = final_limit n (record g { final_emitted = true }) (i + 1) in ground arith
        | inr e ↦
            let same : (g'.final_emitted ≡ false) × (g'.max_iterations ≡ g.max_iterations) =
              ground arith in
            let rest = final_at n g' (i + 1) same.0 (ground arith) (ground arith) in ground arith
      ]

  -- The guard of a run that goes through all its iterations gives the final prompt exactly once, and
  -- the reflection at most once, if the run has at least one iteration.
  pub kinds_once :
      (max_iterations dead_end : ℕ)
      → 0 < max_iterations
      → let kinds = kinds_from (new_guard max_iterations dead_end) 1 max_iterations in
        (occurrences final_convergence kinds ≡ 1) × (occurrences dead_end_reflection kinds ≤ 1)
  unfolding new_guard
  kinds_once max_iterations dead_end h = (
    final_at max_iterations (new_guard max_iterations dead_end) 1 refl (omega arith) (omega arith),
    dead_end_limit max_iterations (new_guard max_iterations dead_end) 1,
  )
