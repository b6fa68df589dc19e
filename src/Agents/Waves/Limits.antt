-- ===== src/Agents/Waves/Limits.antt =====
-- How much a dynamic run can spend.
use neuralhub.Base.{
  ℕ, zero, suc, ◌+◌, ◌*◌, ◌≤◌, ◌≡◌, refl, inl, inr, true, false, List, [], ◌∷◌, arith, ltb,
  Bool-cases, Option-cases, length, Text, put, Result, ok, raise, ok-injective, length-put_le,
  Result-cases,
}
use neuralhub.Agents.Contract.{AgentResult}
use neuralhub.Agents.Dag.{TaskSpec, Results}
use neuralhub.Agents.Waves.{
  Planner, DynamicOrchestratorConfig, Waves, spawn_more, finish, validate_wave, coerce_wave_result,
  results_from, run_wave, update_all, wave_loop, run_waves,
}

-- The loop ends after at most `left` further waves, with at most `limit` further results for each of
-- them, and with tasks that are left only if all the waves are used up.
pub record IsLimited (limit left executed known : ℕ) (w : Waves) : Type 0 where
  pub used : ℕ
  pub waves : w.waves_executed ≡ executed + used
  pub within : used ≤ left
  pub results : length w.all_results ≤ known + limit * used
  pub breaker : w.circuit_breaker_hit ≡ true → used ≡ left

one_more : (limit used : ℕ) → limit * (used + 1) ≡ limit * used + limit
one_more limit used = omega arith

nothing_used :
    (left executed : ℕ) {limit : ℕ} (known : Results)
    → IsLimited limit left executed
        (length known)
        (record { waves_executed = executed; circuit_breaker_hit = false; all_results = known })
nothing_used left executed known = record {
  used = 0;
  waves = omega arith;
  within = omega arith;
  results = omega arith;
  breaker = λ h. cc;
}

module _ (show_int : ℕ → Text) (runner : TaskSpec → Result AgentResult) where
  length-results_from :
      (ts : List TaskSpec) (d : Results)
      → length (results_from show_int runner d ts) ≤ length d + length ts
  unfolding results_from
  length-results_from [] d = omega arith
  length-results_from (t ∷ ts) d =
      let r = coerce_wave_result show_int t (runner t) in
      omega (arith, length-results_from ts (put t.id r d), length-put_le t.id r d)

  length-update_all :
      (ps d : Results) → length (update_all show_int runner d ps) ≤ length d + length ps
  unfolding update_all
  length-update_all [] d = omega arith
  length-update_all (p ∷ ps) d =
      omega (arith, length-update_all ps (put p.0 p.1 d), length-put_le p.0 p.1 d)

  wave_limit :
      (ts : List TaskSpec) (limit : ℕ) (rs : Results)
      → run_wave show_int runner ts limit ≡ ok rs
      → length rs ≤ limit
  unfolding run_wave validate_wave
  wave_limit ts limit rs e = elim (Option-cases (validate_wave show_int ts limit)) [
    | inr (x, f) ↦ let c : raise x ≡ ok rs = rw (run_wave, f) at e in cc
    | inl f ↦
        let same : results_from show_int runner [] ts ≡ rs = ok-injective (rw (run_wave, f) at e) in
        let few : length ts ≤ limit = elim (Bool-cases (ltb limit (length ts))) [
          | inl g ↦ let c = rw (validate_wave, g) at f in cc
          | inr g ↦ ground arith
        ] in
        rw (← same) (omega (arith, length-results_from ts []))
  ]

  module _ (planner : Planner) (config : DynamicOrchestratorConfig) where
    loop-IsLimited :
        (left : ℕ) (ts : List TaskSpec) (executed : ℕ) (known : Results) (w : Waves)
        → wave_loop show_int runner planner config left ts executed known ≡ ok w
        → IsLimited config.max_concurrent left executed (length known) w
    unfolding wave_loop
    loop-IsLimited zero [] executed known w e =
        rw (← ok-injective e) (nothing_used zero executed known)
    loop-IsLimited (suc left) [] executed known w e =
        rw (← ok-injective e) (nothing_used (suc left) executed known)
    loop-IsLimited zero (t ∷ ts) executed known w e = rw (← ok-injective e) (record {
      used = 0;
      waves = omega arith;
      within = omega arith;
      results = omega arith;
      breaker = λ h. refl;
    })
    loop-IsLimited (suc left) (t ∷ ts) executed known w e =
        elim (Result-cases (run_wave show_int runner (t ∷ ts) config.max_concurrent)) [
          | inr (x, f) ↦ let c : raise x ≡ ok w = rw (wave_loop, f) at e in cc
          | inl (rs, f) ↦
              let all = update_all show_int runner known rs in
              let grown : length all ≤ length known + config.max_concurrent = omega (
                arith,
                length-update_all rs known,
                wave_limit (t ∷ ts) config.max_concurrent rs f,
              ) in
              elim (Result-cases (planner.decide (executed + 1) rs all)) [
                | inr (x, g) ↦ let c : raise x ≡ ok w = rw (wave_loop, f, g) at e in cc
                | inl (spawn_more next_tasks, g) ↦
                    let rest =
                      loop-IsLimited left next_tasks (executed + 1) all w
                        (rw (wave_loop, f, g) at e) in
                    record {
                      used = rest.used + 1;
                      waves = omega (arith, rest.waves);
                      within = omega (arith, rest.within);
                      results =
                          omega
                            (arith, rest.results, one_more config.max_concurrent rest.used, grown);
                      breaker = λ h. let b = rest.breaker h in omega arith;
                    }
                | inl (finish, g) ↦ rw (← ok-injective (rw (wave_loop, f, g) at e)) (record {
                  used = 1;
                  waves = refl;
                  within = omega arith;
                  results = omega (arith, grown, one_more config.max_concurrent 0);
                  breaker = λ h. cc;
                })
              ]
        ]

    -- A dynamic run has at most `max_waves` waves and, over all of them, at most `max_concurrent` results
    -- for each wave; it ends with tasks that are left only after `max_waves` waves.
    pub run_waves-IsLimited :
        (w : Waves)
        → run_waves show_int runner planner config ≡ ok w
        → IsLimited config.max_concurrent config.max_waves 0 0 w
    unfolding run_waves
    run_waves-IsLimited w e = elim (Result-cases planner.initial_wave) [
      | inr (x, f) ↦ let c : raise x ≡ ok w = rw (run_waves, f) at e in cc
      | inl (ts, f) ↦ loop-IsLimited config.max_waves ts 0 [] w (rw (run_waves, f) at e)
    ]
