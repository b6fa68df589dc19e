-- ===== src/Agents/Dag/Stage.antt =====
-- One stage: its loop, the tasks that run together, and the results that are written back.
use neuralhub.Base.{
  ◌≡◌, refl, sym, ap, ◌∙◌, ◌⊎◌, inl, inr, true, false, none, some, List, [], ◌∷◌, Bool-cases,
  Option-cases, Elem, Text, text_eq, text_eq_iff, has, Dict, get, put, get-put, is_some, ok,
  put_keeps, put_present, some-injective,
}
use neuralhub.Agents.Contract.{AgentResult}
use neuralhub.Agents.Stages.{ResolvedStage}
use neuralhub.Agents.Dag.{
  TaskSpec, RunnerOutcome, Results, blocked_result, run_one, run_task, split_stage, gather, update,
  run_stage,
}
use neuralhub.Agents.Dag.Lookups.{
  Agree, Present, blocked_result-Agree, blocked_result-present, run_one-Agree, run_one-present,
}

module _ (runner : TaskSpec → Results → RunnerOutcome) (task_map : Dict TaskSpec) (keys : List Text)
    (before : Results) where
  -- The result is what the task under this key gives, from the results before the stage.
  abbrev pub Fits : Text → AgentResult → Type 0
  Fits k r = (t : TaskSpec) → get k task_map ≡ some t → run_task runner t before ≡ ok r

  pub record IsKept (now : Results) : Type 0 where
    pub outside : (k : Text) → has k keys ≡ false → get k now ≡ get k before
    pub inside : (k : Text) (r : AgentResult) → has k keys ≡ true → get k now ≡ some r → Fits k r

  -- A task of the stage, whose dependencies have results already.
  pub record IsReady (t : TaskSpec) : Type 0 where
    pub in_stage : has t.id keys ≡ true
    pub mapped : get t.id task_map ≡ some t
    pub earlier : (d : Text) → Elem d t.depends_on → has d keys ≡ false
    pub present : Present t.depends_on before

  ready-Agree :
      (t : TaskSpec) (now : Results) → IsReady t → IsKept now → Agree t.depends_on now before
  ready-Agree t now ready kept d m = kept.outside d (ready.earlier d m)

  put-IsKept :
      (k : Text) (r : AgentResult) (now : Results)
      → has k keys ≡ true
      → Fits k r
      → IsKept now
      → IsKept (put k r now)
  put-IsKept k r now m f kept = record {
    outside = λ j n.
        let g = get-put k j r now in
        let apart = text_eq_iff k j in
        let o = kept.outside j n in
        elim (Bool-cases (text_eq k j)) [
          | inl e ↦ let same = apart.0 e in let c : true ≡ false = sym m ∙ (rw same n) in cc
          | inr e ↦ g ∙ (rw e o)
        ];
    inside = λ j x n e.
        let g = get-put k j r now in
        elim (Bool-cases (text_eq k j)) [
          | inl same ↦
              let own : some r ≡ some x = (sym (g ∙ rw same refl)) ∙ e in
              let eq : r ≡ x = some-injective own in
              λ t h. rw (← eq) (f t (rw ((text_eq_iff k j).0 same) h))
          | inr other_key ↦ kept.inside j x n (sym (g ∙ rw other_key refl) ∙ e)
        ];
  }

  same_task : (t u : TaskSpec) → get t.id task_map ≡ some t → get t.id task_map ≡ some u → t ≡ u
  same_task t u a b = some-injective (sym a ∙ b)

  blocked-Fits :
      (t : TaskSpec) (r : AgentResult)
      → IsReady t
      → blocked_result t before ≡ ok (some r)
      → Fits t.id r
  unfolding run_task
  blocked-Fits t r ready e u h = rw (← same_task t u ready.mapped h) (rw (run_task, e) refl)

  ran-Fits :
      (t : TaskSpec) (r : AgentResult)
      → IsReady t
      → blocked_result t before ≡ ok none
      → run_one runner t before ≡ ok (t.id, r)
      → Fits t.id r
  unfolding run_task
  ran-Fits t r ready e f u h =
      let own : run_task runner t before ≡ ok r = rw (run_task, e, f) refl in
      ap (λ v. run_task runner v before) (sym (same_task t u ready.mapped h)) ∙ own

  -- The tasks that the loop lets run.
  pub record Runs (t : TaskSpec) : Type 0 where
    pub ready : IsReady t
    pub unblocked : blocked_result t before ≡ ok none

  pub record IsSplit (ks : List Text) (now : Results) (s : List TaskSpec × Results) : Type 0 where
    pub kept : IsKept s.1
    pub runs : (t : TaskSpec) → Elem t s.0 → Runs t
    pub keeps : (k : Text) → is_some (get k now) ≡ true → is_some (get k s.1) ≡ true
    pub placed :
        (k : Text)
        → Elem k ks
        → (is_some (get k s.1) ≡ true) ⊎ ((t : TaskSpec) × Elem t s.0 × (t.id ≡ k))

  split_stage-IsSplit :
      (ks : List Text) (now : Results)
      → ((k : Text) → Elem k ks → (t : TaskSpec) × IsReady t × (t.id ≡ k))
      → IsKept now
      → (s : List TaskSpec × Results) × (split_stage runner task_map now ks ≡ ok s)
        × IsSplit ks now s
  unfolding split_stage
  split_stage-IsSplit [] now ready kept = (
    ([], now),
    refl,
    record { kept = kept; runs = λ t m. elim m [ ]; keeps = λ k h. h; placed = λ k m. elim m [ ] },
  )
  split_stage-IsSplit (k ∷ ks) now ready kept =
      let (t, is_ready_t, e) = ready k (inl refl) in
      let found : get k task_map ≡ some t = rw (← e) is_ready_t.mapped in
      let agree = ready-Agree t now is_ready_t kept in
      let (b, eb) = blocked_result-present t before is_ready_t.present in
      let ebn : blocked_result t now ≡ ok b = blocked_result-Agree t now before agree ∙ eb in
      elim (Option-cases b) [
        | inl n ↦
            let (s, es, split) = split_stage-IsSplit ks now (λ j m. ready j (inr m)) kept in
            (
              (t ∷ s.0, s.1),
              rw (split_stage, found, ebn, n, es) refl,
              record {
                kept = split.kept;
                runs = λ u m. elim m [
                  | inl eq ↦ rw eq (record { ready = is_ready_t; unblocked = eb ∙ ap ok n })
                  | inr m' ↦ split.runs u m'
                ];
                keeps = split.keeps;
                placed = λ j m. elim m [
                  | inl eq ↦ inr (t, inl refl, e ∙ sym eq)
                  | inr m' ↦ elim (split.placed j m') [
                    | inl h ↦ inl h
                    | inr (u, p, q) ↦ inr (u, inr p, q)
                  ]
                ];
              },
            )
        | inr (r, n) ↦
            let fits = blocked-Fits t r is_ready_t (rw n at eb) in
            let now' = put t.id r now in
            let kept' = put-IsKept t.id r now is_ready_t.in_stage fits kept in
            let (s, es, split) = split_stage-IsSplit ks now' (λ j m. ready j (inr m)) kept' in
            (
              s,
              rw (split_stage, found, ebn, n) es,
              record {
                kept = split.kept;
                runs = split.runs;
                keeps = λ j h. split.keeps j (put_keeps t.id j r now h);
                placed = λ j m. elim m [
                  | inl eq ↦ inl (split.keeps j (rw eq (rw (← e) (put_present t.id r now))))
                  | inr m' ↦ split.placed j m'
                ];
              },
            )
      ]

  pub record IsGathered (ts : List TaskSpec) (pairs : Results) : Type 0 where
    pub fitting : (p : Text × AgentResult) → Elem p pairs → (has p.0 keys ≡ true) × Fits p.0 p.1
    pub complete : (t : TaskSpec) → Elem t ts → (r : AgentResult) × Elem (t.id, r) pairs

  gather-IsGathered :
      (ts : List TaskSpec) (now : Results)
      → ((t : TaskSpec) → Elem t ts → Runs t)
      → IsKept now
      → (pairs : Results) × (gather runner ts now ≡ ok pairs) × IsGathered ts pairs
  unfolding gather
  gather-IsGathered [] now runs kept =
      ([], refl, record { fitting = λ p m. elim m [ ]; complete = λ t m. elim m [ ] })
  gather-IsGathered (t ∷ ts) now runs kept =
      let r = runs t (inl refl) in
      let agree = ready-Agree t now r.ready kept in
      let (x, ex) = run_one-present runner t before r.ready.present in
      let exn = run_one-Agree runner t now before agree ∙ ex in
      let (pairs, ep, rest) = gather-IsGathered ts now (λ u m. runs u (inr m)) kept in
      (
        (t.id, x) ∷ pairs,
        rw (gather, exn, ep) refl,
        record {
          fitting = λ p m. elim m [
            | inl eq ↦ rw eq (r.ready.in_stage, ran-Fits t x r.ready r.unblocked ex)
            | inr m' ↦ rest.fitting p m'
          ];
          complete = λ u m. elim m [
            | inl eq ↦ (x, rw eq (inl refl))
            | inr m' ↦ let (y, n) = rest.complete u m' in (y, inr n)
          ];
        },
      )

  pub record IsUpdated (now : Results) (pairs : Results) (later_on : Results) : Type 0 where
    pub kept : IsKept later_on
    pub keeps : (k : Text) → is_some (get k now) ≡ true → is_some (get k later_on) ≡ true
    pub added : (k : Text) (r : AgentResult) → Elem (k, r) pairs → is_some (get k later_on) ≡ true

  update-IsUpdated :
      (pairs now : Results)
      → ((p : Text × AgentResult) → Elem p pairs → (has p.0 keys ≡ true) × Fits p.0 p.1)
      → IsKept now
      → IsUpdated now pairs (update runner now pairs)
  unfolding update
  update-IsUpdated [] now fits kept = record {
    kept = kept;
    keeps = λ k h. h;
    added = λ k r m. elim m [ ];
  }
  update-IsUpdated (p ∷ ps) now fits kept =
      let (m, f) = fits p (inl refl) in
      let rest =
        update-IsUpdated ps (put p.0 p.1 now) (λ q n. fits q (inr n))
          (put-IsKept p.0 p.1 now m f kept) in
      record {
        kept = rest.kept;
        keeps = λ k h. rest.keeps k (put_keeps p.0 k p.1 now h);
        added = λ k r n. elim n [
          | inl eq ↦ rest.keeps k (rw (ap (λ q. q.0) eq) (put_present p.0 p.1 now))
          | inr n' ↦ rest.added k r n'
        ];
      }

  pub record IsStaged (later_on : Results) : Type 0 where
    pub kept : IsKept later_on
    pub covers : (k : Text) → Elem k keys → is_some (get k later_on) ≡ true

  -- If each task of the stage has all its dependencies before the stage, the stage raises nothing, and
  -- afterwards each of its tasks has the result that the results before the stage determine.
  pub run_stage-IsStaged :
      (stage : ResolvedStage)
      → stage.task_roles ≡ keys
      → ((k : Text) → Elem k keys → (t : TaskSpec) × IsReady t × (t.id ≡ k))
      → IsKept before
      → (later_on : Results) × (run_stage runner task_map before stage ≡ ok later_on)
        × IsStaged later_on
  unfolding run_stage
  run_stage-IsStaged stage e ready kept =
      let (s, es, split) = split_stage-IsSplit keys before ready kept in
      let (pairs, ep, gathered) = gather-IsGathered s.0 s.1 split.runs split.kept in
      let updated = update-IsUpdated pairs s.1 gathered.fitting split.kept in
      (
        update runner s.1 pairs,
        rw (run_stage, e, es, ep) refl,
        record {
          kept = updated.kept;
          covers = λ k m. elim (split.placed k m) [
            | inl h ↦ updated.keeps k h
            | inr (t, n, q) ↦
                let (r, pair) = gathered.complete t n in rw (← q) (updated.added t.id r pair)
          ];
        },
      )
