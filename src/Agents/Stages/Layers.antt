-- ===== src/Agents/Stages/Layers.antt =====
-- What `resolve_stages` returns: every role in exactly one stage, after all that it depends on.
use neuralhub.Base.{
  ℕ, zero, suc, ◌+◌, ◌≡◌, refl, ◌↔◌, inl, inr, true, false, List, [], ◌∷◌, ◌++◌, arith, Bool-cases,
  Option-cases, length, Elem, all, Text, has, subset, distinct, Dict, get, is_some, ok, raise,
  Elem-append_cases, Elem-keep, subset-Elem, ok-injective, keep-distinct, del_all, map-eq-ok,
}
use neuralhub.Agents.Stages.{
  AgentTask, ResolvedStage, roles, pending_of, is_ready, ready_roles, null_list, rounds,
  resolve_stages, cycle_error,
}
use mathlib.Core.List.{append_assoc, append-nil}
use neuralhub.Agents.Stages.Rounds.{Waits, start-Waits, round-Waits, Elem-roles}

abbrev pub placed : List ResolvedStage → List Text
placed [] = []
placed (s ∷ ss) = s.task_roles ++ placed ss

-- The roles of one stage stand in it once, were not seen before, and depend only on roles seen.
pub record IsStage (tasks : List AgentTask) (seen : List Text) (id : ℕ) (s : ResolvedStage)
    : Type 0 where
  pub numbered : s.stage_id ≡ id
  pub non_empty : null_list s.task_roles ≡ false
  pub once : distinct s.task_roles ≡ true
  pub unseen : (k : Text) → Elem k s.task_roles → has k seen ≡ false
  pub after_deps :
      (k : Text)
      → Elem k s.task_roles
      → (t : AgentTask) × Elem t tasks
        × (t.role ≡ k)
        × ((d : Text) → Elem d t.depends_on → Elem d seen)

abbrev pub IsLayered : List AgentTask → List Text → ℕ → List ResolvedStage → Type 0
IsLayered tasks seen id [] = Unit
IsLayered tasks seen id (s ∷ ss) =
    IsStage tasks seen id s × IsLayered tasks (seen ++ s.task_roles) (id + 1) ss

ready-deps :
    (tasks : List AgentTask) (resolved : List Text) (pending : Dict (List Text)) (k : Text)
    → Waits tasks resolved pending
    → is_ready resolved pending k ≡ true
    → (is_some (get k pending) ≡ true)
      × ((t : AgentTask) × Elem t tasks
          × (t.role ≡ k)
          × ((d : Text) → Elem d t.depends_on → Elem d resolved))
unfolding is_ready
ready-deps tasks resolved pending k w h = elim (Option-cases (get k pending)) [
  | inl e ↦ let c : false ≡ true = ground arith in cc
  | inr (deps, e) ↦
      let (t, m, p, q) = w.faithful k deps e in
      let sub : subset deps resolved ≡ true = ground arith in
      (rw e refl, (t, m, p, λ d n. subset-Elem deps resolved sub d (rw q at n)))
]

ready-IsStage :
    (tasks : List AgentTask) (resolved : List Text) (pending : Dict (List Text)) (id : ℕ)
    → Waits tasks resolved pending
    → distinct (roles tasks) ≡ true
    → null_list (ready_roles (roles tasks) resolved pending) ≡ false
    → IsStage tasks resolved id
        (record { stage_id = id; task_roles = ready_roles (roles tasks) resolved pending })
unfolding ready_roles
ready-IsStage tasks resolved pending id w d n = record {
  numbered = refl;
  non_empty = n;
  once = keep-distinct (is_ready resolved pending) (roles tasks) d;
  unseen =
      λ k m. w.apart k (ready-deps tasks resolved pending k w (Elem-keep _ k (roles tasks) m).1).0;
  after_deps = λ k m. (ready-deps tasks resolved pending k w (Elem-keep _ k (roles tasks) m).1).1;
}

nothing : (k : Text) → is_some (get {V = List Text} k []) ≡ true → ⊥
unfolding get
nothing k c = cc

module _ (tasks : List AgentTask) (nodup : distinct (roles tasks) ≡ true) where
  rounds-IsLayered :
      (bound : ℕ) (resolved : List Text) (pending : Dict (List Text)) (id : ℕ)
      (stages : List ResolvedStage)
      → Waits tasks resolved pending
      → rounds bound (roles tasks) resolved pending id ≡ ok stages
      → IsLayered tasks resolved id stages
        × ((k : Text) → Elem k (roles tasks) → Elem k (resolved ++ placed stages))
  unfolding rounds
  rounds-IsLayered bound resolved [] id stages w e =
      rw (← ok-injective e) (
        tt,
        λ k m. rw append-nil (elim (w.covered k m) [ inl c ↦ absurd (nothing k c) | inr r ↦ r ]),
      )
  rounds-IsLayered zero resolved (p ∷ ps) id stages w e = cc
  rounds-IsLayered (suc bound) resolved (p ∷ ps) id stages w e =
      let ready = ready_roles (roles tasks) resolved (p ∷ ps) in
      elim (Bool-cases (null_list ready)) [
        | inl stuck ↦ let c : raise cycle_error ≡ ok stages = rw stuck at e in cc
        | inr moves ↦
            let (rest, r, q) = map-eq-ok _ _ _ (rw moves at e) in
            let (layers, all) =
              rounds-IsLayered bound (resolved ++ ready) (del_all ready (p ∷ ps)) (id + 1) rest
                (round-Waits tasks resolved ready (p ∷ ps) w) r in
            rw (← q) (
              (ready-IsStage tasks resolved (p ∷ ps) id w nodup moves, layers),
              λ k m. rw (← append_assoc) (all k m),
            )
      ]

placed-Elem :
    (tasks : List AgentTask) (seen : List Text) (id : ℕ) (stages : List ResolvedStage) (k : Text)
    → IsLayered tasks seen id stages
    → Elem k (placed stages)
    → Elem k (roles tasks)
placed-Elem tasks seen id [] k l m = elim m [ ]
placed-Elem tasks seen id (s ∷ ss) k (l, ls) m =
    elim (Elem-append_cases k s.task_roles (placed ss) m) [
      | inl here ↦ let (t, n, e, _) = l.after_deps k here in rw (← e) (Elem-roles t tasks n)
      | inr there ↦ placed-Elem tasks (seen ++ s.task_roles) (id + 1) ss k ls there
    ]

pub ok_distinct :
    (tasks : List AgentTask) (stages : List ResolvedStage)
    → resolve_stages tasks ≡ ok stages
    → (distinct (roles tasks) ≡ true)
      × (rounds (length tasks) (roles tasks) [] (pending_of tasks) 0 ≡ ok stages)
unfolding resolve_stages
ok_distinct tasks stages e = (ground arith, ground arith)

-- The stages that `resolve_stages` returns are numbered from 0, none is empty, no role stands twice
-- in them, every dependency of a role stands in an earlier stage, and the roles in them are exactly
-- the roles of the tasks.
pub resolve_stages-IsLayered :
    (tasks : List AgentTask) (stages : List ResolvedStage)
    → resolve_stages tasks ≡ ok stages
    → IsLayered tasks [] 0 stages × ((k : Text) → Elem k (roles tasks) ↔ Elem k (placed stages))
resolve_stages-IsLayered tasks stages e =
    let (nodup, r) = ok_distinct tasks stages e in
    let (layers, all) =
      rounds-IsLayered tasks nodup (length tasks) [] (pending_of tasks) 0 stages (start-Waits tasks)
        r in
    (layers, λ k. (all k, placed-Elem tasks [] 0 stages k layers))
