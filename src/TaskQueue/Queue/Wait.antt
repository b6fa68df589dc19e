-- ===== src/TaskQueue/Queue/Wait.antt =====
-- `wait_for_task_payloads` and `_fail_stuck_tasks` of backend/core/task_queue_support.py. One round
-- of the waiting loop is a function; between two rounds the loop sleeps, and others use the queue.
-- A wait without a limit has no deadline.
use neuralhub.Base.{
  ℕ, suc, ◌≡◌, refl, sym, ap, ◌∙◌, inl, inr, Bool, true, false, not, ◌&&◌, Option, none, some, List,
  [], ◌∷◌, ◌++◌, arith, ltb, if◌then◌else◌, Bool-cases, length, all, Text,
}
use neuralhub.TaskQueue.Payload.{
  TaskPayload, is_running, is_terminal, wait_timeout_error, wait_detached_error, failed,
}
use neuralhub.TaskQueue.Queue.{TaskQueue, get_status}
use neuralhub.TaskQueue.Queue.Recover.{lease_expired, safe_fail}

unfoldable pub should_detach : TaskPayload → (now : ℕ) → Bool
should_detach p now = is_running p.status && not (lease_expired p now)

unfoldable pub fail_stuck_one :
    TaskQueue → (now : ℕ) (task_id : Text) → Option TaskPayload → TaskQueue × List TaskPayload
unfolding should_detach safe_fail get_status
fail_stuck_one q now i none = (q, [])
fail_stuck_one q now i (some p) =
    if is_terminal p.status
    then (q, p ∷ [])
    else if should_detach p now
    then (q, record p { error = wait_detached_error } ∷ [])
    else (let (q', refreshed) = get_status (safe_fail q i wait_timeout_error) i in
        elim refreshed [
          | some r ↦ (q', r ∷ [])
          | none ↦ (q', record p { status = failed; error = wait_timeout_error } ∷ [])
        ])

unfoldable pub fail_stuck_tasks :
    TaskQueue → (now : ℕ) → List (Text × Option TaskPayload) → TaskQueue × List TaskPayload
unfolding fail_stuck_one
fail_stuck_tasks q now [] = (q, [])
fail_stuck_tasks q now (x ∷ xs) =
    let (q', ps) = fail_stuck_one q now x.0 x.1 in
    let (q₂, rest) = fail_stuck_tasks q' now xs in (q₂, ps ++ rest)

-- `[await queue.get_status(task_id) for task_id in task_ids]`, with the ids.
unfoldable pub read_statuses : TaskQueue → List Text → TaskQueue × List (Text × Option TaskPayload)
unfolding get_status
read_statuses q [] = (q, [])
read_statuses q (i ∷ is) =
    let (q', status) = get_status q i in
    let (q₂, rest) = read_statuses q' is in (q₂, (i, status) ∷ rest)

unfoldable pub is_finished : Option TaskPayload → Bool
is_finished none = false
is_finished (some p) = is_terminal p.status

unfoldable pub present : List (Text × Option TaskPayload) → List TaskPayload
present [] = []
present (x ∷ xs) = let rest = present xs in elim x.1 [ none ↦ rest | some p ↦ p ∷ rest ]

-- One round, with the clock at the check of the deadline and at the treatment of stuck tasks: what it returns, or nothing if the loop goes on.
unfoldable pub wait_round :
    TaskQueue
    → (now stuck_at : ℕ) (deadline : Option ℕ) → List Text
    → TaskQueue × Option (List TaskPayload)
unfolding read_statuses is_finished present fail_stuck_tasks
wait_round q now stuck_at deadline ids =
    let (q', statuses) = read_statuses q ids in
    if all (λ x. is_finished x.1) statuses then (q', some (present statuses)) else elim deadline [
      | none ↦ (q', none)
      | some d ↦
          if ltb d now
          then (let (q₂, ps) = fail_stuck_tasks q' stuck_at statuses in (q₂, some ps))
          else (q', none)
    ]

length-read_statuses : (q : TaskQueue) (is : List Text) → length (read_statuses q is).1 ≡ length is
unfolding read_statuses
length-read_statuses q [] = refl
length-read_statuses q (i ∷ is) = ap suc (length-read_statuses (get_status q i).0 is)

finished_present :
    (xs : List (Text × Option TaskPayload))
    → all (λ x. is_finished x.1) xs ≡ true
    → (all (λ p. is_terminal p.status) (present xs) ≡ true) × (length (present xs) ≡ length xs)
unfolding all is_finished present
finished_present [] h = (refl, refl)
finished_present ((i, none) ∷ xs) h = (ground arith, ground arith)
finished_present ((i, some p) ∷ xs) h =
    let (a, b) = finished_present xs (ground arith) in (ground arith, ap suc b)

abbrev pub is_past : (now : ℕ) → Option ℕ → Bool
is_past now none = false
is_past now (some d) = ltb d now

round_done :
    (q : TaskQueue) (now stuck_at : ℕ) (deadline : Option ℕ) (ids : List Text)
    → all (λ x. is_finished x.1) (read_statuses q ids).1 ≡ true
    → (wait_round q now stuck_at deadline ids).1 ≡ some (present (read_statuses q ids).1)
unfolding wait_round
round_done q now stuck_at deadline ids h = rw (wait_round, h) refl

round_waits :
    (q : TaskQueue) (now stuck_at : ℕ) (deadline : Option ℕ) (ids : List Text)
    → all (λ x. is_finished x.1) (read_statuses q ids).1 ≡ false
    → is_past now deadline ≡ false
    → (wait_round q now stuck_at deadline ids).1 ≡ none
unfolding wait_round
round_waits q now stuck_at none ids h late = rw (wait_round, h) refl
round_waits q now stuck_at (some d) ids h late = rw (wait_round, h, late) refl

some-injective : {A : Type 0} {a b : A} → some a ≡ some b → a ≡ b
some-injective e = ground (arith, e)

none_or_some : {A : Type 0} (a : A) (o : Option A) → o ≡ none → o ≡ some a → ⊥
none_or_some a none n e = ground arith
none_or_some a (some b) n e = ground arith

-- A wait that returns before its deadline has a terminal payload for every task that it waits for.
pub wait_round-terminal :
    (q q' : TaskQueue) (now stuck_at : ℕ) (deadline : Option ℕ) (ids : List Text)
    (ps : List TaskPayload)
    → is_past now deadline ≡ false
    → wait_round q now stuck_at deadline ids ≡ (q', some ps)
    → (all (λ p. is_terminal p.status) ps ≡ true) × (length ps ≡ length ids)
wait_round-terminal q q' now stuck_at deadline ids ps early e =
    let statuses = (read_statuses q ids).1 in
    let given : (wait_round q now stuck_at deadline ids).1 ≡ some ps =
      ap (λ (r : TaskQueue × Option (List TaskPayload)). r.1) e in
    elim (Bool-cases (all (λ x. is_finished x.1) statuses)) [
      | inr unfinished' ↦ absurd (
          none_or_some ps (wait_round q now stuck_at deadline ids).1
            (round_waits q now stuck_at deadline ids unfinished' early) given)
      | inl h ↦
          let same : present statuses ≡ ps =
            some-injective (sym (round_done q now stuck_at deadline ids h) ∙ given) in
          let (a, b) = finished_present statuses h in
          (rw⁻¹ same a, ap length (sym same) ∙ b ∙ length-read_statuses q ids)
    ]
