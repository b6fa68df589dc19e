-- ===== src/TaskQueue/Queue/Retries/Lives.antt =====
-- The bound on the tries of a task, along everything that happens to a queue.
use neuralhub.Base.{
  ℕ, ◌+◌, ◌≤◌, ◌≡◌, sym, ap, ◌∙◌, ◌≢◌, Bool, true, false, some, arith, ltb, Text, text_eq, get, ok,
  some-injective,
}
use neuralhub.Types.{Fields}
use neuralhub.TaskQueue.Payload.{TaskPayload}
use neuralhub.TaskQueue.Queue.{TaskQueue}
use neuralhub.TaskQueue.Queue.Claim.{claim_task}
use neuralhub.TaskQueue.Queue.Terminal
use neuralhub.TaskQueue.Queue.Recover.{recovered, recover_one_stale}
use neuralhub.TaskQueue.Queue.Retries.{
  HasTries, claim_from-tries, complete-tries, fail-tries, renew-tries, other-tries, spent-tries,
  requeue-own, outcome-left, outcome-spent,
}

module _ (show_int : ℕ → Text) where
  -- What happens to a queue, and how often the task `i` is requeued meanwhile. The recovery may come to
  -- another task with whatever payload, and to this one with its current row.
  pub data Life (i : Text) : ℕ → TaskQueue → TaskQueue → Type 0 where
    begins : (q : TaskQueue) → Life i 0 q q
    claims :
        (n : ℕ) (q r : TaskQueue) (now : ℕ) (w : Text)
        → Life i n q r
        → Life i n q (claim_task r now w).0
    completes :
        (n : ℕ) (q r : TaskQueue) (j : Text) (res : Fields) (w : Text) (s : TaskQueue × Bool)
        → Life i n q r
        → Terminal.complete r j res w ≡ ok s
        → Life i n q s.0
    fails :
        (n : ℕ) (q r : TaskQueue) (j err w : Text) (s : TaskQueue × Bool)
        → Life i n q r
        → Terminal.fail r j err w ≡ ok s
        → Life i n q s.0
    renews :
        (n : ℕ) (q r : TaskQueue) (now : ℕ) (j : Text) (ext : ℕ)
        → Life i n q r
        → Life i n q (Terminal.renew_lease r now j ext)
    passes_by :
        (n : ℕ) (q r : TaskQueue) (p : TaskPayload)
        → Life i n q r
        → text_eq p.task_id i ≡ false
        → Life i n q (recover_one_stale show_int r p).0
    requeues :
        (n : ℕ) (q r : TaskQueue) (p : TaskPayload)
        → Life i n q r
        → get i r.table ≡ some p
        → p.task_id ≡ i
        → (recover_one_stale show_int r p).1 ≡ recovered
        → Life i (n + 1) q (recover_one_stale show_int r p).0
    gives_up :
        (n : ℕ) (q r : TaskQueue) (p : TaskPayload)
        → Life i n q r
        → get i r.table ≡ some p
        → p.task_id ≡ i
        → (recover_one_stale show_int r p).1 ≢ recovered
        → Life i n q (recover_one_stale show_int r p).0

  -- The number of tries is exact, and it stays within the limit.
  pub record IsBounded (q : TaskQueue) (i : Text) (n c m : ℕ) : Type 0 where
    pub counted : HasTries q i (c + n) m
    pub within : c + n ≤ m

  requeued-IsBounded :
      (q : TaskQueue) (p : TaskPayload) (n c m : ℕ)
      → IsBounded q p.task_id n c m
      → get p.task_id q.table ≡ some p
      → ltb p.retry_count p.max_retries ≡ true
      → IsBounded (recover_one_stale show_int q p).0 p.task_id (n + 1) c m
  unfolding recover_one_stale
  requeued-IsBounded q p n c m h e b =
      let k = h.counted in
      let same : k.row ≡ p = some-injective (sym k.stored ∙ e) in
      let tried : p.retry_count ≡ c + n = ap (λ r. r.retry_count) (sym same) ∙ k.tried in
      let limit : p.max_retries ≡ m = ap (λ r. r.max_retries) (sym same) ∙ k.limit in
      let one : c + n + 1 ≡ c + (n + 1) = omega arith in
      record {
        counted = rw (recover_one_stale, b) (rw (← one) (requeue-own q p (c + n) m k e));
        within = ground arith;
      }

  -- Where there is a table, a task is not tried again more often than it is allowed: through all claims,
  -- completions, failures, renewals and recoveries, its row counts the recoveries that put it back into
  -- the queue exactly, and never more than `max_retries` in all, as long as the recovery works on the
  -- current row of the task.
  pub Life-IsBounded :
      (i : Text) (n : ℕ) (q r : TaskQueue) (c m : ℕ)
      → Life i n q r
      → HasTries q i c m
      → c ≤ m
      → IsBounded r i n c m
  unfolding claim_task
  Life-IsBounded i _ q _ c m (begins _) h le =
      let e : c ≡ c + 0 = omega arith in record { counted = rw (← e) h; within = omega arith }
  Life-IsBounded i _ q _ c m (claims n _ r now w l) h le =
      let b = Life-IsBounded i n q r c m l h le in
      record { counted = claim_from-tries r.queue r now w i (c + n) m b.counted; within = b.within }
  Life-IsBounded i _ q _ c m (completes n _ r j res w s l e) h le =
      let b = Life-IsBounded i n q r c m l h le in
      record { counted = complete-tries r j res w s i (c + n) m b.counted e; within = b.within }
  Life-IsBounded i _ q _ c m (fails n _ r j err w s l e) h le =
      let b = Life-IsBounded i n q r c m l h le in
      record { counted = fail-tries r j err w s i (c + n) m b.counted e; within = b.within }
  Life-IsBounded i _ q _ c m (renews n _ r now j ext l) h le =
      let b = Life-IsBounded i n q r c m l h le in
      record { counted = renew-tries r now j ext i (c + n) m b.counted; within = b.within }
  Life-IsBounded i _ q _ c m (passes_by n _ r p l e) h le =
      let b = Life-IsBounded i n q r c m l h le in
      record { counted = other-tries show_int r p i (c + n) m b.counted e; within = b.within }
  Life-IsBounded i _ q _ c m (requeues n _ r p l e own o) h le =
      let b = Life-IsBounded i n q r c m l h le in
      rw (← own) (
        requeued-IsBounded r p n c m (rw own b) (ap (λ k. get k r.table) own ∙ e)
          (outcome-left show_int r p o))
  Life-IsBounded i _ q _ c m (gives_up n _ r p l e own o) h le =
      let b = Life-IsBounded i n q r c m l h le in
      record {
        counted = spent-tries show_int r p i (c + n) m b.counted (outcome-spent show_int r p o);
        within = b.within;
      }
