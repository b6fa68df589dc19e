-- ===== src/TaskQueue/Queue/Retries.antt =====
-- What the operations of a queue with a table do to the number of tries of a task.
pub mod Lives
use neuralhub.Base.{
  ℕ, ◌+◌, ◌≡◌, refl, sym, ap, ◌∙◌, ◌≢◌, inl, inr, Bool, true, false, some, List, [], ◌∷◌, ◌++◌,
  arith, ltb, if◌then◌else◌, Bool-cases, Option-cases, Text, codes, text_eq, text_eq_refl, get,
  get-put, ok, some-injective, Result-cases,
}
use neuralhub.Types.{Fields}
use neuralhub.TaskQueue.Payload.{TaskPayload, is_failed}
use neuralhub.TaskQueue.Store
use neuralhub.TaskQueue.Store.Transitions.{
  Op, claim_op, complete_op, fail_op, renew_op, apply, row_step, target, get-apply,
}
use neuralhub.TaskQueue.Queue.{TaskQueue, cache_payload, save_payload, refresh_cache, get_status}
use neuralhub.TaskQueue.Queue.Claim.{claim_one, claim_from}
use neuralhub.TaskQueue.Queue.Terminal
use neuralhub.TaskQueue.Queue.Recover.{
  recovered, expired, skipped, requeued, requeue_stale_task, safe_fail, expire_stale_task,
  recover_one_stale,
}
use neuralhub.TaskQueue.Queue.Requeue.{refresh_keeps, taken}

-- The row of the task has been tried again `c` times, of `m` that are allowed.
pub record HasTries (q : TaskQueue) (i : Text) (c m : ℕ) : Type 0 where
  pub on : q.persistent ≡ true
  pub row : TaskPayload
  pub stored : get i q.table ≡ some row
  pub tried : row.retry_count ≡ c
  pub limit : row.max_retries ≡ m

row_step-tries :
    (op : Op) (r : TaskPayload)
    → ((row_step op r).retry_count ≡ r.retry_count) × ((row_step op r).max_retries ≡ r.max_retries)
unfolding row_step
row_step-tries (claim_op now i w) r = (ground arith, ground arith)
row_step-tries (complete_op i res w) r = (ground arith, ground arith)
row_step-tries (fail_op i err w) r = (ground arith, ground arith)
row_step-tries (renew_op now i ext) r = (ground arith, ground arith)

-- A transaction keeps the number of tries of every task.
op-tries :
    (q q' : TaskQueue) (op : Op) (i : Text) (c m : ℕ)
    → HasTries q i c m
    → q'.persistent ≡ true
    → q'.table ≡ apply op q.table
    → HasTries q' i c m
op-tries q q' op i c m h p t =
    let after : get i q'.table ≡ get i (apply op q.table) = ap (get i) t in
    let moved = get-apply op q.table i in
    let same = row_step-tries op h.row in
    elim (Bool-cases (text_eq (target op) i)) [
      | inl e ↦ record {
        on = p;
        row = row_step op h.row;
        stored = let s = h.stored in after ∙ (moved ∙ rw (e, s) refl);
        tried = same.0 ∙ h.tried;
        limit = same.1 ∙ h.limit;
      }
      | inr e ↦ record {
        on = p;
        row = h.row;
        stored = after ∙ (moved ∙ (rw e h.stored));
        tried = h.tried;
        limit = h.limit;
      }
    ]

claim_one-table :
    (q : TaskQueue) (now : ℕ) (w i : Text)
    → q.persistent ≡ true
    → ((claim_one q now w i).0.persistent ≡ true)
      × ((claim_one q now w i).0.table ≡ apply (claim_op now i w) q.table)
unfolding claim_one apply cache_payload
claim_one-table q now w i p = elim (Option-cases (Store.claim q.table now i w).1) [
  | inl n ↦ rw (claim_one, p, n) (p, refl)
  | inr (r, n) ↦ rw (claim_one, p, n) (p, refl)
]

pub claim_from-tries :
    (is : List Text) (q : TaskQueue) (now : ℕ) (w i : Text) (c m : ℕ)
    → HasTries q i c m
    → HasTries (claim_from q now w is).0 i c m
unfolding claim_from
claim_from-tries [] q now w i c m h = record {
  on = h.on;
  row = h.row;
  stored = h.stored;
  tried = h.tried;
  limit = h.limit;
}
claim_from-tries (j ∷ is) q now w i c m h =
    let popped : TaskQueue = record q { queue = is } in
    let t = claim_one-table popped now w j h.on in
    let one : HasTries (claim_one popped now w j).0 i c m =
      op-tries q (claim_one popped now w j).0 (claim_op now j w) i c m h t.0 t.1 in
    elim (Option-cases (claim_one popped now w j).1) [
      | inl n ↦
          rw (claim_from, n) (claim_from-tries is (claim_one popped now w j).0 now w i c m one)
      | inr (r, n) ↦ rw (claim_from, n) one
    ]

refreshed-tries :
    (q : TaskQueue) (t : Store.Table) (j : Text) (op : Op) (i : Text) (c m : ℕ)
    → HasTries q i c m
    → t ≡ apply op q.table
    → HasTries (refresh_cache (record q { table = t }) j) i c m
refreshed-tries q t j op i c m h e =
    let (table', persistent') = refresh_keeps (record q { table = t }) j in
    op-tries q (refresh_cache (record q { table = t }) j) op i c m h (persistent' ∙ h.on)
      (table' ∙ e)

pub complete-tries :
    (q : TaskQueue) (j : Text) (res : Fields) (w : Text) (r : TaskQueue × Bool) (i : Text) (c m : ℕ)
    → HasTries q i c m
    → Terminal.complete q j res w ≡ ok r
    → HasTries r.0 i c m
unfolding Terminal.complete apply
complete-tries q j res w r i c m h e =
    let t = Store.complete q.table j res w in
    let left = refresh_cache (record q { table = t.0 }) j in
    let same : (left, t.1) ≡ r = taken _ q.persistent (left, t.1) r _ h.on e in
    rw⁻¹ same (refreshed-tries q t.0 j (complete_op j res w) i c m h refl)

pub fail-tries :
    (q : TaskQueue) (j err w : Text) (r : TaskQueue × Bool) (i : Text) (c m : ℕ)
    → HasTries q i c m
    → Terminal.fail q j err w ≡ ok r
    → HasTries r.0 i c m
unfolding Terminal.fail apply
fail-tries q j err w r i c m h e =
    let t = Store.fail q.table j err w in
    let left = refresh_cache (record q { table = t.0 }) j in
    let same : (left, t.1) ≡ r = taken _ q.persistent (left, t.1) r _ h.on e in
    rw⁻¹ same (refreshed-tries q t.0 j (fail_op j err w) i c m h refl)

if-tries :
    (b : Bool) (q r : TaskQueue) (i : Text) (c m : ℕ)
    → HasTries q i c m
    → HasTries r i c m
    → HasTries (if b then q else r) i c m
if-tries true q r i c m g h = g
if-tries false q r i c m g h = h

pub renew-tries :
    (q : TaskQueue) (now : ℕ) (j : Text) (ext : ℕ) (i : Text) (c m : ℕ)
    → HasTries q i c m
    → HasTries (Terminal.renew_lease q now j ext) i c m
unfolding Terminal.renew_lease apply
renew-tries q now j ext i c m h =
    let t = Store.renew_lease q.table now j ext in
    if-tries q.persistent (refresh_cache (record q { table = t }) j) q i c m
      (refreshed-tries q t j (renew_op now j ext) i c m h refl) h

safe_fail-tries :
    (q : TaskQueue) (j err i : Text) (c m : ℕ)
    → HasTries q i c m
    → HasTries (safe_fail q j err) i c m
unfolding safe_fail
safe_fail-tries q j err i c m h = elim (Result-cases (Terminal.fail q j err [])) [
  | inl (r, e) ↦ rw (safe_fail, e) (fail-tries q j err [] r i c m h e)
  | inr (x, e) ↦ rw (safe_fail, e) h
]

get_status-tries :
    (q : TaskQueue) (j i : Text) (c m : ℕ) → HasTries q i c m → HasTries (get_status q j).0 i c m
unfolding get_status cache_payload Store.get_status
get_status-tries q j i c m h = record {
  on = let p = h.on in ground arith;
  row = h.row;
  stored = let s = h.stored in ground arith;
  tried = h.tried;
  limit = h.limit;
}

-- The recovery of another task.
requeue-other :
    (q : TaskQueue) (p : TaskPayload) (i : Text) (c m : ℕ)
    → HasTries q i c m
    → text_eq p.task_id i ≡ false
    → HasTries (requeue_stale_task q p) i c m
unfolding requeue_stale_task save_payload cache_payload Store.save_payload
requeue-other q p i c m h n =
    let a = get-put p.task_id i (requeued p) q.table in
    let s = h.stored in
    let o = h.on in
    record {
      on = ground arith;
      row = h.row;
      stored = ground arith;
      tried = h.tried;
      limit = h.limit;
    }

-- The recovery of the task itself, from its current row.
pub requeue-own :
    (q : TaskQueue) (p : TaskPayload) (c m : ℕ)
    → HasTries q p.task_id c m
    → get p.task_id q.table ≡ some p
    → HasTries (requeue_stale_task q p) p.task_id (c + 1) m
unfolding requeue_stale_task save_payload cache_payload Store.save_payload
requeue-own q p c m h e =
    let a = get-put p.task_id p.task_id (requeued p) q.table in
    let b = text_eq_refl p.task_id in
    let o = h.on in
    let same : h.row ≡ p = some-injective (sym h.stored ∙ e) in
    record {
      on = ground arith;
      row = requeued p;
      stored = ground arith;
      tried = ap (λ r. r.retry_count + 1) (sym same) ∙ ap (λ n. n + 1) h.tried;
      limit = ap (λ r. r.max_retries) (sym same) ∙ h.limit;
    }

module _ (show_int : ℕ → Text) where
  pub spent-tries :
      (q : TaskQueue) (p : TaskPayload) (i : Text) (c m : ℕ)
      → HasTries q i c m
      → ltb p.retry_count p.max_retries ≡ false
      → HasTries (recover_one_stale show_int q p).0 i c m
  unfolding recover_one_stale expire_stale_task
  spent-tries q p i c m h b =
      let text = codes "超时重试 " ++ show_int p.max_retries ++ codes " 次后仍未完成" in
      let g =
        get_status-tries (safe_fail q p.task_id text) p.task_id i c m
          (safe_fail-tries q p.task_id text i c m h) in
      elim (Option-cases (get_status (safe_fail q p.task_id text) p.task_id).1) [
        | inl n ↦ rw (recover_one_stale, b, n) g
        | inr (r, n) ↦ rw (recover_one_stale, b, n) g
      ]

  pub other-tries :
      (q : TaskQueue) (p : TaskPayload) (i : Text) (c m : ℕ)
      → HasTries q i c m
      → text_eq p.task_id i ≡ false
      → HasTries (recover_one_stale show_int q p).0 i c m
  unfolding recover_one_stale
  other-tries q p i c m h n = elim (Bool-cases (ltb p.retry_count p.max_retries)) [
    | inl b ↦ rw (recover_one_stale, b) (requeue-other q p i c m h n)
    | inr b ↦ spent-tries q p i c m h b
  ]

  pub outcome-left :
      (q : TaskQueue) (p : TaskPayload)
      → (recover_one_stale show_int q p).1 ≡ recovered
      → ltb p.retry_count p.max_retries ≡ true
  unfolding recover_one_stale
  outcome-left q p h = elim (Bool-cases (ltb p.retry_count p.max_retries)) [
    | inl b ↦ b
    | inr b ↦
        let after = get_status (expire_stale_task show_int q p) p.task_id in
        elim (Option-cases after.1) [
          | inl n ↦ let c : skipped ≡ recovered = rw (recover_one_stale, b, n) at h in cc
          | inr (r, n) ↦ elim (Bool-cases (is_failed r.status)) [
            | inl f ↦ let c : expired ≡ recovered = rw (recover_one_stale, b, n, f) at h in cc
            | inr f ↦ let c : skipped ≡ recovered = rw (recover_one_stale, b, n, f) at h in cc
          ]
        ]
  ]

  pub outcome-spent :
      (q : TaskQueue) (p : TaskPayload)
      → (recover_one_stale show_int q p).1 ≢ recovered
      → ltb p.retry_count p.max_retries ≡ false
  unfolding recover_one_stale
  outcome-spent q p h = elim (Bool-cases (ltb p.retry_count p.max_retries)) [
    | inr b ↦ b
    | inl b ↦ absurd (h (rw (recover_one_stale, b) refl))
  ]
