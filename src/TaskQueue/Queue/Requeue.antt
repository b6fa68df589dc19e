-- ===== src/TaskQueue/Queue/Requeue.antt =====
-- A recovery that works on a payload which it has read before another worker's update.
use neuralhub.Base.{
  ℕ, ◌≡◌, refl, sym, ap, ◌∙◌, inl, inr, Bool, true, false, none, some, [], arith, ltb,
  if◌then◌else◌, Bool-cases, Option-cases, Text, text_eq_refl, get, get-put, Result, ok,
  ok-injective,
}
use neuralhub.Types.{Fields}
use neuralhub.TaskQueue.Payload.{TaskPayload, is_succeeded, succeeded}
use neuralhub.TaskQueue.Store
use neuralhub.TaskQueue.Store.{Table, can_complete}
use neuralhub.TaskQueue.Queue.{TaskQueue, cache_payload, save_payload, refresh_cache}
use neuralhub.TaskQueue.Queue.Terminal
use neuralhub.TaskQueue.Queue.Terminal.{queue_error}
use neuralhub.TaskQueue.Queue.Recover.{recover_one_stale, requeued, requeue_stale_task}
use neuralhub.TaskQueue.Queue.Claim.{visible}

requeue-visible :
    (q : TaskQueue) (p : TaskPayload)
    → visible (requeue_stale_task q p) p.task_id ≡ some (requeued p)
unfolding requeue_stale_task save_payload cache_payload Store.save_payload
requeue-visible q p =
    let a = get-put p.task_id p.task_id (requeued p) q.table in
    let b = get-put p.task_id p.task_id (requeued p) q.cache in
    let r = text_eq_refl p.task_id in ground arith

no_row :
    (d : Table) (i : Text) (res : Fields) (w : Text)
    → get i d ≡ none
    → (Store.complete d i res w).1 ≡ true
    → ⊥
unfolding Store.complete
no_row d i res w n h = ground arith

refused :
    (d : Table) (i : Text) (res : Fields) (w : Text) (row : TaskPayload)
    → get i d ≡ some row
    → can_complete row w ≡ false
    → (Store.complete d i res w).1 ≡ true
    → ⊥
unfolding Store.complete
refused d i res w row n z h = ground arith

store_complete :
    (d : Table) (i : Text) (res : Fields) (w : Text)
    → (Store.complete d i res w).1 ≡ true
    → (row : TaskPayload) × ((get i (Store.complete d i res w).0 ≡ some row)
        × ((is_succeeded row.status ≡ true) × (row.result ≡ some res)))
unfolding Store.complete
store_complete d i res w h = elim (Option-cases (get i d)) [
  | inl n ↦ elim (no_row d i res w n h) [ ]
  | inr (row, n) ↦
      let done : TaskPayload = record row { status = succeeded; result = some res; error = [] } in
      elim (Bool-cases (can_complete row w)) [
        | inr z ↦ elim (refused d i res w row n z h) [ ]
        | inl z ↦
            rw (Store.complete, n, z)
              (done, (get-put i i done d ∙ rw (text_eq_refl i) refl, (refl, refl)))
      ]
]

pub refresh_keeps :
    (q : TaskQueue) (i : Text)
    → ((refresh_cache q i).table ≡ q.table) × ((refresh_cache q i).persistent ≡ q.persistent)
unfolding refresh_cache cache_payload
refresh_keeps q i = ground arith

-- The value of the branch that is taken.
pub taken :
    {A : Type 0} (code : Text) (b : Bool) (a x : A) (r : Result A)
    → b ≡ true
    → queue_error code (if b then ok a else r) ≡ ok x
    → a ≡ x
taken code true a x r h e = ok-injective e
taken code false a x r h e = ground arith

seen :
    (q : TaskQueue) (i : Text) (row : TaskPayload)
    → q.persistent ≡ true
    → get i q.table ≡ some row
    → visible q i ≡ some row
seen q i row s e = ground arith

complete-visible :
    (q q' : TaskQueue) (i : Text) (res : Fields) (w : Text)
    → q.persistent ≡ true
    → Terminal.complete q i res w ≡ ok (q', true)
    → (row : TaskPayload) × ((visible q' i ≡ some row)
        × ((is_succeeded row.status ≡ true) × (row.result ≡ some res)))
unfolding Terminal.complete
complete-visible q q' i res w s e =
    let t = Store.complete q.table i res w in
    let left = refresh_cache (record q { table = t.0 }) i in
    let r : (left, t.1) ≡ (q', true) = taken _ q.persistent (left, t.1) (q', true) _ s e in
    let flag : t.1 ≡ true = ap (λ (x : TaskQueue × Bool). x.1) r in
    let same : left ≡ q' = ap (λ (x : TaskQueue × Bool). x.0) r in
    let (table', persistent') = refresh_keeps (record q { table = t.0 }) i in
    let (row, (stored, facts)) = store_complete q.table i res w flag in
    (
      row,
      (
        seen q' i row (ap (λ (x : TaskQueue). x.persistent) (sym same) ∙ persistent' ∙ s)
            (ap (λ (x : TaskQueue). get i x.table) (sym same) ∙ ap (get i) table' ∙ stored),
        facts,
      ),
    )

-- A result can get lost. When a worker's completion of a task was accepted, the table has the task
-- succeeded with its result. If the recovery then comes to a payload of this task that it had read
-- before, with retries left, the task is pending again and its result is gone.
pub recover_one-overwrites :
    (show_int : ℕ → Text) (q q' : TaskQueue) (read : TaskPayload) (res : Fields) (w : Text)
    → q.persistent ≡ true
    → Terminal.complete q read.task_id res w ≡ ok (q', true)
    → ltb read.retry_count read.max_retries ≡ true
    → ((row : TaskPayload) × ((visible q' read.task_id ≡ some row)
          × ((is_succeeded row.status ≡ true) × (row.result ≡ some res))))
      × (visible (recover_one_stale show_int q' read).0 read.task_id ≡ some (requeued read))
unfolding recover_one_stale
recover_one-overwrites show_int q q' read res w s e b = (
  complete-visible q q' read.task_id res w s e,
  rw (recover_one_stale, b) (requeue-visible q' read),
)
