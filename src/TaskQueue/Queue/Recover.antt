-- ===== src/TaskQueue/Queue/Recover.antt =====
-- backend/core/task_queue_recover_support.py, with `_lease_expired` and `_expire_stale_task` of
-- task_queue_support.py. A payload is recovered from the snapshot that the scan has read.
use neuralhub.Base.{
  ℕ, ◌+◌, Bool, not, ◌&&◌, none, some, List, [], ◌∷◌, ◌++◌, ltb, ◌==◌, if◌then◌else◌, keep, Text,
  codes, text_eq, ok, raise,
}
use neuralhub.TaskQueue.Payload.{TaskPayload, pending, is_running, is_failed}
use neuralhub.TaskQueue.Store.{list_stale_running}
use neuralhub.TaskQueue.Queue.{TaskQueue, save_payload, get_status, task_ids}
use neuralhub.TaskQueue.Queue.Terminal.{fail}

-- `payload.lease_expires_at or (payload.started_at + payload.timeout_seconds)`.
unfoldable pub lease_expired : TaskPayload → (now : ℕ) → Bool
lease_expired p now =
    let expires_at =
      if p.lease_expires_at == 0 then p.started_at + p.timeout_seconds else p.lease_expires_at in
    ltb 0 expires_at && ltb expires_at now

abbrev pub requeued : TaskPayload → TaskPayload
requeued p = record p {
  status = pending;
  worker_id = [];
  started_at = 0;
  lease_expires_at = 0;
  result = none;
  error = [];
  retry_count = p.retry_count + 1;
}

unfoldable pub requeue_stale_task : TaskQueue → TaskPayload → TaskQueue
requeue_stale_task q p =
    let q' = save_payload q (requeued p) in record q' { queue = q'.queue ++ p.task_id ∷ [] }

-- `_safe_fail`: an exception is logged, and the queue is as it was.
unfoldable pub safe_fail : TaskQueue → (task_id error : Text) → TaskQueue
safe_fail q i err = elim (fail q i err []) [ ok r ↦ r.0 | raise e ↦ q ]

pub data RecoverOutcome : Type 0 where
  recovered expired skipped : RecoverOutcome

module _ (show_int : ℕ → Text) where
  unfoldable pub expire_stale_task : TaskQueue → TaskPayload → TaskQueue
  unfolding safe_fail
  expire_stale_task q p =
      safe_fail q p.task_id (codes "超时重试 " ++ show_int p.max_retries ++ codes " 次后仍未完成")

  unfoldable pub recover_one_stale : TaskQueue → TaskPayload → TaskQueue × RecoverOutcome
  recover_one_stale q p =
      if ltb p.retry_count p.max_retries
      then (requeue_stale_task q p, recovered)
      else (let (q', refreshed) = get_status (expire_stale_task q p) p.task_id in
          elim refreshed [
            | none ↦ (q', skipped)
            | some r ↦ (q', if is_failed r.status then expired else skipped)
          ])

  -- The scan of `_scan_redis_stale`; an id without payload leaves the index.
  unfoldable pub scan_redis_stale : TaskQueue → (now : ℕ) → List Text → TaskQueue × List TaskPayload
  scan_redis_stale q now [] = (q, [])
  scan_redis_stale q now (i ∷ is) =
      let (q', status) = get_status q i in
      elim status [
        | none ↦
            scan_redis_stale (record q' { index = keep (λ k. not (text_eq k i)) q'.index }) now is
        | some p ↦
            let (q₂, rest) = scan_redis_stale q' now is in
            (q₂, if is_running p.status && lease_expired p now then p ∷ rest else rest)
      ]

  unfoldable pub recover_each : TaskQueue → List TaskPayload → TaskQueue × ℕ
  recover_each q [] = (q, 0)
  recover_each q (p ∷ ps) =
      let (q', outcome) = recover_one_stale q p in
      let (q₂, n) = recover_each q' ps in (q₂, elim outcome [ recovered ↦ n + 1 | _ ↦ n ])

  unfoldable pub recover_stale_task_payloads : TaskQueue → (now : ℕ) → TaskQueue × ℕ
  recover_stale_task_payloads q now =
      if q.persistent
      then recover_each q (list_stale_running q.table now)
      else (let (q', stale) = scan_redis_stale q now (task_ids q) in recover_each q' stale)
