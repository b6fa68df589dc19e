-- ===== src/TaskQueue/Queue/Terminal.antt =====
-- `complete`, `fail` and `renew_lease` of backend/core/task_queue.py, with
-- `update_terminal_payload_state` of task_queue_support.py where there is no table.
use neuralhub.Base.{
  ℕ, Bool, true, false, not, ◌&&◌, ◌||◌, Option, none, some, [], ◌++◌, if◌then◌else◌, Text, codes,
  text_eq, agent_error, other, str, Result, ok, raise,
}
use neuralhub.Types.{Fields}
use neuralhub.TaskQueue.Payload.{
  TaskPayload, TaskStatus, succeeded, failed, is_pending, is_running, is_failed, is_succeeded,
  wait_timeout_error, no_worker,
}
use neuralhub.TaskQueue.Store
use neuralhub.TaskQueue.Queue.{TaskQueue, save_payload, refresh_cache, get_status}

unfoldable pub can_update_terminal :
    TaskPayload → (target_status : TaskStatus) (worker_id : Text) → Bool
can_update_terminal p target_status w =
    if is_running p.status
    then no_worker w || text_eq p.worker_id w
    else if is_failed target_status && is_pending p.status
    then no_worker w
    else if is_succeeded target_status && is_failed p.status
    then not (no_worker w) && text_eq p.error wait_timeout_error && text_eq p.worker_id w
    else false

unfoldable pub update_terminal_payload_state :
    TaskQueue
    → (task_id : Text) → TaskStatus
    → (result : Option Fields) (error worker_id : Text) → Result (TaskQueue × Bool)
update_terminal_payload_state q i status res err w =
    let (q', found) = get_status q i in
    elim found [
      | none ↦ raise (other (codes "Task not found: " ++ i))
      | some p ↦
          if not (can_update_terminal p status w)
          then ok (q', false)
          else if not (no_worker w) && not (text_eq p.worker_id w)
          then ok (q', false)
          else ok (save_payload q' (record p { status = status; result = res; error = err }), true)
    ]

abbrev pub queue_error {ℓ} : {A : Type ℓ} → (code : Text) → Result A → Result A
queue_error code (ok a) = ok a
queue_error code (raise e) = raise (agent_error code (str e))

unfoldable pub complete :
    TaskQueue → (task_id : Text) (result : Fields) (worker_id : Text) → Result (TaskQueue × Bool)
complete q i res w = queue_error (codes "TASK_QUEUE_COMPLETE_ERROR") (
    if q.persistent
    then (let (table', done) = Store.complete q.table i res w in
        ok (refresh_cache (record q { table = table' }) i, done))
    else update_terminal_payload_state q i succeeded (some res) [] w)

unfoldable pub fail : TaskQueue → (task_id error worker_id : Text) → Result (TaskQueue × Bool)
fail q i err w = queue_error (codes "TASK_QUEUE_FAIL_ERROR") (
    if q.persistent
    then (let (table', done) = Store.fail q.table i err w in
        ok (refresh_cache (record q { table = table' }) i, done))
    else update_terminal_payload_state q i failed none err w)

unfoldable pub renew_lease :
    TaskQueue → (now : ℕ) (task_id : Text) (extension_seconds : ℕ) → TaskQueue
renew_lease q now i ext =
    if q.persistent
    then refresh_cache (record q { table = Store.renew_lease q.table now i ext }) i
    else q
