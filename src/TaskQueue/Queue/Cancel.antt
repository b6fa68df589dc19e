-- ===== src/TaskQueue/Queue/Cancel.antt =====
-- backend/core/task_queue_cancel.py.
use neuralhub.Base.{
  Bool, true, false, not, none, some, List, if◌then◌else◌, keep, Text, codes, text_eq, has,
}
use neuralhub.TaskQueue.Payload.{failed, is_pending, is_terminal}
use neuralhub.TaskQueue.Queue.{TaskQueue, save_payload, get_status, sadd}

abbrev pub parent_cancelled_error : Text
parent_cancelled_error = codes "parent_cancelled"

-- `lrem(key, 0, value)`: all occurrences go.
unfoldable pub lrem : Text → List Text → List Text
lrem k xs = keep (λ x. not (text_eq x k)) xs

abbrev pub flagged : TaskQueue → Text → TaskQueue
flagged q i = record q { cancel_flags = sadd i q.cancel_flags }

unfoldable pub cancel_payload_task : TaskQueue → (task_id : Text) → TaskQueue × Bool
cancel_payload_task q i =
    let (q', found) = get_status q i in
    elim found [
      | none ↦ (q', false)
      | some p ↦
          if is_terminal p.status
          then (q', false)
          else if is_pending p.status
          then (
            save_payload (record (flagged q' i) { queue = lrem i q'.queue })
                (record p { status = failed; error = parent_cancelled_error }),
            true,
          )
          else (flagged q' i, true)
    ]

unfoldable pub cancel_flag_active : TaskQueue → (task_id : Text) → Bool
cancel_flag_active q i = has i q.cancel_flags
