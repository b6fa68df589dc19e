-- ===== src/TaskQueue/Payload.antt =====
-- backend/core/task_queue_types.py: the payload of a task, which is also a row of the table.
-- Times are ticks; `time()` readings are arguments of the operations.
use neuralhub.Base.{ℕ, Bool, true, false, Option, [], ◌∷◌, Text, codes}
use neuralhub.Types.{Fields}

pub data TaskStatus : Type 0 where
  pending running succeeded failed : TaskStatus

abbrev pub is_pending : TaskStatus → Bool
is_pending pending = true
is_pending _ = false

abbrev pub is_running : TaskStatus → Bool
is_running running = true
is_running _ = false

abbrev pub is_failed : TaskStatus → Bool
is_failed failed = true
is_failed _ = false

abbrev pub is_succeeded : TaskStatus → Bool
is_succeeded succeeded = true
is_succeeded _ = false

-- `TERMINAL_TASK_STATUSES` of task_queue_support.py.
abbrev pub is_terminal : TaskStatus → Bool
is_terminal succeeded = true
is_terminal failed = true
is_terminal _ = false

-- Pending or running: what counts against the capacity.
abbrev pub is_active : TaskStatus → Bool
is_active pending = true
is_active running = true
is_active _ = false

pub record TaskPayload : Type 0 where
  pub task_id : Text
  pub namespace : Text
  pub input_data : Fields
  pub parent_task_id : Text
  pub status : TaskStatus
  pub worker_id : Text
  pub created_at : ℕ
  pub started_at : ℕ
  pub timeout_seconds : ℕ
  pub lease_expires_at : ℕ
  pub result : Option Fields
  pub error : Text
  pub retry_count : ℕ
  pub max_retries : ℕ

-- task_queue_support.py.
abbrev pub wait_timeout_error : Text
wait_timeout_error = codes "等待超时，主 agent 放弃等待"

abbrev pub wait_detached_error : Text
wait_detached_error = codes "等待超时，子 agent 仍在执行，主 agent 已停止等待"

-- `not worker_id`.
abbrev pub no_worker : Text → Bool
no_worker [] = true
no_worker (_ ∷ _) = false
