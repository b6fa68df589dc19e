-- ===== src/TaskQueue/Queue/Stats.antt =====
-- backend/core/task_queue_stats.py. The payloads are read without writing them to the cache, which
-- no later read of the loop can tell.
use neuralhub.Base.{
  ℕ, ◌+◌, ◌≡◌, refl, inl, inr, Bool, false, none, some, List, [], ◌∷◌, arith, if◌then◌else◌,
  Option-cases, length, keep, Text,
}
use neuralhub.TaskQueue.Payload.{
  TaskStatus, is_terminal, is_active, pending, running, succeeded, failed,
}
use neuralhub.TaskQueue.Queue.{TaskQueue, get_status, task_ids}

pub record TaskQueueSnapshot : Type 0 where
  pub pending_count : ℕ
  pub running_count : ℕ
  pub succeeded_count : ℕ
  pub failed_count : ℕ

unfoldable pub unfinished : TaskQueueSnapshot → ℕ
unfinished s = s.pending_count + s.running_count

-- `counts[payload.status] += 1`.
unfoldable pub count_status : TaskStatus → TaskQueueSnapshot → TaskQueueSnapshot
count_status pending s = record s { pending_count = s.pending_count + 1 }
count_status running s = record s { running_count = s.running_count + 1 }
count_status succeeded s = record s { succeeded_count = s.succeeded_count + 1 }
count_status failed s = record s { failed_count = s.failed_count + 1 }

unfoldable pub snapshot_of : TaskQueue → List Text → TaskQueueSnapshot
unfolding count_status
snapshot_of q [] = record {
  pending_count = 0;
  running_count = 0;
  succeeded_count = 0;
  failed_count = 0;
}
snapshot_of q (i ∷ is) =
    let rest = snapshot_of q is in
    elim (get_status q i).1 [ none ↦ rest | some p ↦ count_status p.status rest ]

unfoldable pub get_task_queue_snapshot : TaskQueue → TaskQueueSnapshot
get_task_queue_snapshot q = snapshot_of q (task_ids q)

unfinished-count_status :
    (st : TaskStatus) (s : TaskQueueSnapshot)
    → (unfinished (count_status st s) ≡ (if is_active st then unfinished s + 1 else unfinished s))
      × ((count_status st s).succeeded_count + (count_status st s).failed_count ≡ (
          if is_terminal st
          then s.succeeded_count + s.failed_count + 1
          else s.succeeded_count + s.failed_count))
unfolding unfinished count_status
unfinished-count_status pending s = (omega arith, refl)
unfinished-count_status running s = (omega arith, refl)
unfinished-count_status succeeded s = (refl, omega arith)
unfinished-count_status failed s = (refl, omega arith)

-- The status of an id, if there is a payload, satisfies a test.
abbrev pub status_is : (TaskStatus → Bool) → TaskQueue → Text → Bool
status_is test q i = elim (get_status q i).1 [ none ↦ false | some p ↦ test p.status ]

counted :
    (q : TaskQueue) (is : List Text)
    → (unfinished (snapshot_of q is) ≡ length (keep (status_is is_active q) is))
      × ((snapshot_of q is).succeeded_count + (snapshot_of q is).failed_count
          ≡ length (keep (status_is is_terminal q) is))
unfolding snapshot_of unfinished keep
counted q [] = (refl, refl)
counted q (i ∷ is) =
    let (a, b) = counted q is in
    elim (Option-cases (get_status q i).1) [
      | inl n ↦ rw (snapshot_of, n) (ground arith, ground arith)
      | inr (p, n) ↦
          let (c, d) = unfinished-count_status p.status (snapshot_of q is) in
          rw (snapshot_of, n) (ground arith, ground arith)
    ]

-- The snapshot counts what it says: `unfinished` is the number of ids whose payload is pending or
-- running, and the other two counts add up to the number of ids whose payload is terminal.
pub get_task_queue_snapshot-counts :
    (q : TaskQueue)
    → (unfinished (get_task_queue_snapshot q) ≡ length (keep (status_is is_active q) (task_ids q)))
      × ((get_task_queue_snapshot q).succeeded_count + (get_task_queue_snapshot q).failed_count
          ≡ length (keep (status_is is_terminal q) (task_ids q)))
unfolding get_task_queue_snapshot
get_task_queue_snapshot-counts q = counted q (task_ids q)
