-- ===== src/TaskQueue/Queue.antt =====
-- backend/core/task_queue.py: the state of a queue and its access to Redis and to the table. The
-- Redis list is kept with the next id to be claimed first: `lpush` puts an id at its end, and
-- `brpop` takes the first. Redis keys do not expire here (`task_ttl_seconds` is longer than a run),
-- and calls of Redis and of the database succeed.
pub mod Submit
pub mod Claim
pub mod Terminal
pub mod Recover
pub mod Cancel
pub mod Requeue
pub mod Retries
pub mod Stats
pub mod Wait
use neuralhub.Base.{
  Bool, not, Option, none, some, List, [], ◌∷◌, ◌++◌, if◌then◌else◌, Text, text_eq, has, Dict, get,
  put,
}
use neuralhub.TaskQueue.Payload.{TaskPayload}
use neuralhub.TaskQueue.Store.{Table, list_task_ids, get_children}
use neuralhub.TaskQueue.Store

pub record TaskQueue : Type 0 where
  pub namespace : Text
  pub persistent : Bool
  pub table : Table
  pub cache : Dict TaskPayload
  pub index : List Text
  pub queue : List Text
  pub cancel_flags : List Text

unfoldable pub cache_payload : TaskQueue → TaskPayload → TaskQueue
cache_payload q p = record q { cache = put p.task_id p q.cache }

unfoldable pub save_payload : TaskQueue → TaskPayload → TaskQueue
unfolding cache_payload Store.save_payload
save_payload q p =
    cache_payload (if q.persistent then record q { table = Store.save_payload q.table p } else q) p

abbrev pub cached : TaskQueue → Option TaskPayload → TaskQueue
cached q none = q
cached q (some p) = cache_payload q p

unfoldable pub refresh_cache : TaskQueue → (task_id : Text) → TaskQueue
unfolding cache_payload Store.get_status
refresh_cache q task_id =
    if not q.persistent then q else cached q (Store.get_status q.table task_id)

-- The table first, whose row is cached again; then the cache.
unfoldable pub get_status : TaskQueue → (task_id : Text) → TaskQueue × Option TaskPayload
unfolding cache_payload Store.get_status
get_status q task_id =
    let stored = if q.persistent then Store.get_status q.table task_id else none in
    (cached q stored, elim stored [ some p ↦ some p | none ↦ get task_id q.cache ])

unfoldable pub task_ids : TaskQueue → List Text
unfolding list_task_ids
task_ids q = if q.persistent then list_task_ids q.table else q.index

-- `sadd` of a member that is there does nothing.
unfoldable pub sadd : Text → List Text → List Text
sadd k xs = if has k xs then xs else xs ++ k ∷ []

unfoldable pub enqueue_many : TaskQueue → List TaskPayload → TaskQueue
unfolding sadd
enqueue_many q [] = q
enqueue_many q (p ∷ ps) =
    enqueue_many (record q { index = sadd p.task_id q.index; queue = q.queue ++ p.task_id ∷ [] }) ps

unfoldable pub save_and_enqueue : TaskQueue → TaskPayload → TaskQueue
unfolding save_payload enqueue_many
save_and_enqueue q p = enqueue_many (save_payload q p) (p ∷ [])

-- task_queue_children.py: the scan over the ids where there is no table.
unfoldable pub scan_children : TaskQueue → (parent_task_id : Text) → List Text → List TaskPayload
unfolding get_status
scan_children q parent [] = []
scan_children q parent (i ∷ is) =
    let rest = scan_children q parent is in
    elim (get_status q i).1 [
      | none ↦ rest
      | some p ↦ if text_eq p.parent_task_id parent then p ∷ rest else rest
    ]

unfoldable pub get_queue_children : TaskQueue → (parent_task_id : Text) → List TaskPayload
unfolding scan_children task_ids get_children
get_queue_children q [] = []
get_queue_children q (c ∷ cs) =
    if q.persistent then get_children q.table (c ∷ cs) else scan_children q (c ∷ cs) (task_ids q)
