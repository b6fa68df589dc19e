-- ===== src/TaskQueue/Store.antt =====
-- backend/storage/sub_agent_task_store.py and sub_agent_capacity_store.py. The table is a
-- dictionary of rows by task id. Each operation is one transaction, so it is one function;
-- `with_for_update(skip_locked=True)` makes a claim of a locked row find nothing, which is the
-- case of a row that is not there.
pub mod Transitions
pub mod Capacity
use neuralhub.Base.{
  ℕ, ◌+◌, Bool, true, false, not, ◌&&◌, ◌||◌, Option, none, some, List, [], ◌∷◌, ◌++◌, map, ltb,
  if◌then◌else◌, length, keep, any, all, Text, codes, text_eq, distinct, Dict, get, put, is_some,
  Exception, agent_error, Result, ok, raise, ◌>>=◌,
}
use neuralhub.Types.{Fields}
use neuralhub.TaskQueue.Payload.{
  running, succeeded, failed, is_pending, is_running, is_failed, is_active, TaskPayload,
  wait_timeout_error, no_worker,
}

abbrev pub Table : Type 0
Table = Dict TaskPayload

unfoldable pub save_payload : Table → TaskPayload → Table
save_payload db payload = put payload.task_id payload db

abbrev pub claimed_row : (now : ℕ) (worker_id : Text) → TaskPayload → TaskPayload
claimed_row now w row = record row {
  status = running;
  worker_id = w;
  started_at = now;
  lease_expires_at = now + row.timeout_seconds;
}

unfoldable pub claim : Table → (now : ℕ) (task_id worker_id : Text) → Table × Option TaskPayload
claim db now task_id w = elim (get task_id db) [
  | none ↦ (db, none)
  | some row ↦
      if is_pending row.status
      then (put task_id (claimed_row now w row) db, some (claimed_row now w row))
      else (db, none)
]

unfoldable pub can_complete : TaskPayload → (worker_id : Text) → Bool
can_complete row w =
    if is_running row.status
    then no_worker w || text_eq row.worker_id w
    else if not (is_failed row.status) || not (text_eq row.error wait_timeout_error)
    then false
    else not (no_worker w) && text_eq row.worker_id w

unfoldable pub complete :
    Table → (task_id : Text) (result : Fields) (worker_id : Text) → Table × Bool
complete db task_id res w = elim (get task_id db) [
  | none ↦ (db, false)
  | some row ↦
      if can_complete row w
      then (put task_id (record row { status = succeeded; result = some res; error = [] }) db, true)
      else (db, false)
]

unfoldable pub fail : Table → (task_id error worker_id : Text) → Table × Bool
fail db task_id err w = elim (get task_id db) [
  | none ↦ (db, false)
  | some row ↦
      if not (is_active row.status)
      then (db, false)
      else if not (no_worker w) && not (text_eq row.worker_id w)
      then (db, false)
      else (put task_id (record row { status = failed; error = err }) db, true)
]

unfoldable pub get_status : Table → (task_id : Text) → Option TaskPayload
get_status db task_id = get task_id db

unfoldable pub list_task_ids : Table → List Text
list_task_ids db = map (λ entry. entry.0) db

abbrev pub rows : Table → List TaskPayload
rows db = map (λ entry. entry.1) db

unfoldable pub list_stale_running : Table → (now : ℕ) → List TaskPayload
list_stale_running db now =
    keep
      (λ row. is_running row.status && ltb 0 row.lease_expires_at && ltb row.lease_expires_at now)
      (rows db)

unfoldable pub renew_lease : Table → (now : ℕ) (task_id : Text) (extension_seconds : ℕ) → Table
renew_lease db now task_id extension_seconds = elim (get task_id db) [
  | none ↦ db
  | some row ↦
      if not (is_running row.status)
      then db
      else put task_id (record row { lease_expires_at = now + extension_seconds }) db
]

unfoldable pub get_children : Table → (parent_task_id : Text) → List TaskPayload
get_children db [] = []
get_children db (c ∷ cs) = keep (λ row. text_eq row.parent_task_id (c ∷ cs)) (rows db)

-- sub_agent_capacity_store.py.
unfoldable pub active_count : Table → (parent_task_id : Text) → ℕ
active_count db parent =
    length (keep (λ row. text_eq row.parent_task_id parent && is_active row.status) (rows db))

abbrev pub mismatch_error : Exception
mismatch_error =
    agent_error (codes "SUB_AGENT_CAPACITY_PARENT_MISMATCH")
      (codes "capacity batch must share one parent_task_id")

unfoldable pub parent_id : TaskPayload → List TaskPayload → Result Text
parent_id first others =
    if all (λ p. text_eq p.parent_task_id first.parent_task_id) others
    then ok first.parent_task_id
    else raise mismatch_error

unfoldable pub add_all : Table → List TaskPayload → Table
add_all db [] = db
add_all db (p ∷ ps) = add_all (put p.task_id p db) ps

module _ (show_int : ℕ → Text) (integrity_message : Text) where
  abbrev pub capacity_error : (active requested max_active : ℕ) → Exception
  capacity_error active requested max_active = agent_error (codes "SUB_AGENT_CAPACITY_EXCEEDED") (
      codes "active="
      ++ show_int active
      ++ codes ", requested="
      ++ show_int requested
      ++ codes ", max_active="
      ++ show_int max_active)

  -- A primary key that is there already makes the commit fail with the database's message, and
  -- nothing is saved.
  unfoldable pub save_payloads_with_capacity :
      Table → List TaskPayload → (max_active : ℕ) → Result (Table × List TaskPayload)
  save_payloads_with_capacity db [] max_active = ok (db, [])
  save_payloads_with_capacity db (p ∷ ps) max_active = parent_id p ps >>= λ parent.
      let active = active_count db parent in
      let requested = length (p ∷ ps) in
      if ltb max_active (active + requested)
      then raise (capacity_error active requested max_active)
      else if any (λ q. is_some (get q.task_id db)) (p ∷ ps)
          || not (distinct (map (λ q. q.task_id) (p ∷ ps)))
      then raise (agent_error (codes "SUB_AGENT_TASK_SAVE_MANY_ERROR") integrity_message)
      else ok (add_all db (p ∷ ps), p ∷ ps)
