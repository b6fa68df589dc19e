-- ===== src/TaskQueue/Store/Transitions.antt =====
-- What the transactions of the table do to the rows, in any order.
use neuralhub.Base.{
  ℕ, ◌+◌, ◌≡◌, ◌≢◌, ◌↔◌, ◌⊎◌, inl, inr, Bool, true, false, not, ◌&&◌, ◌||◌, Option, none, some,
  List, [], ◌∷◌, arith, if◌then◌else◌, Bool-cases, Option-cases, Text, text_eq, text_eq_iff,
  text_eq_refl, get, get-put,
}
use neuralhub.Types.{Fields}
use neuralhub.TaskQueue.Payload.{
  running, succeeded, failed, is_pending, is_running, is_active, TaskPayload, wait_timeout_error,
  no_worker,
}
use neuralhub.TaskQueue.Store.{Table, claim, claimed_row, can_complete, complete, fail, renew_lease}

-- One transaction on an existing row.
pub data Op : Type 0 where
  claim_op : (now : ℕ) (task_id worker_id : Text) → Op
  complete_op : (task_id : Text) (result : Fields) (worker_id : Text) → Op
  fail_op : (task_id error worker_id : Text) → Op
  renew_op : (now : ℕ) (task_id : Text) (extension_seconds : ℕ) → Op

unfoldable pub apply : Op → Table → Table
apply (claim_op now i w) db = (claim db now i w).0
apply (complete_op i res w) db = (complete db i res w).0
apply (fail_op i err w) db = (fail db i err w).0
apply (renew_op now i ext) db = renew_lease db now i ext

-- Transactions in order.
unfoldable pub apply_all : List Op → Table → Table
apply_all [] db = db
apply_all (op ∷ ops) db = apply_all ops (apply op db)

abbrev pub target : Op → Text
target (claim_op now i w) = i
target (complete_op i res w) = i
target (fail_op i err w) = i
target (renew_op now i ext) = i

-- The specification: what a transaction does to the row that it is about.
unfoldable pub row_step : Op → TaskPayload → TaskPayload
row_step (claim_op now i w) r = if is_pending r.status then claimed_row now w r else r
row_step (complete_op i res w) r =
    if can_complete r w then record r { status = succeeded; result = some res; error = [] } else r
row_step (fail_op i err w) r =
    if is_active r.status && (no_worker w || text_eq r.worker_id w)
    then record r { status = failed; error = err }
    else r
row_step (renew_op now i ext) r =
    if is_running r.status then record r { lease_expires_at = now + ext } else r

abbrev pub map_row : (TaskPayload → TaskPayload) → Option TaskPayload → Option TaskPayload
map_row f none = none
map_row f (some r) = some (f r)

-- A transaction changes the row that it is about as `row_step` says, and no other row.
pub get-apply :
    (op : Op) (db : Table) (k : Text)
    → get k (apply op db)
      ≡ (if text_eq (target op) k then map_row (row_step op) (get k db) else get k db)
unfolding apply row_step claim complete fail renew_lease
get-apply (claim_op now i w) db k =
    let e = text_eq_iff i k in
    elim (Option-cases (get i db)) [
      | inl n ↦ ground arith
      | inr (r, s) ↦ ground (arith, get-put i k (claimed_row now w r) db)
    ]
get-apply (complete_op i res w) db k =
    let e = text_eq_iff i k in
    elim (Option-cases (get i db)) [
      | inl n ↦ ground arith
      | inr (r, s) ↦
          ground
            (arith, get-put i k (record r { status = succeeded; result = some res; error = [] }) db)
    ]
get-apply (fail_op i err w) db k =
    let e = text_eq_iff i k in
    elim (Option-cases (get i db)) [
      | inl n ↦ ground arith
      | inr (r, s) ↦ ground (arith, get-put i k (record r { status = failed; error = err }) db)
    ]
get-apply (renew_op now i ext) db k =
    let e = text_eq_iff i k in
    elim (Option-cases (get i db)) [
      | inl n ↦ ground arith
      | inr (r, s) ↦ ground (arith, get-put i k (record r { lease_expires_at = now + ext }) db)
    ]

-- A condition on rows that every transaction keeps holds of a row for ever.
apply_all-keeps :
    (P : TaskPayload → Bool)
    → ((op : Op) (r : TaskPayload) → P r ≡ true → P (row_step op r) ≡ true)
    → (ops : List Op) (db : Table) (k : Text) (r : TaskPayload) → get k db ≡ some r
    → P r ≡ true
    → (r' : TaskPayload) × (get k (apply_all ops db) ≡ some r') × (P r' ≡ true)
unfolding apply_all
apply_all-keeps P step [] db k r e h = (r, e, h)
apply_all-keeps P step (op ∷ ops) db k r e h = elim (Bool-cases (text_eq (target op) k)) [
  | inl same ↦
      apply_all-keeps P step ops (apply op db) k (row_step op r) (ground (arith, get-apply op db k))
        (step op r h)
  | inr different ↦
      apply_all-keeps P step ops (apply op db) k r (ground (arith, get-apply op db k)) h
]

not_pending :
    (op : Op) (r : TaskPayload)
    → not (is_pending r.status) ≡ true
    → not (is_pending (row_step op r).status) ≡ true
unfolding row_step
not_pending (claim_op now i w) r h = ground arith
not_pending (complete_op i res w) r h = ground arith
not_pending (fail_op i err w) r h = ground arith
not_pending (renew_op now i ext) r h = ground arith

claim-some :
    (db : Table) (now : ℕ) (i w : Text) (p : TaskPayload)
    → (claim db now i w).1 ≡ some p
    → (get i (claim db now i w).0 ≡ some p) × (is_pending p.status ≡ false) × (p.worker_id ≡ w)
unfolding claim
claim-some db now i w p h = elim (Option-cases (get i db)) [
  | inl n ↦ let c : none ≡ some p = ground arith in cc
  | inr (r, s) ↦
      let g = get-put i i (claimed_row now w r) db in
      let e = text_eq_refl i in (ground arith, ground arith, ground arith)
]

claim-refused :
    (db : Table) (now : ℕ) (i w : Text) (r : TaskPayload)
    → get i db ≡ some r
    → is_pending r.status ≡ false
    → claim db now i w ≡ (db, none)
unfolding claim
claim-refused db now i w r e h = ground arith

-- A task is claimed once: after a claim that got the task, and any transactions, no claim of
-- it by any worker gets it again. (A task can be claimed again only after `save_payload` has put
-- a pending row back.)
pub claim_once :
    (db : Table) (now then' : ℕ) (i w w' : Text) (p : TaskPayload) (ops : List Op)
    → (claim db now i w).1 ≡ some p
    → (claim (apply_all ops (claim db now i w).0) then' i w').1 ≡ none
claim_once db now then' i w w' p ops h =
    let (e, n, _) = claim-some db now i w p h in
    let (r', e', n') =
      apply_all-keeps (λ r. not (is_pending r.status)) not_pending ops (claim db now i w).0 i p e
        (rw n) in
    rw (claim-refused (apply_all ops (claim db now i w).0) then' i w' r' e' (ground arith))

succeeded_same : (op : Op) (r : TaskPayload) → r.status ≡ succeeded → row_step op r ≡ r
unfolding row_step can_complete
succeeded_same (claim_op now i w) r h = ground arith
succeeded_same (complete_op i res w) r h = ground arith
succeeded_same (fail_op i err w) r h = ground arith
succeeded_same (renew_op now i ext) r h = ground arith

-- A succeeded row never changes again, whatever claims, completions, failures and renewals follow.
pub succeeded_final :
    (ops : List Op) (db : Table) (k : Text) (r : TaskPayload)
    → get k db ≡ some r
    → r.status ≡ succeeded
    → get k (apply_all ops db) ≡ some r
unfolding apply_all
succeeded_final [] db k r e h = e
succeeded_final (op ∷ ops) db k r e h =
    succeeded_final ops (apply op db) k r (ground (arith, get-apply op db k, succeeded_same op r h))
      h

-- Whom a completion answers `true`: a running task's own worker, or nobody in particular if no
-- worker is named, or the worker of a task that failed because its parent stopped waiting. If it is
-- `true` the row is succeeded with the given result, and otherwise it is as it was.
pub complete_lem :
    (db : Table) (i : Text) (res : Fields) (w : Text) (r : TaskPayload)
    → get i db ≡ some r
    → ((complete db i res w).1 ≡ true
        ↔ ((r.status ≡ running) × ((w ≡ []) ⊎ (r.worker_id ≡ w)))
          ⊎ ((r.status ≡ failed) × (r.error ≡ wait_timeout_error) × (w ≢ []) × (r.worker_id ≡ w)))
      × (get i (complete db i res w).0 ≡ (
          if (complete db i res w).1
          then some (record r { status = succeeded; result = some res; error = [] })
          else some r))
unfolding complete can_complete
complete_lem db i res w r e =
    let a = text_eq_iff r.worker_id w in
    let b = text_eq_iff r.error wait_timeout_error in
    let g = get-put i i (record r { status = succeeded; result = some res; error = [] }) db in
    let s = text_eq_refl i in ((λ h. ground arith, λ h. ground arith), ground arith)
