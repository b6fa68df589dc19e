-- ===== src/TaskQueue/Queue/Submit.antt =====
-- backend/core/task_queue_submit.py and the submissions of `TaskQueue`. The parent's id is read out
-- of the input by `parent_of`, after `with_log_context` has put the trace id in; both stand for
-- `str(...)` of a JSON value and for the logging context.
use neuralhub.Base.{
  ℕ, ◌+◌, ◌≡◌, refl, inl, inr, false, none, some, List, [], ◌∷◌, ◌++◌, map, arith, ltb,
  if◌then◌else◌, Bool-cases, length, keep, all, Text, codes, text_eq, text_eq_refl, get, get-put,
  Exception, agent_error, str, Result, ok, raise, ◌>>=◌,
}
use neuralhub.Types.{Fields}
use neuralhub.TaskQueue.Payload.{TaskPayload, pending, is_active}
use neuralhub.TaskQueue.Store.{save_payloads_with_capacity}
use neuralhub.TaskQueue.Store
use neuralhub.TaskQueue.Queue.{
  TaskQueue, save_and_enqueue, enqueue_many, get_queue_children, get_status,
}

pub record QueueSubmitSpec : Type 0 where
  pub task_id : Text
  pub input_data : Fields
  pub timeout_seconds : ℕ
  pub max_retries : ℕ

pub record CapacitySubmitRequest : Type 0 where
  pub specs : List QueueSubmitSpec
  pub max_active : ℕ

pub record Context : Type 0 where
  pub with_log_context : Fields → Fields
  pub parent_of : Fields → Text
  pub show_int : ℕ → Text
  pub integrity_message : Text

unfoldable pub parent_id : List TaskPayload → Result Text
parent_id [] = ok []
parent_id (p ∷ ps) =
    if all (λ q. text_eq q.parent_task_id p.parent_task_id) ps
    then ok p.parent_task_id
    else raise (
        agent_error (codes "TASK_QUEUE_CAPACITY_PARENT_MISMATCH")
          (codes "capacity batch must share one parent_task_id"))

-- `raise TaskQueueError(exc.code, exc.message) from exc`, and for any other exception the code of
-- the operation.
abbrev pub as_queue_error : (code : Text) → Exception → Exception
as_queue_error code (agent_error c m) = agent_error c m
as_queue_error code e = agent_error code (str e)

abbrev pub wrap {ℓ} : {A : Type ℓ} → (code : Text) → Result A → Result A
wrap code (ok a) = ok a
wrap code (raise e) = raise (as_queue_error code e)

module _ (context : Context) where
  open context use {with_log_context, parent_of, show_int, integrity_message}

  unfoldable pub build_payload : (namespace : Text) (now : ℕ) → QueueSubmitSpec → TaskPayload
  build_payload namespace now spec =
      let payload_input = with_log_context spec.input_data in
      record {
        task_id = spec.task_id;
        namespace = namespace;
        input_data = payload_input;
        parent_task_id = parent_of payload_input;
        status = pending;
        worker_id = [];
        created_at = now;
        started_at = 0;
        timeout_seconds = spec.timeout_seconds;
        lease_expires_at = 0;
        result = none;
        error = [];
        retry_count = 0;
        max_retries = spec.max_retries;
      }

  -- A task as the specification asks for it, that nobody has worked on.
  pub record IsNew (namespace : Text) (now : ℕ) (spec : QueueSubmitSpec) (p : TaskPayload)
      : Type 0 where
    pub named : p.task_id ≡ spec.task_id
    pub placed : p.namespace ≡ namespace
    pub waits : p.status ≡ pending
    pub unowned : p.worker_id ≡ []
    pub created : p.created_at ≡ now
    pub fresh : p.result ≡ none
    pub clean : p.error ≡ []
    pub untried : p.retry_count ≡ 0
    pub limits : (p.max_retries ≡ spec.max_retries) × (p.timeout_seconds ≡ spec.timeout_seconds)
    pub given : p.input_data ≡ with_log_context spec.input_data

  unfoldable pub submit : TaskQueue → (now : ℕ) → QueueSubmitSpec → TaskQueue × TaskPayload
  unfolding build_payload
  submit q now spec =
      let payload = build_payload q.namespace now spec in (save_and_enqueue q payload, payload)

  unfoldable pub enforce_capacity :
      (payloads existing : List TaskPayload) (max_active : ℕ) → Result (Unit {0})
  enforce_capacity payloads existing max_active =
      let active = length (keep (λ p. is_active p.status) existing) in
      if ltb max_active (active + length payloads)
      then raise (
          agent_error (codes "TASK_QUEUE_CAPACITY_EXCEEDED") (
            codes "active="
            ++ show_int active
            ++ codes ", requested="
            ++ show_int (length payloads)
            ++ codes ", max_active="
            ++ show_int max_active))
      else ok tt

  unfoldable pub save_each : TaskQueue → List TaskPayload → TaskQueue
  save_each q [] = q
  save_each q (p ∷ ps) = save_each (save_and_enqueue q p) ps

  unfoldable pub submit_many_with_capacity :
      TaskQueue → (now : ℕ) → CapacitySubmitRequest → Result (TaskQueue × List TaskPayload)
  unfolding build_payload
  submit_many_with_capacity q now request =
      let payloads = map (build_payload q.namespace now) request.specs in
      wrap (codes "TASK_QUEUE_CAPACITY_SUBMIT_ERROR") (
        if q.persistent
        then (save_payloads_with_capacity show_int integrity_message q.table payloads
              request.max_active
            >>= λ saved. ok (enqueue_many (record q { table = saved.0 }) saved.1, saved.1))
        else (parent_id payloads >>= λ parent.
            enforce_capacity payloads (get_queue_children q parent) request.max_active >>= λ _.
            ok (save_each q payloads, payloads)))

  -- A submission enters the queue behind all others, and nothing else in the queue, the cache or the
  -- table changes; its status reads back as a pending task of the queue's namespace without worker,
  -- result and error, that was never retried and may be retried as often as the specification says.
  pub submit_lem :
      (q : TaskQueue) (now : ℕ) (spec : QueueSubmitSpec)
      → ((submit q now spec).0.queue ≡ q.queue ++ spec.task_id ∷ [])
        × ((get_status (submit q now spec).0 spec.task_id).1 ≡ some (submit q now spec).1)
        × ((k : Text)
            → text_eq spec.task_id k ≡ false
            → (get k (submit q now spec).0.cache ≡ get k q.cache)
              × (get k (submit q now spec).0.table ≡ get k q.table))
        × IsNew q.namespace now spec (submit q now spec).1
  unfolding submit save_and_enqueue get_status build_payload Store.save_payload Store.get_status
  submit_lem q now spec =
      let p = build_payload q.namespace now spec in
      let a = get-put spec.task_id spec.task_id p q.cache in
      let b = get-put spec.task_id spec.task_id p q.table in
      let c = text_eq_refl spec.task_id in
      let new : IsNew q.namespace now spec p = record {
        named = refl;
        placed = refl;
        waits = refl;
        unowned = refl;
        created = refl;
        fresh = refl;
        clean = refl;
        untried = refl;
        limits = (refl, refl);
        given = refl;
      } in
      let others : (k : Text)
          → text_eq spec.task_id k ≡ false
          → (get k (submit q now spec).0.cache ≡ get k q.cache)
            × (get k (submit q now spec).0.table ≡ get k q.table) =
        λ k n.
          let d = get-put spec.task_id k p q.cache in
          let f = get-put spec.task_id k p q.table in
          elim (Bool-cases q.persistent) [
            | inl e ↦ (ground arith, ground arith)
            | inr e ↦ (ground arith, ground arith)
          ] in
      elim (Bool-cases q.persistent) [
        | inl e ↦ (ground arith, ground arith, others, new)
        | inr e ↦ (ground arith, ground arith, others, new)
      ]
