-- ===== src/Tests/QueueTests.antt =====
-- backend/core/task_queue.py with a persistent queue of two tasks.
use neuralhub.Base.{
  ℕ, ◌≡◌, refl, true, false, none, some, List, [], ◌∷◌, arith, any, all, Text, codes, text_eq, get,
  put, ok,
}
use neuralhub.Types.{end}
use neuralhub.TaskQueue.Payload.{TaskStatus, is_succeeded, TaskPayload, pending, running, succeeded}
use neuralhub.TaskQueue.Store.{Table, can_complete, complete}
use neuralhub.TaskQueue.Queue.{TaskQueue, refresh_cache, get_status}
use neuralhub.TaskQueue.Queue.Claim.{claim_task, visible, claimable, Claimed, claim_task-first}
use neuralhub.TaskQueue.Queue.Terminal
use neuralhub.TaskQueue.Queue.Recover.{recovered, requeued, recover_one_stale}
use neuralhub.TaskQueue.Queue.Submit.{QueueSubmitSpec, Context, IsNew, submit, submit_lem}
use neuralhub.TaskQueue.Queue.Requeue.{recover_one-overwrites}
use neuralhub.TaskQueue.Queue.Retries.{HasTries}
use neuralhub.TaskQueue.Queue.Retries.Lives.{
  Life, begins, claims, requeues, IsBounded, Life-IsBounded,
}
use neuralhub.TaskQueue.Queue.Wait.{wait_round}

abbrev payload : (task_id : Text) → TaskStatus → (worker_id : Text) → TaskPayload
payload i st w = record {
  task_id = i;
  namespace = codes "sub";
  input_data = end;
  parent_task_id = codes "boss";
  status = st;
  worker_id = w;
  created_at = 1;
  started_at = 0;
  timeout_seconds = 60;
  lease_expires_at = 0;
  result = none;
  error = [];
  retry_count = 0;
  max_retries = 1;
}

-- A task that runs at the worker `w1`, and one that waits.
abbrev tasks : Table
tasks =
    (codes "t1", payload (codes "t1") running (codes "w1"))
    ∷ (codes "t2", payload (codes "t2") pending [])
    ∷ []

abbrev queue_of : (queue : List Text) → TaskQueue
queue_of ids = record {
  namespace = codes "sub";
  persistent = true;
  table = tasks;
  cache = [];
  index = [];
  queue = ids;
  cancel_flags = [];
}

t1_passed :
    any
      (λ x. claimable (visible (queue_of (codes "t1" ∷ codes "t2" ∷ codes "t1" ∷ [])) x))
      (codes "t1" ∷ [])
    ≡ false
unfolding any get text_eq
t1_passed = refl

t2_visible :
    visible (queue_of (codes "t1" ∷ codes "t2" ∷ codes "t1" ∷ [])) (codes "t2")
    ≡ some (payload (codes "t2") pending [])
unfolding get text_eq
t2_visible = refl

claim_task-first_example :
    Claimed
      (queue_of (codes "t1" ∷ codes "t2" ∷ codes "t1" ∷ []))
      9
      (codes "w2")
      (codes "t2")
      (payload (codes "t2") pending [])
      (codes "t1" ∷ [])
claim_task-first_example =
    claim_task-first (queue_of (codes "t1" ∷ codes "t2" ∷ codes "t1" ∷ [])) 9 (codes "w2")
      (codes "t1" ∷ []) (codes "t1" ∷ []) (codes "t2") (payload (codes "t2") pending []) refl
      t1_passed t2_visible refl refl

none_claimable :
    any
      (λ x. claimable (visible (queue_of (codes "t1" ∷ codes "t9" ∷ [])) x))
      (codes "t1" ∷ codes "t9" ∷ [])
    ≡ false
unfolding any get text_eq
none_claimable = refl

abbrev one_int : ℕ → Text
one_int n = n ∷ []

abbrev context : Context
context = record {
  with_log_context = λ fs. fs;
  parent_of = λ fs. codes "boss";
  show_int = one_int;
  integrity_message = [];
}

abbrev spec : QueueSubmitSpec
spec = record { task_id = codes "t3"; input_data = end; timeout_seconds = 60; max_retries = 1 }

submit_lem_example :
    let r = submit context (queue_of (codes "t2" ∷ [])) 9 spec in
    (r.0.queue ≡ codes "t2" ∷ codes "t3" ∷ [])
    × ((get_status r.0 (codes "t3")).1 ≡ some r.1)
    × ((k : Text)
        → text_eq (codes "t3") k ≡ false
        → (get k r.0.cache ≡ get k (queue_of (codes "t2" ∷ [])).cache)
          × (get k r.0.table ≡ get k (queue_of (codes "t2" ∷ [])).table))
    × IsNew context (queue_of (codes "t2" ∷ [])).namespace 9 spec r.1
submit_lem_example = submit_lem context (queue_of (codes "t2" ∷ [])) 9 spec

abbrev done_payload : TaskPayload
done_payload = record (payload (codes "t1") running (codes "w1")) {
  status = succeeded;
  result = some end;
}

abbrev completed_queue : TaskQueue
completed_queue = record (queue_of []) {
  table = (codes "t1", done_payload) ∷ (codes "t2", payload (codes "t2") pending []) ∷ [];
  cache = (codes "t1", done_payload) ∷ [];
}

t1_completed :
    Terminal.complete (queue_of []) (codes "t1") end (codes "w1") ≡ ok (completed_queue, true)
unfolding Terminal.complete refresh_cache complete get text_eq can_complete put
t1_completed = refl

-- The recovery had read `t1` while it was running.
recover_one-overwrites_example :
    ((found : TaskPayload) × ((visible completed_queue (codes "t1") ≡ some found)
        × ((is_succeeded found.status ≡ true) × (found.result ≡ some end))))
    × (visible
          (recover_one_stale one_int completed_queue (payload (codes "t1") running (codes "w1"))).0
          (codes "t1")
        ≡ some (requeued (payload (codes "t1") running (codes "w1"))))
recover_one-overwrites_example =
    recover_one-overwrites one_int (queue_of []) completed_queue
      (payload (codes "t1") running (codes "w1")) end (codes "w1") refl t1_completed refl

-- The lease of `t1` expires, and another worker claims it again.
abbrev first_try : TaskPayload
first_try = payload (codes "t1") running (codes "w1")

abbrev tried_again : TaskQueue
tried_again = (claim_task (recover_one_stale one_int (queue_of []) first_try).0 9 (codes "w2")).0

first_row : get (codes "t1") tasks ≡ some first_try
unfolding get text_eq
first_row = refl

first_recovered : (recover_one_stale one_int (queue_of []) first_try).1 ≡ recovered
unfolding recover_one_stale
first_recovered = refl

abbrev second_life : Life one_int (codes "t1") 1 (queue_of []) tried_again
second_life =
    claims 1 (queue_of []) (recover_one_stale one_int (queue_of []) first_try).0 9 (codes "w2") (
      requeues 0 (queue_of []) (queue_of []) first_try (begins (queue_of [])) first_row refl
        first_recovered)

untried : HasTries (queue_of []) (codes "t1") 0 1
untried = record { on = refl; row = first_try; stored = first_row; tried = refl; limit = refl }

Life-IsBounded_example : IsBounded one_int tried_again (codes "t1") 1 0 1
Life-IsBounded_example =
    Life-IsBounded one_int (codes "t1") 1 (queue_of []) tried_again 0 1 second_life untried
      (omega arith)

wait_over :
    wait_round completed_queue 9 9 (some 20) (codes "t1" ∷ [])
    ≡ (completed_queue, some (done_payload ∷ []))
unfolding wait_round all get text_eq put
wait_over = refl
