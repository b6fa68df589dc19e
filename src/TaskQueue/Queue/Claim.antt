-- ===== src/TaskQueue/Queue/Claim.antt =====
-- backend/core/task_queue_claim.py. The loop pops ids until one can be claimed; an empty list ends
-- it, as the timeout of `brpop` does.
use neuralhub.Base.{
  ℕ, ◌≡◌, refl, ap, ◌∙◌, inl, inr, Bool, true, false, Option, none, some, List, [], ◌∷◌, ◌++◌,
  arith, if◌then◌else◌, Bool-cases, any, Text, text_eq, get, get-put,
}
use neuralhub.TaskQueue.Payload.{TaskPayload, is_pending}
use neuralhub.TaskQueue.Store
use neuralhub.TaskQueue.Store.{claimed_row}
use neuralhub.TaskQueue.Queue.{TaskQueue, cache_payload, save_payload, get_status}

-- The body of the loop for an id that was popped: the claimed payload, or `continue`.
unfoldable pub claim_one :
    TaskQueue → (now : ℕ) (worker_id task_id : Text) → TaskQueue × Option TaskPayload
claim_one q now w i =
    if q.persistent
    then (let (table', claimed) = Store.claim q.table now i w in
        elim claimed [
          | none ↦ (record q { table = table' }, none)
          | some p ↦ (cache_payload (record q { table = table' }) p, some p)
        ])
    else (let (q', status) = get_status q i in
        elim status [
          | none ↦ (q', none)
          | some p ↦
              if is_pending p.status
              then (save_payload q' (claimed_row now w p), some (claimed_row now w p))
              else (q', none)
        ])

unfoldable pub claim_from :
    TaskQueue → (now : ℕ) (worker_id : Text) → List Text → TaskQueue × Option TaskPayload
claim_from q now w [] = (record q { queue = [] }, none)
claim_from q now w (i ∷ is) =
    let (q', claimed) = claim_one (record q { queue = is }) now w i in
    elim claimed [ some p ↦ (q', some p) | none ↦ claim_from q' now w is ]

unfoldable pub claim_task :
    TaskQueue → (now : ℕ) (worker_id : Text) → TaskQueue × Option TaskPayload
claim_task q now w = claim_from q now w q.queue

-- The status of an id, as the queue reads it without writing.
abbrev pub visible : TaskQueue → Text → Option TaskPayload
visible q i = if q.persistent then get i q.table else get i q.cache

abbrev pub claimable : Option TaskPayload → Bool
claimable none = false
claimable (some p) = is_pending p.status

claim_one-none :
    (q : TaskQueue) (now : ℕ) (w i : Text)
    → claimable (visible q i) ≡ false
    → claim_one q now w i ≡ (q, none)
unfolding claim_one Store.claim get_status
claim_one-none q now w i h = ground arith

claim_one-some :
    (q : TaskQueue) (now : ℕ) (w i : Text) (p : TaskPayload)
    → visible q i ≡ some p
    → is_pending p.status ≡ true
    → (claim_one q now w i).1 ≡ some (claimed_row now w p)
unfolding claim_one Store.claim get_status
claim_one-some q now w i p e h = ground arith

claim_one-visible :
    (q : TaskQueue) (now : ℕ) (w i : Text) (p : TaskPayload) (j : Text)
    → visible q i ≡ some p
    → is_pending p.status ≡ true
    → p.task_id ≡ i
    → visible (claim_one q now w i).0 j
      ≡ (if text_eq i j then some (claimed_row now w p) else visible q j)
unfolding claim_one Store.claim get_status save_payload
claim_one-visible q now w i p j e h k =
    let own : (claimed_row now w p).task_id ≡ i = k in
    let a = get-put i j (claimed_row now w p) q.table in
    let b = get-put i j (claimed_row now w p) q.cache in
    elim (Bool-cases q.persistent) [ inl s ↦ ground arith | inr s ↦ ground arith ]

claim_one-queue : (q : TaskQueue) (now : ℕ) (w i : Text) → (claim_one q now w i).0.queue ≡ q.queue
unfolding claim_one Store.claim get_status save_payload
claim_one-queue q now w i = ground arith

claim_from-hit :
    (q : TaskQueue) (now : ℕ) (w i : Text) (is : List Text) (c : TaskPayload)
    → (claim_one (record q { queue = is }) now w i).1 ≡ some c
    → claim_from q now w (i ∷ is) ≡ ((claim_one (record q { queue = is }) now w i).0, some c)
unfolding claim_from
claim_from-hit q now w i is c e = ground arith

claim_from-miss :
    (q q' : TaskQueue) (now : ℕ) (w i : Text) (is : List Text)
    → claim_one (record q { queue = is }) now w i ≡ (q', none)
    → claim_from q now w (i ∷ is) ≡ claim_from q' now w is
unfolding claim_from
claim_from-miss q q' now w i is e =
    let next : TaskQueue × Option TaskPayload → TaskQueue × Option TaskPayload =
      λ r. elim r.1 [ some p ↦ (r.0, some p) | none ↦ claim_from r.0 now w is ] in
    ap next e

claims_first :
    (q : TaskQueue) (now : ℕ) (w : Text) (xs ys : List Text) (i : Text) (p : TaskPayload)
    → any (λ x. claimable (visible q x)) xs ≡ false
    → visible q i ≡ some p
    → is_pending p.status ≡ true
    → claim_from q now w (xs ++ i ∷ ys)
      ≡ ((claim_one (record q { queue = ys }) now w i).0, some (claimed_row now w p))
unfolding claim_from any
claims_first q now w [] ys i p h e s =
    claim_from-hit q now w i ys (claimed_row now w p)
      (claim_one-some (record q { queue = ys }) now w i p e s)
claims_first q now w (x ∷ xs) ys i p h e s =
    let skip = claim_one-none (record q { queue = xs ++ i ∷ ys }) now w x (ground arith) in
    claim_from-miss q _ now w x (xs ++ i ∷ ys) skip
    ∙ claims_first (record q { queue = xs ++ i ∷ ys }) now w xs ys i p (ground arith) e s

claims_none :
    (q : TaskQueue) (now : ℕ) (w : Text) (xs : List Text)
    → any (λ x. claimable (visible q x)) xs ≡ false
    → claim_from q now w xs ≡ (record q { queue = [] }, none)
unfolding claim_from any
claims_none q now w [] h = refl
claims_none q now w (x ∷ xs) h =
    let skip = claim_one-none (record q { queue = xs }) now w x (ground arith) in
    claim_from-miss q _ now w x xs skip
    ∙ claims_none (record q { queue = xs }) now w xs (ground arith)

-- What a claim that got the task `i` leaves behind.
pub record Claimed (q : TaskQueue) (now : ℕ) (w i : Text) (p : TaskPayload) (rest : List Text)
    : Type 0 where
  pub returned : (claim_task q now w).1 ≡ some (claimed_row now w p)
  pub left : (claim_task q now w).0.queue ≡ rest
  pub status :
      (j : Text)
      → visible (claim_task q now w).0 j
        ≡ (if text_eq i j then some (claimed_row now w p) else visible q j)

-- First come, first served. When no id of `xs` has a pending task and the id `i` behind them has
-- one, stored under its own id, a worker that claims gets that task: running, with the worker's
-- name and a lease of the task's timeout. The ids up to it are taken from the queue, those behind
-- it stay in it, and the status of every other task is as it was.
pub claim_task-first :
    (q : TaskQueue) (now : ℕ) (w : Text) (xs ys : List Text) (i : Text) (p : TaskPayload)
    → q.queue ≡ xs ++ i ∷ ys
    → any (λ x. claimable (visible q x)) xs ≡ false
    → visible q i ≡ some p
    → is_pending p.status ≡ true
    → p.task_id ≡ i
    → Claimed q now w i p ys
unfolding claim_task
claim_task-first q now w xs ys i p e h v s k =
    let f : claim_from q now w q.queue
        ≡ ((claim_one (record q { queue = ys }) now w i).0, some (claimed_row now w p)) =
      ap (claim_from q now w) e ∙ claims_first q now w xs ys i p h v s in
    record {
      returned = ap (λ (r : TaskQueue × Option TaskPayload). r.1) f;
      left = rw f (claim_one-queue (record q { queue = ys }) now w i);
      status = λ j. rw f (claim_one-visible (record q { queue = ys }) now w i p j v s k);
    }

-- If no id in the queue has a pending task, a claim gets nothing, and only empties the queue.
pub claim_task-none :
    (q : TaskQueue) (now : ℕ) (w : Text)
    → any (λ x. claimable (visible q x)) q.queue ≡ false
    → claim_task q now w ≡ (record q { queue = [] }, none)
unfolding claim_task
claim_task-none q now w h = claims_none q now w q.queue h
