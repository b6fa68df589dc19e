-- ===== src/Tests/StoreTests.antt =====
-- The table of backend/storage/sub_agent_task_store.py with a few rows.
use neuralhub.Base.{
  ℕ, ◌≡◌, refl, none, some, List, [], ◌∷◌, if◌then◌else◌, keep, any, all, Text, codes, text_eq, has,
  distinct, get, ok,
}
use neuralhub.Types.{end}
use neuralhub.TaskQueue.Payload.{TaskStatus, TaskPayload, pending, running, succeeded}
use neuralhub.TaskQueue.Store.{
  claim, Table, claimed_row, add_all, save_payloads_with_capacity, active_count, parent_id,
}
use neuralhub.TaskQueue.Store.Capacity.{Accepted, capacity_kept}
use neuralhub.TaskQueue.Store.Transitions.{
  Op, apply, apply_all, target, row_step, map_row, get-apply, claim_once, succeeded_final, claim_op,
  complete_op, fail_op,
}

abbrev row : (task_id : Text) → TaskStatus → (worker_id : Text) → TaskPayload
row i st w = record {
  task_id = i;
  namespace = codes "sub";
  input_data = end;
  parent_task_id = codes "boss";
  status = st;
  worker_id = w;
  created_at = 1;
  started_at = 0;
  timeout_seconds = 60;
  lease_expires_at = 0;
  result = none;
  error = [];
  retry_count = 0;
  max_retries = 1;
}

abbrev table : Table
table =
    (codes "t1", row (codes "t1") pending [])
    ∷ (codes "t2", row (codes "t2") running (codes "w2"))
    ∷ (codes "t3", row (codes "t3") succeeded (codes "w3"))
    ∷ []

abbrev busy : List Op
busy =
    claim_op 6 (codes "t1") (codes "w2")
    ∷ fail_op (codes "t1") (codes "broken") (codes "w1")
    ∷ complete_op (codes "t3") end (codes "w3")
    ∷ []

t1_claimed :
    (claim table 5 (codes "t1") (codes "w1")).1
    ≡ some (claimed_row 5 (codes "w1") (row (codes "t1") pending []))
unfolding claim get text_eq
t1_claimed = refl

claim_once_example :
    (claim
      (apply_all busy (claim table 5 (codes "t1") (codes "w1")).0)
      7
      (codes "t1")
      (codes "w2")).1
    ≡ none
claim_once_example =
    claim_once table 5 7 (codes "t1") (codes "w1") (codes "w2")
      (claimed_row 5 (codes "w1") (row (codes "t1") pending [])) busy t1_claimed

t3_stored : get (codes "t3") table ≡ some (row (codes "t3") succeeded (codes "w3"))
unfolding get text_eq
t3_stored = refl

succeeded_final_example :
    get (codes "t3") (apply_all busy table) ≡ some (row (codes "t3") succeeded (codes "w3"))
succeeded_final_example =
    succeeded_final busy table (codes "t3") (row (codes "t3") succeeded (codes "w3")) t3_stored refl

claim_moves_one : get (codes "t3") (apply (claim_op 6 (codes "t1") (codes "w2")) table) ≡ (
    if text_eq (target (claim_op 6 (codes "t1") (codes "w2"))) (codes "t3")
    then map_row (row_step (claim_op 6 (codes "t1") (codes "w2"))) (get (codes "t3") table)
    else get (codes "t3") table)
claim_moves_one = get-apply (claim_op 6 (codes "t1") (codes "w2")) table (codes "t3")

t2_stored : get (codes "t2") table ≡ some (row (codes "t2") running (codes "w2"))
unfolding get text_eq
t2_stored = refl

abbrev one_int : ℕ → Text
one_int n = n ∷ []

abbrev batch : List TaskPayload
batch = row (codes "t5") pending [] ∷ []

t4_t5_saved :
    save_payloads_with_capacity one_int [] table (row (codes "t4") pending [] ∷ batch) 4
    ≡ ok (add_all table (row (codes "t4") pending [] ∷ batch), row (codes "t4") pending [] ∷ batch)
unfolding save_payloads_with_capacity add_all parent_id all text_eq active_count keep any get
    distinct has
t4_t5_saved = refl

capacity_kept_example :
    Accepted table
      (add_all table (row (codes "t4") pending [] ∷ batch))
      (row (codes "t4") pending [])
      batch
      4
capacity_kept_example =
    capacity_kept one_int [] table (add_all table (row (codes "t4") pending [] ∷ batch))
      (row (codes "t4") pending []) batch (row (codes "t4") pending [] ∷ batch) 4 t4_t5_saved
