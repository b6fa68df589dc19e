-- ===== src/TaskQueue/Store/Capacity.antt =====
-- The capacity of one parent task.
use neuralhub.Base.{
  ℕ, ◌+◌, ◌≤◌, ◌≡◌, refl, sym, inl, inr, true, false, List, [], ◌∷◌, arith, length, Elem, keep, any,
  all, Text, text_eq, text_eq_iff, get, put, get-put, ok, raise, all-Elem, Result-cases,
}
use mathlib.Core.Path.{subst}
use neuralhub.TaskQueue.Payload.{TaskPayload}
use neuralhub.TaskQueue.Store.{Table, active_count, add_all, parent_id, save_payloads_with_capacity}

active_count-put :
    (k parent : Text) (p : TaskPayload) (db : Table)
    → active_count (put k p db) parent ≤ active_count db parent + 1
unfolding active_count put keep
active_count-put k parent p [] = ground arith
active_count-put k parent p ((j, r) ∷ db) = ground (arith, active_count-put k parent p db)

active_count-add_all :
    (ps : List TaskPayload) (db : Table) (parent : Text)
    → active_count (add_all db ps) parent ≤ active_count db parent + length ps
unfolding add_all
active_count-add_all [] db parent = omega arith
active_count-add_all (p ∷ ps) db parent = omega (
  arith,
  active_count-add_all ps (put p.task_id p db) parent,
  active_count-put p.task_id parent p db,
)

parent_id-ok :
    (p : TaskPayload) (ps : List TaskPayload) (parent : Text)
    → parent_id p ps ≡ ok parent
    → p.parent_task_id ≡ parent
unfolding parent_id
parent_id-ok p ps parent e = ground arith

parent_id-all :
    (p : TaskPayload) (ps : List TaskPayload) (parent : Text)
    → parent_id p ps ≡ ok parent
    → (q : TaskPayload) → Elem q ps
    → q.parent_task_id ≡ p.parent_task_id
unfolding parent_id
parent_id-all p ps parent e q m =
    let every : all (λ x. text_eq x.parent_task_id p.parent_task_id) ps ≡ true = ground arith in
    (text_eq_iff q.parent_task_id p.parent_task_id).0 (all-Elem _ ps q every m)

get-add_all :
    (ps : List TaskPayload) (db : Table) (k : Text)
    → any (λ q. text_eq q.task_id k) ps ≡ false
    → get k (add_all db ps) ≡ get k db
unfolding add_all any
get-add_all [] db k h = refl
get-add_all (p ∷ ps) db k h =
    ground (arith, get-add_all ps (put p.task_id p db) k, get-put p.task_id k p db)

-- What a batch that was accepted leaves behind.
pub record Accepted (db db' : Table) (p : TaskPayload) (ps : List TaskPayload) (max_active : ℕ)
    : Type 0 where
  pub within : active_count db' p.parent_task_id ≤ max_active
  pub one_parent : (q : TaskPayload) → Elem q ps → q.parent_task_id ≡ p.parent_task_id
  pub untouched :
      (k : Text) → any (λ q. text_eq q.task_id k) (p ∷ ps) ≡ false → get k db' ≡ get k db

module _ (show_int : ℕ → Text) (integrity_message : Text) where
  -- A batch that is accepted shares one parent, leaves this parent with no more than `max_active`
  -- pending and running rows, and changes no other row.
  pub capacity_kept :
      (db db' : Table) (p : TaskPayload) (ps saved : List TaskPayload) (max_active : ℕ)
      → save_payloads_with_capacity show_int integrity_message db (p ∷ ps) max_active
        ≡ ok (db', saved)
      → Accepted db db' p ps max_active
  unfolding save_payloads_with_capacity
  capacity_kept db db' p ps saved max_active e = elim (Result-cases (parent_id p ps)) [
    | inr (x, f) ↦
        let c : raise x ≡ ok (db', saved) = rw (f, save_payloads_with_capacity) at e in cc
    | inl (parent, f) ↦
        let same = parent_id-ok p ps parent f in
        let grown = active_count-add_all (p ∷ ps) db p.parent_task_id in
        let e' = rw (f, save_payloads_with_capacity) at e in
        let d : add_all db (p ∷ ps) ≡ db' = ground arith in
        let fits : active_count db parent + length (p ∷ ps) ≤ max_active = ground arith in
        let fits' = subst (λ x. active_count db x + length (p ∷ ps) ≤ max_active) (sym same) fits in
        record {
          within = rw (← d) (omega arith);
          one_parent = parent_id-all p ps parent f;
          untouched = λ k h. rw (← d) (get-add_all (p ∷ ps) db k h);
        }
  ]
