-- ===== src/Loop/Turn/Signing.antt =====
-- The parts of a turn that handle signed calls lose none and answer each.
use neuralhub.Base.{
  ℕ, ◌+◌, ◌≡◌, refl, ap, ◌∙◌, inl, inr, List, [], ◌∷◌, ◌++◌, map, arith, Bool-cases, length, Text,
  codes, Dict, Result, tally, tally-append, tally_snoc,
}
use neuralhub.Types.{Fields, ToolCall, ToolResult, ToolDefinition, SignedToolCall}
use neuralhub.Tools.Registry.{ToolRegistry}
use neuralhub.Tools.Gate.{
  Crypto, SecurityGate, AuthorizeResult, no_results, authorize, authorize_from, authorize_one,
  force_sign, bump, rejected_result, signed, starts_with, is_empty, reject_reason,
}
use neuralhub.Tools.Executor.{
  execute_signed, execute_signed_serial, serial_from, sorted_by_sequence, insert_by_sequence,
  enumerate,
}
use neuralhub.Tools.Executor.Batch.{signed-id}
use neuralhub.Tools.Batching.{partition_by_side_effect, partition_from, by_name_from}
use neuralhub.Loop.Recovery.Splitting.{call_ids, result_ids}

abbrev pub signed_ids : List SignedToolCall → List Text
signed_ids calls = map (λ c. c.tool_call.id) calls

abbrev indexed_ids : List (ℕ × SignedToolCall) → List Text
indexed_ids xs = map (λ x. x.1.tool_call.id) xs

pub call_ids-append : (xs ys : List ToolCall) → call_ids (xs ++ ys) ≡ call_ids xs ++ call_ids ys
call_ids-append [] ys = refl
call_ids-append (x ∷ xs) ys = ap (λ ids. x.id ∷ ids) (call_ids-append xs ys)

pub result_ids-append :
    (xs ys : List ToolResult) → result_ids (xs ++ ys) ≡ result_ids xs ++ result_ids ys
result_ids-append [] ys = refl
result_ids-append (x ∷ xs) ys = ap (λ ids. x.tool_call_id ∷ ids) (result_ids-append xs ys)

pub signed_ids-append :
    (xs ys : List SignedToolCall) → signed_ids (xs ++ ys) ≡ signed_ids xs ++ signed_ids ys
signed_ids-append [] ys = refl
signed_ids-append (x ∷ xs) ys = ap (λ ids. x.tool_call.id ∷ ids) (signed_ids-append xs ys)

call_tally_snoc :
    (k : Text) (xs : List ToolCall) (x : ToolCall)
    → tally k (call_ids (xs ++ x ∷ [])) ≡ tally k (x.id ∷ call_ids xs)
call_tally_snoc k xs x = rw (call_ids-append xs (x ∷ [])) (tally_snoc k x.id (call_ids xs))

result_tally_snoc :
    (k : Text) (xs : List ToolResult) (x : ToolResult)
    → tally k (result_ids (xs ++ x ∷ [])) ≡ tally k (x.tool_call_id ∷ result_ids xs)
result_tally_snoc k xs x =
    rw (result_ids-append xs (x ∷ [])) (tally_snoc k x.tool_call_id (result_ids xs))

signed_tally_snoc :
    (k : Text) (xs : List SignedToolCall) (x : SignedToolCall)
    → tally k (signed_ids (xs ++ x ∷ [])) ≡ tally k (x.tool_call.id ∷ signed_ids xs)
signed_tally_snoc k xs x =
    rw (signed_ids-append xs (x ∷ [])) (tally_snoc k x.tool_call.id (signed_ids xs))

single : (k i : Text) (ids : List Text) → tally k (i ∷ ids) ≡ tally k ids + tally k (i ∷ [])
single k i ids = omega (arith, tally-append k (i ∷ []) ids)

abbrev pub answered_or_open : Text → AuthorizeResult → ℕ
answered_or_open k r =
    tally k (signed_ids r.signed_calls)
    + tally k (result_ids r.rejected_results)
    + tally k (call_ids r.pending_approval)

module _ (crypto : Crypto) {X : Type 0} (time : ℕ → ℕ) where
  authorize_one-tally :
      (s : SecurityGate X × AuthorizeResult) (call : ToolCall) (k : Text)
      → answered_or_open k (authorize_one crypto time s call).1
        ≡ answered_or_open k s.1 + tally k (call.id ∷ [])
  unfolding authorize_one rejected_result signed tally
  authorize_one-tally (g, r) call k =
      let reason = reject_reason crypto g call (length r.signed_calls) in
      elim (Bool-cases (starts_with (codes "requires_approval:") reason)) [
        | inl e ↦
            rw (authorize_one, e)
              (omega (
                arith,
                call_tally_snoc k r.pending_approval call,
                single k call.id (call_ids r.pending_approval),
              ))
        | inr e ↦ elim (Bool-cases (is_empty reason)) [
          | inl f ↦
              let c = signed crypto time g call in
              rw (authorize_one, e, f)
                (omega (
                  arith,
                  signed_tally_snoc k r.signed_calls c,
                  single k call.id (signed_ids r.signed_calls),
                ))
          | inr f ↦
              let x = rejected_result call reason in
              rw (authorize_one, e, f)
                (omega (
                  arith,
                  result_tally_snoc k r.rejected_results x,
                  single k call.id (result_ids r.rejected_results),
                ))
        ]
      ]

  authorize_from-tally :
      (calls : List ToolCall) (s : SecurityGate X × AuthorizeResult) (k : Text)
      → answered_or_open k (authorize_from crypto time s calls).1
        ≡ answered_or_open k s.1 + tally k (call_ids calls)
  unfolding authorize_from tally
  authorize_from-tally [] s k = omega arith
  authorize_from-tally (call ∷ calls) s k =
      let one = authorize_one-tally s call k in
      let rest = authorize_from-tally calls (authorize_one crypto time s call) k in ground arith

  -- Each call is signed, rejected by a result or left pending, and only one of these.
  pub authorize-tally :
      (g : SecurityGate X) (calls : List ToolCall) (k : Text)
      → answered_or_open k (authorize crypto time g calls).1 ≡ tally k (call_ids calls)
  unfolding authorize tally
  authorize-tally g calls k = omega (arith, authorize_from-tally calls (g, no_results) k)

  pub force_sign-ids :
      (g : SecurityGate X) (calls : List ToolCall)
      → signed_ids (force_sign crypto time g calls).1 ≡ call_ids calls
  unfolding force_sign signed
  force_sign-ids g [] = refl
  force_sign-ids g (call ∷ calls) = ap (λ ids. call.id ∷ ids) (force_sign-ids (bump g) calls)

partition_from-tally :
    (d : Dict ToolDefinition) (calls rs ws : List SignedToolCall) (k : Text)
    → tally k (signed_ids (partition_from d rs ws calls).0)
        + tally k (signed_ids (partition_from d rs ws calls).1)
      ≡ tally k (signed_ids rs) + tally k (signed_ids ws) + tally k (signed_ids calls)
unfolding partition_from tally
partition_from-tally d [] rs ws k = omega arith
partition_from-tally d (c ∷ cs) rs ws k =
    let a = partition_from-tally d cs (rs ++ c ∷ []) ws k in
    let b = partition_from-tally d cs rs (ws ++ c ∷ []) k in
    let r = signed_tally_snoc k rs c in let w = signed_tally_snoc k ws c in ground arith

-- Each signed call goes to one of the two parts.
pub partition-tally :
    (calls : List SignedToolCall) (tools : List ToolDefinition) (k : Text)
    → tally k (signed_ids (partition_by_side_effect calls tools).0)
        + tally k (signed_ids (partition_by_side_effect calls tools).1)
      ≡ tally k (signed_ids calls)
unfolding partition_by_side_effect tally
partition-tally calls tools k =
    omega (arith, partition_from-tally (by_name_from [] tools) calls [] [] k)

insert-tally :
    (x : ℕ × SignedToolCall) (xs : List (ℕ × SignedToolCall)) (k : Text)
    → tally k (indexed_ids (insert_by_sequence x xs)) ≡ tally k (indexed_ids (x ∷ xs))
unfolding insert_by_sequence tally
insert-tally x [] k = refl
insert-tally x (y ∷ ys) k = let rest = insert-tally x ys k in ground arith

sorted-tally :
    (i : ℕ) (calls : List SignedToolCall) (k : Text)
    → tally k (indexed_ids (sorted_by_sequence (enumerate i calls))) ≡ tally k (signed_ids calls)
unfolding sorted_by_sequence enumerate tally
sorted-tally i [] k = refl
sorted-tally i (c ∷ cs) k =
    let rest = sorted-tally (i + 1) cs k in
    let ins = insert-tally (i, c) (sorted_by_sequence (enumerate (i + 1) cs)) k in ground arith

module _ (show_int : ℕ → Text) {X : Type 0} (run : X → Fields → Result ToolResult)
    (crypto : Crypto) where
  serial_from-ids :
      (registry : ToolRegistry X) (xs : List (ℕ × SignedToolCall)) (gate : SecurityGate X)
      → result_ids (serial_from show_int run crypto registry xs gate).1 ≡ indexed_ids xs
  unfolding serial_from
  serial_from-ids registry [] gate = refl
  serial_from-ids registry (x ∷ xs) gate =
      let s = execute_signed show_int run crypto registry x.1 gate in
      rw (signed-id show_int run crypto registry x.1 gate)
        (ap (λ ids. x.1.tool_call.id ∷ ids) (serial_from-ids registry xs s.0))

  -- Calls that are executed one by one get one result each.
  pub serial-tally :
      (registry : ToolRegistry X) (calls : List SignedToolCall) (gate : SecurityGate X) (k : Text)
      → tally k (result_ids (execute_signed_serial show_int run crypto registry calls gate).1)
        ≡ tally k (signed_ids calls)
  unfolding execute_signed_serial
  serial-tally registry calls gate k =
      ap (tally k) (serial_from-ids registry (sorted_by_sequence (enumerate 0 calls)) gate)
      ∙ sorted-tally 0 calls k
