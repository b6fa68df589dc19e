-- ===== src/History/Boundary/Cut.antt =====
-- What the cut of a history guarantees.
use neuralhub.Base.{
  ℕ, ◌-◌, ◌≤◌, ◌≡◌, refl, ◌∙◌, inl, inr, Bool, true, false, not, List, [], ◌∷◌, ◌++◌, arith, ◌==◌,
  Bool-cases, length, take, drop, take-append-drop, length-drop,
}
use neuralhub.Types.{Message}
use mathlib.Core.List.{append_assoc, append-nil}
use neuralhub.History.Boundary.{
  move_while, tool_results_paired, starts_with_tool, align_recent_boundary, paired_from,
}

move_while_joins :
    (stays_out : List Message → Bool) (old recent : List Message)
    → (move_while stays_out old recent).0 ++ (move_while stays_out old recent).1 ≡ old ++ recent
unfolding move_while
move_while_joins p old [] = refl
move_while_joins p old (m ∷ ms) = elim (Bool-cases (p (m ∷ ms))) [
  | inl e ↦ rw e (move_while_joins p (old ++ m ∷ []) ms ∙ append_assoc old (m ∷ []) ms)
  | inr e ↦ rw e refl
]

move_while_shrinks :
    (stays_out : List Message → Bool) (old recent : List Message)
    → length (move_while stays_out old recent).1 ≤ length recent
unfolding move_while
move_while_shrinks p old [] = omega arith
move_while_shrinks p old (m ∷ ms) = let s = move_while_shrinks p (old ++ m ∷ []) ms in ground arith

-- Where the loop stops, nothing is left or the test fails.
move_while_stops :
    (stays_out : List Message → Bool) (old recent : List Message)
    → stays_out [] ≡ false
    → stays_out (move_while stays_out old recent).1 ≡ false
unfolding move_while
move_while_stops p old [] h = h
move_while_stops p old (m ∷ ms) h = let s = move_while_stops p (old ++ m ∷ []) ms h in ground arith

holds_of : {b : Bool} → not b ≡ false → b ≡ true
holds_of h = ground arith

paired_nothing : tool_results_paired [] ≡ true
unfolding tool_results_paired paired_from
paired_nothing = refl

paired_empty : not (tool_results_paired []) ≡ false
unfolding tool_results_paired paired_from
paired_empty = refl

recent_bound : (xs : List Message) (n : ℕ) → length (drop (length xs - n) xs) ≤ n
recent_bound xs n = let e = length-drop (length xs - n) xs in omega (arith, e)

old_recent :
    (xs : List Message) (n : ℕ)
    → take (length xs - length (drop (length xs - n) xs)) xs ++ drop (length xs - n) xs ≡ xs
old_recent xs n =
    let e = length-drop (length xs - n) xs in
    let k : length xs - length (drop (length xs - n) xs) ≡ length xs - n = omega (arith, e) in
    rw k (take-append-drop (length xs - n) xs)

-- What the cut promises of the old and the recent part.
pub record IsCut (messages : List Message) (reserve : ℕ) (cut : List Message × List Message)
    : Type 0 where
  pub joined : cut.0 ++ cut.1 ≡ messages
  pub bounded : length cut.1 ≤ reserve
  pub paired : tool_results_paired cut.1 ≡ true

-- The cut loses no message and keeps their order; at most `reserve` messages stay recent; and each
-- tool result that stays recent follows, in the recent part, the call that it answers.
pub align_recent_boundary-IsCut :
    (messages : List Message) (reserve : ℕ)
    → IsCut messages reserve (align_recent_boundary messages reserve)
unfolding align_recent_boundary
align_recent_boundary-IsCut ms n = elim (Bool-cases (n == 0)) [
  | inl z ↦ rw z (record { joined = append-nil ms; bounded = omega arith; paired = paired_nothing })
  | inr nz ↦
      let recent = drop (length ms - n) ms in
      let old = take (length ms - length recent) ms in
      let first = move_while starts_with_tool old recent in
      let unpaired : List Message → Bool = λ xs. not (tool_results_paired xs) in
      let a = move_while_shrinks starts_with_tool old recent in
      let b = move_while_shrinks unpaired first.0 first.1 in
      let c = recent_bound ms n in
      let d = move_while_stops unpaired first.0 first.1 paired_empty in
      rw nz (record {
        joined =
            move_while_joins unpaired first.0 first.1
            ∙ move_while_joins starts_with_tool old recent
            ∙ old_recent ms n;
        bounded = omega (arith, a, b, c);
        paired = holds_of d;
      })
]
