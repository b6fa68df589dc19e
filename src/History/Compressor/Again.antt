-- ===== src/History/Compressor/Again.antt =====
-- What a compaction leaves, and a second compaction after it.
use neuralhub.Base.{
  ℕ, ◌≤◌, ◌≡◌, refl, sym, ap, ◌∙◌, inl, inr, Bool, true, false, not, ◌&&◌, List, [], ◌∷◌, ◌++◌,
  arith, leb, Bool-cases, length, keep, all, Text, Result, Result-cases, nonempty,
}
use neuralhub.Types.{Fields, is_system, Message}
use mathlib.Core.Path.{subst}
use neuralhub.History.Summaries.{is_summary_message, build_summary_message}
use neuralhub.History.Boundary.{align_recent_boundary}
use neuralhub.History.Boundary.Cut.{align_recent_boundary-IsCut}
use neuralhub.History.Compressor.{
  compact, non_system_messages, build_fallback_summary, request_summary, summary_for,
  system_messages, summary_messages, message_of,
}

module _ {A : Type 0} where
  keep-append : (p : A → Bool) (xs ys : List A) → keep p (xs ++ ys) ≡ keep p xs ++ keep p ys
  unfolding keep
  keep-append p [] ys = refl
  keep-append p (x ∷ xs) ys = elim (Bool-cases (p x)) [
    | inl e ↦ rw e (ap (λ zs. x ∷ zs) (keep-append p xs ys))
    | inr e ↦ rw e (keep-append p xs ys)
  ]

  keep-disjoint :
      (p q : A → Bool)
      → ((x : A) → q x ≡ true → p x ≡ false)
      → (xs : List A) → keep p (keep q xs) ≡ []
  unfolding keep
  keep-disjoint p q h [] = refl
  keep-disjoint p q h (x ∷ xs) = elim (Bool-cases (q x)) [
    | inl e ↦ rw (e, keep, h x e) (keep-disjoint p q h xs)
    | inr e ↦ rw e (keep-disjoint p q h xs)
  ]

  keep-every : (p : A → Bool) (xs : List A) → all p xs ≡ true → keep p xs ≡ xs
  unfolding keep all
  keep-every p [] h = refl
  keep-every p (x ∷ xs) h =
      let e : p x ≡ true = ground arith in
      let rest : all p xs ≡ true = ground arith in rw e (ap (λ zs. x ∷ zs) (keep-every p xs rest))

  every-keep : (p : A → Bool) (xs : List A) → all p (keep p xs) ≡ true
  unfolding keep all
  every-keep p [] = refl
  every-keep p (x ∷ xs) = elim (Bool-cases (p x)) [
    | inl e ↦ rw (e, all, e) (every-keep p xs)
    | inr e ↦ rw e (every-keep p xs)
  ]

  every-append_right : (p : A → Bool) (xs ys : List A) → all p (xs ++ ys) ≡ true → all p ys ≡ true
  unfolding all
  every-append_right p [] ys h = h
  every-append_right p (x ∷ xs) ys h = every-append_right p xs ys (ground arith)

own_summary :
    (new_id : Text) (now : ℕ) (text path err : Text)
    → is_summary_message (build_summary_message new_id now text path err) ≡ true
unfolding is_summary_message build_summary_message
own_summary new_id now text path err = refl

module _ (dumps : Fields → Text) (show_int : ℕ → Text) where
  summary_kept_out :
      (ask : Text → Result Text) (new_id : Text) (now : ℕ) (old : List Message) (ms : List Message)
      → non_system_messages (summary_for dumps show_int ask new_id now old ∷ ms)
        ≡ non_system_messages ms
  unfolding summary_for keep
  summary_kept_out ask new_id now old ms =
      elim (Result-cases (request_summary dumps show_int ask new_id now old)) [
        | inl (text, e) ↦ let a = own_summary new_id now text [] [] in rw (summary_for, e, a) refl
        | inr (x, e) ↦
            let fallback = build_fallback_summary dumps show_int old in
            let a = own_summary new_id now fallback [] (message_of x) in rw (summary_for, e, a) refl
      ]

  -- What a compaction that does something leaves counts as compacted: only the recent messages are
  -- neither system messages nor summaries.
  left_over :
      (s : Message) (ms recent : List Message)
      → non_system_messages (s ∷ recent) ≡ non_system_messages recent
      → non_system_messages recent ≡ recent
      → non_system_messages (system_messages ms ++ (summary_messages ms ++ s ∷ recent)) ≡ recent
  left_over s ms recent skip whole =
      let wanted : Message → Bool = λ m. not (is_system m.role) && not (is_summary_message m) in
      let a = keep-append wanted (system_messages ms) (summary_messages ms ++ s ∷ recent) in
      let b = keep-append wanted (summary_messages ms) (s ∷ recent) in
      let c = keep-disjoint wanted (λ m. is_system m.role) (λ m h. ground arith) ms in
      let d =
        keep-disjoint wanted (λ m. not (is_system m.role) && is_summary_message m)
          (λ m h. ground arith) ms in
      a
      ∙ ap (λ xs. xs ++ non_system_messages (summary_messages ms ++ s ∷ recent)) c
      ∙ b
      ∙ ap (λ xs. xs ++ non_system_messages (s ∷ recent)) d
      ∙ skip
      ∙ whole

  few_kept :
      (ask : Text → Result Text) (new_id : Text) (now n : ℕ) (ms : List Message)
      → length (non_system_messages ms) ≤ n
      → compact dumps show_int ask new_id now n ms ≡ ms
  unfolding compact
  few_kept ask new_id now n ms h =
      let e : leb (length (non_system_messages ms)) n ≡ true = ground arith in rw (compact, e) refl

  -- A compaction settles the history: compacting again, with whatever answers of the model, changes
  -- nothing.
  pub compact_again :
      (ask ask' : Text → Result Text) (i i' : Text) (now later n : ℕ) (ms : List Message)
      → compact dumps show_int ask' i' later n (compact dumps show_int ask i now n ms)
        ≡ compact dumps show_int ask i now n ms
  unfolding compact
  compact_again ask ask' i i' now later n ms =
      let cut = align_recent_boundary (non_system_messages ms) n in
      let good = align_recent_boundary-IsCut (non_system_messages ms) n in
      let s = summary_for dumps show_int ask i now cut.0 in
      let wanted : Message → Bool = λ m. not (is_system m.role) && not (is_summary_message m) in
      let kept =
        every-append_right wanted cut.0 cut.1
          (subst (λ xs. all wanted xs ≡ true) (sym good.joined) (every-keep wanted ms)) in
      let whole = keep-every wanted cut.1 kept in
      let settled = left_over s ms cut.1 (summary_kept_out ask i now cut.0 cut.1) whole in
      elim (Bool-cases (leb (length (non_system_messages ms)) n)) [
        | inl few ↦ rw (compact, few, compact, few) refl
        | inr many ↦ elim (Bool-cases (nonempty cut.0)) [
          | inr none' ↦ rw (compact, many, none', compact, many, none') refl
          | inl some' ↦
              let e : compact dumps show_int ask i now n ms
                  ≡ system_messages ms ++ (summary_messages ms ++ s ∷ cut.1) =
                rw (compact, many, some') refl in
              rw e (
                few_kept ask' i' later n (system_messages ms ++ (summary_messages ms ++ s ∷ cut.1))
                  (rw settled good.bounded))
        ]
      ]
