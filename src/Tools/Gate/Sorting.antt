-- ===== src/Tools/Gate/Sorting.antt =====
-- Where `authorize` puts each call.
use neuralhub.Base.{
  ℕ, zero, suc, ◌+◌, ◌≡◌, refl, sym, ap, ◌∙◌, inl, inr, List, [], ◌∷◌, ◌++◌, map, arith, Bool-cases,
  length, Elem, length-append, Text, codes, Elem-append_cases, tally,
}
use neuralhub.Types.{ToolCall, SignedToolCall}
use neuralhub.Tools.Gate.{
  no_results, Crypto, SecurityGate, AuthorizeResult, reject_reason, starts_with, is_empty,
  authorize_one, authorize_from, authorize, signed, bump,
}
use neuralhub.Tools.Gate.Authorize.{Inv, authorize-Inv}
use neuralhub.Loop.Recovery.Splitting.{call_ids}
use neuralhub.Loop.Turn.Signing.{answered_or_open, authorize-tally}

-- The `k` numbers after `n`.
unfoldable pub numbers_after : ℕ → ℕ → List ℕ
numbers_after n zero = []
numbers_after n (suc k) = numbers_after n k ++ (n + suc k) ∷ []

numbers : List SignedToolCall → List ℕ
numbers cs = map (λ c. c.sequence) cs

numbers-append : (xs ys : List SignedToolCall) → numbers (xs ++ ys) ≡ numbers xs ++ numbers ys
unfolding numbers
numbers-append [] ys = refl
numbers-append (x ∷ xs) ys = ap (λ ns. x.sequence ∷ ns) (numbers-append xs ys)

module _ (crypto : Crypto) {X : Type 0} where
  -- What a run of `authorize` that began at `n` has, whose calls satisfy `P`.
  record Given (P : ToolCall → Type 0) (n : ℕ) (s : SecurityGate X × AuthorizeResult) : Type 0 where
    signed_given : (c : SignedToolCall) → Elem c s.1.signed_calls → P c.tool_call
    pending_given : (c : ToolCall) → Elem c s.1.pending_approval → P c
    counter : s.0.sequence ≡ n + length s.1.signed_calls
    in_order : numbers s.1.signed_calls ≡ numbers_after n (length s.1.signed_calls)

  -- All calls are accounted for, the signed ones are numbered one after the other, and the lists hold
  -- calls of the input.
  pub record IsSorted (g : SecurityGate X) (calls : List ToolCall)
      (s : SecurityGate X × AuthorizeResult) : Type 0 where
    pub inv : Inv crypto g (length calls) s
    pub each_once : (k : Text) → answered_or_open k s.1 ≡ tally k (call_ids calls)
    pub signed_from : (c : SignedToolCall) → Elem c s.1.signed_calls → Elem c.tool_call calls
    pub pending_from : (c : ToolCall) → Elem c s.1.pending_approval → Elem c calls
    pub numbered :
        map (λ c. c.sequence) s.1.signed_calls ≡ numbers_after g.sequence (length s.1.signed_calls)

  module _ (time : ℕ → ℕ) (P : ToolCall → Type 0) (n : ℕ) where
    signed-Given :
        (h : SecurityGate X) (r : AuthorizeResult) (call : ToolCall)
        → Given P n (h, r)
        → P call
        → Given P n
            (bump h, record r { signed_calls = r.signed_calls ++ signed crypto time h call ∷ [] })
    unfolding bump signed numbers numbers_after
    signed-Given h r call v p =
        let new = signed crypto time h call in
        let before : h.sequence ≡ n + length r.signed_calls = v.counter in
        let grown : length (r.signed_calls ++ new ∷ []) ≡ suc (length r.signed_calls) =
          omega (arith, length-append {0} r.signed_calls (new ∷ [])) in
        let last : h.sequence + 1 ≡ n + suc (length r.signed_calls) = omega (arith, before) in
        record {
          signed_given = λ c m. elim (Elem-append_cases c r.signed_calls (new ∷ []) m) [
            | inl old ↦ v.signed_given c old
            | inr (inl e) ↦ rw e p
            | inr (inr x) ↦ absurd x
          ];
          pending_given = v.pending_given;
          counter = last ∙ sym (ap (λ k. n + k) grown);
          in_order =
              numbers-append r.signed_calls (new ∷ [])
              ∙ ap (λ ns. ns ++ (h.sequence + 1) ∷ []) v.in_order
              ∙ ap (λ k. numbers_after n (length r.signed_calls) ++ k ∷ []) last
              ∙ ap (numbers_after n) (sym grown);
        }

    one-Given :
        (h : SecurityGate X) (r : AuthorizeResult) (call : ToolCall)
        → Given P n (h, r)
        → P call
        → Given P n (authorize_one crypto time (h, r) call)
    unfolding authorize_one
    one-Given h r call v p =
        let reason = reject_reason crypto h call (length r.signed_calls) in
        elim (Bool-cases (starts_with (codes "requires_approval:") reason)) [
          | inl asks ↦ rw asks (record {
            signed_given = v.signed_given;
            pending_given = λ c m. elim (Elem-append_cases c r.pending_approval (call ∷ []) m) [
              | inl old ↦ v.pending_given c old
              | inr (inl e) ↦ rw e p
              | inr (inr x) ↦ absurd x
            ];
            counter = v.counter;
            in_order = v.in_order;
          })
          | inr quiet ↦ elim (Bool-cases (is_empty reason)) [
            | inr refused ↦
                rw (quiet, refused)
                  (record {
                    signed_given = v.signed_given;
                    pending_given = v.pending_given;
                    counter = v.counter;
                    in_order = v.in_order;
                  })
            | inl passes ↦ rw (quiet, passes) (signed-Given h r call v p)
          ]
        ]

    from-Given :
        (calls : List ToolCall) (s : SecurityGate X × AuthorizeResult)
        → Given P n s
        → ((c : ToolCall) → Elem c calls → P c)
        → Given P n (authorize_from crypto time s calls)
    unfolding authorize_from
    from-Given [] s v all_given = v
    from-Given (call ∷ calls) (h, r) v all_given =
        from-Given calls (authorize_one crypto time (h, r) call)
          (one-Given h r call v (all_given call (inl refl))) (λ c m. all_given c (inr m))

  -- One run of `authorize` accounts for each id as often as it stands among the calls, by a signed
  -- call, by a rejecting result or by a call that waits for approval, and for no other id; signed and
  -- waiting calls are calls of the input. It signs no more calls than the policy allows for a turn,
  -- numbers them one after the other from the sequence counter, advances the counter past them and
  -- changes nothing else of the gate; and every signed call is of a registered tool that the policy
  -- allows and that needs no approval, with the gate's own signature.
  pub authorize-IsSorted :
      (time : ℕ → ℕ) (g : SecurityGate X) (calls : List ToolCall)
      → IsSorted g calls (authorize crypto time g calls)
  unfolding authorize numbers numbers_after
  authorize-IsSorted time g calls =
      let v =
        from-Given time (λ c. Elem c calls) g.sequence calls (g, no_results)
          (record {
            signed_given = λ c m. absurd m;
            pending_given = λ c m. absurd m;
            counter = omega arith;
            in_order = refl;
          })
          (λ c m. m) in
      record {
        inv = authorize-Inv crypto time g calls;
        each_once = authorize-tally crypto time g calls;
        signed_from = v.signed_given;
        pending_from = v.pending_given;
        numbered = v.in_order;
      }
