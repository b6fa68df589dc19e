-- ===== src/Tools/Gate/Authorize.antt =====
-- Which calls the gate signs.
use neuralhub.Base.{
  ℕ, ◌+◌, ◌≤◌, ◌<◌, ◌≡◌, refl, ◌⊎◌, inl, inr, true, false, some, List, [], ◌∷◌, arith, Bool-cases,
  length, Elem, length-append, codes, text_eq_iff, has, get, Elem-append_cases,
}
use neuralhub.Types.{ToolCall, ToolDefinition, SignedToolCall}
use neuralhub.Tools.Registry.{has_tool}
use neuralhub.Tools.Gate.{
  no_results, Crypto, SecurityGate, AuthorizeResult, sign, reject_reason, rejected_result,
  starts_with, is_empty, authorize_one, authorize_from, authorize, signed, bump, verify, member,
}

module _ (crypto : Crypto) {X : Type 0} where
  -- The policy lets the gate sign the call without asking a human.
  pub record IsPermitted (g : SecurityGate X) (call : ToolCall) : Type 0 where
    pub known : has_tool call.name g.registry ≡ true
    pub allowed :
        (is_empty g.policy.allowed_tools ≡ true) ⊎ (has call.name g.policy.allowed_tools ≡ true)
    pub unattended :
        (d : ToolDefinition) → get call.name g.registry.tools ≡ some d → d.requires_approval ≡ false

  reason-empty :
      (g : SecurityGate X) (call : ToolCall) (n : ℕ)
      → is_empty (reject_reason crypto g call n) ≡ true
      → IsPermitted g call × (n < g.policy.max_calls_per_turn)
  unfolding reject_reason
  reason-empty g call n h = (
    record { known = ground arith; allowed = ground arith; unattended = λ d e. ground arith },
    ground arith,
  )

  -- A signed call of one run of `authorize` that began at `g` and has given `n` numbers.
  pub record IsIssued (g : SecurityGate X) (n : ℕ) (c : SignedToolCall) : Type 0 where
    pub after : g.sequence < c.sequence
    pub upto : c.sequence ≤ g.sequence + n
    pub genuine : sign crypto g c.tool_call c.sequence c.timestamp ≡ c.signature
    pub permitted : IsPermitted g c.tool_call

  pub record Inv (g : SecurityGate X) (n : ℕ) (s : SecurityGate X × AuthorizeResult) : Type 0 where
    pub counted :
        length s.1.signed_calls + length s.1.rejected_results + length s.1.pending_approval ≡ n
    pub capped : length s.1.signed_calls ≤ g.policy.max_calls_per_turn
    pub advanced : s.0 ≡ record g { sequence = g.sequence + length s.1.signed_calls }
    pub issued :
        (c : SignedToolCall) → Elem c s.1.signed_calls → IsIssued g (length s.1.signed_calls) c

  IsIssued-more :
      (g : SecurityGate X) (n : ℕ) (c : SignedToolCall) → IsIssued g n c → IsIssued g (n + 1) c
  IsIssued-more g n c i = record {
    after = i.after;
    upto = omega (arith, i.upto);
    genuine = i.genuine;
    permitted = i.permitted;
  }

  bump-advanced :
      (g h : SecurityGate X) (n : ℕ)
      → h ≡ record g { sequence = g.sequence + n }
      → bump h ≡ record g { sequence = g.sequence + (n + 1) }
  unfolding bump
  bump-advanced g h n e =
      rw e (let a : g.sequence + n + 1 ≡ g.sequence + (n + 1) = omega arith in rw a)

  start : (g : SecurityGate X) → g ≡ record g { sequence = g.sequence + 0 }
  start g = let e : g.sequence + 0 ≡ g.sequence = omega arith in rw e

  module _ (time : ℕ → ℕ) where
    signed-IsIssued :
        (g h : SecurityGate X) (n : ℕ) (call : ToolCall)
        → h ≡ record g { sequence = g.sequence + n }
        → IsPermitted g call
        → IsIssued g (n + 1) (signed crypto time h call)
    unfolding signed sign
    signed-IsIssued g h n call e p =
        rw e (record { after = omega arith; upto = omega arith; genuine = refl; permitted = p })

    reason_of :
        (g h : SecurityGate X) (n k : ℕ) (call : ToolCall)
        → h ≡ record g { sequence = g.sequence + n }
        → reject_reason crypto h call k ≡ reject_reason crypto g call k
    unfolding reject_reason
    reason_of g h n k call e = rw e

    one-Inv :
        (g : SecurityGate X) (n : ℕ) (h : SecurityGate X) (r : AuthorizeResult) (call : ToolCall)
        → Inv g n (h, r)
        → Inv g (n + 1) (authorize_one crypto time (h, r) call)
    unfolding authorize_one
    one-Inv g n h r call inv =
        let reason = reject_reason crypto h call (length r.signed_calls) in
        elim (Bool-cases (starts_with (codes "requires_approval:") reason)) [
          | inl asks ↦ rw asks (record {
            counted = omega (arith, inv.counted, length-append {0} r.pending_approval (call ∷ []));
            capped = inv.capped;
            advanced = inv.advanced;
            issued = inv.issued;
          })
          | inr quiet ↦ elim (Bool-cases (is_empty reason)) [
            | inr refused ↦
                rw (quiet, refused)
                  (record {
                    counted = omega (
                      arith,
                      inv.counted,
                      length-append {0} r.rejected_results (rejected_result call reason ∷ []),
                    );
                    capped = inv.capped;
                    advanced = inv.advanced;
                    issued = inv.issued;
                  })
            | inl passes ↦
                let same =
                  reason_of g h (length r.signed_calls) (length r.signed_calls) call inv.advanced in
                let (p, room) = reason-empty g call (length r.signed_calls) (rw same at passes) in
                let grown = length-append {0} r.signed_calls (signed crypto time h call ∷ []) in
                rw (quiet, passes)
                  (record {
                    counted = omega (arith, inv.counted, grown);
                    capped = omega (arith, room, grown);
                    advanced = rw grown (bump-advanced g h (length r.signed_calls) inv.advanced);
                    issued = λ c m.
                        rw grown
                          (elim (Elem-append_cases c r.signed_calls (signed crypto time h call ∷ [])
                            m) [
                              | inl old ↦ IsIssued-more g _ c (inv.issued c old)
                              | inr last ↦ elim last [
                                | inl e ↦ rw e (
                                    signed-IsIssued g h (length r.signed_calls) call inv.advanced p)
                                | inr none' ↦ absurd none'
                              ]
                            ]);
                  })
          ]
        ]

    from-Inv :
        (g : SecurityGate X) (n : ℕ) (h : SecurityGate X) (r : AuthorizeResult)
        (calls : List ToolCall)
        → Inv g n (h, r)
        → Inv g (n + length calls) (authorize_from crypto time (h, r) calls)
    unfolding authorize_from
    from-Inv g n h r [] inv = let e : n + 0 ≡ n = omega arith in rw e inv
    from-Inv g n h r (call ∷ calls) inv =
        let (h', r') = authorize_one crypto time (h, r) call in
        let e : n + length (call ∷ calls) ≡ n + 1 + length calls = omega arith in
        rw e (from-Inv g (n + 1) h' r' calls (one-Inv g n h r call inv))

    -- One run of `authorize` puts each call in exactly one of the three lists, signs no more calls
    -- than the policy allows for a turn, advances the sequence counter by the number of signed
    -- calls and changes nothing else of the gate; and every signed call is of a registered tool
    -- that the policy allows and that needs no approval, with a number above the old counter and
    -- the gate's own signature.
    pub authorize-Inv :
        (g : SecurityGate X) (calls : List ToolCall)
        → Inv g (length calls) (authorize crypto time g calls)
    unfolding authorize
    authorize-Inv g calls =
        let e : length calls ≡ 0 + length calls = omega arith in
        rw e (
          from-Inv g 0 g no_results calls (record {
            counted = refl;
            capped = omega arith;
            advanced = start g;
            issued = λ c m. absurd m;
          }))

  -- No number above the counter was accepted so far.
  abbrev pub IsFresh : SecurityGate X → Type 0
  IsFresh g = (n : ℕ) → member n g.verified_sequences ≡ true → n ≤ g.sequence

  issued_verifies :
      (g h : SecurityGate X) (n : ℕ) (c : SignedToolCall)
      → IsFresh g
      → h ≡ record g { sequence = g.sequence + n }
      → IsIssued g n c
      → (verify crypto h c).1 ≡ true
  unfolding verify sign
  issued_verifies g h n c fresh e i = elim (Bool-cases (member c.sequence g.verified_sequences)) [
    | inl old ↦ absurd (omega (arith, fresh c.sequence old, i.after))
    | inr new ↦
        let own =
          (text_eq_iff (sign crypto g c.tool_call c.sequence c.timestamp) c.signature).1
            i.genuine in
        rw e (ground arith)
  ]

  -- Every call that `authorize` signs is accepted by the gate afterwards, if no number above the
  -- counter was accepted before.
  pub authorize-verify :
      (time : ℕ → ℕ) (g : SecurityGate X) (calls : List ToolCall) (c : SignedToolCall)
      → IsFresh g
      → Elem c (authorize crypto time g calls).1.signed_calls
      → (verify crypto (authorize crypto time g calls).0 c).1 ≡ true
  authorize-verify time g calls c fresh m =
      let inv = authorize-Inv time g calls in
      issued_verifies g (authorize crypto time g calls).0 _ c fresh inv.advanced (inv.issued c m)
