-- ===== src/Tools/Gate/Verify.antt =====
-- Verification and its protection against replay.
use neuralhub.Base.{
  ℕ, ◌≡◌, refl, ◌∙◌, ◌↔◌, true, false, List, [], ◌∷◌, arith, if◌then◌else◌, text_eq_iff,
}
use neuralhub.Types.{SignedToolCall}
use neuralhub.Tools.Gate.{Crypto, SecurityGate, sign, verify, reset, member}

module _ (crypto : Crypto) {X : Type 0} where
  pub IsGenuine : SecurityGate X → SignedToolCall → Type 0
  IsGenuine g call = sign crypto g call.tool_call call.sequence call.timestamp ≡ call.signature

  -- A signed call is accepted exactly when its signature is the gate's own for its payload and its
  -- sequence number was not accepted before. Acceptance records the number and changes nothing
  -- else; a refusal changes nothing at all.
  pub verify_lem :
      (g : SecurityGate X) (call : SignedToolCall)
      → ((verify crypto g call).1 ≡ true
          ↔ (sign crypto g call.tool_call call.sequence call.timestamp ≡ call.signature)
            × (member call.sequence g.verified_sequences ≡ false))
        × ((verify crypto g call).0 ≡ (
            if (verify crypto g call).1
            then record g { verified_sequences = call.sequence ∷ g.verified_sequences }
            else g))
  unfolding verify
  verify_lem g call =
      let sign_eq =
        text_eq_iff (sign crypto g call.tool_call call.sequence call.timestamp) call.signature in
      ((λ h. ground (arith, sign_eq), λ h. ground (arith, sign_eq)), ground (arith, sign_eq))

  -- The gate after it was asked to verify some calls, in order.
  unfoldable pub verify_run : SecurityGate X → List SignedToolCall → SecurityGate X
  verify_run g [] = g
  verify_run g (call ∷ calls) = verify_run (verify crypto g call).0 calls

  verify-keeps :
      (g : SecurityGate X) (call : SignedToolCall) (n : ℕ)
      → member n g.verified_sequences ≡ true
      → member n (verify crypto g call).0.verified_sequences ≡ true
  unfolding verify
  verify-keeps g call n h = ground arith

  verify_run-keeps :
      (g : SecurityGate X) (calls : List SignedToolCall) (n : ℕ)
      → member n g.verified_sequences ≡ true
      → member n (verify_run g calls).verified_sequences ≡ true
  unfolding verify_run
  verify_run-keeps g [] n h = h
  verify_run-keeps g (call ∷ calls) n h =
      verify_run-keeps (verify crypto g call).0 calls n (verify-keeps g call n h)

  verify-records :
      (g : SecurityGate X) (call : SignedToolCall)
      → (verify crypto g call).1 ≡ true
      → member call.sequence (verify crypto g call).0.verified_sequences ≡ true
  unfolding verify
  verify-records g call h = ground arith

  verify-member :
      (g : SecurityGate X) (call : SignedToolCall)
      → member call.sequence g.verified_sequences ≡ true
      → (verify crypto g call).1 ≡ false
  unfolding verify
  verify-member g call h = ground arith

  -- No replay: once a signed call is accepted, no call with its sequence number is accepted again,
  -- whatever other calls were verified in between.
  pub verify_once :
      (g : SecurityGate X) (call again : SignedToolCall) (between : List SignedToolCall)
      → (verify crypto g call).1 ≡ true
      → again.sequence ≡ call.sequence
      → (verify crypto (verify_run (verify crypto g call).0 between) again).1 ≡ false
  verify_once g call again between h e = verify-member _ again (
      rw e
        (verify_run-keeps (verify crypto g call).0 between call.sequence (verify-records g call h)))

  verify-session_key :
      (g : SecurityGate X) (call : SignedToolCall)
      → (verify crypto g call).0.session_key ≡ g.session_key
  unfolding verify
  verify-session_key g call = ground arith

  verify_run-session_key :
      (g : SecurityGate X) (calls : List SignedToolCall)
      → (verify_run g calls).session_key ≡ g.session_key
  unfolding verify_run
  verify_run-session_key g [] = refl
  verify_run-session_key g (call ∷ calls) =
      verify_run-session_key (verify crypto g call).0 calls ∙ verify-session_key g call

  reset_accepts :
      (g h : SecurityGate X) (call : SignedToolCall)
      → h.session_key ≡ g.session_key
      → (verify crypto g call).1 ≡ true
      → (verify crypto (reset h) call).1 ≡ true
  unfolding verify reset sign
  reset_accepts g h call key ok' = rw key (ground arith)

  -- `reset` keeps the session key and forgets the accepted numbers: a signed call that was accepted
  -- before a reset is accepted once more after it.
  pub verify-reset :
      (g : SecurityGate X) (call : SignedToolCall) (between : List SignedToolCall)
      → (verify crypto g call).1 ≡ true
      → (verify crypto (reset (verify_run (verify crypto g call).0 between)) call).1 ≡ true
  verify-reset g call between h =
      reset_accepts g (verify_run (verify crypto g call).0 between) call
        (verify_run-session_key (verify crypto g call).0 between ∙ verify-session_key g call) h
