-- ===== src/Tests/GateTests.antt =====
-- backend/core/s02_tools/security_gate.py with a gate that allows one tool, twice a turn.
use neuralhub.Base.{
  ℕ, ◌+◌, ◌≡◌, refl, inl, true, false, List, [], ◌∷◌, ◌++◌, map, arith, Elem, Text, codes, text_eq,
}
use neuralhub.Types.{ToolCall, ToolDefinition, SignedToolCall, end}
use neuralhub.Tools.Gate.{Crypto, SecurityGate, reset, sign, authorize, verify, authorize_one}
use neuralhub.Tools.Gate.Authorize.{IsFresh, authorize-verify}
use neuralhub.Tools.Gate.Sorting.{IsSorted, authorize-IsSorted}
use neuralhub.Tools.Gate.Verify.{verify_run, verify_once, verify-reset}

-- The signature is the key, a bar and the message.
abbrev pub plain_crypto : Crypto
plain_crypto = record {
  hmac = λ k m. k ++ 124 ∷ m;
  dumps = λ fs. [];
  show_int = λ n. n ∷ [];
  show_float = λ n. n ∷ [];
  encode = λ t. t;
}

abbrev read_tool : ToolDefinition
read_tool = record {
  name = codes "Read";
  description = [];
  category = codes "file";
  parameters = end;
  requires_approval = false;
  side_effect = false;
}

abbrev shell_tool : ToolDefinition
shell_tool = record read_tool { name = codes "Bash"; requires_approval = true; side_effect = true }

abbrev pub gate : SecurityGate ℕ
gate = record {
  policy = record { allowed_tools = []; dangerous_tools = []; max_calls_per_turn = 2 };
  registry = record {
    tools = (codes "Read", read_tool) ∷ (codes "Bash", shell_tool) ∷ [];
    executors = (codes "Read", 1) ∷ (codes "Bash", 2) ∷ [];
  };
  session_key = 7 ∷ [];
  sequence = 4;
  verified_sequences = 3 ∷ [];
}

abbrev pub call_of : (id name : Text) → ToolCall
call_of i n = record { id = i; name = n; arguments = end }

abbrev pub calls : List ToolCall
calls =
    call_of (codes "1") (codes "Read")
    ∷ call_of (codes "2") (codes "Bash")
    ∷ call_of (codes "3") (codes "Read")
    ∷ call_of (codes "4") (codes "Read")
    ∷ []

abbrev first_signed : SignedToolCall
first_signed = record {
  tool_call = call_of (codes "1") (codes "Read");
  sequence = 5;
  timestamp = 105;
  signature = sign plain_crypto gate (call_of (codes "1") (codes "Read")) 5 105;
}

-- The second call waits for an approval, and the fourth is one too many.
sorted :
    map
      (λ (c : SignedToolCall). c.sequence)
      (authorize plain_crypto (λ n. n + 100) gate calls).1.signed_calls
    ≡ 5 ∷ 6 ∷ []
unfolding authorize authorize_one text_eq
sorted = refl

authorize-IsSorted_example :
    IsSorted plain_crypto gate calls (authorize plain_crypto (λ n. n + 100) gate calls)
authorize-IsSorted_example = authorize-IsSorted plain_crypto (λ n. n + 100) gate calls

gate-IsFresh : IsFresh plain_crypto gate
gate-IsFresh n h = ground arith

first_signed_member :
    Elem first_signed (authorize plain_crypto (λ n. n + 100) gate calls).1.signed_calls
unfolding authorize authorize_one text_eq
first_signed_member = inl refl

authorize-verify_example :
    (verify plain_crypto (authorize plain_crypto (λ n. n + 100) gate calls).0 first_signed).1 ≡ true
authorize-verify_example =
    authorize-verify plain_crypto (λ n. n + 100) gate calls first_signed gate-IsFresh
      first_signed_member

first_accepted : (verify plain_crypto gate first_signed).1 ≡ true
unfolding verify text_eq
first_accepted = refl

verify_once_example :
    (verify plain_crypto
      (verify_run plain_crypto (verify plain_crypto gate first_signed).0 (first_signed ∷ []))
      first_signed).1
    ≡ false
verify_once_example =
    verify_once plain_crypto gate first_signed first_signed (first_signed ∷ []) first_accepted refl

verify-reset_example :
    (verify plain_crypto
      (reset
        (verify_run plain_crypto (verify plain_crypto gate first_signed).0 (first_signed ∷ [])))
      first_signed).1
    ≡ true
verify-reset_example =
    verify-reset plain_crypto gate first_signed (first_signed ∷ []) first_accepted
