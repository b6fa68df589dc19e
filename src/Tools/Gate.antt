-- ===== src/Tools/Gate.antt =====
-- backend/core/s02_tools/security_gate.py. HMAC-SHA256, `json.dumps`, the printing of numbers and
-- the UTF-8 encoding are the parameters of `Crypto`; `time.time()` is a clock that is read once for
-- each sequence number. The executors of the registry do not matter here.
pub mod Authorize
pub mod Sorting
pub mod Verify
use neuralhub.Base.{
  ℕ, ◌+◌, Bool, true, false, not, ◌&&◌, ◌||◌, none, some, List, [], ◌∷◌, ◌++◌, leb, ◌==◌,
  if◌then◌else◌, length, Text, codes, text_eq, has, get,
}
use neuralhub.Types.{Fields, ToolCall, ToolResult, new_result, SecurityPolicy, SignedToolCall}
use neuralhub.Tools.Registry.{ToolRegistry, has_tool}

pub record Crypto : Type 0 where
  pub hmac : (key message : List ℕ) → Text
  pub dumps : Fields → Text
  pub show_int : ℕ → Text
  pub show_float : ℕ → Text
  pub encode : Text → List ℕ

pub record SecurityGate (X : Type 0) : Type 0 where
  pub policy : SecurityPolicy
  pub registry : ToolRegistry X
  pub session_key : List ℕ
  pub sequence : ℕ
  pub verified_sequences : List ℕ

pub record AuthorizeResult : Type 0 where
  pub signed_calls : List SignedToolCall
  pub rejected_results : List ToolResult
  pub pending_approval : List ToolCall

abbrev pub no_results : AuthorizeResult
no_results = record { signed_calls = []; rejected_results = []; pending_approval = [] }

unfoldable pub starts_with : (prefix s : Text) → Bool
starts_with [] s = true
starts_with (c ∷ p) [] = false
starts_with (c ∷ p) (d ∷ s) = c == d && starts_with p s

abbrev pub member : ℕ → List ℕ → Bool
member n [] = false
member n (m ∷ ms) = n == m || member n ms

abbrev pub is_empty {ℓ} : {A : Type ℓ} → List A → Bool
is_empty [] = true
is_empty (_ ∷ _) = false

unfoldable pub rejected_result : ToolCall → (reason : Text) → ToolResult
rejected_result call reason = new_result call.id (codes "SecurityGate rejected: " ++ reason) true

unfoldable pub reset : {X : Type 0} → SecurityGate X → SecurityGate X
reset g = record g { sequence = 0; verified_sequences = [] }

-- `self._sequence += 1`.
unfoldable pub bump : {X : Type 0} → SecurityGate X → SecurityGate X
bump g = record g { sequence = g.sequence + 1 }

module _ (crypto : Crypto) where
  open crypto use {hmac, dumps, show_int, show_float, encode}

  unfoldable pub payload : ToolCall → (sequence timestamp : ℕ) → List ℕ
  payload call sequence timestamp = encode (
      call.name
      ++ codes "|"
      ++ dumps call.arguments
      ++ codes "|"
      ++ show_int sequence
      ++ codes "|"
      ++ show_float timestamp)

  unfoldable pub sign : {X : Type 0} → SecurityGate X → ToolCall → (sequence timestamp : ℕ) → Text
  unfolding payload
  sign g call sequence timestamp = hmac g.session_key (payload call sequence timestamp)

  unfoldable pub reject_reason :
      {X : Type 0} → SecurityGate X → ToolCall → (signed_count : ℕ) → Text
  unfolding has_tool has
  reject_reason g call signed_count =
      if not (has_tool call.name g.registry)
      then codes "unknown tool: " ++ call.name
      else if not (is_empty g.policy.allowed_tools) && not (has call.name g.policy.allowed_tools)
      then codes "tool not allowed: " ++ call.name
      else if leb g.policy.max_calls_per_turn signed_count
      then codes "max calls per turn exceeded: " ++ show_int g.policy.max_calls_per_turn
      else elim (get call.name g.registry.tools) [
        | some definition ↦
            if definition.requires_approval then codes "requires_approval:" ++ call.name else []
        | none ↦ []
      ]

  module _ {X : Type 0} (time : ℕ → ℕ) where
    -- The call signed under the next sequence number.
    unfoldable pub signed : SecurityGate X → ToolCall → SignedToolCall
    unfolding sign
    signed g call = record {
      tool_call = call;
      sequence = g.sequence + 1;
      timestamp = time (g.sequence + 1);
      signature = sign g call (g.sequence + 1) (time (g.sequence + 1));
    }

    -- The body of the loop of `authorize`: the call goes to one of the three lists.
    unfoldable pub authorize_one :
        SecurityGate X × AuthorizeResult → ToolCall → SecurityGate X × AuthorizeResult
    unfolding reject_reason rejected_result signed bump starts_with
    authorize_one (g, r) call =
        let reason = reject_reason g call (length r.signed_calls) in
        if starts_with (codes "requires_approval:") reason
        then (g, record r { pending_approval = r.pending_approval ++ call ∷ [] })
        else if not (is_empty reason)
        then (
          g,
          record r { rejected_results = r.rejected_results ++ rejected_result call reason ∷ [] },
        )
        else (bump g, record r { signed_calls = r.signed_calls ++ signed g call ∷ [] })

    unfoldable pub authorize_from :
        SecurityGate X × AuthorizeResult → List ToolCall → SecurityGate X × AuthorizeResult
    authorize_from s [] = s
    authorize_from s (call ∷ calls) = authorize_from (authorize_one s call) calls

    unfoldable pub authorize : SecurityGate X → List ToolCall → SecurityGate X × AuthorizeResult
    unfolding authorize_from
    authorize g calls = authorize_from (g, no_results) calls

    unfoldable pub force_sign :
        SecurityGate X → List ToolCall → SecurityGate X × List SignedToolCall
    unfolding signed bump
    force_sign g [] = (g, [])
    force_sign g (call ∷ calls) =
        let (g', rest) = force_sign (bump g) calls in (g', signed g call ∷ rest)

  unfoldable pub verify : {X : Type 0} → SecurityGate X → SignedToolCall → SecurityGate X × Bool
  unfolding sign
  verify g call =
      let expected = sign g call.tool_call call.sequence call.timestamp in
      if not (text_eq expected call.signature)
      then (g, false)
      else if member call.sequence g.verified_sequences
      then (g, false)
      else (record g { verified_sequences = call.sequence ∷ g.verified_sequences }, true)
