-- ===== src/Loop/Run/Histories.antt =====
-- Histories that stay consistent when a message is put at their end.
use neuralhub.Base.{
  ℕ, ◌≡◌, refl, ◌∙◌, inl, inr, true, false, Option, none, some, List, [], ◌∷◌, ◌++◌, arith,
  if◌then◌else◌, Option-cases, Text, subset,
}
use neuralhub.Types.{is_tool, Message}
use mathlib.Core.List.{append_assoc}
use neuralhub.History.Sanitize.{requests_tools, call_ids, result_ids}
use neuralhub.History.Sanitize.Answered.{consistent, IsConsistent}
use neuralhub.History.Orphans.{
  last_message, patch_orphan_tool_calls, consistent-append, patch-IsConsistent,
}
use neuralhub.History.Checkpoints.{MessageHistory, append, checkpoint, ensure_system_message}

pub append-messages :
    (h : MessageHistory) (m : Message) → (append h m).messages ≡ h.messages ++ m ∷ []
unfolding append checkpoint
append-messages h m = ground arith

plain_consistent :
    (m : Message)
    → requests_tools m ≡ false
    → is_tool m.role ≡ false
    → consistent none (m ∷ []) ≡ true
unfolding consistent requests_tools
plain_consistent m r t = ground arith

-- A message that is no answer and asks for no tool.
pub append-IsConsistent :
    (ms : List Message) (m : Message)
    → IsConsistent ms
    → requests_tools m ≡ false
    → is_tool m.role ≡ false
    → IsConsistent (ms ++ m ∷ [])
append-IsConsistent ms m h r t = consistent-append none ms (m ∷ []) h ∙ plain_consistent m r t

pair_consistent :
    (m t : Message)
    → requests_tools m ≡ true
    → is_tool t.role ≡ true
    → subset (call_ids m) (result_ids t) ≡ true
    → consistent none (m ∷ t ∷ []) ≡ true
unfolding consistent requests_tools
pair_consistent m t r i s = ground arith

-- A message that asks for tools, and the tool message that answers it.
pub answered-IsConsistent :
    (ms : List Message) (m t : Message)
    → IsConsistent ms
    → requests_tools m ≡ true
    → is_tool t.role ≡ true
    → subset (call_ids m) (result_ids t) ≡ true
    → IsConsistent ((ms ++ m ∷ []) ++ t ∷ [])
answered-IsConsistent ms m t h r i s =
    rw (append_assoc ms (m ∷ []) (t ∷ []))
      (consistent-append none ms (m ∷ t ∷ []) h ∙ pair_consistent m t r i s)

last_plain :
    (ms : List Message) (a : Option Message) (m : Message)
    → consistent a ms ≡ true
    → last_message ms ≡ some m
    → requests_tools m ≡ false
unfolding consistent last_message requests_tools
last_plain [] a m h e = cc
last_plain (x ∷ []) none m h e = ground arith
last_plain (x ∷ []) (some a) m h e = ground arith
last_plain (x ∷ y ∷ ms) none m h e =
    last_plain (y ∷ ms) (if requests_tools x then some x else none) m (ground arith) e
last_plain (x ∷ y ∷ ms) (some a) m h e = last_plain (y ∷ ms) none m (ground arith) e

-- A consistent history needs no patch.
pub patch-keeps :
    (new_id : Text) (now : ℕ) (ms : List Message)
    → IsConsistent ms
    → patch_orphan_tool_calls new_id now ms ≡ ms
unfolding patch_orphan_tool_calls
patch-keeps new_id now ms h = elim (Option-cases (last_message ms)) [
  | inl e ↦ rw (patch_orphan_tool_calls, e) refl
  | inr (m, e) ↦ rw (patch_orphan_tool_calls, e, last_plain ms none m h e) refl
]

-- A history that is consistent once it is patched.
pub record IsPatchable (ms : List Message) : Type 0 where
  pub patched : (new_id : Text) (now : ℕ) → IsConsistent (patch_orphan_tool_calls new_id now ms)

pub consistent-IsPatchable : (ms : List Message) → IsConsistent ms → IsPatchable ms
consistent-IsPatchable ms h = record { patched = λ i now. rw (patch-keeps i now ms h) h }

pub open-IsPatchable :
    (ms : List Message) (m : Message)
    → IsConsistent ms
    → requests_tools m ≡ true
    → IsPatchable (ms ++ m ∷ [])
open-IsPatchable ms m h r = record { patched = λ i now. patch-IsConsistent i now ms m h r }

pub ensure-IsConsistent :
    (new_id : Text) (now : ℕ) (h : MessageHistory) (system_prompt : Text)
    → IsConsistent h.messages
    → IsConsistent (ensure_system_message new_id now h system_prompt).messages
unfolding ensure_system_message consistent requests_tools
ensure-IsConsistent new_id now h [] c = c
ensure-IsConsistent new_id now h (x ∷ xs) c = ground arith
