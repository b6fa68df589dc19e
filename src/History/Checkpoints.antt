-- ===== src/History/Checkpoints.antt =====
-- backend/core/s01_agent_loop/message_history.py, with `safe_checkpoint` of checkpoint.py. The
-- checkpoint function, if there is one, says whether it stores a message or raises.
use neuralhub.Base.{
  ℕ, ◌≡◌, refl, ◌∙◌, inl, inr, Bool, true, false, not, ◌||◌, Option, none, some, List, [], ◌∷◌,
  ◌++◌, arith, if◌then◌else◌, Bool-cases, drop, any, Text,
}
use neuralhub.Types.{Message, new_message, system}

pub record MessageHistory : Type 0 where
  pub messages : List Message
  pub checkpoint_fn : Option (Message → Bool)
  pub checkpoint_failed : Bool

unfoldable pub safe_checkpoint : Option (Message → Bool) → Message → Bool
safe_checkpoint none m = true
safe_checkpoint (some store) m = store m

-- `_checkpoint`.
unfoldable pub checkpoint : MessageHistory → Message → MessageHistory
unfolding safe_checkpoint
checkpoint h m =
    if not (safe_checkpoint h.checkpoint_fn m) then record h { checkpoint_failed = true } else h

unfoldable pub append : MessageHistory → Message → MessageHistory
unfolding checkpoint
append h m = checkpoint (record h { messages = h.messages ++ m ∷ [] }) m

unfoldable pub ensure_system_message :
    (new_id : Text) (now : ℕ) → MessageHistory → (system_prompt : Text) → MessageHistory
ensure_system_message new_id now h [] = h
ensure_system_message new_id now h (c ∷ cs) = elim h.messages [
  | [] ↦ record h { messages = new_message new_id now system (c ∷ cs) ∷ [] }
  | m ∷ ms ↦ h
]

unfoldable pub restore : MessageHistory → List Message → MessageHistory
restore h ms = record h { messages = ms; checkpoint_failed = false }

unfoldable pub extend : MessageHistory → List Message → MessageHistory
extend h ms = record h { messages = h.messages ++ ms }

unfoldable pub reset : MessageHistory → MessageHistory
reset h = record h { messages = []; checkpoint_failed = false }

unfoldable pub checkpoint_each : MessageHistory → List Message → MessageHistory
checkpoint_each h [] = h
checkpoint_each h (m ∷ ms) = checkpoint_each (checkpoint h m) ms

unfoldable pub checkpoint_from : MessageHistory → (start : ℕ) → MessageHistory
checkpoint_from h start = checkpoint_each h (drop start h.messages)

-- What checkpointing does: the flag is raised if some message was not stored, and nothing else.
pub record Checkpointed (h h' : MessageHistory) (ms : List Message) : Type 0 where
  pub kept : h'.messages ≡ h.messages
  pub same_fn : h'.checkpoint_fn ≡ h.checkpoint_fn
  pub flagged :
      h'.checkpoint_failed
      ≡ (h.checkpoint_failed || any (λ m. not (safe_checkpoint h.checkpoint_fn m)) ms)

one_checkpoint :
    (h : MessageHistory) (m : Message)
    → ((checkpoint h m).messages ≡ h.messages)
      × ((checkpoint h m).checkpoint_fn ≡ h.checkpoint_fn)
      × ((checkpoint h m).checkpoint_failed
          ≡ (h.checkpoint_failed || not (safe_checkpoint h.checkpoint_fn m)))
unfolding checkpoint
one_checkpoint h m = elim (Bool-cases (safe_checkpoint h.checkpoint_fn m)) [
  | inl e ↦ rw (checkpoint, e) (refl, refl, ground arith)
  | inr e ↦ rw (checkpoint, e) (refl, refl, ground arith)
]

combined :
    (h h' : MessageHistory) (m : Message) (ms : List Message)
    → h'.checkpoint_fn ≡ h.checkpoint_fn
    → h'.checkpoint_failed ≡ (h.checkpoint_failed || not (safe_checkpoint h.checkpoint_fn m))
    → (h'.checkpoint_failed || any (λ x. not (safe_checkpoint h'.checkpoint_fn x)) ms)
      ≡ (h.checkpoint_failed || any (λ x. not (safe_checkpoint h.checkpoint_fn x)) (m ∷ ms))
unfolding any
combined h h' m ms f g = rw (f, g) (ground arith)

each-Checkpointed :
    (h : MessageHistory) (ms : List Message) → Checkpointed h (checkpoint_each h ms) ms
unfolding checkpoint_each checkpoint any
each-Checkpointed h [] = record { kept = refl; same_fn = refl; flagged = ground arith }
each-Checkpointed h (m ∷ ms) =
    let rest = each-Checkpointed (checkpoint h m) ms in
    let (k, f, g) = one_checkpoint h m in
    record {
      kept = rest.kept ∙ k;
      same_fn = rest.same_fn ∙ f;
      flagged = rest.flagged ∙ combined h (checkpoint h m) m ms f g;
    }

-- Checkpointing a history from a place on leaves its messages, and raises the flag exactly when the
-- flag was up or one of the messages from this place on could not be stored.
pub checkpoint_from-Checkpointed :
    (h : MessageHistory) (start : ℕ)
    → Checkpointed h (checkpoint_from h start) (drop start h.messages)
unfolding checkpoint_from
checkpoint_from-Checkpointed h start = each-Checkpointed h (drop start h.messages)
