-- ===== src/Loop/Queue.antt =====
-- backend/core/s01_agent_loop/message_queue.py: `PendingMessageQueue`, the messages that the user
-- sends while the loop runs.
use neuralhub.Base.{
  ◌≡◌, refl, sym, inl, inr, List, [], ◌∷◌, ◌++◌, map, if◌then◌else◌, Bool-cases, Text, lstrip,
  rstrip, strip, nonempty, nonempty_parts,
}
use mathlib.Core.List.{append-nil, append_assoc}

abbrev pub PendingMessageQueue : Type 0
PendingMessageQueue = List Text

unfoldable pub push : PendingMessageQueue → (text : Text) → PendingMessageQueue
unfolding lstrip rstrip
push items text =
    let cleaned = strip text in if nonempty cleaned then items ++ cleaned ∷ [] else items

unfoldable pub push_all : PendingMessageQueue → List Text → PendingMessageQueue
push_all items [] = items
push_all items (t ∷ ts) = push_all (push items t) ts

unfoldable pub drain : PendingMessageQueue → PendingMessageQueue × List Text
drain items = ([], items)

push-items :
    (items : PendingMessageQueue) (t : Text) → push items t ≡ items ++ nonempty_parts (strip t ∷ [])
unfolding push nonempty_parts
push-items items t = elim (Bool-cases (nonempty (strip t))) [
  | inl e ↦ rw (push, nonempty_parts, e) refl
  | inr e ↦ rw (push, nonempty_parts, e) (sym (append-nil items))
]

-- What is drained is what was queued and what was pushed since, in this order, each stripped and
-- without the blank ones; the queue is empty then.
pub drain-push_all :
    (ts : List Text) (items : PendingMessageQueue)
    → drain (push_all items ts) ≡ ([], items ++ nonempty_parts (map (λ t. strip t) ts))
unfolding drain push_all nonempty_parts
drain-push_all [] items = rw (append-nil items) refl
drain-push_all (t ∷ ts) items = rw (drain-push_all ts (push items t)) (
    rw (push-items items t) (
      rw
        (append_assoc items (nonempty_parts (strip t ∷ []))
          (nonempty_parts (map (λ t. strip t) ts)))
        (elim (Bool-cases (nonempty (strip t))) [
          | inl e ↦ rw (nonempty_parts, e) refl
          | inr e ↦ rw (nonempty_parts, e) refl
        ])))
