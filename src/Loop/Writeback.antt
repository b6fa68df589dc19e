-- ===== src/Loop/Writeback.antt =====
-- backend/core/s01_agent_loop/compaction_writeback.py: the compressors work on a snapshot of the
-- history while other tasks may append to it. Each `await` of a compressor is given by what it
-- answers and the messages that are appended meanwhile.
use neuralhub.Base.{
  ℕ, ◌≡◌, refl, ap, Bool, true, false, not, List, [], ◌∷◌, ◌++◌, map, arith, if◌then◌else◌, length,
  drop, keep, Text, text_eq_iff, has, Result, ok, raise, tally, tally-append, has-tally, no_tally,
}
use neuralhub.Types.{Message}

abbrev pub message_ids : List Message → List Text
message_ids ms = map (λ m. m.id) ms

unfoldable pub reattach_concurrent_messages :
    (compacted messages : List Message) → (snapshot_len : ℕ) → List Message
unfolding keep has
reattach_concurrent_messages compacted messages snapshot_len = elim (drop snapshot_len messages) [
  | [] ↦ compacted
  | m ∷ ms ↦ compacted ++ keep (λ x. not (has x.id (message_ids compacted))) (m ∷ ms)
]

-- A compressor's run: its answer or exception, and the messages that were appended until then.
pub record CompactionRun : Type 0 where
  pub answer : List Message → Result (List Message)
  pub appended : List Message

-- One of the three places: the history before the exception, or with the answer written back.
unfoldable pub compact_and_reattach : CompactionRun → List Message → List Message × Bool
unfolding reattach_concurrent_messages
compact_and_reattach run messages = elim (run.answer messages) [
  | raise e ↦ (messages ++ run.appended, false)
  | ok compacted ↦
      (reattach_concurrent_messages compacted (messages ++ run.appended) (length messages), true)
]

-- The history after the call, and whether the last stage was passed without exception. The third
-- run is taken only if the policy asks for it.
unfoldable pub apply_layered_compaction :
    (check_and_compact summarize_and_archive compact : CompactionRun)
    → (should_compact : List Message → Bool) → List Message
    → List Message × Bool
unfolding compact_and_reattach
apply_layered_compaction check_and_compact summarize_and_archive compact should_compact messages =
    let (ms₁, passed₁) = compact_and_reattach check_and_compact messages in
    let (ms₂, passed₂) = compact_and_reattach summarize_and_archive ms₁ in
    let third = compact_and_reattach compact ms₂ in
    if not passed₁
    then (ms₁, false)
    else if not passed₂
    then (ms₂, false)
    else if should_compact ms₂
    then third
    else (ms₂, true)

message_ids-append :
    (xs ys : List Message) → message_ids (xs ++ ys) ≡ message_ids xs ++ message_ids ys
message_ids-append [] ys = refl
message_ids-append (x ∷ xs) ys = ap (λ ids. x.id ∷ ids) (message_ids-append xs ys)

pub drop-snapshot : (xs ys : List Message) → drop (length xs) (xs ++ ys) ≡ ys
drop-snapshot [] ys = refl
drop-snapshot (x ∷ xs) ys = drop-snapshot xs ys

new_tally :
    (known : List Text) (ms : List Message) (k : Text)
    → tally k (message_ids (keep (λ x. not (has x.id known)) ms))
      ≡ (if has k known then 0 else tally k (message_ids ms))
unfolding keep tally
new_tally known [] k = ground arith
new_tally known (m ∷ ms) k = let rest = new_tally known ms k in ground (arith, text_eq_iff m.id k)

-- Writing the answer back keeps every message of the answer, and a message that was appended during
-- the compression exactly as often as it was appended, unless the answer already has its id: the
-- occurrences of each id are those in the answer, or those among the appended messages.
pub reattach-tally :
    (compacted messages appended : List Message) (k : Text)
    → tally k (
        message_ids
          (reattach_concurrent_messages compacted (messages ++ appended) (length messages)))
      ≡ (if has k (message_ids compacted)
          then tally k (message_ids compacted)
          else tally k (message_ids appended))
unfolding reattach_concurrent_messages
reattach-tally compacted messages appended k =
    let known = has-tally k (message_ids compacted) in
    elim appended
      as (λ a.
        tally k
          (message_ids (reattach_concurrent_messages compacted (messages ++ a) (length messages)))
        ≡ (if has k (message_ids compacted)
            then tally k (message_ids compacted)
            else tally k (message_ids a))) [
              | [] ↦
                  rw (reattach_concurrent_messages, drop-snapshot messages [])
                    (ground (arith, no_tally k))
              | m ∷ ms ↦
                  let new = new_tally (message_ids compacted) (m ∷ ms) k in
                  rw (reattach_concurrent_messages, drop-snapshot messages (m ∷ ms))
                    (rw
                      (message_ids-append compacted
                        (keep (λ x. not (has x.id (message_ids compacted))) (m ∷ ms)))
                      (rw
                        (
                          tally-append k (message_ids compacted) (
                              message_ids
                                (keep (λ x. not (has x.id (message_ids compacted))) (m ∷ ms))),
                          new,
                        )
                        (ground arith)))
            ]
