-- ===== src/Loop/Run/Compacted.antt =====
-- What the compressors make of the history in an iteration that needs no summary.
use neuralhub.Base.{◌≡◌, refl, Bool, true, false, Option, List, [], ◌++◌, length, Text, ok}
use neuralhub.Types.{Message, ToolDefinition}
use neuralhub.History.Sanitize.Answered.{IsConsistent}
use neuralhub.History.Level2.{ArtifactTexts, check_and_compact}
use neuralhub.History.Level2.Shape.{check_and_compact-IsConsistent}
use neuralhub.Loop.Failures.{FailureTexts}
use neuralhub.Loop.Writeback.{
  CompactionRun, reattach_concurrent_messages, compact_and_reattach, apply_layered_compaction,
  drop-snapshot,
}
use neuralhub.Loop.Run.{Compaction, compacted_by}

module _ (failure_texts : FailureTexts) (artifacts : ArtifactTexts) (session_id : Text) where
  -- The compressors of an iteration in which the second level is enough: the third finds the history
  -- below its threshold, so does the policy, and no other run appends to the history meanwhile.
  pub record OnlySecond (c : Compaction) : Type 0 where
    pub above : List Message → Bool
    pub tools : Option (List ToolDefinition)
    pub write_raises : Bool
    pub second :
        (ms : List Message)
        → c.second_level.answer ms
          ≡ ok (check_and_compact failure_texts artifacts session_id above tools write_raises ms)
    pub third : (ms : List Message) → c.third_level.answer ms ≡ ok ms
    pub small : (ms : List Message) → c.should_compact ms ≡ false
    pub alone : (c.second_level.appended ≡ []) × (c.third_level.appended ≡ [])

  nothing-reattached :
      (compacted messages : List Message)
      → reattach_concurrent_messages compacted (messages ++ []) (length messages) ≡ compacted
  unfolding reattach_concurrent_messages
  nothing-reattached compacted messages =
      rw (reattach_concurrent_messages, drop-snapshot messages []) refl

  reattached :
      (r : CompactionRun) (ms compacted : List Message)
      → r.answer ms ≡ ok compacted
      → r.appended ≡ []
      → compact_and_reattach r ms ≡ (compacted, true)
  unfolding compact_and_reattach
  reattached r ms compacted e a =
      rw (compact_and_reattach, e, a) (rw (nothing-reattached compacted ms) refl)

  compacted_by-second :
      (c : Compaction) (o : OnlySecond c) (ms : List Message)
      → compacted_by c ms
        ≡ check_and_compact failure_texts artifacts session_id o.above o.tools o.write_raises ms
  unfolding compacted_by apply_layered_compaction
  compacted_by-second c o ms =
      let out =
        check_and_compact failure_texts artifacts session_id o.above o.tools o.write_raises ms in
      rw
        (
          compacted_by,
          apply_layered_compaction,
          reattached c.second_level ms out (o.second ms) o.alone.0,
          reattached c.third_level out out (o.third out) o.alone.1,
          o.small out,
        )
        refl

  -- Where the second level is enough, the compaction keeps a history consistent.
  pub compacted_by-IsConsistent :
      (c : Compaction)
      → OnlySecond c
      → (ms : List Message) → IsConsistent ms
      → IsConsistent (compacted_by c ms)
  compacted_by-IsConsistent c o ms h = rw (compacted_by-second c o ms) (
      check_and_compact-IsConsistent failure_texts artifacts session_id o.above o.tools
        o.write_raises ms h)
