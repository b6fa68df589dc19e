-- ===== src/History/Summaries.antt =====
-- backend/core/s06_context_compression/summary_helpers.py and token_counter.py.
use neuralhub.Base.{
  ℕ, ◌+◌, ◌*◌, ◌/◌, ◌≤◌, ◌≡◌, refl, Bool, true, false, not, ◌&&◌, ◌||◌, List, [], ◌∷◌, ◌++◌, map,
  arith, leb, if◌then◌else◌, length, Text, codes, text_eq, lstrip, strip, startswith, contains,
}
use neuralhub.Types.{Fields, MessageKind, Message, new_message, or_empty, user, summary}

abbrev pub is_summary_kind : MessageKind → Bool
is_summary_kind summary = true
is_summary_kind _ = false

unfoldable pub is_summary_message : Message → Bool
unfolding lstrip
is_summary_message m =
    let content = lstrip m.content in
    is_summary_kind m.kind
    || startswith content (codes "[对话历史摘要]")
    || startswith content (codes "[压缩摘要]")

module _ (new_id : Text) (now : ℕ) where
  unfoldable pub build_summary_message : (summary archive_path error : Text) → Message
  unfolding contains
  build_summary_message text archive_path err =
      let stripped = strip text in
      let archived =
        if not (text_eq archive_path []) && not (contains stripped (codes "无损备份:"))
        then stripped ++ codes "\n无损备份: " ++ archive_path
        else stripped in
      let body = if text_eq err [] then archived else archived ++ codes "\n压缩降级原因: " ++ err in
      record (new_message new_id now user
        (codes "<conversation_summary>\n" ++ body ++ codes "\n</conversation_summary>")) {
          kind = summary;
        }

unfoldable pub is_cjk : (code : ℕ) → Bool
is_cjk c =
    (leb 13312 c && leb c 40959)
    || (leb 63744 c && leb c 64255)
    || (leb 12352 c && leb c 12543)
    || (leb 44032 c && leb c 55215)
    || (leb 65280 c && leb c 65519)

-- The characters of the two classes, counted in one loop.
unfoldable pub count_classes : Text → ℕ × ℕ
count_classes [] = (0, 0)
count_classes (c ∷ cs) =
    let (cjk, rest) = count_classes cs in if is_cjk c then (cjk + 1, rest) else (cjk, rest + 1)

unfoldable pub estimate_tokens : Text → ℕ
unfolding count_classes
estimate_tokens t = let (cjk, rest) = count_classes t in cjk + rest / 4

unfoldable pub sum : List ℕ → ℕ
sum [] = 0
sum (n ∷ ns) = n + sum ns

module _ (dumps : Fields → Text) where
  unfoldable pub message_tokens : Message → ℕ
  unfolding sum estimate_tokens
  message_tokens m =
      estimate_tokens m.content
      + sum (map (λ c. estimate_tokens (dumps c.arguments)) (or_empty m.tool_calls))
      + sum (map (λ r. estimate_tokens r.output) (or_empty m.tool_results))

  unfoldable pub estimate_messages_tokens : List Message → ℕ
  unfolding message_tokens
  estimate_messages_tokens [] = 0
  estimate_messages_tokens (m ∷ ms) = message_tokens m + estimate_messages_tokens ms

count_classes-length : (t : Text) → (count_classes t).0 + (count_classes t).1 ≡ length t
unfolding count_classes
count_classes-length [] = refl
count_classes-length (c ∷ cs) = let rest = count_classes-length cs in ground arith

-- The estimate is at most one token for each character, and at least one for four of them.
pub estimate_tokens-length :
    (t : Text) → (estimate_tokens t ≤ length t) × (length t ≤ 4 * estimate_tokens t + 3)
unfolding estimate_tokens
estimate_tokens-length t = let e = count_classes-length t in (omega (arith, e), omega (arith, e))
