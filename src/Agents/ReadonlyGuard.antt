-- ===== src/Agents/ReadonlyGuard.antt =====
-- backend/core/s04_sub_agents/readonly_guard.py: which commands a read-only agent may run.
-- `shlex.split` and `str.lower` are parameters. A command in `$(…)` or backquotes is shorter than the
-- whole, so the length of the command bounds the depth of the recursion.
pub mod Depth
use neuralhub.Base.{
  ℕ, zero, suc, ◌+◌, ◌-◌, Bool, true, false, not, ◌&&◌, ◌||◌, List, [], ◌∷◌, ◌++◌, leb, ◌==◌,
  if◌then◌else◌, length, take, drop, keep, any, Text, codes, text_eq, has, Result, ok, raise,
  lstrip, rstrip, strip, startswith, contains, nonempty, split_at, words,
}
use neuralhub.Types.{system}

unfoldable pub readonly_allowed_prefixes : List Text
unfolding words
readonly_allowed_prefixes = words (
    codes
      "ls dir cat head tail wc stat file tree pwd readlink realpath basename dirname du df grep egrep fgrep findstr rg ag ack find locate which whereis type echo printf diff comm cmp sort uniq cut tr column fold nl tac rev paste join expand unexpand awk gawk mawk nawk sed jq md5sum sha1sum sha256sum sha512sum cksum base64 od hexdump xxd strings date printenv whoami id hostname uname uptime ps pgrep free arch git")

unfoldable pub readonly_git_subcommands : List Text
unfolding words
readonly_git_subcommands = words (
    codes
      "status log diff show blame rev-parse branch tag describe ls-files ls-tree cat-file reflog shortlog grep name-rev symbolic-ref for-each-ref rev-list show-ref merge-base diff-tree diff-index whatchanged cherry count-objects version")

unfoldable pub exec_wrappers : List Text
unfolding words
exec_wrappers = words (codes "env nice nohup setsid sudo time")

unfoldable pub find_write_actions : List Text
unfolding words
find_write_actions =
    words (codes "-delete -exec -execdir -ok -okdir -fls -fprint -fprintf -fprint0")

-- `text.strip("\"'")`.
abbrev pub is_quote : ℕ → Bool
is_quote c = c == 34 || c == 39

unfoldable pub drop_quotes : Text → Text
drop_quotes [] = []
drop_quotes (c ∷ cs) = let rest = drop_quotes cs in if is_quote c then rest else c ∷ cs

unfoldable pub drop_last_quotes : Text → Text
drop_last_quotes [] = []
drop_last_quotes (c ∷ cs) = elim (drop_last_quotes cs) [
  | [] ↦ if is_quote c then [] else c ∷ []
  | d ∷ ds ↦ c ∷ d ∷ ds
]

unfoldable pub unquoted : Text → Text
unfolding drop_quotes drop_last_quotes lstrip rstrip
unquoted token = drop_last_quotes (drop_quotes (strip token))

-- `text.rsplit(c, maxsplit=1)[-1]`: what stands behind the last such character.
unfoldable pub after_last : (c : ℕ) → (found : Text) → Text → Text
after_last c found [] = found
after_last c found (d ∷ t) = if d == c then after_last c t t else after_last c found t

-- `_ENV_ASSIGNMENT`: a name, "=" and the rest of one line.
abbrev pub is_letter : ℕ → Bool
is_letter c = (leb 65 c && leb c 90) || (leb 97 c && leb c 122) || c == 95

abbrev pub is_digit : ℕ → Bool
is_digit c = leb 48 c && leb c 57

unfoldable pub one_line : Text → Bool
one_line [] = true
one_line (c ∷ cs) = (not (c == 10) || not (nonempty cs)) && one_line cs

unfoldable pub assigns : Text → Bool
unfolding one_line
assigns [] = false
assigns (c ∷ cs) =
    let rest = assigns cs in if c == 61 then one_line cs else (is_letter c || is_digit c) && rest

unfoldable pub is_assignment : Text → Bool
unfolding assigns
is_assignment [] = false
is_assignment (c ∷ cs) = is_letter c && assigns cs

-- `_REDIRECT_PATTERNS`: a ">" that is not behind "|" nor before ">" or "&", or a ">>".
unfoldable pub redirects : (previous : ℕ) → Text → Bool
redirects previous [] = false
redirects previous (c ∷ cs) =
    let rest = redirects c cs in
    let next = elim cs as (λ _. ℕ) [ [] ↦ 0 | d ∷ ds ↦ d ] in
    (c == 62 && (next == 62 || (not (previous == 124) && not (next == 38)))) || rest

-- The separators of `_SEGMENT_SPLIT`; an empty segment between two of them is dropped.
abbrev pub is_separator : ℕ → Bool
is_separator c = c == 59 || c == 10 || c == 124 || c == 38

unfoldable pub split_all_segments : (command : Text) → List Text
unfolding split_at keep lstrip rstrip
split_all_segments command = keep (λ s. nonempty (strip s)) (split_at is_separator [] command)

-- How many characters `_skip_balanced` passes, from an opening parenthesis on; all if it is not closed.
unfoldable pub skip_balanced : (depth : ℕ) → Text → ℕ
skip_balanced depth [] = 0
skip_balanced depth (c ∷ cs) =
    let opened = skip_balanced (depth + 1) cs in
    let closed = skip_balanced (depth - 1) cs in
    let same = skip_balanced depth cs in
    if c == 40
    then opened + 1
    else if c == 41
    then (if leb depth 1 then 1 else closed + 1)
    else same + 1

-- The commands in `$(…)`; an arithmetic expansion `$((…))` is passed over.
unfoldable pub dollar_commands : (bound : ℕ) → Text → List Text
unfolding skip_balanced
dollar_commands zero text = []
dollar_commands (suc bound) [] = []
dollar_commands (suc bound) (c ∷ cs) =
    let n = skip_balanced 0 cs in
    let after_arithmetic = dollar_commands bound (drop (skip_balanced 0 (drop 1 cs) + 1) cs) in
    let after_command = dollar_commands bound (drop n cs) in
    let after_character = dollar_commands bound cs in
    if c == 36 && startswith cs (codes "(")
    then (if startswith (drop 1 cs) (codes "(")
        then after_arithmetic
        else take (n - 2) (drop 1 cs) ∷ after_command)
    else after_character

-- Every second one of the parts between backquotes.
abbrev pub odd_parts : List Text → List Text
odd_parts [] = []
odd_parts (outer ∷ []) = []
odd_parts (outer ∷ inner ∷ rest) = inner ∷ odd_parts rest

unfoldable pub command_substitutions : Text → List Text
unfolding dollar_commands split_at
command_substitutions text =
    dollar_commands (length text) text ++ odd_parts (split_at (λ c. c == 96) [] text)

module _ (shlex_split : Text → Result (List Text)) (lower : Text → Text) where
  unfoldable pub normalize_token : Text → Text
  unfolding unquoted after_last
  normalize_token token =
      let stripped = unquoted token in
      let name = after_last 47 stripped stripped in lower (after_last 92 name name)

  unfoldable pub shlex_tokens : (segment : Text) → List Text
  unfolding words lstrip rstrip
  shlex_tokens segment =
      let text = strip segment in
      if not (nonempty text)
      then []
      else elim (shlex_split text) [ ok tokens ↦ tokens | raise e ↦ words text ]

  -- `skipping` is whether assignments behind `env` are being skipped.
  unfoldable pub exec_tokens : (skipping : Bool) → List Text → List Text
  unfolding normalize_token has is_assignment
  exec_tokens skipping [] = []
  exec_tokens skipping (t ∷ ts) =
      let current = normalize_token t in
      let after_assignment = exec_tokens true ts in
      let after_wrapper = exec_tokens (text_eq current (codes "env")) ts in
      if skipping && is_assignment t
      then after_assignment
      else if has current exec_wrappers
      then after_wrapper
      else t ∷ ts

  -- The loop of `_git_subcommand`; `-c` and `-C` have a value behind them.
  unfoldable pub git_subcommand_from : (skips : Bool) → List Text → Text
  unfolding unquoted startswith
  git_subcommand_from skips [] = []
  git_subcommand_from skips (t ∷ ts) =
      let raw = unquoted t in
      let lowered = lower raw in
      let after_value = git_subcommand_from true ts in
      let after_token = git_subcommand_from false ts in
      if skips
      then after_token
      else if text_eq lowered (codes "-c")
      then after_value
      else if startswith raw (codes "-")
      then after_token
      else lowered

  unfoldable pub guard_find : List Text → Bool
  unfolding normalize_token any has startswith
  guard_find tokens =
      any
        (λ token.
          let lowered = normalize_token token in
          has lowered find_write_actions || startswith lowered (codes "-fprint"))
        tokens

  -- A short option that has the letter, as in "-ni".
  abbrev pub has_letter : (letter cleaned : Text) → Bool
  has_letter letter cleaned =
      startswith cleaned (codes "-")
      && not (startswith cleaned (codes "--"))
      && contains (drop 1 cleaned) letter

  unfoldable pub guard_sed : List Text → Bool
  unfolding unquoted any startswith contains
  guard_sed tokens =
      any
        (λ token.
          let cleaned = unquoted token in
          text_eq cleaned (codes "-i")
          || startswith cleaned (codes "--in-place")
          || has_letter (codes "i") cleaned)
        tokens

  unfoldable pub guard_sort : List Text → Bool
  unfolding unquoted any startswith contains
  guard_sort tokens =
      any
        (λ token.
          let cleaned = unquoted token in
          startswith cleaned (codes "--output") || has_letter (codes "o") cleaned)
        tokens

  unfoldable pub guard_awk : List Text → Bool
  unfolding any contains
  guard_awk tokens = any (λ token. contains token (codes "system(")) tokens

  -- `_ARG_GUARDS`, for the tokens behind the name.
  unfoldable pub arg_guard : (name : Text) → List Text → Bool
  unfolding guard_find guard_sed guard_sort guard_awk has
  arg_guard name tokens =
      if text_eq name (codes "find")
      then guard_find tokens
      else if text_eq name (codes "sed")
      then guard_sed tokens
      else if text_eq name (codes "sort")
      then guard_sort tokens
      else if has name (words (codes "awk gawk mawk nawk"))
      then guard_awk tokens
      else false

  unfoldable pub tokens_blocked : List Text → Bool
  unfolding normalize_token git_subcommand_from arg_guard has words
  tokens_blocked [] = true
  tokens_blocked (t ∷ ts) =
      let name = normalize_token t in
      if not (has name readonly_allowed_prefixes)
      then true
      else if text_eq name (codes "git")
      then not (has (git_subcommand_from false ts) readonly_git_subcommands)
      else arg_guard name ts

  unfoldable pub segment_blocked : (segment : Text) → Bool
  unfolding tokens_blocked exec_tokens shlex_tokens
  segment_blocked segment = tokens_blocked (exec_tokens false (shlex_tokens segment))

  -- With a bound on the depth of the recursion; beyond it a command is blocked.
  unfoldable pub blocked_within : (depth : ℕ) → (command : Text) → Bool
  unfolding redirects any command_substitutions segment_blocked split_all_segments lstrip rstrip
  blocked_within zero command = true
  blocked_within (suc depth) command =
      let normalized = strip command in
      not (nonempty normalized)
      || redirects 0 normalized
      || any (blocked_within depth) (command_substitutions normalized)
      || any segment_blocked (split_all_segments normalized)

  unfoldable pub is_readonly_blocked : (command : Text) → Bool
  unfolding blocked_within
  is_readonly_blocked command = blocked_within (length command + 1) command
