-- ===== src/Base/Strings.antt =====
-- Python's methods on strings that the program calls.
use Prim.Native.Nat.{ℕ}
use mathlib.Core.Bool.{Bool, true, false, ◌&&◌, ◌||◌}
use mathlib.Core.List.{List, [], ◌∷◌, ◌++◌}
use neuralhub.Base.Tests.{leb, ◌==◌, if◌then◌else◌}
use neuralhub.Base.Texts.{Text}

-- `str.isspace` of one character.
unfoldable pub is_space : ℕ → Bool
is_space c =
    (leb 9 c && leb c 13)
    || (leb 28 c && leb c 32)
    || c == 133
    || c == 160
    || c == 5760
    || (leb 8192 c && leb c 8202)
    || c == 8232
    || c == 8233
    || c == 8239
    || c == 8287
    || c == 12288

unfoldable pub lstrip : Text → Text
lstrip [] = []
lstrip (c ∷ cs) = let rest = lstrip cs in if is_space c then rest else c ∷ cs

unfoldable pub rstrip : Text → Text
rstrip [] = []
rstrip (c ∷ cs) = elim (rstrip cs) [ [] ↦ if is_space c then [] else c ∷ [] | d ∷ ds ↦ c ∷ d ∷ ds ]

abbrev pub strip : Text → Text
strip t = rstrip (lstrip t)

unfoldable pub startswith : (text prefix : Text) → Bool
startswith t [] = true
startswith [] (p ∷ ps) = false
startswith (c ∷ t) (p ∷ ps) = c == p && startswith t ps

-- `part in text`.
unfoldable pub contains : (text part : Text) → Bool
contains [] part = startswith [] part
contains (c ∷ t) part = startswith (c ∷ t) part || contains t part

-- `separator.join(parts)`.
unfoldable pub join : (separator : Text) → List Text → Text
join sep [] = []
join sep (t ∷ ts) = elim ts [ [] ↦ t | u ∷ us ↦ t ++ sep ++ join sep ts ]

-- Whether a list, as a condition, counts as true.
abbrev pub nonempty {ℓ} : {A : Type ℓ} → List A → Bool
nonempty [] = false
nonempty (_ ∷ _) = true

-- `s.split(…)` at the characters that pass the test; parts may be empty.
unfoldable pub split_at : (ℕ → Bool) → (part : Text) → Text → List Text
split_at cuts part [] = part ∷ []
split_at cuts part (c ∷ cs) = elim (cuts c) [
  | true ↦ part ∷ split_at cuts [] cs
  | false ↦ split_at cuts (part ++ c ∷ []) cs
]

unfoldable pub nonempty_parts : List Text → List Text
nonempty_parts [] = []
nonempty_parts (t ∷ ts) = let rest = nonempty_parts ts in if nonempty t then t ∷ rest else rest

-- `s.split()`: the words between white space.
unfoldable pub words : Text → List Text
unfolding split_at is_space nonempty_parts
words t = nonempty_parts (split_at is_space [] t)

-- The characters at which `splitlines` cuts; "\r\n" gives an empty line more here.
unfoldable pub ends_line : ℕ → Bool
ends_line c = (leb 10 c && leb c 13) || (leb 28 c && leb c 30) || c == 133 || c == 8232 || c == 8233
