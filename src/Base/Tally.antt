-- ===== src/Base/Tally.antt =====
-- How often a text stands in a list: what a list keeps when its order is forgotten.
use Prim.Native.Nat.{ℕ, ◌+◌}
use mathlib.Core.Path.{◌≡◌, refl}
use mathlib.Core.List.{List, [], ◌∷◌, ◌++◌}
use native.Mathlib.Omega.{arith}
use neuralhub.Base.Tests.{if◌then◌else◌, ltb}
use neuralhub.Base.Texts.{Text, text_eq, has}

unfoldable pub tally : Text → List Text → ℕ
tally k [] = 0
tally k (x ∷ xs) = let n = tally k xs in if text_eq x k then n + 1 else n

pub tally-append : (k : Text) (xs ys : List Text) → tally k (xs ++ ys) ≡ tally k xs + tally k ys
unfolding tally
tally-append k [] ys = ground arith
tally-append k (x ∷ xs) ys = ground (arith, tally-append k xs ys)

pub tally_snoc : (k x : Text) (xs : List Text) → tally k (xs ++ x ∷ []) ≡ tally k (x ∷ xs)
unfolding tally
tally_snoc k x xs = ground (arith, tally-append k xs (x ∷ []))

pub has-tally : (k : Text) (xs : List Text) → has k xs ≡ ltb 0 (tally k xs)
unfolding has tally
has-tally k [] = ground arith
has-tally k (x ∷ xs) = ground (arith, has-tally k xs)

-- Two lists with the same tallies have the same members.
pub has-same : (k : Text) (xs ys : List Text) → tally k xs ≡ tally k ys → has k xs ≡ has k ys
has-same k xs ys e = ground (arith, has-tally k xs, has-tally k ys)

pub no_tally : (k : Text) → tally k [] ≡ 0
unfolding tally
no_tally k = refl
