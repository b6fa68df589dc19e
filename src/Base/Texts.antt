-- ===== src/Base/Texts.antt =====
-- Python strings: lists of code points. `text_eq` is `==`, `has` is `in` on a list or set of them.
use Prim.Native.Nat.{ℕ}
use Prim.Native.Char.{code}
use Prim.Native.String.{String}
use mathlib.Core.Path.{◌≡◌, refl}
use mathlib.Core.Logic.{◌↔◌, inl, inr}
use mathlib.Core.Bool.{Bool, true, false, not, ◌&&◌, ◌||◌}
use mathlib.Core.List.{List, [], ◌∷◌, ◌++◌}
use native.Mathlib.Omega.{arith}
use neuralhub.Base.Tests.{◌==◌, Bool-cases}
use neuralhub.Base.Lists.{Elem, keep, Elem-keep}

abbrev pub Text : Type 0
Text = List ℕ

abbrev pub codes : String → Text
codes String.[] = []
codes (String.◌∷◌ c s) = code c ∷ codes s

unfoldable pub text_eq : Text → Text → Bool
text_eq [] [] = true
text_eq (a ∷ s) (b ∷ t) = a == b && text_eq s t
text_eq _ _ = false

pub text_eq_iff : (s t : Text) → (text_eq s t ≡ true) ↔ (s ≡ t)
unfolding text_eq
text_eq_iff [] [] = ground arith
text_eq_iff (a ∷ s) (b ∷ t) = ground (arith, text_eq_iff s t)
text_eq_iff [] (b ∷ t) = ground arith
text_eq_iff (a ∷ s) [] = ground arith

pub text_eq_refl : (s : Text) → text_eq s s ≡ true
text_eq_refl s = (text_eq_iff s s).1 refl

unfoldable pub has : Text → List Text → Bool
has k [] = false
has k (x ∷ xs) = text_eq x k || has k xs

pub has_iff : (k : Text) (xs : List Text) → (has k xs ≡ true) ↔ Elem k xs
unfolding has
has_iff k [] = (λ h. cc, λ h. elim h [ ])
has_iff k (x ∷ xs) = (
  λ h. elim (Bool-cases (text_eq x k)) [
    | inl e ↦ inl (ground (arith, text_eq_iff x k))
    | inr n ↦ inr ((has_iff k xs).0 (rw n at h))
  ],
  λ m. elim m [
    | inl e ↦ ground (arith, text_eq_iff x k)
    | inr r ↦ let t = (has_iff k xs).1 r in ground arith
  ],
)

-- `issubset`.
unfoldable pub subset : List Text → List Text → Bool
subset [] ys = true
subset (x ∷ xs) ys = has x ys && subset xs ys

pub subset-Elem : (xs ys : List Text) → subset xs ys ≡ true → (k : Text) → Elem k xs → Elem k ys
unfolding subset
subset-Elem [] ys h k m = elim m [ ]
subset-Elem (x ∷ xs) ys h k (inl e) =
    let p : has x ys ≡ true = ground arith in rw e ((has_iff x ys).0 p)
subset-Elem (x ∷ xs) ys h k (inr m) = subset-Elem xs ys (ground arith) k m

pub subset_intro : (xs ys : List Text) → ((k : Text) → Elem k xs → Elem k ys) → subset xs ys ≡ true
unfolding subset
subset_intro [] ys h = refl
subset_intro (x ∷ xs) ys h =
    let p = (has_iff x ys).1 (h x (inl refl)) in
    let q = subset_intro xs ys (λ k m. h k (inr m)) in ground arith

-- `len(xs) == len(set(xs))`.
unfoldable pub distinct : List Text → Bool
distinct [] = true
distinct (x ∷ xs) = not (has x xs) && distinct xs

pub keep-distinct :
    (p : Text → Bool) (xs : List Text) → distinct xs ≡ true → distinct (keep p xs) ≡ true
unfolding distinct keep
keep-distinct p [] h = refl
keep-distinct p (x ∷ xs) h = elim (Bool-cases (has x (keep p xs))) [
  | inl e ↦
      let m = (Elem-keep p x xs ((has_iff x (keep p xs)).0 e)).0 in
      let c = (has_iff x xs).1 m in ground arith
  | inr n ↦ ground (arith, keep-distinct p xs)
]

pub subset_refl : (xs : List Text) → subset xs xs ≡ true
subset_refl xs = subset_intro xs xs (λ k m. m)

pub has-append : (k : Text) (xs ys : List Text) → has k (xs ++ ys) ≡ (has k xs || has k ys)
unfolding has
has-append k [] ys = refl
has-append k (x ∷ xs) ys = ground (arith, has-append k xs ys)
