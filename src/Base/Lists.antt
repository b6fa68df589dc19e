-- ===== src/Base/Lists.antt =====
-- Lists over the native numbers, membership, and the comprehensions that the sources write.
use Prim.Native.Nat.{ℕ, zero, suc, ◌+◌, ◌-◌, min}
use mathlib.Core.Path.{◌≡◌, refl}
use mathlib.Core.Logic.{◌⊎◌, inl, inr}
use mathlib.Core.Bool.{Bool, true, false, ◌&&◌, ◌||◌, not}
use mathlib.Core.List.{List, [], ◌∷◌, ◌++◌}
use native.Mathlib.Omega.{arith}
use neuralhub.Base.Tests.{if◌then◌else◌, Bool-cases}

module _ {ℓ} {A : Type ℓ} where
  abbrev pub length : List A → ℕ
  length [] = 0
  length (x ∷ xs) = suc (length xs)

  abbrev pub take : ℕ → List A → List A
  take zero xs = []
  take (suc n) [] = []
  take (suc n) (x ∷ xs) = x ∷ take n xs

  abbrev pub drop : ℕ → List A → List A
  drop zero xs = xs
  drop (suc n) [] = []
  drop (suc n) (x ∷ xs) = drop n xs

  -- `[x for x in xs if p(x)]`.
  unfoldable pub keep : (A → Bool) → List A → List A
  keep p [] = []
  keep p (x ∷ xs) = let rest = keep p xs in if p x then x ∷ rest else rest

  -- `any(p(x) for x in xs)` and `all(p(x) for x in xs)`.
  unfoldable pub any : (A → Bool) → List A → Bool
  any p [] = false
  any p (x ∷ xs) = p x || any p xs

  unfoldable pub all : (A → Bool) → List A → Bool
  all p [] = true
  all p (x ∷ xs) = p x && all p xs

  pub length-append : (xs ys : List A) → length (xs ++ ys) ≡ length xs + length ys
  length-append [] ys = omega arith
  length-append (x ∷ xs) ys = omega (arith, length-append xs ys)

  pub take-append-drop : (n : ℕ) (xs : List A) → take n xs ++ drop n xs ≡ xs
  take-append-drop zero xs = refl
  take-append-drop (suc n) [] = refl
  take-append-drop (suc n) (x ∷ xs) = rw (take-append-drop n xs)

  pub length-take : (n : ℕ) (xs : List A) → length (take n xs) ≡ min n (length xs)
  length-take zero xs = omega arith
  length-take (suc n) [] = omega arith
  length-take (suc n) (x ∷ xs) = omega (arith, length-take n xs)

  pub length-drop : (n : ℕ) (xs : List A) → length (drop n xs) ≡ length xs - n
  length-drop zero xs = omega arith
  length-drop (suc n) [] = omega arith
  length-drop (suc n) (x ∷ xs) = omega (arith, length-drop n xs)

module _ {A : Type 0} where
  -- Membership, as a family that computes.
  abbrev pub Elem : A → List A → Type 0
  Elem x [] = ⊥
  Elem x (y ∷ ys) = (x ≡ y) ⊎ Elem x ys

  pub Elem-append_left : (a : A) (xs ys : List A) → Elem a xs → Elem a (xs ++ ys)
  Elem-append_left a (x ∷ xs) ys (inl e) = inl e
  Elem-append_left a (x ∷ xs) ys (inr h) = inr (Elem-append_left a xs ys h)
  Elem-append_left a [] ys h = elim h [ ]

  pub Elem-append_right : (a : A) (xs ys : List A) → Elem a ys → Elem a (xs ++ ys)
  Elem-append_right a [] ys h = h
  Elem-append_right a (x ∷ xs) ys h = inr (Elem-append_right a xs ys h)

  pub Elem-append_cases : (a : A) (xs ys : List A) → Elem a (xs ++ ys) → Elem a xs ⊎ Elem a ys
  Elem-append_cases a [] ys h = inr h
  Elem-append_cases a (x ∷ xs) ys (inl e) = inl (inl e)
  Elem-append_cases a (x ∷ xs) ys (inr h) = elim (Elem-append_cases a xs ys h) [
    | inl l ↦ inl (inr l)
    | inr r ↦ inr r
  ]

  -- What a comprehension keeps is a member that passes the test, and the other way round.
  pub Elem-keep :
      (p : A → Bool) (a : A) (xs : List A) → Elem a (keep p xs) → Elem a xs × (p a ≡ true)
  unfolding keep
  Elem-keep p a [] h = elim h [ ]
  Elem-keep p a (x ∷ xs) h = elim (Bool-cases (p x)) [
    | inl yes' ↦ elim (rw yes' at h) [
      | inl e ↦ (inl e, rw e yes')
      | inr r ↦ let (m, q) = Elem-keep p a xs r in (inr m, q)
    ]
    | inr no' ↦ let (m, q) = Elem-keep p a xs (rw no' at h) in (inr m, q)
  ]

  pub Elem-keep_intro :
      (p : A → Bool) (a : A) (xs : List A) → Elem a xs → p a ≡ true → Elem a (keep p xs)
  unfolding keep
  Elem-keep_intro p a [] h q = elim h [ ]
  Elem-keep_intro p a (x ∷ xs) (inl e) q = rw (rw e at q) (inl e)
  Elem-keep_intro p a (x ∷ xs) (inr m) q = elim (Bool-cases (p x)) [
    | inl yes' ↦ rw yes' (inr (Elem-keep_intro p a xs m q))
    | inr no' ↦ rw no' (Elem-keep_intro p a xs m q)
  ]

  pub length-keep_split :
      (p : A → Bool) (xs : List A)
      → length (keep p xs) + length (keep (λ x. not (p x)) xs) ≡ length xs
  unfolding keep
  length-keep_split p [] = omega arith
  length-keep_split p (x ∷ xs) = ground (arith, length-keep_split p xs)

  pub all-Elem : (p : A → Bool) (xs : List A) (a : A) → all p xs ≡ true → Elem a xs → p a ≡ true
  unfolding all
  all-Elem p [] a h m = elim m [ ]
  all-Elem p (x ∷ xs) a h (inl e) = ground arith
  all-Elem p (x ∷ xs) a h (inr m) = ground (arith, all-Elem p xs a)

  pub any-Elem : (p : A → Bool) (xs : List A) → any p xs ≡ true → (a : A) × Elem a xs × (p a ≡ true)
  unfolding any
  any-Elem p [] h = cc
  any-Elem p (x ∷ xs) h = elim (Bool-cases (p x)) [
    | inl yes' ↦ (x, inl refl, yes')
    | inr no' ↦ let (a, m, q) = any-Elem p xs (rw no' at h) in (a, inr m, q)
  ]

pub List-cases {ℓ} :
    {A : Type ℓ} (xs : List A) → (xs ≡ []) ⊎ ((y : A) × (ys : List A) × (xs ≡ y ∷ ys))
List-cases [] = inl refl
List-cases (y ∷ ys) = inr (y, ys, refl)
