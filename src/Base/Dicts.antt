-- ===== src/Base/Dicts.antt =====
-- Python dictionaries with string keys: association lists in insertion order. Assigning to a key
-- that is there keeps its place; a new key goes to the end.
use mathlib.Core.Path.{◌≡◌, refl}
use mathlib.Core.Bool.{Bool, true, false}
use mathlib.Core.List.{List, [], ◌∷◌, ◌++◌}
use mathlib.Core.Option.{Option, none, some}
use native.Mathlib.Omega.{arith}
use neuralhub.Base.Tests.{if◌then◌else◌}
use Prim.Native.Nat.{◌≤◌, ◌<◌, ◌+◌}
use neuralhub.Base.Lists.{length}
use neuralhub.Base.Texts.{Text, text_eq, text_eq_iff, text_eq_refl, has}

abbrev pub is_some {ℓ} : {A : Type ℓ} → Option A → Bool
is_some none = false
is_some (some _) = true

abbrev pub Dict {ℓ} : Type ℓ → Type ℓ
Dict V = List (Text × V)

module _ {ℓ} {V : Type ℓ} where
  -- `d.get(k)`.
  unfoldable pub get : Text → Dict V → Option V
  get k [] = none
  get k ((j, v) ∷ d) = if text_eq j k then some v else get k d

  -- `d[k] = v`.
  unfoldable pub put : Text → V → Dict V → Dict V
  put k v [] = (k, v) ∷ []
  put k v ((j, w) ∷ d) = if text_eq j k then (k, v) ∷ d else (j, w) ∷ put k v d

  -- `d.pop(k, None)`.
  unfoldable pub del : Text → Dict V → Dict V
  del k [] = []
  del k ((j, w) ∷ d) = let rest = del k d in if text_eq j k then rest else (j, w) ∷ rest

  pub get-put :
      (k j : Text) (v : V) (d : Dict V)
      → get j (put k v d) ≡ (if text_eq k j then some v else get j d)
  unfolding get put
  get-put k j v [] = refl
  get-put k j v ((i, w) ∷ d) =
      ground (arith, text_eq_iff k j, text_eq_iff i k, text_eq_iff i j, get-put k j v d)

  pub get-del :
      (k j : Text) (d : Dict V) → get j (del k d) ≡ (if text_eq k j then none else get j d)
  unfolding get del
  get-del k j [] = ground arith
  get-del k j ((i, w) ∷ d) =
      ground (arith, text_eq_iff k j, text_eq_iff i k, text_eq_iff i j, get-del k j d)

  pub get-append :
      (k : Text) (d e : Dict V)
      → get k (d ++ e) ≡ elim (get k d) [ some v ↦ some v | none ↦ get k e ]
  unfolding get
  get-append k [] e = refl
  get-append k ((j, v) ∷ d) e = ground (arith, get-append k d e)

module _ {ℓ} {V : Type ℓ} where
  -- `for k in ks: d.pop(k, None)`.
  unfoldable pub del_all : List Text → Dict V → Dict V
  del_all [] d = d
  del_all (k ∷ ks) d = del_all ks (del k d)

  pub get-del_all :
      (ks : List Text) (j : Text) (d : Dict V)
      → get j (del_all ks d) ≡ (if has j ks then none else get j d)
  unfolding del_all has
  get-del_all [] j d = refl
  get-del_all (k ∷ ks) j d = ground (arith, get-del_all ks j (del k d), get-del k j d)

  pub length-del_le : (k : Text) (d : Dict V) → length (del k d) ≤ length d
  unfolding del
  length-del_le k [] = omega arith
  length-del_le k ((j, v) ∷ d) = ground (arith, length-del_le k d)

  pub length-del_lt :
      (k : Text) (d : Dict V) → is_some (get k d) ≡ true → length (del k d) < length d
  unfolding del get
  length-del_lt k [] h = cc
  length-del_lt k ((j, v) ∷ d) h = ground (arith, length-del_lt k d, length-del_le k d)

  pub length-del_all_le : (ks : List Text) (d : Dict V) → length (del_all ks d) ≤ length d
  unfolding del_all
  length-del_all_le [] d = omega arith
  length-del_all_le (k ∷ ks) d = omega (arith, length-del_all_le ks (del k d), length-del_le k d)

  -- A dictionary that is not empty has an entry.
  pub get_head : (k : Text) (v : V) (d : Dict V) → get k ((k, v) ∷ d) ≡ some v
  unfolding get
  get_head k v d = rw (text_eq_refl k)

module _ {ℓ} {V : Type ℓ} where
  pub put_keeps :
      (k j : Text) (v : V) (d : Dict V)
      → is_some (get j d) ≡ true
      → is_some (get j (put k v d)) ≡ true
  put_keeps k j v d h = let g = get-put k j v d in ground arith

  pub put_present : (k : Text) (v : V) (d : Dict V) → is_some (get k (put k v d)) ≡ true
  put_present k v d = rw (get-put k k v d) (rw (text_eq_refl k) refl)

pub some-injective {ℓ} : {A : Type ℓ} {a b : A} → some a ≡ some b → a ≡ b
some-injective e = cc

pub length-put_le {ℓ} :
    {V : Type ℓ} (k : Text) (v : V) (d : Dict V) → length (put k v d) ≤ length d + 1
unfolding put
length-put_le k v [] = omega arith
length-put_le k v ((j, w) ∷ d) = ground (arith, length-put_le k v d)
