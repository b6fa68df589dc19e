-- ===== src/Base/Results.antt =====
-- backend/common/errors.py, and exceptions as values. Each exception class that the sources tell
-- apart is a constructor; `other` is any further class, with its text.
use mathlib.Core.Path.{◌≡◌, refl}
use neuralhub.Base.Texts.{Text, codes}
use mathlib.Core.Logic.{◌⊎◌, inl, inr}
use mathlib.Core.List.{◌++◌}

pub data Exception : Type 0 where
  agent_error : (code message : Text) → Exception
  value_error key_error other : (message : Text) → Exception

-- `str(exc)`. `AgentError.__init__` hands "code: message" on to `Exception`.
unfoldable pub str : Exception → Text
str (agent_error code message) = code ++ codes ": " ++ message
str (value_error message) = message
str (key_error key) = codes "'" ++ key ++ codes "'"
str (other message) = message

pub data Result {ℓ} (A : Type ℓ) : Type ℓ where
  ok : A → Result A
  raise : Exception → Result A

infixl 5 ◌>>=◌
abbrev pub ◌>>=◌ {ℓ κ} : {A : Type ℓ} {B : Type κ} → Result A → (A → Result B) → Result B
ok a >>= f = f a
raise e >>= f = raise e

pub ok-injective : {A : Type 0} {a b : A} → ok a ≡ ok b → a ≡ b
ok-injective e = cc

-- Inversion of `m` followed by a step that cannot fail.
module _ {A B : Type 0} where
  pub map-eq-raise :
      (m : Result A) (f : A → B) (e : Exception) → (m >>= λ a. ok (f a)) ≡ raise e → m ≡ raise e
  map-eq-raise (ok a) f e h = cc
  map-eq-raise (raise x) f e h = cc

  pub map-eq-ok :
      (m : Result A) (f : A → B) (b : B)
      → (m >>= λ a. ok (f a)) ≡ ok b
      → (a : A) × (m ≡ ok a) × (f a ≡ b)
  map-eq-ok (ok a) f b h = (a, refl, ok-injective h)
  map-eq-ok (raise x) f b h = cc

pub Result-cases {ℓ} :
    {A : Type ℓ} (r : Result A) → ((a : A) × (r ≡ ok a)) ⊎ ((e : Exception) × (r ≡ raise e))
Result-cases (ok a) = inl (a, refl)
Result-cases (raise e) = inr (e, refl)
