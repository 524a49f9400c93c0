-- ===== src/Base/Endings.antt =====
-- The ways a C++ routine ends, with `do` blocks.

-- `undefined`: the standard leaves the behaviour open, as at an access out of bounds.
-- `terminated`: an exception that nothing catches ends the process.
pub data Outcome {ℓ} (A : Type ℓ) : Type ℓ where
  done : A → Outcome A
  undefined : Outcome A
  terminated : Outcome A

infixl 5 ◌>>=◌
abbrev pub ◌>>=◌ {ℓ κ} : {A : Type ℓ} {B : Type κ} → Outcome A → (A → Outcome B) → Outcome B
done a >>= f = f a
undefined >>= f = undefined
terminated >>= f = terminated
