-- ===== src/Outcome.antt =====
-- What a call of enclave code comes to: a value, or the end of the program by `abort()`. A loop
-- on fuel has a third outcome, which the theorems on its fuel exclude.
pub data Outcome {ℓ} (A : Type ℓ) : Type ℓ where
  done : A → Outcome A
  aborted : Outcome A
  out_of_fuel : Outcome A

infixl 5 ◌>>=◌
abbrev pub ◌>>=◌ {ℓ κ} : {A : Type ℓ} {B : Type κ} → Outcome A → (A → Outcome B) → Outcome B
done a >>= f = f a
aborted >>= f = aborted
out_of_fuel >>= f = out_of_fuel

-- The `int` results of the sources: 0 and -1.
pub data Status : Type 0 where
  success : Status
  failure : Status
