-- ===== src/Base/Pigeonhole.antt =====
-- More numbers than places: no one-to-one map sends the numbers up to `n` below `n`.
use Prim.Native.Nat.{ℕ, zero, suc, ◌≤◌, ◌<◌}
use mathlib.Core.Path.{◌≡◌}
use native.Mathlib.Omega.{arith}
use atc22_ae.Base.Tests.{◌==◌, if◌then◌else◌}

-- `f` with the value `n` replaced by its last value.
abbrev squeezed : (n : ℕ) → (ℕ → ℕ) → ℕ → ℕ
squeezed n f j = if f j == n then f (suc n) else f j

pub pigeonhole :
    (n : ℕ) (f : ℕ → ℕ)
    → ((i : ℕ) → i ≤ n → f i < n)
    → ¬ ((i j : ℕ) → i ≤ n → j ≤ n → f i ≡ f j → i ≡ j)
pigeonhole zero f small one_to_one = omega (arith, small 0 (omega arith))
pigeonhole (suc n) f small one_to_one =
    pigeonhole n (squeezed n f)
      (λ i b. ground (
        arith,
        small i (omega arith),
        small (suc n) (omega arith),
        one_to_one i (suc n) (omega arith) (omega arith),
      ))
      (λ i j b c e. ground (
        arith,
        e,
        one_to_one i j (omega arith) (omega arith),
        one_to_one i (suc n) (omega arith) (omega arith),
        one_to_one j (suc n) (omega arith) (omega arith),
      ))
