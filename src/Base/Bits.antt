-- ===== src/Base/Bits.antt =====
-- The bitwise operators of C at variables: a mask of low bits is a remainder, and `|` of fields
-- that share no bit is their sum.
use Prim.Native.Nat.{
  ℕ, zero, suc, ◌+◌, ◌-◌, ◌*◌, ◌/◌, ◌%◌, ◌^◌, ◌≤◌, ◌<◌, min, max, digits, bit_and, bit_or,
  bit_and-bitwise, bit_or-bitwise,
}
use mathlib.Core.Path.{◌≡◌, refl, ap}
use native.Mathlib.Nat.{pow-suc, one-le-pow}
use native.Mathlib.Omega.{arith}

-- A number has no more binary digits than its value, so any larger count of digits serves.
module _ (z : ℕ → ℕ) (f : ℕ → ℕ → ℕ) where
  digits_more : (n m a b : ℕ) → a ≤ n → n ≤ m → digits z f m a b ≡ digits z f n a b
  digits_more n zero zero b p q = ground arith
  digits_more zero (suc m) zero b p q = refl
  digits_more (suc n) (suc m) zero b p q = refl
  digits_more zero m (suc a) b p q = absurd (omega arith)
  digits_more (suc n) zero (suc a) b p q = absurd (omega arith)
  digits_more (suc n) (suc m) (suc a) b p q =
      omega (arith, digits_more n m (suc a / 2) (b / 2) (omega arith) (omega arith))

pub and_step : (a b : ℕ) → bit_and a b ≡ bit_and (a / 2) (b / 2) * 2 + min (a % 2) (b % 2)
and_step zero b = omega (arith, bit_and-bitwise 0 b, bit_and-bitwise 0 (b / 2))
and_step (suc a) b = omega (
  arith,
  bit_and-bitwise (suc a) b,
  bit_and-bitwise (suc a / 2) (b / 2),
  digits_more (λ _. zero) min (suc a / 2) a (suc a / 2) (b / 2) (omega arith) (omega arith),
)

pub or_step : (a b : ℕ) → bit_or a b ≡ bit_or (a / 2) (b / 2) * 2 + max (a % 2) (b % 2)
or_step zero b = omega (arith, bit_or-bitwise 0 b, bit_or-bitwise 0 (b / 2))
or_step (suc a) b = omega (
  arith,
  bit_or-bitwise (suc a) b,
  bit_or-bitwise (suc a / 2) (b / 2),
  digits_more (λ y. y) max (suc a / 2) a (suc a / 2) (b / 2) (omega arith) (omega arith),
)

-- Fuel `n` bounds the number whose digits run out.
and-zero_upto : (n a : ℕ) → a ≤ n → bit_and a 0 ≡ 0
and-zero_upto n zero h = refl
and-zero_upto zero (suc a) h = absurd (omega arith)
and-zero_upto (suc n) (suc a) h =
    omega (arith, and_step (suc a) 0, and-zero_upto n (suc a / 2) (omega arith))

or-zero_upto : (n a : ℕ) → a ≤ n → bit_or a 0 ≡ a
or-zero_upto n zero h = refl
or-zero_upto zero (suc a) h = absurd (omega arith)
or-zero_upto (suc n) (suc a) h =
    omega (arith, or_step (suc a) 0, or-zero_upto n (suc a / 2) (omega arith))

pub and-zero : (a : ℕ) → bit_and a 0 ≡ 0
and-zero a = and-zero_upto a a (omega arith)

pub or-zero : (a : ℕ) → bit_or a 0 ≡ a
or-zero a = or-zero_upto a a (omega arith)

mul-pow-suc : (q k : ℕ) → q * 2 ^ suc k ≡ 2 * (q * 2 ^ k)
mul-pow-suc q k = omega (arith, ap (λ (t : ℕ). q * t) (pow-suc 2 k))

mod-double : (p a : ℕ) → 0 < p → a % (p * 2) ≡ a / 2 % p * 2 + a % 2
mod-double p a h = grind arith

div-double : (p a : ℕ) → 0 < p → a / (p * 2) ≡ a / 2 / p
div-double p a h = grind arith

-- `a & (2^k - 1)` keeps the low `k` bits.
pub and_low_bits : (k a : ℕ) → bit_and a (2 ^ k - 1) ≡ a % 2 ^ k
and_low_bits zero a = ground (arith, and-zero a)
and_low_bits (suc k) a = ground (
  arith,
  and_step a (2 ^ suc k - 1),
  pow-suc 2 k,
  one-le-pow k 2,
  and_low_bits k (a / 2),
  mod-double (2 ^ k) a (one-le-pow k 2 (omega arith)),
)

-- A mask of `k` zeros at its low end is applied above them.
pub and_shifted : (k m a : ℕ) → bit_and a (m * 2 ^ k) ≡ bit_and (a / 2 ^ k) m * 2 ^ k
and_shifted zero m a = ground arith
and_shifted (suc k) m a = ground (
  arith,
  and_step a (m * 2 ^ suc k),
  mul-pow-suc m k,
  mul-pow-suc (bit_and (a / 2 ^ suc k) m) k,
  and_shifted k m (a / 2),
  div-double (2 ^ k) a (one-le-pow k 2 (omega arith)),
  pow-suc 2 k,
)

-- `(q << k) | r` where `r` has at most `k` bits.
pub or_fields : (k q r : ℕ) → r < 2 ^ k → bit_or (q * 2 ^ k) r ≡ q * 2 ^ k + r
or_fields zero q r h = ground (arith, or-zero q)
or_fields (suc k) q r h = ground (
  arith,
  or_step (q * 2 ^ suc k) r,
  mul-pow-suc q k,
  pow-suc 2 k,
  or_fields k q (r / 2) (let e : 2 ^ suc k ≡ 2 ^ k * 2 = pow-suc 2 k in omega (arith, e)),
)

-- A mask in two fields is applied field by field.
pub and_fields :
    (k m r a : ℕ)
    → r < 2 ^ k
    → bit_and a (m * 2 ^ k + r) ≡ bit_and (a / 2 ^ k) m * 2 ^ k + bit_and a r
and_fields zero m r a h = ground (arith, and-zero a)
and_fields (suc k) m r a h = ground (
  arith,
  and_step a (m * 2 ^ suc k + r),
  and_step a r,
  mul-pow-suc m k,
  mul-pow-suc (bit_and (a / 2 ^ suc k) m) k,
  and_fields k m (r / 2) (a / 2) (let e : 2 ^ suc k ≡ 2 ^ k * 2 = pow-suc 2 k in omega (arith, e)),
  div-double (2 ^ k) a (one-le-pow k 2 (omega arith)),
  pow-suc 2 k,
)

zero-or : (b : ℕ) → bit_or 0 b ≡ b
zero-or b = bit_or-bitwise 0 b

or_comm_upto : (n a b : ℕ) → a ≤ n → b ≤ n → bit_or a b ≡ bit_or b a
or_comm_upto n zero b p q = omega (arith, or-zero b, zero-or b)
or_comm_upto n (suc a) zero p q = omega (arith, or-zero (suc a), zero-or (suc a))
or_comm_upto zero (suc a) (suc b) p q = absurd (omega arith)
or_comm_upto (suc n) (suc a) (suc b) p q = omega (
  arith,
  or_step (suc a) (suc b),
  or_step (suc b) (suc a),
  or_comm_upto n (suc a / 2) (suc b / 2) (omega arith) (omega arith),
)

pub or_comm : (a b : ℕ) → bit_or a b ≡ bit_or b a
or_comm a b = or_comm_upto (a + b) a b (omega arith) (omega arith)

-- `|` goes field by field.
pub or_split :
    (k a b r t : ℕ)
    → r < 2 ^ k
    → t < 2 ^ k
    → bit_or (a * 2 ^ k + r) (b * 2 ^ k + t) ≡ bit_or a b * 2 ^ k + bit_or r t
or_split zero a b r t h g = ground (arith, zero-or t)
or_split (suc k) a b r t h g =
    let e : 2 ^ suc k ≡ 2 ^ k * 2 = pow-suc 2 k in
    ground (
      arith,
      or_step (a * 2 ^ suc k + r) (b * 2 ^ suc k + t),
      or_step r t,
      mul-pow-suc a k,
      mul-pow-suc b k,
      mul-pow-suc (bit_or a b) k,
      or_split k a b (r / 2) (t / 2) (omega (arith, e)) (omega (arith, e)),
    )
