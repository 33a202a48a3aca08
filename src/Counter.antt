-- ===== src/Counter.antt =====
-- The counter that `rdtscp` reads, in its two halves: what the programs' functions of this name
-- (server/exception/*/Enclave/Enclave.cpp, server/edge-calls/Include/common.h) make of them.
use atc22_ae.Base.{ℕ, ◌+◌, ◌*◌, ◌^◌, ◌≤◌, ◌<◌, ◌≡◌, ◌∙◌, arith, bit_or, or_fields, u64, ◌<<<◌}

-- The halves joined as the sources write it.
pub joined-sum :
    (lo hi : ℕ) → lo < 2 ^ 32 → hi < 2 ^ 32 → bit_or (u64 (hi <<< 32)) lo ≡ hi * 2 ^ 32 + lo
joined-sum lo hi a b =
    let whole : u64 (hi <<< 32) ≡ hi * 2 ^ 32 = omega arith in rw whole (or_fields 32 hi lo a)

-- The readings of an enclave's benchmark: number k holds the halves, low and high, of the counter's
-- value `t k`, and each of its two measurements takes 60 cycles or more.
pub record IsCounter (tsc : ℕ → ℕ × ℕ) (t : ℕ → ℕ) : Type 0 where
  pub low : (k : ℕ) → (tsc k).0 < 2 ^ 32
  pub high : (k : ℕ) → (tsc k).1 < 2 ^ 32
  pub halves : (k : ℕ) → (tsc k).1 * 2 ^ 32 + (tsc k).0 ≡ t k
  pub first : t 0 + 60 ≤ t 1
  pub second : t 2 + 60 ≤ t 3

module _ (tsc : ℕ → ℕ × ℕ) (t : ℕ → ℕ) (counter : IsCounter tsc t) where
  pub joined-reading : (k : ℕ) → bit_or (u64 ((tsc k).1 <<< 32)) (tsc k).0 ≡ t k
  joined-reading k =
      joined-sum (tsc k).0 (tsc k).1 (counter.low k) (counter.high k) ∙ counter.halves k

  pub reading-bound : (k : ℕ) → t k < 2 ^ 64
  reading-bound k = omega (arith, counter.low k, counter.high k, counter.halves k)
