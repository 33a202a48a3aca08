-- ===== src/Paging/Index.antt =====
-- The index macros `P4_IDX` to `P1_IDX` of
-- server/exception/exception_p_enclave/Enclave/paging.h as arithmetic.
use atc22_ae.Base.{ℕ, ◌-◌, ◌/◌, ◌%◌, ◌^◌, ◌≤◌, ◌<◌, ◌≡◌, ◌↔◌, ◌⊎◌, arith, and_low_bits}
use atc22_ae.Paging.{p4_idx, p3_idx, p2_idx, p1_idx}

pub p4_idx-div : (v : ℕ) → p4_idx v ≡ v / 2 ^ 39 % 512
unfolding p4_idx
p4_idx-div v = and_low_bits 9 (v / 2 ^ 39)

pub p3_idx-div : (v : ℕ) → p3_idx v ≡ v / 2 ^ 30 % 512
unfolding p3_idx
p3_idx-div v = and_low_bits 9 (v / 2 ^ 30)

pub p2_idx-div : (v : ℕ) → p2_idx v ≡ v / 2 ^ 21 % 512
unfolding p2_idx
p2_idx-div v = and_low_bits 9 (v / 2 ^ 21)

pub p1_idx-div : (v : ℕ) → p1_idx v ≡ v / 2 ^ 12 % 512
unfolding p1_idx
p1_idx-div v = and_low_bits 9 (v / 2 ^ 12)

-- A canonical address repeats bit 47 in the bits above it.
abbrev pub IsCanonical : ℕ → Type 0
IsCanonical v = (v < 2 ^ 47) ⊎ ((2 ^ 64 - 2 ^ 47 ≤ v) × (v < 2 ^ 64))

abbrev pub SameIndices : ℕ → ℕ → Type 0
SameIndices u v =
    (p4_idx u ≡ p4_idx v) × (p3_idx u ≡ p3_idx v) × (p2_idx u ≡ p2_idx v) × (p1_idx u ≡ p1_idx v)

-- Two canonical addresses have the same four table indices exactly when they lie in the same
-- page of 4096 bytes.
pub SameIndices-iff :
    (u v : ℕ) → IsCanonical u → IsCanonical v → SameIndices u v ↔ (u / 4096 ≡ v / 4096)
SameIndices-iff u v cu cv = ground (
  arith,
  p4_idx-div u,
  p3_idx-div u,
  p2_idx-div u,
  p1_idx-div u,
  p4_idx-div v,
  p3_idx-div v,
  p2_idx-div v,
  p1_idx-div v,
)
