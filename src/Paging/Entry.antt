-- ===== src/Paging/Entry.antt =====
-- Page-table entries: `PTE_ADDR`, `PTE_FLAGS`, `next_table` and the window onto physical memory,
-- of server/exception/exception_p_enclave/Enclave/paging.h, as arithmetic.
use atc22_ae.Base.{
  ℕ, ◌+◌, ◌-◌, ◌*◌, ◌/◌, ◌%◌, ◌^◌, ◌≤◌, ◌<◌, ◌≡◌, ◌∙◌, ap, arith, bit_and, bit_or, and_low_bits,
  and_shifted, and_fields, or_fields, or_split, or_comm, or-zero,
}
use atc22_ae.Paging.{pte_addr, pte_flags, phys_to_virt, phys_offset}

pub pte_addr-div : (x : ℕ) → pte_addr x ≡ x / 2 ^ 12 % 2 ^ 36 * 2 ^ 12
unfolding pte_addr
pte_addr-div x =
    and_shifted 12 (2 ^ 36 - 1) x ∙ ap (λ (t : ℕ). t * 2 ^ 12) (and_low_bits 36 (x / 2 ^ 12))

pub pte_flags-div : (x : ℕ) → pte_flags x ≡ x / 2 ^ 48 % 2 ^ 16 * 2 ^ 48 + x % 2 ^ 12
unfolding pte_flags
pte_flags-div x = omega (
  arith,
  and_fields 48 (2 ^ 16 - 1) (2 ^ 12 - 1) x (omega arith),
  and_low_bits 16 (x / 2 ^ 48),
  and_low_bits 12 x,
)

-- The two masks split a 64-bit entry: its address part and its flags add up to it, and joining
-- them by `|` gives the entry back.
pub pte_addr-pte_flags :
    (x : ℕ) → x < 2 ^ 64 → (pte_addr x + pte_flags x ≡ x) × (bit_or (pte_addr x) (pte_flags x) ≡ x)
pte_addr-pte_flags x h =
    rw (pte_addr-div x, pte_flags-div x)
      (
        omega arith,
        ground (
          arith,
          or_split 12 (x / 2 ^ 12 % 2 ^ 36) (x / 2 ^ 48 * 2 ^ 36) 0 (x % 2 ^ 12),
          or_comm (x / 2 ^ 12 % 2 ^ 36) (x / 2 ^ 48 * 2 ^ 36),
          or_fields 36 (x / 2 ^ 48) (x / 2 ^ 12 % 2 ^ 36),
          or_comm 0 (x % 2 ^ 12),
          or-zero (x % 2 ^ 12),
        ),
      )

pub with_flags-sum : (x f : ℕ) → f < 4096 → bit_or (pte_addr x) f ≡ pte_addr x + f
with_flags-sum x f h = rw (pte_addr-div x) (or_fields 12 (x / 2 ^ 12 % 2 ^ 36) f h)

-- Bit 0 (`PTE_P`) and bit 7 (`PTE_PS`) as tests.
pub present_test : (x : ℕ) → bit_and x 1 ≡ x % 2
present_test x = and_low_bits 1 x

pub huge_test : (x : ℕ) → bit_and x 128 ≡ x / 128 % 2 * 128
huge_test x = and_shifted 7 1 x ∙ ap (λ (t : ℕ). t * 128) (and_low_bits 1 (x / 128))

pub pte_addr-with_flags : (x f : ℕ) → f < 4096 → pte_addr (bit_or (pte_addr x) f) ≡ pte_addr x
pte_addr-with_flags x f h =
    omega (arith, pte_addr-div (bit_or (pte_addr x) f), with_flags-sum x f h, pte_addr-div x)

-- Physical memory below 2^47 is seen in the upper half of the address space.
pub phys_to_virt-sum : (p : ℕ) → p < 2 ^ 47 → phys_to_virt p ≡ p + phys_offset
unfolding phys_to_virt
phys_to_virt-sum p h = omega arith

-- For physical addresses from 2^47 to below 2^48 the sum wraps: the window ends at 2^47, and these
-- addresses read as p - 2^47, 2^47 itself as NULL.
pub phys_to_virt-wraps : (p : ℕ) → 2 ^ 47 ≤ p → p < 2 ^ 48 → phys_to_virt p ≡ p - 2 ^ 47
unfolding phys_to_virt
phys_to_virt-wraps p h g = omega arith
