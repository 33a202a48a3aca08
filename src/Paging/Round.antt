-- ===== src/Paging/Round.antt =====
-- `PGROUNDDOWN` and `PGROUNDUP` of server/exception/exception_p_enclave/Enclave/paging.h.
use atc22_ae.Base.{
  bit_and, ℕ, ◌+◌, ◌-◌, ◌*◌, ◌/◌, ◌%◌, ◌^◌, ◌≤◌, ◌<◌, ◌≡◌, ◌∙◌, ◌↔◌, ap, arith, ◌==◌, if◌then◌else◌,
  and_shifted, and_low_bits, u64,
}
use atc22_ae.Paging.{pgroundup, pgrounddown}

page_mask : (a : ℕ) → bit_and a (2 ^ 64 - 4096) ≡ a / 2 ^ 12 % 2 ^ 52 * 2 ^ 12
page_mask a =
    and_shifted 12 (2 ^ 52 - 1) a ∙ ap (λ (t : ℕ). t * 2 ^ 12) (and_low_bits 52 (a / 2 ^ 12))

pub pgrounddown-sub : (a : ℕ) → a < 2 ^ 64 → pgrounddown a ≡ a - a % 4096
unfolding pgrounddown
pgrounddown-sub a h = omega (arith, page_mask a)

pub pgroundup-sub : (sz : ℕ) → sz + 4095 < 2 ^ 64 → pgroundup sz ≡ (sz + 4095) - (sz + 4095) % 4096
unfolding pgroundup
pgroundup-sub sz h = omega (arith, page_mask (u64 (sz + 4096 - 1)))

-- On 64-bit numbers up to 2^64 - 4096, rounding down and up are the nearest page boundaries: a page
-- starts at or below `a` exactly if it starts at or below `PGROUNDDOWN(a)`, and it starts at or
-- above `a` exactly if it starts at or above `PGROUNDUP(a)`; both results are such boundaries, one
-- page apart unless `a` is one itself.
pub pgrounddown-pgroundup :
    (a n : ℕ)
    → a ≤ 2 ^ 64 - 4096
    → ((4096 * n ≤ a) ↔ (4096 * n ≤ pgrounddown a))
      × ((a ≤ 4096 * n) ↔ (pgroundup a ≤ 4096 * n))
      × (pgrounddown a % 4096 ≡ 0)
      × (pgroundup a ≡ (if a % 4096 == 0 then a else pgrounddown a + 4096))
pgrounddown-pgroundup a n h =
    rw (pgrounddown-sub a (omega arith), pgroundup-sub a (omega arith))
      (
        (λ p. omega arith, λ p. omega arith),
        (λ p. omega arith, λ p. omega arith),
        omega arith,
        ground arith,
      )

-- Above 2^64 - 4096 the sum of `PGROUNDUP` wraps.
pub pgroundup-wraps : (a : ℕ) → 2 ^ 64 - 4096 < a → a < 2 ^ 64 → pgroundup a ≡ 0
unfolding pgroundup
pgroundup-wraps a h b = omega (arith, page_mask (u64 (a + 4096 - 1)))
