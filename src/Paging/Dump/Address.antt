-- ===== src/Paging/Dump/Address.antt =====
-- The addresses that `dump_inner` of server/exception/exception_p_enclave/Enclave/paging.h prints.
use atc22_ae.Base.{
  ℕ, zero, suc, ◌+◌, ◌-◌, ◌*◌, ◌/◌, ◌%◌, ◌^◌, ◌≤◌, ◌<◌, ◌≡◌, refl, ap, ◌∙◌, arith, if◌then◌else◌,
  ◌==◌, ltb, bit_and, bit_or, and_shifted, and_low_bits, or_split, or_step, or-zero, u64,
}
use native.Mathlib.Nat.{pow-suc, one-le-pow}
use atc22_ae.Paging.{p4_idx, p3_idx, p2_idx, p1_idx}
use atc22_ae.Paging.Index.{p4_idx-div, p3_idx-div, p2_idx-div, p1_idx-div, IsCanonical}
use atc22_ae.Paging.Dump.{sign_extend, vaddr_of}

or_ones : (k q : ℕ) → q < 2 ^ k → bit_or q (2 ^ k - 1) ≡ 2 ^ k - 1
or_ones zero q h = or-zero q ∙ omega arith
or_ones (suc k) q h =
    let e : 2 ^ suc k ≡ 2 ^ k * 2 = pow-suc 2 k in
    let pos : 1 ≤ 2 ^ k = one-le-pow k 2 (omega arith) in
    let half : (2 ^ suc k - 1) / 2 ≡ 2 ^ k - 1 = omega (arith, e, pos) in
    let rest : bit_or (q / 2) ((2 ^ suc k - 1) / 2) ≡ 2 ^ k - 1 =
      rw half (or_ones k (q / 2) (omega (arith, e, h))) in
    omega (arith, or_step q (2 ^ suc k - 1), rest, e, pos)

sign_bit : (v : ℕ) → bit_and v (2 ^ 47) ≡ v / 2 ^ 47 % 2 * 2 ^ 47
sign_bit v = and_shifted 47 1 v ∙ ap (λ (t : ℕ). t * 2 ^ 47) (and_low_bits 1 (v / 2 ^ 47))

or_high : (v : ℕ) → v < 2 ^ 64 → bit_or v (2 ^ 64 - 2 ^ 47) ≡ v % 2 ^ 47 + (2 ^ 64 - 2 ^ 47)
or_high v h =
    let whole : v ≡ v / 2 ^ 47 * 2 ^ 47 + v % 2 ^ 47 = omega arith in
    let fields = or_split 47 (v / 2 ^ 47) (2 ^ 17 - 1) (v % 2 ^ 47) 0 (omega arith) (omega arith) in
    let ones : bit_or (v / 2 ^ 47) (2 ^ 17 - 1) ≡ 2 ^ 17 - 1 =
      or_ones 17 (v / 2 ^ 47) (omega arith) in
    ap (λ (t : ℕ). bit_or t (2 ^ 64 - 2 ^ 47)) whole
    ∙ fields
    ∙ omega (arith, ones, or-zero (v % 2 ^ 47))

sign_extend-sum :
    (v : ℕ)
    → v < 2 ^ 64
    → sign_extend v ≡ (if v / 2 ^ 47 % 2 == 0 then v else v % 2 ^ 47 + (2 ^ 64 - 2 ^ 47))
unfolding sign_extend
sign_extend-sum v h = ground (arith, sign_bit v, or_high v h)

-- The address whose low 48 bits are `v`.
abbrev pub extended : ℕ → ℕ
extended v = if ltb v (2 ^ 47) then v else v + (2 ^ 64 - 2 ^ 48)

sign_extend-fields : (v : ℕ) → v < 2 ^ 48 → sign_extend v ≡ extended v
sign_extend-fields v h = let e = sign_extend-sum v (omega arith) in ground (arith, e)

sign_extend-extended : (v : ℕ) → v < 2 ^ 48 → sign_extend (extended v) ≡ extended v
sign_extend-extended v h =
    let low = sign_extend-sum v in
    let high = sign_extend-sum (v + (2 ^ 64 - 2 ^ 48)) (omega arith) in ground (arith, low, high)

u64-extended :
    (v p : ℕ)
    → v + p < 2 ^ 48
    → (v + p) / 2 ^ 47 ≡ v / 2 ^ 47
    → u64 (extended v + p) ≡ extended (v + p)
u64-extended v p h e = ground arith

step :
    (v p : ℕ)
    → v + p < 2 ^ 48
    → (v + p) / 2 ^ 47 ≡ v / 2 ^ 47
    → sign_extend (u64 (extended v + p)) ≡ extended (v + p)
step v p h e = ap sign_extend (u64-extended v p h e) ∙ sign_extend-extended (v + p) h

-- Bits 47 to 12 of the address for the indices at the four levels.
abbrev pub sum_of : (a b c d : ℕ) → ℕ
sum_of a b c d = a * 2 ^ 39 + b * 2 ^ 30 + c * 2 ^ 21 + d * 2 ^ 12

pub vaddr_of-sum :
    (a b c d : ℕ)
    → a < 512
    → b < 512
    → c < 512
    → d < 512
    → vaddr_of (vaddr_of (vaddr_of (vaddr_of 0 0 a) 1 b) 2 c) 3 d ≡ extended (sum_of a b c d)
unfolding vaddr_of
vaddr_of-sum a b c d ha hb hc hd =
    let p4 : vaddr_of 0 0 a ≡ extended (a * 2 ^ 39) =
      ap sign_extend (omega arith) ∙ sign_extend-fields (a * 2 ^ 39) (omega arith) in
    let p3 = step (a * 2 ^ 39) (b * 2 ^ 30) (omega arith) (omega arith) in
    let p2 = step (a * 2 ^ 39 + b * 2 ^ 30) (c * 2 ^ 21) (omega arith) (omega arith) in
    let p1 = step (a * 2 ^ 39 + b * 2 ^ 30 + c * 2 ^ 21) (d * 2 ^ 12) (omega arith) (omega arith) in
    rw (p4, p3, p2, p1) refl

extended-IsCanonical : (v : ℕ) → v < 2 ^ 48 → IsCanonical (extended v)
extended-IsCanonical v h = ground arith

extended-aligned : (v : ℕ) → v < 2 ^ 48 → v % 4096 ≡ 0 → extended v % 4096 ≡ 0
extended-aligned v h e = ground arith

extended-fields :
    (v : ℕ)
    → v < 2 ^ 48
    → (extended v / 2 ^ 39 % 512 ≡ v / 2 ^ 39)
      × (extended v / 2 ^ 30 % 512 ≡ v / 2 ^ 30 % 512)
      × (extended v / 2 ^ 21 % 512 ≡ v / 2 ^ 21 % 512)
      × (extended v / 2 ^ 12 % 512 ≡ v / 2 ^ 12 % 512)
extended-fields v h = ground arith

sum_of-fields :
    (a b c d : ℕ)
    → a < 512
    → b < 512
    → c < 512
    → d < 512
    → (sum_of a b c d < 2 ^ 48)
      × (sum_of a b c d / 2 ^ 39 ≡ a)
      × (sum_of a b c d / 2 ^ 30 % 512 ≡ b)
      × (sum_of a b c d / 2 ^ 21 % 512 ≡ c)
      × (sum_of a b c d / 2 ^ 12 % 512 ≡ d)
sum_of-fields a b c d ha hb hc hd =
    (omega arith, omega arith, omega arith, omega arith, omega arith)

-- For four indices below 512, the address that the dump computes for the entry that they lead to is
-- canonical and the first of a page, and its four table indices are these.
pub vaddr_of-indices :
    (a b c d : ℕ)
    → a < 512
    → b < 512
    → c < 512
    → d < 512
    → let v = vaddr_of (vaddr_of (vaddr_of (vaddr_of 0 0 a) 1 b) 2 c) 3 d in
      IsCanonical v
      × (v % 4096 ≡ 0)
      × (p4_idx v ≡ a)
      × (p3_idx v ≡ b)
      × (p2_idx v ≡ c)
      × (p1_idx v ≡ d)
vaddr_of-indices a b c d ha hb hc hd =
    let s = sum_of a b c d in
    let (bound, top, third, second, first) = sum_of-fields a b c d ha hb hc hd in
    let (f4, f3, f2, f1) = extended-fields s bound in
    rw (vaddr_of-sum a b c d ha hb hc hd) (
      extended-IsCanonical s bound,
      extended-aligned s bound (omega arith),
      p4_idx-div (extended s) ∙ f4 ∙ top,
      p3_idx-div (extended s) ∙ f3 ∙ third,
      p2_idx-div (extended s) ∙ f2 ∙ second,
      p1_idx-div (extended s) ∙ f1 ∙ first,
    )
