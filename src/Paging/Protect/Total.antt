-- ===== src/Paging/Protect/Total.antt =====
-- The loop of `mprotect` of server/exception/exception_p_enclave/Enclave/paging.h ends at every
-- argument: the fuel, a round for each page and one for the last test, does not run out.
use atc22_ae.Base.{
  ℕ, zero, suc, ◌+◌, ◌*◌, ◌/◌, ◌%◌, ◌^◌, ◌<◌, ◌≡◌, ◌≢◌, refl, inl, inr, arith, Bool-cases,
  if◌then◌else◌, ◌==◌, ◌||◌, not, ltb, ltb→lt, u64,
}
use atc22_ae.Outcome.{Outcome, done, aborted, out_of_fuel, ◌>>=◌}
use atc22_ae.Paging.{
  Mmu, pgsize, null, next_table, get_entry, mprotect_page, mprotect_loop, mprotect,
}

next_table-total : (e : ℕ) → next_table e ≢ out_of_fuel
unfolding next_table
next_table-total e = ground arith

-- A chain runs out of fuel only where one of its parts does.
chain-total {ℓ κ} :
    {A : Type ℓ} {B : Type κ} (m : Outcome A) (k : A → Outcome B)
    → m ≢ out_of_fuel
    → ((a : A) → k a ≢ out_of_fuel)
    → (m >>= k) ≢ out_of_fuel
chain-total (done a) k h g = g a
chain-total aborted k h g = λ e. cc
chain-total out_of_fuel k h g = absurd (h refl)

unless_null-total :
    (p : ℕ) (k : Outcome ℕ) → k ≢ out_of_fuel → (if p == null then done null else k) ≢ out_of_fuel
unless_null-total p k h = ground arith

get_entry-total : (s : Mmu) (v : ℕ) → get_entry s v ≢ out_of_fuel
unfolding get_entry
get_entry-total s v = chain-total (next_table _) _ (next_table-total _) λ p3.
    unless_null-total p3 _ (
      chain-total (next_table _) _ (next_table-total _) λ p2.
        unless_null-total p2 _
          (chain-total (next_table _) _ (next_table-total _) λ p1. unless_null-total p1 _ λ e. cc))

mprotect_page-total : (s : Mmu) (v flags : ℕ) → mprotect_page s v flags ≢ out_of_fuel
unfolding mprotect_page
mprotect_page-total s v flags =
    chain-total (get_entry s v) _ (get_entry-total s v) λ pte. ground arith

loop-total :
    (fuel : ℕ) (s : Mmu) (v end flags : ℕ)
    → v % 4096 ≡ 0
    → end % 4096 ≡ 0
    → end < 2 ^ 64
    → end < v + 4096 * fuel
    → 0 < fuel
    → mprotect_loop fuel s v end flags ≢ out_of_fuel
unfolding mprotect_loop
loop-total zero s v end flags a b c d f = absurd (omega arith)
loop-total (suc fuel) s v end flags a b c d f = elim (Bool-cases (ltb v end)) [
  | inl more ↦
      let h : v < end = ltb→lt v end more in
      let next : u64 (v + pgsize) ≡ v + 4096 = omega arith in
      rw more (
        chain-total (mprotect_page s v flags) _ (mprotect_page-total s v flags) λ r.
          rw next (
            loop-total fuel r.1 (v + 4096) end flags (omega arith) b c (omega arith) (omega arith)))
  | inr stop ↦ rw stop λ e. cc
]

-- `mprotect` ends on every 64-bit address and length, ranges that wrap round the address space
-- included: it returns or aborts, and never runs out of the fuel that the model gives it.
pub mprotect-total :
    (s : Mmu) (addr len flags : ℕ)
    → addr < 2 ^ 64
    → len < 2 ^ 64
    → mprotect s addr len flags ≢ out_of_fuel
unfolding mprotect
mprotect-total s addr len flags ha hl =
    elim (Bool-cases (not (addr % pgsize == 0) || not (len % pgsize == 0))) [
      | inl odd ↦ rw odd λ e. cc
      | inr whole ↦
          let a : addr % 4096 ≡ 0 = ground arith in
          let b : len % 4096 ≡ 0 = ground arith in
          rw whole (
            chain-total (mprotect_loop (suc (len / pgsize)) s addr (u64 (addr + len)) flags) _
              (loop-total (suc (len / pgsize)) s addr (u64 (addr + len)) flags a (omega arith)
                (omega arith) (omega arith) (omega arith))
              λ s' e. cc)
    ]
