-- ===== src/Paging/Protect/One.antt =====
-- `mprotect` of server/exception/exception_p_enclave/Enclave/paging.h on one page, as the page-fault
-- handler calls it.
use atc22_ae.Base.{
  ℕ, ◌+◌, ◌%◌, ◌^◌, ◌<◌, ◌≡◌, ◌≢◌, refl, ◌∙◌, arith, true, not, ◌||◌, ◌==◌, ltb, u64,
}
use atc22_ae.Outcome.{done, aborted, Status, success, failure}
use atc22_ae.Paging.{Mmu, phys_offset, pgsize, write_entry, mprotect_page, mprotect_loop, mprotect}
use atc22_ae.Paging.Walk.{absent, large, leaf, hw_walk, IsLow, phys_of}
use atc22_ae.Paging.Protect.Page.{mprotect_page-absent, mprotect_page-large, mprotect_page-leaf}
use atc22_ae.Paging.Protect.{mprotect_loop-suc, mprotect_loop-end, mprotect-mprotect_loop}

-- An address or a length that is not a multiple of the page size is refused: -1, and no change.
pub mprotect-unaligned :
    (s : Mmu) (v len flags : ℕ) → v % 4096 ≢ 0 → mprotect s v len flags ≡ done (failure, s)
unfolding mprotect
mprotect-unaligned s v len flags h =
    let odd : (not (v % pgsize == 0) || not (len % pgsize == 0)) ≡ true = ground arith in
    rw odd refl

module _ (s : Mmu) (v flags : ℕ) (whole : v % 4096 ≡ 0) (fits : v + 4096 < 2 ^ 64) where
  one_round :
      (st : Status) (s' : Mmu)
      → mprotect_page s v flags ≡ done (st, s')
      → mprotect s v 4096 flags ≡ done (success, s')
  one_round st s' ran = mprotect-mprotect_loop s s' v flags 1 (v + 4096) whole (omega arith) (
      mprotect_loop-suc 1 s s' st v (v + 4096) (v + 4096) flags (omega arith) ran (omega arith)
      ∙ mprotect_loop-end 0 s' (v + 4096) (v + 4096) flags (omega arith))

  one_round-aborted : mprotect_page s v flags ≡ aborted → mprotect s v 4096 flags ≡ aborted
  unfolding mprotect mprotect_loop
  one_round-aborted ran =
      let a : (v % pgsize == 0) ≡ true = ground arith in
      let end : u64 (v + 4096) ≡ v + 4096 = omega arith in
      let go : ltb v (v + 4096) ≡ true = ground arith in rw (a, end, go, ran) refl

  module _ (aligned : s.cached_cr3 % 4096 ≡ 0) (low : IsLow (phys_of s) 3 s.cached_cr3 v) where
    pub mprotect_one-leaf :
        (a : ℕ)
        → hw_walk (phys_of s) 3 s.cached_cr3 v ≡ leaf a
        → mprotect s v 4096 flags ≡ done (success, write_entry s (a + phys_offset) v flags)
    mprotect_one-leaf a e = one_round success _ (mprotect_page-leaf s v flags aligned low a e)

    -- A page with no entry is passed over, and the call still returns 0.
    pub mprotect_one-absent :
        hw_walk (phys_of s) 3 s.cached_cr3 v ≡ absent → mprotect s v 4096 flags ≡ done (success, s)
    mprotect_one-absent e = one_round failure s (mprotect_page-absent s v flags aligned low e)

    pub mprotect_one-large :
        hw_walk (phys_of s) 3 s.cached_cr3 v ≡ large → mprotect s v 4096 flags ≡ aborted
    mprotect_one-large e = one_round-aborted (mprotect_page-large s v flags aligned low e)
