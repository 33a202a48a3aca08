-- ===== src/Paging/Protect/Wrap.antt =====
-- `mprotect` of server/exception/exception_p_enclave/Enclave/paging.h on a range that reaches the
-- end of the address space.
use atc22_ae.Base.{ℕ, ◌+◌, ◌/◌, ◌%◌, ◌^◌, ◌≤◌, ◌<◌, ◌≡◌, refl, arith, false, ◌||◌, not, ◌==◌, u64}
use atc22_ae.Outcome.{done, success}
use atc22_ae.Paging.{Mmu, pgsize, mprotect}
use atc22_ae.Paging.Protect.{mprotect_loop-end}

-- On a range of whole pages whose end is 2^64 or above, the 64-bit sum of its start and its length
-- is not above its start: `mprotect` returns 0 and has changed no entry, flushed nothing and read
-- no table, whatever pages the range has.
pub mprotect-wraps :
    (s : Mmu) (start len flags : ℕ)
    → start % 4096 ≡ 0
    → len % 4096 ≡ 0
    → start < 2 ^ 64
    → len < 2 ^ 64
    → 2 ^ 64 ≤ start + len
    → mprotect s start len flags ≡ done (success, s)
unfolding mprotect
mprotect-wraps s start len flags whole pages_ a b over =
    let even : (not (start % pgsize == 0) || not (len % pgsize == 0)) ≡ false = ground arith in
    rw (even, mprotect_loop-end (len / pgsize) s start (u64 (start + len)) flags (omega arith)) refl
