-- ===== src/PEnclave/Fault.antt =====
-- Page faults of the P-Enclave: the case `0xE` of `exception_handler` in
-- server/exception/exception_p_enclave/Enclave/Enclave.cpp, by what the faulting address leads to.
use atc22_ae.Base.{
  ℕ, ◌+◌, ◌-◌, ◌%◌, ◌^◌, ◌<◌, ◌≡◌, ◌≢◌, ◌*◌, ◌/◌, ◌==◌, refl, sym, ap, ◌∙◌, arith, some, [], ◌∷◌,
  bit_or, if◌then◌else◌,
}
use atc22_ae.Paging.{phys_offset, pte_addr, store, write_entry}
use atc22_ae.Paging.Entry.{with_flags-sum, pte_addr-div}
use atc22_ae.Paging.Walk.{Walked, absent, large, leaf, hw_walk, IsLow, phys_of}
use atc22_ae.Paging.Protect.One.{
  mprotect-unaligned, mprotect_one-leaf, mprotect_one-absent, mprotect_one-large,
}
use atc22_ae.Paging.Protect.Wrap.{mprotect-wraps}
use atc22_ae.Machine.{Resumed, Exit, resumes, aborts}
use atc22_ae.PEnclave.{
  Enclave, printf_ocall, increment, minus_one, dump_trapframe, page_fault, exception_handler,
}
use atc22_ae.PEnclave.Ecall.{Env, Globals, deliver}
use atc22_ae.PEnclave.Deliver.{trap, deliver-page_fault}

module _ (env : Env) (glob : Globals) (registered : glob.g_handler ≡ some exception_handler)
    (err : ℕ) (c : Resumed) (s : Enclave) where
  abbrev counted : Enclave
  counted = record s { pf_count = increment s.pf_count }

  -- What comes of a page fault at the first byte of a page, by the end of the processor's walk: the
  -- entry at `a` keeps bits 12 to 47 and gets the flags 3, present and writable.
  abbrev pub fault_exit : Walked → Exit Enclave
  fault_exit absent = resumes c counted
  fault_exit large = aborts counted
  fault_exit (leaf a) = resumes c (record counted {
    mmu = record {
      mem = λ q.
          if a + phys_offset == q
          then s.mmu.mem (a + phys_offset) / 2 ^ 12 % 2 ^ 36 * 2 ^ 12 + 3
          else s.mmu.mem q;
      cached_cr3 = s.mmu.cached_cr3;
      flushed = s.cr2 ∷ s.mmu.flushed;
    };
  })

  -- With `exception_handler` registered, a page fault whose address is not the first byte of a page
  -- ends the program: `mprotect` refuses the address, and the handler prints -1 and the frame and
  -- aborts.
  pub fault_unaligned :
      s.cr2 % 4096 ≢ 0
      → deliver env glob 14 err c s
        ≡ aborts (
            dump_trapframe
              (trap 14 err c)
              (printf_ocall "ERROR: page fault mprotect returns: %d\n" (minus_one ∷ []) counted))
  unfolding page_fault
  fault_unaligned odd =
      deliver-page_fault env glob registered err c s
      ∙ rw (mprotect-unaligned s.mmu s.cr2 4096 3 odd) refl

  -- With `exception_handler` registered, a page fault at the first byte of the last page of the
  -- address space resumes the faulting instruction with the page tables as they were, mapped or not.
  pub fault_last : s.cr2 ≡ 2 ^ 64 - 4096 → deliver env glob 14 err c s ≡ resumes c counted
  unfolding page_fault
  fault_last last =
      deliver-page_fault env glob registered err c s
      ∙ rw
          (mprotect-wraps s.mmu s.cr2 4096 3 (omega arith) refl (omega arith) (omega arith)
            (omega arith))
          refl

  module _ (whole : s.cr2 % 4096 ≡ 0) (fits : s.cr2 + 4096 < 2 ^ 64)
      (aligned : s.mmu.cached_cr3 % 4096 ≡ 0)
      (low : IsLow (phys_of s.mmu) 3 s.mmu.cached_cr3 s.cr2) where
    -- With `exception_handler` registered, page tables below 2^47 and their root aligned: a page
    -- fault at the first byte of a mapped page, which is not the last page of the address space,
    -- makes the page present and writable, flushes it, and resumes the faulting instruction in its
    -- context.
    pub fault-leaf :
        (a : ℕ)
        → hw_walk (phys_of s.mmu) 3 s.mmu.cached_cr3 s.cr2 ≡ leaf a
        → deliver env glob 14 err c s
          ≡ resumes c (record counted { mmu = write_entry s.mmu (a + phys_offset) s.cr2 3 })
    unfolding page_fault
    fault-leaf a e =
        deliver-page_fault env glob registered err c s
        ∙ rw (mprotect_one-leaf s.mmu s.cr2 3 whole fits aligned low a e) refl

    -- With `exception_handler` registered, page tables below 2^47 and their root aligned: a page
    -- fault at the first byte of a page that has no entry resumes the faulting instruction with the
    -- page tables as they were, since `mprotect` returns 0 for it. The page is not the last one of
    -- the address space.
    pub fault-absent :
        hw_walk (phys_of s.mmu) 3 s.mmu.cached_cr3 s.cr2 ≡ absent
        → deliver env glob 14 err c s ≡ resumes c counted
    unfolding page_fault
    fault-absent e =
        deliver-page_fault env glob registered err c s
        ∙ rw (mprotect_one-absent s.mmu s.cr2 3 whole fits aligned low e) refl

    -- With `exception_handler` registered, page tables below 2^47 and their root aligned: a page
    -- fault at a multiple of 4096 inside a large page, not in the last 4096 bytes of the address
    -- space, ends the program with the fault counted and nothing printed.
    pub fault-large :
        hw_walk (phys_of s.mmu) 3 s.mmu.cached_cr3 s.cr2 ≡ large
        → deliver env glob 14 err c s ≡ aborts counted
    unfolding page_fault
    fault-large e =
        deliver-page_fault env glob registered err c s
        ∙ rw (mprotect_one-large s.mmu s.cr2 3 whole fits aligned low e) refl

    -- The entry that is written.
    entry-sum : (e : ℕ) → bit_or (pte_addr e) 3 ≡ e / 2 ^ 12 % 2 ^ 36 * 2 ^ 12 + 3
    entry-sum e = with_flags-sum e 3 (omega arith) ∙ ap (λ (x : ℕ). x + 3) (pte_addr-div e)

    fault-ends :
        (w : Walked)
        → hw_walk (phys_of s.mmu) 3 s.mmu.cached_cr3 s.cr2 ≡ w
        → deliver env glob 14 err c s ≡ fault_exit w
    unfolding write_entry store
    fault-ends absent e = fault-absent e
    fault-ends large e = fault-large e
    fault-ends (leaf a) e = rw (sym (entry-sum (s.mmu.mem (a + phys_offset)))) (fault-leaf a e)

    -- With `exception_handler` registered, page tables below 2^47 and their root aligned: what a
    -- page fault at the first byte of a page does, unless the page is the last one of the address
    -- space, follows the processor's walk of the address. Where it ends at an entry, exactly this
    -- entry changes: it keeps the address of the page and its flags become present and writable
    -- alone; the page is flushed, and the faulting instruction resumes in its context.
    -- Where the page has no entry, the instruction resumes too, with the page tables as they were.
    -- At a large page the program ends with nothing printed. The fault is counted each time.
    pub fault-walk :
        deliver env glob 14 err c s ≡ fault_exit (hw_walk (phys_of s.mmu) 3 s.mmu.cached_cr3 s.cr2)
    fault-walk = fault-ends _ refl
