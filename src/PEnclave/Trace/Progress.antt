-- ===== src/PEnclave/Trace/Progress.antt =====
-- What holds of the benchmark of the P-Enclave (`ecall_exception` of
-- server/exception/exception_p_enclave/Enclave/Enclave.cpp) in whatever order its faults, its `ud2`
-- and interrupts come.
use mathlib.Core.Path.{subst}
use atc22_ae.Base.{
  ℕ, ◌+◌, ◌*◌, ◌^◌, ◌≤◌, ◌<◌, ◌≡◌, ◌⊎◌, inl, inr, refl, sym, arith, false, Bool-cases, some, List,
  ◌++◌, length, ltb, u32,
}
use atc22_ae.Outcome.{done, success}
use atc22_ae.Paging.{Mmu, pte_p, mprotect}
use atc22_ae.Paging.Walk.{phys_of}
use atc22_ae.Paging.Protect.{mprotect-IsProtected}
use atc22_ae.Paging.Protect.Range.{page}
use atc22_ae.Machine.{Resumed, resumes}
use atc22_ae.PEnclave.{Enclave, exception_handler}
use atc22_ae.PEnclave.Ecall.{Env, Globals, deliver}
use atc22_ae.PEnclave.Buffer.{IsMapped, Holds, Holds-protected, Holds-write}
use atc22_ae.PEnclave.Writes.{Obeys, fault_lem}
use atc22_ae.PEnclave.Trace.{Happening, Reach, opcodes, faults, interrupts, Wrote}
use atc22_ae.PEnclave.Trace.Open.{closed-all, opened}
use atc22_ae.PEnclave.Trace.Tally.{Tally, Tally-first, Reach-Tally, faults-closed}

module _ (env : Env) (glob : Globals) (registered : glob.g_handler ≡ some exception_handler)
    (m : Mmu) (start n : ℕ) (a : ℕ → ℕ) (ok : IsMapped (phys_of m) m.cached_cr3 start n a)
    (cpu : Obeys env (phys_of m) m.cached_cr3 start n a) (s : Enclave)
    (protect : mprotect m start (4096 * n) pte_p ≡ done (success, s.mmu)) (ud : s.ud_count < 2 ^ 32)
    (pf : s.pf_count < 2 ^ 32) (intr : s.intr_count < 2 ^ 32) {hs : List Happening} {t : Enclave}
    (r : Reach env glob start n s hs t) where
  read_only : Holds (phys_of m) m.cached_cr3 start n a (λ j. ltb j 0) s.mmu
  read_only =
      let (m', ran, p) =
        mprotect-IsProtected m start 1 n ok.whole ok.fits (omega arith) ok.root ok.tables in
      let same : s.mmu ≡ m' = cc (ran, protect) in
      subst (Holds (phys_of m) m.cached_cr3 start n a (λ j. ltb j 0)) (sym same)
        (Holds-protected (phys_of m) m.cached_cr3 start n a ok m m' refl refl p)

  tally : Tally env glob registered (phys_of m) m.cached_cr3 start n a ok cpu s (λ j. ltb j 0) hs t
  tally =
      Reach-Tally env glob registered (phys_of m) m.cached_cr3 start n a ok cpu s (λ j. ltb j 0)
        (Tally-first env glob registered (phys_of m) m.cached_cr3 start n a ok cpu s (λ j. ltb j 0)
          read_only ud pf intr)
        r

  -- Let `exception_handler` be registered, `n` pages of the buffer be mapped by tables as
  -- `IsMapped` says, the processor fault on stores as `Obeys` says, `mprotect` have made the pages
  -- read-only and the counters be below 2^32. Let any `ud2`, interrupts with a vector from 32 on,
  -- stores and faults, in any order and each exception delivered through the entry code, lead to
  -- the state `t`. Then the three counters have grown, modulo 2^32, by the numbers of `ud2`, faults
  -- and interrupts, the interrupts were handed on in their order with the error code 0, nothing was
  -- printed, and there were at most `n` faults.
  pub Reach-counts :
      (t.ud_count ≡ u32 (s.ud_count + opcodes hs))
      × (t.pf_count ≡ u32 (s.pf_count + faults hs))
      × (t.intr_count ≡ u32 (s.intr_count + length (interrupts hs)))
      × (t.forwarded ≡ interrupts hs ++ s.forwarded)
      × (t.output ≡ s.output)
      × (faults hs ≤ n)
  Reach-counts = (
    tally.ud_count,
    tally.pf_count,
    tally.intr_count,
    tally.forwarded,
    tally.output,
    omega (arith, tally.once, closed-all n),
  )

  -- Let `exception_handler` be registered, `n` pages of the buffer be mapped by tables as
  -- `IsMapped` says, the processor fault on stores as `Obeys` says, `mprotect` have made the pages
  -- read-only and the counters be below 2^32. Let any `ud2`, interrupts with a vector from 32 on,
  -- stores and faults, in any order and each exception delivered through the entry code, lead to
  -- the state `t`. If a store to each of the `n` pages has gone through on the way, then the faults
  -- counted are exactly `n`, modulo 2^32.
  pub Reach-faults : ((i : ℕ) → i < n → Wrote hs i) → t.pf_count ≡ u32 (s.pf_count + n)
  Reach-faults all =
      let each =
        faults-closed env glob registered (phys_of m) m.cached_cr3 start n a ok cpu s (λ j. ltb j 0)
          tally all in
      omega (arith, each, tally.pf_count, closed-all n)

  -- Let `exception_handler` be registered, `n` pages of the buffer be mapped by tables as
  -- `IsMapped` says, the processor fault on stores as `Obeys` says, `mprotect` have made the pages
  -- read-only and the counters be below 2^32. Let any `ud2`, interrupts with a vector from 32 on,
  -- stores and faults, in any order and each exception delivered through the entry code, lead to
  -- the state `t`. Then a store to any of the `n` pages goes through in `t`, or the handler resumes
  -- its fault, and the store goes through in the state that the handler leaves.
  pub Reach-completes :
      (i : ℕ) (c : Resumed)
      → i < n
      → (env.store_faults env.cr3 t.mmu (page start i) ≡ false)
        ⊎ ((u : Enclave) × (deliver env glob 14 3 c (record t { cr2 = page start i }) ≡ resumes c u)
            × (env.store_faults env.cr3 u.mmu (page start i) ≡ false))
  Reach-completes i c b = elim (Bool-cases (tally.writable i)) [
    | inl open_ ↦ inl (cpu.writable tally.writable t.mmu i tally.holds b open_)
    | inr shut ↦ inr (
      _,
      fault_lem env glob registered (phys_of m) m.cached_cr3 start n a ok cpu c i tally.writable t
          tally.holds b,
      cpu.writable (opened i tally.writable) _ i
          (Holds-write (phys_of m) m.cached_cr3 start n a ok i tally.holds b
            (opened i tally.writable) (ground arith) (λ j ne. ground arith))
          b (ground arith),
    )
  ]
