-- ===== src/Examples/Traces.antt =====
-- The theorems on orders of events: a buffer of one page that takes a fault, an interrupt and a
-- store.
use atc22_ae.Base.{◌+◌, ◌*◌, ◌≤◌, ◌≡◌, refl, arith, List, [], ◌∷◌, ◌++◌, length, ltb, u32}
use atc22_ae.Outcome.{done, success}
use atc22_ae.Paging.{Mmu, pte_p, mprotect}
use atc22_ae.Paging.Walk.{phys_of}
use atc22_ae.Paging.Protect.{IsProtected, mprotect-IsProtected}
use atc22_ae.PEnclave.{Enclave}
use atc22_ae.PEnclave.Deliver.{deliver_interrupt}
use atc22_ae.PEnclave.Buffer.{Holds, Holds-protected, Holds-write}
use atc22_ae.PEnclave.Writes.{faulted, fault_lem}
use atc22_ae.PEnclave.Trace.{
  Happening, interrupt, write, fault, irq, pass, trap, Reach, here, next, opcodes, faults,
  interrupts,
}
use atc22_ae.PEnclave.Trace.Progress.{Reach-counts}
use atc22_ae.PEnclave.Trace.Finishes.{Reach-finishes}
use atc22_ae.PEnclave.Trace.Refines.{Stores}
use atc22_ae.Examples.Tables.{start, root, entry_at, mmu, mmu-IsProtectable, mmu-IsMapped}
use atc22_ae.Examples.Exceptions.{context, env, glob, enclave, env-Obeys}

abbrev protected :
    (m : Mmu) × (mprotect mmu start (4096 * 1) pte_p ≡ done (success, m))
    × IsProtected mmu start 1 1 m
protected =
    mprotect-IsProtected mmu start 1 1 refl (omega arith) (omega arith) refl
      (mmu-IsProtectable 1 (omega arith))

-- The enclave behind `mprotect`.
abbrev first : Enclave
first = record enclave { mmu = protected.0 }

first-Holds : Holds (phys_of mmu) root start 1 entry_at (λ j. ltb j 0) first.mmu
first-Holds =
    Holds-protected (phys_of mmu) root start 1 entry_at (mmu-IsMapped 1 (omega arith)) mmu
      protected.0 refl refl protected.2

abbrev second : Enclave
second =
    faulted env glob refl (phys_of mmu) root start 1 entry_at (mmu-IsMapped 1 (omega arith))
      (env-Obeys 1 (omega arith)) context 0 first

second-Holds : Holds (phys_of mmu) root start 1 entry_at (λ j. ltb j 1) second.mmu
second-Holds =
    Holds-write (phys_of mmu) root start 1 entry_at (mmu-IsMapped 1 (omega arith)) 0 first-Holds
      (omega arith) (λ j. ltb j 1) refl (λ j ne. ground arith)

abbrev happened : List Happening
happened = write 0 ∷ interrupt 0x20 ∷ fault 0 ∷ []

way : (t : Enclave) × Reach env glob start 1 first happened t
way = (
  _,
  next
      (next
        (next here (
          trap 0 context context (omega arith)
            ((env-Obeys 1 (omega arith)).protected (λ j. ltb j 0) first.mmu 0 first-Holds
              (omega arith) refl)
            (fault_lem env glob refl (phys_of mmu) root start 1 entry_at
              (mmu-IsMapped 1 (omega arith)) (env-Obeys 1 (omega arith)) context 0 (λ j. ltb j 0)
              first first-Holds (omega arith))))
        (irq 0x20 0 context context (omega arith) (omega arith)
          (deliver_interrupt env glob refl 0 context second 0x20 (omega arith) (omega arith))))
      (pass 0 (omega arith) (
        (env-Obeys 1 (omega arith)).writable (λ j. ltb j 1) second.mmu 0 second-Holds (omega arith)
          refl)),
)

met : (t : Enclave) × Reach env glob start 1 first (interrupt 0x20 ∷ fault 0 ∷ []) t
met = (
  _,
  next
      (next here (
        trap 0 context context (omega arith)
          ((env-Obeys 1 (omega arith)).protected (λ j. ltb j 0) first.mmu 0 first-Holds
            (omega arith) refl)
          (fault_lem env glob refl (phys_of mmu) root start 1 entry_at
            (mmu-IsMapped 1 (omega arith)) (env-Obeys 1 (omega arith)) context 0 (λ j. ltb j 0)
            first first-Holds (omega arith))))
      (irq 0x20 0 context context (omega arith) (omega arith)
        (deliver_interrupt env glob refl 0 context second 0x20 (omega arith) (omega arith))),
)

Reach-counts_example :
    (way.0.ud_count ≡ u32 (0 + opcodes happened))
    × (way.0.pf_count ≡ u32 (0 + faults happened))
    × (way.0.intr_count ≡ u32 (4 + length (interrupts happened)))
    × (way.0.forwarded ≡ interrupts happened ++ [])
    × (way.0.output ≡ [])
    × (faults happened ≤ 1)
Reach-counts_example =
    Reach-counts env glob refl mmu start 1 entry_at (mmu-IsMapped 1 (omega arith))
      (env-Obeys 1 (omega arith)) first protected.1 (omega arith) (omega arith) (omega arith) way.1

Reach-finishes_example :
    (t' : Enclave) × Stores env glob start 1 met.0 [] 0 1 t' × (t'.pf_count ≡ u32 (0 + 1))
Reach-finishes_example =
    Reach-finishes env glob refl mmu start 1 entry_at (mmu-IsMapped 1 (omega arith))
      (env-Obeys 1 (omega arith)) first protected.1 (omega arith) (omega arith) (omega arith) met.1
