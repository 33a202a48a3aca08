-- ===== src/PEnclave/Trace.antt =====
-- The benchmark loops of `ecall_exception`
-- (server/exception/exception_p_enclave/Enclave/Enclave.cpp) as steps in any order: its `ud2` and
-- its stores, with interrupts between any two of them, each sent the way that the entry code and
-- `exception_handler` send it.
pub mod Open
pub mod Tally
pub mod Progress
pub mod Refines
pub mod Finishes
pub mod InSteps
pub mod Runs
pub mod Interrupted
pub mod Whole
use atc22_ae.Base.{
  ℕ, zero, suc, ◌+◌, ◌≤◌, ◌<◌, ◌≡◌, ◌⊎◌, Bool, true, false, List, [], ◌∷◌, if◌then◌else◌,
}
use atc22_ae.Paging.Protect.Range.{page}
use atc22_ae.Machine.{Resumed, resumes}
use atc22_ae.PEnclave.{Enclave}
use atc22_ae.PEnclave.Ecall.{Env, Globals, deliver}
use atc22_ae.PEnclave.Writes.{stored}

-- What happens: a `ud2`, an interrupt with its vector, a store to a page that goes through, and one
-- that faults.
pub data Happening : Type 0 where
  opcode : Happening
  interrupt : (v : ℕ) → Happening
  write : (i : ℕ) → Happening
  fault : (i : ℕ) → Happening

-- A step is taken where the handler lets the interrupted code go on; in which context is not asked
-- here.
pub data Step (env : Env) (glob : Globals) (start n : ℕ) (s : Enclave)
    : Happening → Enclave → Type 0 where
  ud2 :
      (c c' : Resumed) {s' : Enclave}
      → deliver env glob 6 0 c s ≡ resumes c' s'
      → Step env glob start n s opcode s'
  irq :
      (v err : ℕ) (c c' : Resumed) {s' : Enclave}
      → 32 ≤ v
      → v < 256
      → deliver env glob v err c s ≡ resumes c' s'
      → Step env glob start n s (interrupt v) s'
  pass :
      (i : ℕ)
      → i < n
      → env.store_faults env.cr3 s.mmu (page start i) ≡ false
      → Step env glob start n s (write i) (stored (page start i) s)
  trap :
      (i : ℕ) (c c' : Resumed) {s' : Enclave}
      → i < n
      → env.store_faults env.cr3 s.mmu (page start i) ≡ true
      → deliver env glob 14 3 c (record s { cr2 = page start i }) ≡ resumes c' s'
      → Step env glob start n s (fault i) s'

-- What has happened on the way to a state, the last thing first.
pub data Reach (env : Env) (glob : Globals) (start n : ℕ) (s : Enclave)
    : List Happening → Enclave → Type 0 where
  here : Reach env glob start n s [] s
  next :
      {hs : List Happening} {t u : Enclave} {h : Happening}
      → Reach env glob start n s hs t
      → Step env glob start n t h u
      → Reach env glob start n s (h ∷ hs) u

abbrev pub opcodes : List Happening → ℕ
opcodes [] = 0
opcodes (opcode ∷ hs) = suc (opcodes hs)
opcodes (_ ∷ hs) = opcodes hs

abbrev pub faults : List Happening → ℕ
faults [] = 0
faults (fault i ∷ hs) = suc (faults hs)
faults (_ ∷ hs) = faults hs

-- The interrupts, as `vmmcall` hands them on.
abbrev pub interrupts : List Happening → List (ℕ × ℕ)
interrupts [] = []
interrupts (interrupt v ∷ hs) = (v, 0) ∷ interrupts hs
interrupts (_ ∷ hs) = interrupts hs

abbrev pub Wrote : List Happening → ℕ → Type 0
Wrote [] i = ⊥
Wrote (write j ∷ hs) i = (i ≡ j) ⊎ Wrote hs i
Wrote (_ ∷ hs) i = Wrote hs i
