-- ===== src/PEnclave/Trace/Whole.antt =====
-- `ecall_exception` of server/exception/exception_p_enclave/Enclave/Enclave.cpp from its call to its
-- return, with interrupts anywhere in its loops.
use atc22_ae.Base.{ℕ, ◌%◌, ◌^◌, ◌<◌, ◌≡◌, refl, arith, []}
use atc22_ae.Paging.{cache_cr3}
use atc22_ae.Paging.Walk.{phys_of}
use atc22_ae.Signal.{register_handler}
use atc22_ae.PEnclave.{Enclave, printf_ocall}
use atc22_ae.PEnclave.Ecall.{Env, Globals, pages, start_up, read_root}
use atc22_ae.Counter.{IsCounter}
use atc22_ae.PEnclave.Buffer.{IsMapped}
use atc22_ae.PEnclave.Writes.{Obeys}
use atc22_ae.PEnclave.Counts.{start_lines}
use atc22_ae.PEnclave.Trace.InSteps.{InSteps}
use atc22_ae.PEnclave.Trace.Runs.{Interrupted, came, Tallied}
use atc22_ae.PEnclave.Trace.Interrupted.{Interrupted-Tallied}

-- The globals and the state in which the loops start.
abbrev pub started : Env → Globals → Enclave → Globals × Enclave
started env glob s = ((start_up env glob s).0, read_root env (start_up env glob s).1)

-- A run of the code by itself is one to which no interrupt comes.
pub InSteps-Interrupted :
    (env : Env) (nrepeats : ℕ) (glob glob' : Globals) (s s' : Enclave)
    → InSteps env nrepeats glob s glob' s'
    → (run : Interrupted env glob' nrepeats (started env glob s).1 s') × (came run ≡ [])
InSteps-Interrupted env nrepeats glob glob' s s' r = (
  record {
    way₁ = r.filling.way;
    filled = r.filled;
    filling = r.filling.reach;
    all_filled = λ i b. r.filling.wrote i (omega arith) (omega arith);
    no_opcode₁ = r.filling.same_opcodes;
    protected = r.protected;
    protecting = r.protecting;
    way₂ = r.writing.way;
    written = r.written;
    writing = r.writing.reach;
    all_written = λ i b. r.writing.wrote i (omega arith) (omega arith);
    no_opcode₂ = r.writing.same_opcodes;
    way₃ = r.skipping.way;
    skipped = r.skipped;
    skipping = r.skipping.reach;
    all_skipped = omega (arith, r.skipping.more_opcodes);
    ends = r.ends;
  },
  rw (r.skipping.same_interrupts, r.writing.same_interrupts, r.filling.same_interrupts) refl,
)

-- Let the page tables map the buffer, page by page, by present and writable entries of their own,
-- stores fault exactly at pages that are not writable, `rdtscp` read a counter as `IsCounter` says,
-- and the three counts be below 2^32. Let the ecall register its handler, cache the root and run
-- its loops to the end, with any interrupts of a vector from 32 on between their stores and `ud2`,
-- each exception and interrupt delivered through the entry code. Then, whatever the
-- interrupts and their places: one page fault for each of the 32768 pages and one invalid opcode
-- for each of the `nrepeats` instructions have been counted, and each interrupt once (all modulo
-- 2^32); the interrupts were handed on in the order in which they came; the first byte of each page
-- is 0; and the lines printed are those of a run without interrupts, but for the interrupt count.
pub ecall_exception-Tallied :
    (env : Env) (t : ℕ → ℕ) (nrepeats : ℕ) (glob : Globals) (s s' : Enclave) (a : ℕ → ℕ)
    → IsCounter env.tsc t
    → IsMapped (phys_of s.mmu) env.cr3 env.test_buf pages a
    → Obeys env (phys_of s.mmu) env.cr3 env.test_buf pages a
    → ((i : ℕ) → i < pages → phys_of s.mmu (a i) % 4 ≡ 3)
    → s.pf_count < 2 ^ 32
    → s.ud_count < 2 ^ 32
    → s.intr_count < 2 ^ 32
    → (run : Interrupted env (started env glob s).0 nrepeats (started env glob s).1 s')
    → Tallied t env.test_buf nrepeats (came run) (start_lines env s) s s'
unfolding start_up read_root register_handler printf_ocall cache_cr3
ecall_exception-Tallied env t nrepeats glob s s' a counter ok cpu bits pf ud intr run =
    let r =
      Interrupted-Tallied env (started env glob s).0 nrepeats refl t counter a
        (started env glob s).1 s' refl ok cpu bits pf ud intr run in
    record {
      pf_count = r.pf_count;
      ud_count = r.ud_count;
      intr_count = r.intr_count;
      forwarded = r.forwarded;
      zeroed = r.zeroed;
      printed = r.printed;
    }
