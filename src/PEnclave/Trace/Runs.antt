-- ===== src/PEnclave/Trace/Runs.antt =====
-- Runs of the loops of `ecall_exception`
-- (server/exception/exception_p_enclave/Enclave/Enclave.cpp) to which interrupts come, and what they
-- leave.
use atc22_ae.Base.{ℕ, ◌+◌, ◌<◌, ◌≡◌, List, ◌++◌, length, u32}
use atc22_ae.Paging.Protect.Range.{page}
use atc22_ae.PEnclave.{Enclave, Line}
use atc22_ae.PEnclave.Ecall.{
  Env, Globals, value, pages, protect_buf, report_writes, report_ud2, report_counts,
}
use atc22_ae.PEnclave.Measure.{transcript}
use atc22_ae.PEnclave.Trace.{Happening, Reach, opcodes, interrupts, Wrote}

-- The loops of the benchmark from `s` to `s'`, as they run when interrupts come at any time: each
-- store loop writes every page, the last loop executes `nrepeats` times `ud2`, and between them
-- stand `mprotect` and the reports.
pub record Interrupted (env : Env) (glob : Globals) (nrepeats : ℕ) (s s' : Enclave) : Type 0 where
  pub way₁ : List Happening
  pub filled : Enclave
  pub filling : Reach env glob env.test_buf pages s way₁ filled
  pub all_filled : (i : ℕ) → i < pages → Wrote way₁ i
  pub no_opcode₁ : opcodes way₁ ≡ 0
  pub protected : Enclave
  pub protecting : protect_buf env filled ≡ value protected
  pub way₂ : List Happening
  pub written : Enclave
  pub writing : Reach env glob env.test_buf pages protected way₂ written
  pub all_written : (i : ℕ) → i < pages → Wrote way₂ i
  pub no_opcode₂ : opcodes way₂ ≡ 0
  pub way₃ : List Happening
  pub skipped : Enclave
  pub skipping : Reach env glob env.test_buf pages (report_writes env written) way₃ skipped
  pub all_skipped : opcodes way₃ ≡ nrepeats
  pub ends : s' ≡ report_counts (report_ud2 env nrepeats skipped)

-- The interrupts of the three loops, the last one first.
abbrev pub came :
    {env : Env} {glob : Globals} {nrepeats : ℕ} {s s' : Enclave}
    → Interrupted env glob nrepeats s s'
    → List (ℕ × ℕ)
came run = interrupts run.way₃ ++ (interrupts run.way₂ ++ interrupts run.way₁)

-- The counters, the bytes and the lines at the end, from those at the start and the interrupts that
-- came; the lines of before are `older`.
pub record Tallied (t : ℕ → ℕ) (start nrepeats : ℕ) (irqs : List (ℕ × ℕ)) (older : List Line)
    (s s' : Enclave) : Type 0 where
  pub pf_count : s'.pf_count ≡ u32 (s.pf_count + pages)
  pub ud_count : s'.ud_count ≡ u32 (s.ud_count + nrepeats)
  pub intr_count : s'.intr_count ≡ u32 (s.intr_count + length irqs)
  pub forwarded : s'.forwarded ≡ irqs ++ s.forwarded
  pub zeroed : (j : ℕ) → j < pages → s'.byte_at (page start j) ≡ 0
  pub printed :
      s'.output
      ≡ transcript t nrepeats
          (u32 (s.pf_count + pages))
          (u32 (s.ud_count + nrepeats))
          (u32 (s.intr_count + length irqs))
          older
