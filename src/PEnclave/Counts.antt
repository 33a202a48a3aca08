-- ===== src/PEnclave/Counts.antt =====
-- `ecall_exception` of server/exception/exception_p_enclave/Enclave/Enclave.cpp from its call to its
-- return: the counters that it prints.
use atc22_ae.Base.{ℕ, suc, ◌%◌, ◌^◌, ◌<◌, ◌≡◌, refl, some, List, [], ◌∷◌}
use atc22_ae.Paging.{cache_cr3, phys_to_virt}
use atc22_ae.Paging.Walk.{phys_of}
use mathlib.Core.Path.{sym}
use atc22_ae.Signal.{init_exception, register_handler}
use atc22_ae.Sgx.{sgx_success}
use atc22_ae.Counter.{IsCounter}
use atc22_ae.PEnclave.{Enclave, Line, printf_ocall, exception_handler}
use atc22_ae.PEnclave.Ecall.{
  Env, Globals, value, pages, start_up, read_root, measure, ecall_exception,
}
use atc22_ae.PEnclave.Buffer.{IsMapped}
use atc22_ae.PEnclave.Writes.{Obeys}
use atc22_ae.PEnclave.Measure.{Counted, measure_lem}

-- The state that the ecall starts its loops in: the handler is registered, and the root is cached.
started : (env : Env) → Enclave → Enclave
started env s =
    read_root env
      (printf_ocall "Register exception handler OK!\n" [] (printf_ocall "Starting...\n" [] s))

-- The lines up to the loops, the last one first.
abbrev pub start_lines : Env → Enclave → List Line
start_lines env s =
    ("*CR3 = 0x%llx\n", s.mmu.mem (phys_to_virt env.cr3) ∷ [])
    ∷ ("CR3 = 0x%llx\n", env.cr3 ∷ [])
    ∷ ("Register exception handler OK!\n", [])
    ∷ ("Starting...\n", [])
    ∷ s.output

started-Counted :
    (env : Env) (t : ℕ → ℕ) (start nrepeats : ℕ) (s s' : Enclave)
    → Counted t start nrepeats (started env s).output (started env s) s'
    → Counted t start nrepeats (start_lines env s) s s'
unfolding started read_root printf_ocall cache_cr3
started-Counted env t start nrepeats s s' h = record {
  pf_count = h.pf_count;
  ud_count = h.ud_count;
  intr_count = h.intr_count;
  forwarded = h.forwarded;
  zeroed = h.zeroed;
  printed = h.printed;
}

started-mmu :
    (env : Env) (s : Enclave)
    → (phys_of (started env s).mmu ≡ phys_of s.mmu)
      × ((started env s).mmu.cached_cr3 ≡ env.cr3)
      × ((started env s).pf_count ≡ s.pf_count)
      × ((started env s).ud_count ≡ s.ud_count)
unfolding started read_root printf_ocall cache_cr3
started-mmu env s = (refl, refl, refl, refl)

ecall_run :
    (tries : ℕ) (env : Env) (nrepeats : ℕ) (glob : Globals) (s s' : Enclave)
    → measure tries env
        (register_handler exception_handler (init_exception env.idt_addr env.entry_addr glob))
        nrepeats
        (started env s)
      ≡ value s'
    → ecall_exception tries env nrepeats glob s
      ≡ value (
        sgx_success,
        register_handler exception_handler (init_exception env.idt_addr env.entry_addr glob),
        s',
      )
unfolding ecall_exception start_up started
ecall_run tries env nrepeats glob s s' e = rw e refl

registered :
    (g : Globals) → (register_handler exception_handler g).g_handler ≡ some exception_handler
unfolding register_handler
registered g = refl

-- If the page tables map the buffer, page by page, by present and writable entries of their own,
-- stores fault exactly at pages that are not writable, `rdtscp` reads a counter as `IsCounter` says,
-- and the two counts are below 2^32, then `ecall_exception` ends, with SGX_SUCCESS and the handler
-- registered, whatever handler and cached root there were before. It has taken one page fault for
-- each of the 32768 pages and one invalid opcode for each of the `nrepeats` instructions (both
-- counts modulo 2^32) and no interrupt; the first byte of each page is 0; and it has printed exactly
-- the lines of `start_lines` and of `transcript`: the root and its first entry, the byte read, which
-- is 0, the times between the readings less 60, and the three counts. Two attempts for a store are
-- enough.
pub ecall_exception-Counted :
    (k : ℕ) (env : Env) (t : ℕ → ℕ) (nrepeats : ℕ) (glob : Globals) (s : Enclave) (a : ℕ → ℕ)
    → IsCounter env.tsc t
    → IsMapped (phys_of s.mmu) env.cr3 env.test_buf pages a
    → Obeys env (phys_of s.mmu) env.cr3 env.test_buf pages a
    → ((i : ℕ) → i < pages → phys_of s.mmu (a i) % 4 ≡ 3)
    → s.pf_count < 2 ^ 32
    → s.ud_count < 2 ^ 32
    → (s' : Enclave) × (ecall_exception (suc (suc k)) env nrepeats glob s
        ≡ value (
          sgx_success,
          register_handler exception_handler (init_exception env.idt_addr env.entry_addr glob),
          s',
        ))
      × Counted t env.test_buf nrepeats (start_lines env s) s s'
ecall_exception-Counted k env t nrepeats glob s a counter ok cpu bits pf ud =
    let (ph, root, same_pf, same_ud) = started-mmu env s in
    let (s', ran, counted) =
      measure_lem k env t counter
        (register_handler exception_handler (init_exception env.idt_addr env.entry_addr glob))
        nrepeats (registered _) (phys_of s.mmu) a ok cpu bits (started env s) (sym ph) root
        (rw same_pf pf) (rw same_ud ud) in
    (
      s',
      ecall_run _ env nrepeats glob s s' ran,
      started-Counted env t env.test_buf nrepeats s s' counted,
    )
