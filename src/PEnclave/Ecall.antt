-- ===== src/PEnclave/Ecall.antt =====
-- `ecall_exception` of server/exception/exception_p_enclave/Enclave/Enclave.cpp, with the exceptions
-- that its loops raise. An exception goes through the stub of its vector (`Entry.antt`) to the
-- handler that `common_exception_handler` (`Signal.antt`) calls.
use atc22_ae.Base.{
  ℕ, zero, suc, ◌+◌, ◌-◌, ◌/◌, ◌%◌, ◌^◌, Bool, ◌||◌, List, [], ◌∷◌, ◌==◌, if◌then◌else◌, bit_or,
  u64, ◌<<<◌,
}
use atc22_ae.Outcome.{Outcome, done, aborted, out_of_fuel, Status, success, failure}
use atc22_ae.Paging.{Mmu, pgsize, pte_p, phys_to_virt, cache_cr3, mprotect}
use atc22_ae.Signal.{Signals, Handler, init_exception, register_handler, common_exception_handler}
use atc22_ae.Entry.{enter}
use atc22_ae.Machine.{Regs, Machine, Resumed, Exit, resumes, aborts, faults, spent}
use atc22_ae.Sgx.{SgxStatus, sgx_success}
use atc22_ae.PEnclave.{Enclave, printf_ocall, exception_handler, minus_one}

-- `128 << 20`
abbrev pub buf_size : ℕ
buf_size = 128 <<< 20

-- What the code meets but does not define: the linker's addresses, the root of the page table, what
-- a call leaves in the registers, the contexts of the store and of the `ud2`, which stores
-- fault, and the registers `eax` and `edx` behind each `rdtscp`.
pub record Env : Type 0 where
  pub idt_addr : ℕ
  pub entry_addr : ℕ → ℕ
  pub test_buf : ℕ
  pub cr3 : ℕ
  pub clobber : Regs → Regs
  pub store_context : Resumed
  pub ud2_context : Resumed
  pub store_faults : (root : ℕ) → Mmu → ℕ → Bool
  pub tsc : ℕ → ℕ × ℕ

-- `mov` from and to `cr3`.
abbrev pub read_cr3 : Env → ℕ
read_cr3 env = env.cr3

abbrev pub write_cr3 : (val : ℕ) → Env → Env
write_cr3 val env = record env { cr3 = val }

-- How a part of the ecall ends: with a value; by `abort()`; at an instruction that the loops do not
-- hold; or out of the model's fuel.
pub data Run (A : Type 0) : Type 0 where
  value : A → Run A
  died : Enclave → Run A
  astray : Run A
  stuck : Run A

infixl 5 ◌>>=◌
abbrev pub ◌>>=◌ : {A B : Type 0} → Run A → (A → Run B) → Run B
value a >>= f = f a
died s >>= f = died s
astray >>= f = astray
stuck >>= f = stuck

-- The globals of the whole image.
abbrev pub Globals : Type 0
Globals = Signals (Handler Enclave)

-- The exceptions for which the processor pushes an error code, by its manuals: #DF, #TS, #NP, #SS,
-- #GP, #PF, #AC, #CP, #VC and #SX.
unfoldable pub has_error_code : (v : ℕ) → Bool
has_error_code v =
    v == 8
    || v == 10
    || v == 11
    || v == 12
    || v == 13
    || v == 14
    || v == 17
    || v == 21
    || v == 29
    || v == 30

-- The stack at the first instruction of a stub: the processor aligns `rsp` to 16 bytes and pushes
-- `ss`, `rsp`, `rflags`, `cs`, `rip` and, for some vectors, an error code.
abbrev pub interrupted : (v err : ℕ) → Resumed → Machine
interrupted v err c =
    let top : ℕ = c.rsp - c.rsp % 16 in
    let five : List ℕ = c.rip ∷ c.cs ∷ c.rflags ∷ c.rsp ∷ c.ss ∷ [] in
    if has_error_code v
    then record { regs = c.regs; rsp = top - 48; stack = err ∷ five }
    else record { regs = c.regs; rsp = top - 40; stack = five }

module _ (env : Env) (glob : Globals) where
  -- An exception or interrupt in the context `c`.
  unfoldable pub deliver : (v err : ℕ) → Resumed → Enclave → Exit Enclave
  deliver v err c s =
      enter (λ _ tf s'. common_exception_handler glob tf s') env.clobber v (interrupted v err c) s

  -- Execution goes on after an exception at `c` if it resumes in that context, at `rip`.
  unfoldable pub resume_at : (rip : ℕ) → Exit Enclave → Run Enclave
  resume_at rip (resumes r s) = if r.rip == rip then value s else astray
  resume_at rip (aborts s) = died s
  resume_at rip faults = astray
  resume_at rip spent = stuck

  -- `ud2`, two bytes long, executed in the context `c`.
  unfoldable pub ud2 : Resumed → Enclave → Run Enclave
  ud2 c s = resume_at (u64 (c.rip + 2)) (deliver 6 0 c s)

  -- The store `test_buf[...] = 0` at address `v`: on a page fault the processor sets `cr2`, and the
  -- store is tried again where the handler resumes it. The error code says "write to a present
  -- page".
  unfoldable pub store_byte : ℕ → Resumed → (v : ℕ) → Enclave → Run Enclave
  store_byte zero c v s = stuck
  store_byte (suc n) c v s =
      let again : Run Enclave =
        resume_at c.rip (deliver 14 3 c (record s { cr2 = v })) >>= λ s'. store_byte n c v s' in
      if env.store_faults env.cr3 s.mmu v
      then again
      else value (record s { byte_at = λ a. if a == v then 0 else s.byte_at a })

  -- `for (int i = 0; i < BUF_SIZE; i += PGSIZE) test_buf[i] = 0;`, by the pages left. A store that
  -- still faults after `tries` attempts is `stuck`.
  unfoldable pub store_loop : (tries left : ℕ) → Resumed → (v : ℕ) → Enclave → Run Enclave
  store_loop tries zero c v s = value s
  store_loop tries (suc left) c v s =
      store_byte tries c v s >>= λ s'. store_loop tries left c (v + pgsize) s'

  -- `for (uint32_t i = 0; i < nrepeats; i ++) ud2`.
  unfoldable pub ud2_loop : (left : ℕ) → Resumed → Enclave → Run Enclave
  ud2_loop zero c s = value s
  ud2_loop (suc left) c s = ud2 c s >>= λ s'. ud2_loop left c s'

-- Reading number `k` of the clock.
unfoldable pub rdtscp : Env → (k : ℕ) → ℕ
rdtscp env k = bit_or (u64 ((env.tsc k).1 <<< 32)) (env.tsc k).0

-- `time_end - time_begin - 60` on `uint64_t`.
abbrev pub elapsed : (begin end : ℕ) → ℕ
elapsed begin end = u64 (end + 2 ^ 65 - begin - 60)

abbrev pub pages : ℕ
pages = buf_size / pgsize

-- Up to the registration of the handler.
unfoldable pub start_up : Env → Globals → Enclave → Globals × Enclave
start_up env glob s = (
  register_handler exception_handler (init_exception env.idt_addr env.entry_addr glob),
  printf_ocall "Register exception handler OK!\n" [] (printf_ocall "Starting...\n" [] s),
)

-- The root of the page table is cached, and printed with its first entry.
unfoldable pub read_root : Env → Enclave → Enclave
read_root env s =
    let cr3 : ℕ = read_cr3 env in
    let s₁ = record s { mmu = cache_cr3 cr3 s.mmu } in
    printf_ocall "*CR3 = 0x%llx\n" (s₁.mmu.mem (phys_to_virt cr3) ∷ [])
      (printf_ocall "CR3 = 0x%llx\n" (cr3 ∷ []) s₁)

-- What follows the call of `mprotect` that takes the buffer's write permission away.
unfoldable pub after_protect : Env → Enclave → Outcome (Status × Mmu) → Run Enclave
after_protect env s (done (success, m)) =
    value (printf_ocall "read OK: %d\n" (s.byte_at env.test_buf ∷ []) (record s { mmu = m }))
after_protect env s (done (failure, m)) =
    died (printf_ocall "ERROR: mprotect returns: %d\n" (minus_one ∷ []) (record s { mmu = m }))
after_protect env s aborted = died s
after_protect env s out_of_fuel = stuck

unfoldable pub protect_buf : Env → Enclave → Run Enclave
protect_buf env s = after_protect env s (mprotect s.mmu env.test_buf buf_size pte_p)

-- A `double` quotient is printed from its two numbers.
unfoldable pub report_writes : Env → Enclave → Enclave
report_writes env s =
    let total : ℕ = elapsed (rdtscp env 0) (rdtscp env 1) in
    printf_ocall "Average time = %.3lf (cycles)\n\n" (total ∷ pages ∷ []) (
      printf_ocall "Total Time = %lld (cycles)\n" (total ∷ [])
        (printf_ocall "Write Count = %d\n" (pages ∷ []) (printf_ocall "write OK\n" [] s)))

unfoldable pub report_ud2 : Env → (nrepeats : ℕ) → Enclave → Enclave
report_ud2 env nrepeats s =
    let total : ℕ = elapsed (rdtscp env 2) (rdtscp env 3) in
    printf_ocall "Average time = %.3lf (cycles)\n\n" (total ∷ nrepeats ∷ []) (
      printf_ocall "Total Time = %lld (cycles)\n" (total ∷ [])
        (printf_ocall "Count = %d\n" (nrepeats ∷ []) (printf_ocall "test #UD OK\n" [] s)))

unfoldable pub report_counts : Enclave → Enclave
report_counts s = printf_ocall "#PF Count = %d\n\n" (s.pf_count ∷ []) (
    printf_ocall "#UD Count = %d\n" (s.ud_count ∷ [])
      (printf_ocall "Interrupt Count = %d\n" (s.intr_count ∷ []) s))

-- The loops and the `mprotect` between them, with the handler registered in `glob`. Each store may
-- be tried `tries` times.
unfoldable pub measure : (tries : ℕ) → Env → Globals → (nrepeats : ℕ) → Enclave → Run Enclave
measure tries env glob nrepeats s = do
  s₁ ← store_loop env glob tries pages env.store_context env.test_buf s
  s₂ ← protect_buf env s₁
  s₃ ← store_loop env glob tries pages env.store_context env.test_buf s₂
  s₄ ← ud2_loop env glob nrepeats env.ud2_context (report_writes env s₃)
  value (report_counts (report_ud2 env nrepeats s₄))

unfoldable pub ecall_exception :
    (tries : ℕ) → Env → (nrepeats : ℕ) → Globals → Enclave → Run (SgxStatus × Globals × Enclave)
ecall_exception tries env nrepeats glob s = do
  let (glob₁, s₁) = start_up env glob s
  s₂ ← measure tries env glob₁ nrepeats (read_root env s₁)
  value (sgx_success, glob₁, s₂)
