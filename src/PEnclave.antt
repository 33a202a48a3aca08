-- ===== src/PEnclave.antt =====
-- The exception handler of the P-Enclave,
-- server/exception/exception_p_enclave/Enclave/Enclave.cpp, and the globals that it works on. The
-- children hold `ecall_exception` and the proofs.
pub mod Ecall
pub mod Deliver
pub mod Fault
pub mod Buffer
pub mod Writes
pub mod Opcodes
pub mod Measure
pub mod Counts
pub mod Trace
pub mod Resumes
pub mod Stack
use Prim.Native.String.{String}
use atc22_ae.Base.{
  ℕ, ◌+◌, ◌%◌, ◌^◌, ◌&&◌, List, [], ◌∷◌, ltb, ◌==◌, if◌then◌else◌, bit_or, u32, u64,
}
use atc22_ae.Outcome.{Outcome, done, aborted, out_of_fuel, Status, success, failure}
use atc22_ae.Paging.{Mmu, pgsize, pte_p, pte_w, mprotect}
use atc22_ae.Signal.{TrapFrame, Handled, returned, ended, unfinished, Handler}

-- A call of `printf_ocall`: the format and its arguments, in the order of the calls.
abbrev pub Line : Type 0
Line = String × List ℕ

-- The globals of Enclave.cpp, the page tables, the page-fault address register, the bytes that the
-- loops store, what has been printed, and the interrupts handed on by `vmmcall`.
pub record Enclave : Type 0 where
  pub mmu : Mmu
  pub cr2 : ℕ
  pub intr_count : ℕ
  pub pf_count : ℕ
  pub ud_count : ℕ
  pub byte_at : ℕ → ℕ
  pub output : List Line
  pub forwarded : List (ℕ × ℕ)

-- The enclave when it has been created, with its page tables.
abbrev pub loaded : Mmu → Enclave
loaded mmu = record {
  mmu = mmu;
  cr2 = 0;
  intr_count = 0;
  pf_count = 0;
  ud_count = 0;
  byte_at = λ _. 0;
  output = [];
  forwarded = [];
}

-- `mov %cr2`.
abbrev pub read_cr2 : Enclave → ℕ
read_cr2 s = s.cr2

unfoldable pub printf_ocall : String → List ℕ → Enclave → Enclave
printf_ocall fmt args s = record s { output = (fmt, args) ∷ s.output }

-- `++` on an `int`, by its 32-bit pattern; C leaves the step past 2^31 - 1 undefined, and here it
-- wraps.
abbrev pub increment : ℕ → ℕ
increment n = u32 (n + 1)

-- The pattern of the `int` -1.
abbrev pub minus_one : ℕ
minus_one = 0xffffffff

unfoldable pub dump_trapframe : TrapFrame → Enclave → Enclave
unfolding printf_ocall
dump_trapframe tf s =
    let s₁ =
      printf_ocall "RAX=%016lx RBX=%016lx RCX=%016lx RDX=%016lx\n"
        (tf.rax ∷ tf.rbx ∷ tf.rcx ∷ tf.rdx ∷ []) s in
    let s₂ =
      printf_ocall "RSI=%016lx RDI=%016lx RBP=%016lx RSP=%016lx\n"
        (tf.rsi ∷ tf.rdi ∷ tf.rbp ∷ tf.rsp ∷ []) s₁ in
    let s₃ =
      printf_ocall "R8 =%016lx R9 =%016lx R10=%016lx R11=%016lx\n"
        (tf.r8 ∷ tf.r9 ∷ tf.r10 ∷ tf.r11 ∷ []) s₂ in
    let s₄ =
      printf_ocall "R12=%016lx R13=%016lx R14=%016lx R15=%016lx\n"
        (tf.r12 ∷ tf.r13 ∷ tf.r14 ∷ tf.r15 ∷ []) s₃ in
    let s₅ =
      printf_ocall "RIP=%016lx RFL=%016lx CS=%04lx SS=%04lx\n"
        (tf.rip ∷ tf.rflags ∷ tf.cs ∷ tf.ss ∷ []) s₄ in
    printf_ocall "vector=%08lx err=%08lx\n\n" (tf.vector ∷ tf.err_code ∷ []) s₅

-- What follows the call of `mprotect` in the case `0xE`.
unfoldable pub after_mprotect : TrapFrame → Enclave → Outcome (Status × Mmu) → Handled Enclave
after_mprotect tf s (done (success, m)) = returned tf (record s { mmu = m })
after_mprotect tf s (done (failure, m)) =
    ended (
      dump_trapframe tf
        (printf_ocall "ERROR: page fault mprotect returns: %d\n" (minus_one ∷ []) s))
after_mprotect tf s aborted = ended s
after_mprotect tf s out_of_fuel = unfinished

-- The case `0xE`.
unfoldable pub page_fault : TrapFrame → Enclave → Handled Enclave
unfolding after_mprotect
page_fault tf s =
    let s₁ = record s { pf_count = increment s.pf_count } in
    after_mprotect tf s₁ (mprotect s₁.mmu (read_cr2 s₁) pgsize (bit_or pte_p pte_w))

-- `vec` is an `int`: the low half of the vector. Patterns from 2^31 are negative, so they are not
-- at least 32.
unfoldable pub exception_handler : Handler Enclave
exception_handler tf s =
    let vec : ℕ = u32 tf.vector in
    if vec == 0x6
    then returned (record tf { rip = u64 (tf.rip + 2) })
        (record s { ud_count = increment s.ud_count })
    else if vec == 0xE
    then page_fault tf s
    else if ltb 31 vec && ltb vec (2 ^ 31)
    then returned tf (record s {
      intr_count = increment s.intr_count;
      forwarded = (vec, tf.err_code) ∷ s.forwarded;
    })
    else ended (
        dump_trapframe tf
          (printf_ocall "ERROR: unexcept exception: %lld %llx\n" (vec ∷ tf.err_code ∷ []) s))
