-- ===== src/Examples/Exceptions.antt =====
-- The theorems on exceptions at a concrete context, enclave and processor.
use atc22_ae.Base.{
  ℕ, ◌+◌, ◌*◌, ◌%◌, ◌≤◌, ◌<◌, ◌≡◌, ◌↔◌, ◌∙◌, refl, ap, arith, Bool, true, none, some, [], ◌∷◌, ◌==◌,
}
use atc22_ae.Sgx.{sgx_success}
use atc22_ae.Paging.{Mmu}
use atc22_ae.Paging.Walk.{Walked, leaf, hw_walk, phys_of}
use atc22_ae.Paging.Protect.Range.{page}
use atc22_ae.Signal.{Signals, TrapFrame, Pd, Handled, set_gate, init_exception, register_handler}
use atc22_ae.Signal.Gates.{IsGateTo, idtr_base, idtr_limit, init_exception-IsGateTo}
use atc22_ae.Machine.{Regs, Resumed, resumes, aborts}
use atc22_ae.PEnclave.{
  Enclave, printf_ocall, increment, minus_one, dump_trapframe, exception_handler,
}
use atc22_ae.PEnclave.Ecall.{Env, Globals, value, deliver, pages, ecall_exception}
use atc22_ae.PEnclave.Deliver.{trap, deliver_interrupt}
use atc22_ae.PEnclave.Fault.{fault_exit, fault_unaligned, fault-walk}
use atc22_ae.PEnclave.Buffer.{Holds, Holds-leaf, bits_of}
use mathlib.Core.Path.{subst}
use atc22_ae.PEnclave.Writes.{Obeys}
use atc22_ae.PEnclave.Measure.{Counted}
use atc22_ae.PEnclave.Counts.{start_lines, ecall_exception-Counted}
use atc22_ae.Examples.Readings.{t, tsc, tsc-IsCounter}
use atc22_ae.Examples.Tables.{start, root, entry_at, mmu, mmu-IsMapped, mmu-IsLow, mmu-writable}

abbrev pub regs : Regs
regs = record {
  rax = 1;
  rcx = 2;
  rdx = 3;
  rbx = 4;
  rbp = 5;
  rsi = 6;
  rdi = 7;
  r8 = 8;
  r9 = 9;
  r10 = 10;
  r11 = 11;
  r12 = 12;
  r13 = 13;
  r14 = 14;
  r15 = 15;
}

abbrev pub context : Resumed
context = record { regs = regs; rip = 0x401000; cs = 8; rflags = 0x202; rsp = 0x7ffff8; ss = 0 }

-- The processor lets a store pass where the entry that the walk ends at is writable.
abbrev pub faults_at : (ℕ → ℕ) → Walked → Bool
faults_at ph (leaf a) = ph a % 4 == 1
faults_at ph _ = true

abbrev pub env : Env
env = record {
  idt_addr = 0x700000;
  entry_addr = λ v. 0x600000 + 64 * v;
  test_buf = start;
  cr3 = root;
  clobber = λ g. record g { rax = 0; rcx = 0; rdx = 0; rdi = 0; rsi = 0 };
  store_context = context;
  ud2_context = record context { rip = 0x402000 };
  store_faults = λ r m v. faults_at (phys_of m) (hw_walk (phys_of m) 3 r v);
  tsc = tsc;
}

abbrev pub blank : Signals (TrapFrame → Enclave → Handled Enclave)
blank = record { idt = λ _. set_gate 0 0; idtr = none; g_handler = none }

abbrev pub glob : Globals
glob = record blank { g_handler = some exception_handler }

abbrev pub enclave : Enclave
enclave = record {
  mmu = mmu;
  cr2 = page start 2;
  intr_count = 4;
  pf_count = 0;
  ud_count = 0;
  byte_at = λ _. 7;
  output = [];
  forwarded = [];
}

env-walks :
    (n : ℕ)
    → n ≤ 32768
    → (m : Mmu) (w : ℕ → Bool) (i : ℕ) → Holds (phys_of mmu) root start n entry_at w m
    → i < n
    → hw_walk (phys_of m) 3 root (page start i) ≡ leaf (entry_at i)
env-walks n few m w i h b =
    subst (λ r. hw_walk (phys_of m) 3 r (page start i) ≡ leaf (entry_at i)) h.root
      (Holds-leaf (phys_of mmu) root start n entry_at (mmu-IsMapped n few) i h b)

pub env-Obeys : (n : ℕ) → n ≤ 32768 → Obeys env (phys_of mmu) root start n entry_at
env-Obeys n few = record {
  writable = λ w m i h b t.
      let at : hw_walk (phys_of m) 3 root (page start i) ≡ leaf (entry_at i) =
        env-walks n few m w i h b in
      let bits : phys_of m (entry_at i) % 4 ≡ 3 = h.bits i b ∙ ap bits_of t in rw (at, bits) refl;
  protected = λ w m i h b t.
      let at : hw_walk (phys_of m) 3 root (page start i) ≡ leaf (entry_at i) =
        env-walks n few m w i h b in
      let bits : phys_of m (entry_at i) % 4 ≡ 1 = h.bits i b ∙ ap bits_of t in rw (at, bits) refl;
}

ecall_exception-Counted_example :
    (s' : Enclave) × (ecall_exception 2 env 1000 blank enclave
      ≡ value (
        sgx_success,
        register_handler exception_handler (init_exception env.idt_addr env.entry_addr blank),
        s',
      ))
    × Counted t start 1000 (start_lines env enclave) enclave s'
ecall_exception-Counted_example =
    ecall_exception-Counted 0 env t 1000 blank enclave entry_at tsc-IsCounter
      (mmu-IsMapped pages (omega arith)) (env-Obeys pages (omega arith)) mmu-writable (omega arith)
      (omega arith)

deliver_interrupt_example :
    deliver env glob 0x20 0 context enclave
    ≡ resumes context (record enclave { intr_count = increment 4; forwarded = (0x20, 0) ∷ [] })
deliver_interrupt_example =
    deliver_interrupt env glob refl 0 context enclave 0x20 (omega arith) (omega arith)

fault_unaligned_example :
    deliver env glob 14 3 context (record enclave { cr2 = start + 8 })
    ≡ aborts (
        dump_trapframe (trap 14 3 context) (
          printf_ocall "ERROR: page fault mprotect returns: %d\n"
            (minus_one ∷ [])
            (record enclave { cr2 = start + 8; pf_count = increment 0 })))
fault_unaligned_example =
    fault_unaligned env glob refl 3 context (record enclave { cr2 = start + 8 })
      (λ e. omega (arith, e))

fault-walk_example :
    deliver env glob 14 3 context enclave
    ≡ fault_exit env glob refl 3 context enclave (hw_walk (phys_of mmu) 3 root (page start 2))
fault-walk_example =
    fault-walk env glob refl 3 context enclave refl (omega arith) refl (mmu-IsLow 2 (omega arith))

init_exception-IsGateTo_example :
    IsGateTo (0x600000 + 64 * 14) ((init_exception 0x700000 env.entry_addr blank).idt 14)
    × ((pd : Pd) × ((init_exception 0x700000 env.entry_addr blank).idtr ≡ some pd)
        × (idtr_base pd ≡ 0x700000)
        × ((w : ℕ) → (16 * w + 15 ≤ idtr_limit pd) ↔ (w < 256)))
init_exception-IsGateTo_example =
    init_exception-IsGateTo blank 0x700000 env.entry_addr 14 (omega arith) (omega arith)
      (omega arith)
