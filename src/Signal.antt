-- ===== src/Signal.antt =====
-- Trap frames, the interrupt descriptor table and the registered handler of the P-Enclave,
-- server/exception/exception_p_enclave/Enclave/signal.h. The addresses of `idt` and of the 256
-- entry stubs are the linker's, so they are arguments here.
pub mod Gates
use atc22_ae.Base.{
  ℕ, zero, suc, ◌+◌, ◌-◌, ◌*◌, ◌/◌, ◌%◌, ◌^◌, bit_and, Option, none, some, if◌then◌else◌, ◌==◌, u16,
  u32, u64, ◌>>>◌, ◌<<<◌,
}

-- What the stubs leave on the stack, lowest address first.
pub record TrapFrame : Type 0 where
  pub rax : ℕ
  pub rcx : ℕ
  pub rdx : ℕ
  pub rbx : ℕ
  pub rbp : ℕ
  pub rsi : ℕ
  pub rdi : ℕ
  pub r8 : ℕ
  pub r9 : ℕ
  pub r10 : ℕ
  pub r11 : ℕ
  pub r12 : ℕ
  pub r13 : ℕ
  pub r14 : ℕ
  pub r15 : ℕ
  pub vector : ℕ
  pub err_code : ℕ
  pub rip : ℕ
  pub cs : ℕ
  pub rflags : ℕ
  pub rsp : ℕ
  pub ss : ℕ

-- The bit fields of a gate, with the widths that the struct declares.
pub record GateDesc : Type 0 where
  pub off_15_0 : ℕ
  pub cs : ℕ
  pub ist : ℕ
  pub rsv0 : ℕ
  pub type : ℕ
  pub s : ℕ
  pub dpl : ℕ
  pub p : ℕ
  pub off_31_16 : ℕ
  pub off_63_32 : ℕ
  pub rsv1 : ℕ

-- `1 << 3`
abbrev pub cs_sel : ℕ
cs_sel = 1 <<< 3

-- `SETGATE(gate, sel, off)`; `off` is the 64-bit pattern of a `long long`. Of an arithmetic shift
-- only bits that a logical one gives too are kept.
unfoldable pub set_gate : ℕ → ℕ → GateDesc
set_gate sel off = record {
  off_15_0 = u16 (bit_and (u32 off) 0xffff);
  cs = u16 sel;
  ist = 0;
  rsv0 = 0;
  type = 0b1110;
  s = 0;
  dpl = 0;
  p = 1;
  off_31_16 = u16 (off >>> 16);
  off_63_32 = u32 (off >>> 32);
  rsv1 = 0;
}

-- The five words `pd[0]` to `pd[4]` that `lidt` loads.
pub record Pd : Type 0 where
  pub w0 : ℕ
  pub w1 : ℕ
  pub w2 : ℕ
  pub w3 : ℕ
  pub w4 : ℕ

unfoldable pub lidt : (p size : ℕ) → Pd
lidt p size = record {
  w0 = u16 (u64 (size + 2 ^ 64 - 1));
  w1 = u16 p;
  w2 = u16 (p >>> 16);
  w3 = u16 (p >>> 32);
  w4 = u16 (p >>> 48);
}

-- The globals of the header: the table, what `lidt` loaded last, and `g_handler` (NULL is `none`).
pub record Signals {ℓ} (H : Type ℓ) : Type ℓ where
  pub idt : ℕ → GateDesc
  pub idtr : Option Pd
  pub g_handler : Option H

-- `sizeof(idt)`: 256 gates of 16 bytes.
abbrev pub sizeof_idt : ℕ
sizeof_idt = 256 * 16

unfoldable pub set_idt : (ℕ → GateDesc) → ℕ → GateDesc → ℕ → GateDesc
set_idt idt i g j = if i == j then g else idt j

-- `for (int i = 0; i < 256; i++)`, by the rounds left.
unfoldable pub fill_idt : (left i : ℕ) (entries : ℕ → ℕ) → (ℕ → GateDesc) → ℕ → GateDesc
fill_idt zero i entries idt = idt
fill_idt (suc left) i entries idt =
    fill_idt left (suc i) entries (set_idt idt i (set_gate cs_sel (entries i)))

module _ {ℓ} {H : Type ℓ} where
  unfoldable pub init_exception : (idt_addr : ℕ) (exception_entries : ℕ → ℕ) → Signals H → Signals H
  init_exception idt_addr exception_entries g = record g {
    idt = fill_idt 256 0 exception_entries g.idt;
    idtr = some (lidt idt_addr sizeof_idt);
  }

  unfoldable pub register_handler : H → Signals H → Signals H
  register_handler h g = record g { g_handler = some h }

-- How a call of a handler ends: it returns, with the frame as it left it; the program ends by
-- `abort()`, in the state that it had; or a loop of the model runs out of fuel.
pub data Handled (S : Type 0) : Type 0 where
  returned : TrapFrame → S → Handled S
  ended : S → Handled S
  unfinished : Handled S

abbrev pub Handler : Type 0 → Type 0
Handler S = TrapFrame → S → Handled S

unfoldable pub common_exception_handler :
    {S : Type 0} → Signals (Handler S) → TrapFrame → S → Handled S
common_exception_handler g tf s = elim g.g_handler [ none ↦ returned tf s | some h ↦ h tf s ]
