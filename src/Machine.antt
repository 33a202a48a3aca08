-- ===== src/Machine.antt =====
-- The machine on which the entry code of server/exception/exception_p_enclave/Enclave/exception.S
-- runs: its registers, its stack, and the instructions that the code uses. The stack is the list of
-- its words from `rsp` upwards.
use atc22_ae.Base.{ℕ, ◌+◌, ◌-◌, ◌^◌, Option, none, some, List, [], ◌∷◌, if◌then◌else◌, ◌==◌, u64}
use atc22_ae.Signal.{TrapFrame}

pub data Reg : Type 0 where
  rax rcx rdx rbx rbp rsi rdi r8 r9 r10 r11 r12 r13 r14 r15 : Reg

pub data Label : Type 0 where
  common_exception_entry : Label
  stub : ℕ → Label

pub data Instr : Type 0 where
  pushq : Reg → Instr
  popq : Reg → Instr
  pushq_imm : ℕ → Instr
  mov_rsp_rdi : Instr
  call_common_exception_handler : Instr
  add_rsp : ℕ → Instr
  jmp : Label → Instr
  iretq : Instr

pub record Regs : Type 0 where
  pub rax : ℕ
  pub rcx : ℕ
  pub rdx : ℕ
  pub rbx : ℕ
  pub rbp : ℕ
  pub rsi : ℕ
  pub rdi : ℕ
  pub r8 : ℕ
  pub r9 : ℕ
  pub r10 : ℕ
  pub r11 : ℕ
  pub r12 : ℕ
  pub r13 : ℕ
  pub r14 : ℕ
  pub r15 : ℕ

unfoldable pub get : Reg → Regs → ℕ
get Reg.rax g = g.rax
get Reg.rcx g = g.rcx
get Reg.rdx g = g.rdx
get Reg.rbx g = g.rbx
get Reg.rbp g = g.rbp
get Reg.rsi g = g.rsi
get Reg.rdi g = g.rdi
get Reg.r8 g = g.r8
get Reg.r9 g = g.r9
get Reg.r10 g = g.r10
get Reg.r11 g = g.r11
get Reg.r12 g = g.r12
get Reg.r13 g = g.r13
get Reg.r14 g = g.r14
get Reg.r15 g = g.r15

unfoldable pub put : Reg → ℕ → Regs → Regs
put Reg.rax x g = record g { rax = x }
put Reg.rcx x g = record g { rcx = x }
put Reg.rdx x g = record g { rdx = x }
put Reg.rbx x g = record g { rbx = x }
put Reg.rbp x g = record g { rbp = x }
put Reg.rsi x g = record g { rsi = x }
put Reg.rdi x g = record g { rdi = x }
put Reg.r8 x g = record g { r8 = x }
put Reg.r9 x g = record g { r9 = x }
put Reg.r10 x g = record g { r10 = x }
put Reg.r11 x g = record g { r11 = x }
put Reg.r12 x g = record g { r12 = x }
put Reg.r13 x g = record g { r13 = x }
put Reg.r14 x g = record g { r14 = x }
put Reg.r15 x g = record g { r15 = x }

pub record Machine : Type 0 where
  pub regs : Regs
  pub rsp : ℕ
  pub stack : List ℕ

-- Where `iretq` resumes.
pub record Resumed : Type 0 where
  pub regs : Regs
  pub rip : ℕ
  pub cs : ℕ
  pub rflags : ℕ
  pub rsp : ℕ
  pub ss : ℕ

-- How a run of the entry code ends: at the interrupted code, by `abort()` in the handler, or by a
-- fault (a word that is not on the stack, a frame pointer that does not point to the frame).
pub data Exit (S : Type 0) : Type 0 where
  resumes : Resumed → S → Exit S
  aborts : S → Exit S
  faults : Exit S
  spent : Exit S

-- `rsp` after a push of eight bytes.
abbrev pub below : ℕ → ℕ
below sp = u64 (sp + 2 ^ 64 - 8)

unfoldable pub push_word : ℕ → Machine → Machine
push_word x m = record m { rsp = below m.rsp; stack = x ∷ m.stack }

-- The words of a `trapframe_t` at the top of the stack, and what lies above them.
unfoldable pub frame_at : List ℕ → Option (TrapFrame × List ℕ)
frame_at
      (a ∷ c ∷ d ∷ b ∷ bp ∷ si ∷ di ∷ e8 ∷ e9 ∷ e10 ∷ e11 ∷ e12 ∷ e13 ∷ e14 ∷ e15 ∷ vec ∷ err ∷ ip
        ∷ sel ∷ fl ∷ sp ∷ seg ∷ rest) =
    some (
      record {
        rax = a;
        rcx = c;
        rdx = d;
        rbx = b;
        rbp = bp;
        rsi = si;
        rdi = di;
        r8 = e8;
        r9 = e9;
        r10 = e10;
        r11 = e11;
        r12 = e12;
        r13 = e13;
        r14 = e14;
        r15 = e15;
        vector = vec;
        err_code = err;
        rip = ip;
        cs = sel;
        rflags = fl;
        rsp = sp;
        ss = seg;
      },
      rest,
    )
frame_at _ = none

unfoldable pub words : TrapFrame → List ℕ → List ℕ
words t rest =
    t.rax ∷ t.rcx ∷ t.rdx ∷ t.rbx ∷ t.rbp ∷ t.rsi ∷ t.rdi ∷ t.r8 ∷ t.r9 ∷ t.r10 ∷ t.r11 ∷ t.r12
    ∷ t.r13 ∷ t.r14 ∷ t.r15 ∷ t.vector ∷ t.err_code ∷ t.rip ∷ t.cs ∷ t.rflags ∷ t.rsp ∷ t.ss ∷ rest

unfoldable pub iret_frame : Regs → List ℕ → Option Resumed
iret_frame g (ip ∷ sel ∷ fl ∷ sp ∷ seg ∷ _) =
    some (record { regs = g; rip = ip; cs = sel; rflags = fl; rsp = sp; ss = seg })
iret_frame g _ = none

unfoldable pub drop_bytes : ℕ → List ℕ → List ℕ
drop_bytes k [] = []
drop_bytes k (x ∷ st) = let rest = drop_bytes (k - 8) st in if k == 0 then x ∷ st else rest
