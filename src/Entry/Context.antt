-- ===== src/Entry/Context.antt =====
-- The interrupted context as the words and the frame that the entry code of
-- server/exception/exception_p_enclave/Enclave/exception.S makes of it.
use atc22_ae.Base.{ℕ, zero, suc, Bool, true, false, List, ◌∷◌, if◌then◌else◌}
use atc22_ae.Signal.{TrapFrame, Handled, returned, ended, unfinished}
use atc22_ae.Entry.{one_word}
use atc22_ae.Machine.{Regs, Machine, Resumed, Exit, resumes, aborts, spent, below}

-- The words that the processor pushes: `rip` to `ss`, with the error code below them for those
-- vectors that have one.
abbrev pub pushed_words : Bool → (err ip sel fl sp seg : ℕ) → List ℕ → List ℕ
pushed_words true err ip sel fl sp seg rest = err ∷ ip ∷ sel ∷ fl ∷ sp ∷ seg ∷ rest
pushed_words false err ip sel fl sp seg rest = ip ∷ sel ∷ fl ∷ sp ∷ seg ∷ rest

-- The frame for an interrupt taken with the registers `g`.
abbrev pub frame_of : Regs → (vec err ip sel fl sp seg : ℕ) → TrapFrame
frame_of g vec err ip sel fl sp seg = record {
  rax = g.rax;
  rcx = g.rcx;
  rdx = g.rdx;
  rbx = g.rbx;
  rbp = g.rbp;
  rsi = g.rsi;
  rdi = g.rdi;
  r8 = g.r8;
  r9 = g.r9;
  r10 = g.r10;
  r11 = g.r11;
  r12 = g.r12;
  r13 = g.r13;
  r14 = g.r14;
  r15 = g.r15;
  vector = vec;
  err_code = err;
  rip = ip;
  cs = sel;
  rflags = fl;
  rsp = sp;
  ss = seg;
}

-- Everything that the interrupted code sees comes from the frame.
abbrev pub resume : TrapFrame → Resumed
resume t = record {
  regs = record {
    rax = t.rax;
    rcx = t.rcx;
    rdx = t.rdx;
    rbx = t.rbx;
    rbp = t.rbp;
    rsi = t.rsi;
    rdi = t.rdi;
    r8 = t.r8;
    r9 = t.r9;
    r10 = t.r10;
    r11 = t.r11;
    r12 = t.r12;
    r13 = t.r13;
    r14 = t.r14;
    r15 = t.r15;
  };
  rip = t.rip;
  cs = t.cs;
  rflags = t.rflags;
  rsp = t.rsp;
  ss = t.ss;
}

abbrev pub exit_of : {S : Type 0} → Handled S → Exit S
exit_of (returned t s) = resumes (resume t) s
exit_of (ended s) = aborts s
exit_of unfinished = spent

-- `rsp` after `n` pushes.
unfoldable pub pushes : ℕ → ℕ → ℕ
pushes zero sp = sp
pushes (suc n) sp = below (pushes n sp)

-- The address of the frame, from `rsp` at the first instruction of the stub.
unfoldable pub frame_ptr : (v sp : ℕ) → ℕ
frame_ptr v sp = pushes (if one_word v then 16 else 17) sp

-- `k` more than `n`, by successors, so that fuel computes at a variable.
abbrev pub more : ℕ → ℕ → ℕ
more zero n = n
more (suc k) n = suc (more k n)

abbrev pub machine : Regs → ℕ → List ℕ → Machine
machine g sp st = record { regs = g; rsp = sp; stack = st }
