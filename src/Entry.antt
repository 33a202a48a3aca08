-- ===== src/Entry.antt =====
-- The interrupt entry code of the P-Enclave,
-- server/exception/exception_p_enclave/Enclave/exception.S: the 256 stubs, the common entry, and
-- their run on the machine of Machine.antt.
pub mod Context
pub mod Stages
pub mod Frame
use atc22_ae.Base.{
  ℕ, zero, suc, ◌+◌, ◌-◌, ◌^◌, Bool, ◌||◌, Option, none, some, List, [], ◌∷◌, if◌then◌else◌, ◌==◌,
  u64,
}
use atc22_ae.Signal.{TrapFrame, Handled, returned, ended, unfinished}
use atc22_ae.Machine.{
  Exit, Instr, Label, Machine, Reg, Regs, aborts, add_rsp, call_common_exception_handler,
  common_exception_entry, drop_bytes, faults, frame_at, get, iret_frame, iretq, jmp, mov_rsp_rdi,
  popq, push_word, pushq, pushq_imm, put, r10, r11, r12, r13, r14, r15, r8, r9, rax, rbp, rbx, rcx,
  rdi, rdx, resumes, rsi, spent, stub, words,
}

-- From the call's return on.
unfoldable pub restore_code : List Instr
restore_code =
    popq rax
    ∷ popq rcx
    ∷ popq rdx
    ∷ popq rbx
    ∷ popq rbp
    ∷ popq rsi
    ∷ popq rdi
    ∷ popq r8
    ∷ popq r9
    ∷ popq r10
    ∷ popq r11
    ∷ popq r12
    ∷ popq r13
    ∷ popq r14
    ∷ popq r15
    ∷ add_rsp 0x10
    ∷ iretq
    ∷ []

unfoldable pub common_code : List Instr
common_code =
    pushq r15
    ∷ pushq r14
    ∷ pushq r13
    ∷ pushq r12
    ∷ pushq r11
    ∷ pushq r10
    ∷ pushq r9
    ∷ pushq r8
    ∷ pushq rdi
    ∷ pushq rsi
    ∷ pushq rbp
    ∷ pushq rbx
    ∷ pushq rdx
    ∷ pushq rcx
    ∷ pushq rax
    ∷ mov_rsp_rdi
    ∷ call_common_exception_handler
    ∷ restore_code

-- The stubs that push one word: `__entry8`, `__entry10` to `__entry14` and `__entry17`.
unfoldable pub one_word : ℕ → Bool
one_word v = v == 8 || v == 10 || v == 11 || v == 12 || v == 13 || v == 14 || v == 17

unfoldable pub stub_code : ℕ → List Instr
stub_code v =
    if one_word v
    then pushq_imm v ∷ jmp common_exception_entry ∷ []
    else pushq_imm 0 ∷ pushq_imm v ∷ jmp common_exception_entry ∷ []

unfoldable pub code : Label → List Instr
code common_exception_entry = common_code
code (stub v) = stub_code v

-- The label in slot `v` of the table `exception_entries`.
unfoldable pub exception_entries : ℕ → Label
exception_entries v = stub v

-- `common_exception_handler` is called with the address of the frame and the frame. It may leave
-- anything in the registers but `rsp`: `clobber` says what.
module _ {S : Type 0} (handler : ℕ → TrapFrame → S → Handled S) (clobber : Regs → Regs) where
  unfoldable pub call_handler : Machine → S → (Machine → S → Exit S) → Exit S
  call_handler m s return = elim (frame_at m.stack) [
    | none ↦ faults
    | some (tf, rest) ↦ elim (handler m.regs.rdi tf s) [
      | returned tf' s' ↦ return (record m { regs = clobber m.regs; stack = words tf' rest }) s'
      | ended s' ↦ aborts s'
      | unfinished ↦ spent
    ]
  ]

  -- Fuel bounds the number of instructions.
  unfoldable pub exec : ℕ → List Instr → Machine → S → Exit S
  exec zero c m s = spent
  exec (suc n) [] m s = faults
  exec (suc n) (pushq r ∷ c) m s = exec n c (push_word (get r m.regs) m) s
  exec (suc n) (popq r ∷ c) m s = elim m.stack [
    | [] ↦ faults
    | x ∷ st ↦ exec n c (record { regs = put r x m.regs; rsp = u64 (m.rsp + 8); stack = st }) s
  ]
  exec (suc n) (pushq_imm x ∷ c) m s = exec n c (push_word x m) s
  exec (suc n) (mov_rsp_rdi ∷ c) m s = exec n c (record m { regs = put Reg.rdi m.rsp m.regs }) s
  exec (suc n) (call_common_exception_handler ∷ c) m s =
      let go = call_handler m s (λ m' s'. exec n c m' s') in
      if m.regs.rdi == m.rsp then go else faults
  exec (suc n) (add_rsp k ∷ c) m s =
      exec n c (record m { rsp = u64 (m.rsp + k); stack = drop_bytes k m.stack }) s
  exec (suc n) (jmp l ∷ c) m s = exec n (code l) m s
  exec (suc n) (iretq ∷ c) m s = elim (iret_frame m.regs m.stack) [
    | none ↦ faults
    | some r ↦ resumes r s
  ]

-- At most three instructions of a stub and the 34 of the common entry.
abbrev pub entry_fuel : ℕ
entry_fuel = 37

-- The entry for vector `v`, from the instruction that its gate points to.
unfoldable pub enter :
    {S : Type 0} (handler : ℕ → TrapFrame → S → Handled S) (clobber : Regs → Regs) (v : ℕ)
    → Machine
    → S
    → Exit S
enter handler clobber v m s = exec handler clobber entry_fuel (code (exception_entries v)) m s
