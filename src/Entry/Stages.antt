-- ===== src/Entry/Stages.antt =====
-- The entry code of server/exception/exception_p_enclave/Enclave/exception.S in stages.
use atc22_ae.Base.{ℕ, ◌≡◌, refl, ◌∙◌, List, [], ◌∷◌, ==_self}
use atc22_ae.Signal.{TrapFrame, Handled, returned, ended, unfinished}
use atc22_ae.Entry.{exec, common_code, restore_code, code, call_handler}
use atc22_ae.Machine.{
  Reg, Label, Instr, pushq, pushq_imm, mov_rsp_rdi, call_common_exception_handler, jmp, Regs,
  Machine, Exit, resumes, aborts, spent, push_word, words, get, put, drop_bytes, iret_frame,
  frame_at,
}
use atc22_ae.Entry.Context.{exit_of, frame_of, machine, more, pushes, resume}

-- The stages of the run, each before an arbitrary rest of the code.
module _ {S : Type 0} (handler : ℕ → TrapFrame → S → Handled S) (clobber : Regs → Regs) (n : ℕ)
    (c : List Instr) (s : S) where
  -- The fifteen pushes build the low part of the frame.
  save_stage :
      (g : Regs) (sp vec err ip sel fl sp' seg : ℕ) (rest : List ℕ)
      → exec handler clobber
          (more 15 n)
          (pushq Reg.r15
            ∷ pushq Reg.r14
            ∷ pushq Reg.r13
            ∷ pushq Reg.r12
            ∷ pushq Reg.r11
            ∷ pushq Reg.r10
            ∷ pushq Reg.r9
            ∷ pushq Reg.r8
            ∷ pushq Reg.rdi
            ∷ pushq Reg.rsi
            ∷ pushq Reg.rbp
            ∷ pushq Reg.rbx
            ∷ pushq Reg.rdx
            ∷ pushq Reg.rcx
            ∷ pushq Reg.rax
            ∷ c)
          (machine g sp (vec ∷ err ∷ ip ∷ sel ∷ fl ∷ sp' ∷ seg ∷ rest))
          s
        ≡ exec handler clobber n c
            (machine g (pushes 15 sp) (words (frame_of g vec err ip sel fl sp' seg) rest))
            s
  unfolding exec push_word words get pushes
  save_stage g sp vec err ip sel fl sp' seg rest = refl

  abbrev after_call : (clobbered : Regs) (sp : ℕ) (rest : List ℕ) → Handled S → Exit S
  after_call g sp rest (returned t s') = exec handler clobber n c (machine g sp (words t rest)) s'
  after_call g sp rest (ended s') = aborts s'
  after_call g sp rest unfinished = spent

  call_stage :
      (g : Regs) (sp : ℕ) (t : TrapFrame) (rest : List ℕ) (o : Handled S)
      → handler sp t s ≡ o
      → exec handler clobber
          (more 2 n)
          (mov_rsp_rdi ∷ call_common_exception_handler ∷ c)
          (machine g sp (words t rest))
          s
        ≡ after_call (clobber (record g { rdi = sp })) sp rest o
  unfolding exec call_handler frame_at words put
  call_stage g sp t rest (returned t' s') e = rw (==_self sp, e) refl
  call_stage g sp t rest (ended s') e = rw (==_self sp, e) refl
  call_stage g sp t rest unfinished e = rw (==_self sp, e) refl

  pub one_word_stage :
      (v : ℕ) (l : Label) (m : Machine)
      → exec handler clobber (more 2 n) (pushq_imm v ∷ jmp l ∷ c) m s
        ≡ exec handler clobber n (code l) (push_word v m) s
  unfolding exec
  one_word_stage v l m = refl

  pub two_word_stage :
      (z v : ℕ) (l : Label) (m : Machine)
      → exec handler clobber (more 3 n) (pushq_imm z ∷ pushq_imm v ∷ jmp l ∷ c) m s
        ≡ exec handler clobber n (code l) (push_word v (push_word z m)) s
  unfolding exec
  two_word_stage z v l m = refl

  -- The pops and `iretq` take everything from the frame.
  restore_stage :
      (g : Regs) (sp : ℕ) (t : TrapFrame) (rest : List ℕ)
      → exec handler clobber (more 17 n) restore_code (machine g sp (words t rest)) s
        ≡ resumes (resume t) s
  unfolding exec restore_code words put drop_bytes iret_frame
  restore_stage g sp t rest = refl

module _ {S : Type 0} (handler : ℕ → TrapFrame → S → Handled S) (clobber : Regs → Regs)
    (n : ℕ) where
  after_call_lem :
      (s : S) (g : Regs) (sp : ℕ) (rest : List ℕ) (o : Handled S)
      → after_call handler clobber (more 17 n) restore_code s g sp rest o ≡ exit_of o
  after_call_lem s g sp rest (returned t s') = restore_stage handler clobber n [] s' g sp t rest
  after_call_lem s g sp rest (ended s') = refl
  after_call_lem s g sp rest unfinished = refl

  pub common_lem :
      (g : Regs) (sp vec err ip sel fl sp' seg : ℕ) (rest : List ℕ) (s : S)
      → exec handler clobber
          (more 34 n)
          common_code
          (machine g sp (vec ∷ err ∷ ip ∷ sel ∷ fl ∷ sp' ∷ seg ∷ rest))
          s
        ≡ exit_of (handler (pushes 15 sp) (frame_of g vec err ip sel fl sp' seg) s)
  unfolding common_code
  common_lem g sp vec err ip sel fl sp' seg rest s =
      save_stage handler clobber (more 19 n)
        (mov_rsp_rdi ∷ call_common_exception_handler ∷ restore_code) s g sp vec err ip sel fl sp'
        seg rest
      ∙ call_stage handler clobber (more 17 n) restore_code s g (pushes 15 sp) _ rest _ refl
      ∙ after_call_lem s _ (pushes 15 sp) rest _
