-- ===== src/PEnclave/Deliver.antt =====
-- Exceptions and interrupts of the P-Enclave from the interrupted instruction to the resumed one:
-- the stubs of exception.S, `common_exception_handler` of signal.h and `exception_handler` of
-- Enclave.cpp, all under server/exception/exception_p_enclave/Enclave.
use atc22_ae.Base.{
  ℕ, ◌+◌, ◌-◌, ◌%◌, ◌^◌, ◌≤◌, ◌<◌, ◌≡◌, ◌≢◌, refl, ◌∙◌, ap, inl, inr, arith, true, false, ◌&&◌,
  ◌||◌, Bool, Bool-cases, some, List, [], ◌∷◌, ◌++◌, ◌⊎◌, ==_of_ne, if◌then◌else◌, ◌==◌, ltb, u32,
  u64,
}
use atc22_ae.Signal.{TrapFrame, ended, common_exception_handler}
use atc22_ae.Entry.{one_word, enter}
use atc22_ae.Machine.{Regs, Resumed, Machine, Exit, resumes, aborts}
use atc22_ae.Entry.Frame.{enter-exit_of, enter-shifted}
use atc22_ae.Entry.Context.{frame_of, machine, pushed_words, exit_of}
use atc22_ae.PEnclave.{
  Enclave, Line, printf_ocall, increment, dump_trapframe, page_fault, exception_handler,
}
use atc22_ae.PEnclave.Ecall.{Env, Globals, has_error_code, interrupted, deliver}

-- The frame for an exception in the context `c`.
abbrev pub trap : (v err : ℕ) → Resumed → TrapFrame
trap v err c = frame_of c.regs v (if one_word v then err else 0) c.rip c.cs c.rflags c.rsp c.ss

pub interrupted-machine :
    (v err : ℕ) (c : Resumed)
    → interrupted v err c
      ≡ machine c.regs
          (c.rsp - c.rsp % 16 - (if has_error_code v then 48 else 40))
          (pushed_words (has_error_code v) err c.rip c.cs c.rflags c.rsp c.ss [])
interrupted-machine v err c = elim (Bool-cases (has_error_code v)) [
  | inl short ↦ rw short refl
  | inr long ↦ rw long refl
]

or-false : (b : Bool) → (b || false || false || false) ≡ b
or-false true = refl
or-false false = refl

-- The stubs push one word for the vectors that have an error code, but for 21, 29 and 30.
pub has_error_code-one_word : (v : ℕ) → v ≢ 21 → v ≢ 29 → v ≢ 30 → has_error_code v ≡ one_word v
unfolding has_error_code one_word
has_error_code-one_word v a b c =
    rw (==_of_ne v 21 a, ==_of_ne v 29 b, ==_of_ne v 30 c) (or-false _)

-- What `dump_trapframe` is to print of a frame with the registers `g`, the last line first.
abbrev pub frame_lines : Regs → (v err ip cs fl sp ss : ℕ) → List Line
frame_lines g v err ip cs fl sp ss =
    ("vector=%08lx err=%08lx\n\n", v ∷ err ∷ [])
    ∷ ("RIP=%016lx RFL=%016lx CS=%04lx SS=%04lx\n", ip ∷ fl ∷ cs ∷ ss ∷ [])
    ∷ ("R12=%016lx R13=%016lx R14=%016lx R15=%016lx\n", g.r12 ∷ g.r13 ∷ g.r14 ∷ g.r15 ∷ [])
    ∷ ("R8 =%016lx R9 =%016lx R10=%016lx R11=%016lx\n", g.r8 ∷ g.r9 ∷ g.r10 ∷ g.r11 ∷ [])
    ∷ ("RSI=%016lx RDI=%016lx RBP=%016lx RSP=%016lx\n", g.rsi ∷ g.rdi ∷ g.rbp ∷ sp ∷ [])
    ∷ ("RAX=%016lx RBX=%016lx RCX=%016lx RDX=%016lx\n", g.rax ∷ g.rbx ∷ g.rcx ∷ g.rdx ∷ [])
    ∷ []

-- The state in which the handler ends for a vector it does not expect.
abbrev pub reported : Regs → (v err ip cs fl sp ss : ℕ) → Enclave → Enclave
reported g v err ip cs fl sp ss s = record s {
  output =
      frame_lines g v err ip cs fl sp ss
      ++ ("ERROR: unexcept exception: %lld %llx\n", v ∷ err ∷ []) ∷ s.output;
}

exception_handler-reported :
    (g : Regs) (v err ip cs fl sp ss : ℕ) (s : Enclave)
    → v < 32
    → v ≢ 6
    → v ≢ 14
    → exception_handler (frame_of g v err ip cs fl sp ss) s
      ≡ ended (reported g v err ip cs fl sp ss s)
unfolding exception_handler dump_trapframe printf_ocall
exception_handler-reported g v err ip cs fl sp ss s h a b =
    let low : u32 v ≡ v = omega arith in
    let not_ud : (v == 0x6) ≡ false = ground arith in
    let not_pf : (v == 0xE) ≡ false = ground arith in
    let exception : (ltb 31 v && ltb v (2 ^ 31)) ≡ false = ground arith in
    rw (low, not_ud, not_pf, exception) refl

module _ (env : Env) (glob : Globals) (registered : glob.g_handler ≡ some exception_handler)
    (err : ℕ) (c : Resumed) (s : Enclave) where
  -- The entry of a vector for which the processor pushes an error code or none.
  abbrev entered : (v : ℕ) (coded : Bool) → Exit Enclave
  entered v coded =
      enter (λ _ tf s'. common_exception_handler glob tf s') env.clobber v
        (machine c.regs (c.rsp - c.rsp % 16 - (if coded then 48 else 40))
          (pushed_words coded err c.rip c.cs c.rflags c.rsp c.ss []))
        s

  -- The handler gets the frame for the context, and its result is what happens.
  pub deliver-exit_of :
      (v : ℕ)
      → has_error_code v ≡ one_word v
      → deliver env glob v err c s ≡ exit_of (exception_handler (trap v err c) s)
  unfolding deliver common_exception_handler
  deliver-exit_of v agree =
      ap (λ (m : Machine). enter (λ _ tf s'. common_exception_handler glob tf s') env.clobber v m s)
        (interrupted-machine v err c)
      ∙ ap (entered v) agree
      ∙ enter-exit_of (λ _ tf s'. common_exception_handler glob tf s') env.clobber c.regs _ err
          c.rip c.cs c.rflags c.rsp c.ss [] s v
      ∙ rw registered refl

  -- Where the stub pushes a second word above the processor's error code, the handler gets the frame
  -- shifted by one word.
  deliver-shifted :
      (v : ℕ)
      → has_error_code v ≡ true
      → one_word v ≡ false
      → deliver env glob v err c s
        ≡ exit_of (exception_handler (frame_of c.regs v 0 err c.rip c.cs c.rflags c.rsp) s)
  unfolding deliver common_exception_handler
  deliver-shifted v coded long =
      ap (λ (m : Machine). enter (λ _ tf s'. common_exception_handler glob tf s') env.clobber v m s)
        (interrupted-machine v err c)
      ∙ ap (entered v) coded
      ∙ enter-shifted (λ _ tf s'. common_exception_handler glob tf s') env.clobber c.regs _ err
          c.rip c.cs c.rflags c.rsp c.ss [] s v long
      ∙ rw registered refl

  -- With `exception_handler` registered, an invalid opcode is counted, and execution goes on two
  -- bytes further with all else as it was.
  pub deliver_ud :
      deliver env glob 6 err c s
      ≡ resumes (record c { rip = u64 (c.rip + 2) }) (record s { ud_count = increment s.ud_count })
  unfolding exception_handler has_error_code one_word
  deliver_ud = deliver-exit_of 6 refl

  -- A page fault comes to what `mprotect` makes of the faulting address.
  pub deliver-page_fault : deliver env glob 14 err c s ≡ exit_of (page_fault (trap 14 err c) s)
  unfolding exception_handler has_error_code one_word
  deliver-page_fault = deliver-exit_of 14 refl

  -- With `exception_handler` registered, an interrupt with a vector from 32 to 255 is counted and
  -- handed on with its number and the error code 0, and the interrupted code goes on exactly where
  -- it was.
  pub deliver_interrupt :
      (v : ℕ)
      → 32 ≤ v
      → v < 256
      → deliver env glob v err c s
        ≡ resumes c
            (record s { intr_count = increment s.intr_count; forwarded = (v, 0) ∷ s.forwarded })
  unfolding exception_handler
  deliver_interrupt v h b =
      let low : u32 v ≡ v = omega arith in
      let not_ud : (v == 0x6) ≡ false = ground arith in
      let not_pf : (v == 0xE) ≡ false = ground arith in
      let hardware : (ltb 31 v && ltb v (2 ^ 31)) ≡ true = ground arith in
      let plain : one_word v ≡ false = unfold one_word in ground arith in
      let agree : has_error_code v ≡ one_word v =
        has_error_code-one_word v (λ e. omega (arith, e)) (λ e. omega (arith, e))
          (λ e. omega (arith, e)) in
      deliver-exit_of v agree ∙ rw (plain, low, not_ud, not_pf, hardware) refl

  -- With `exception_handler` registered, an exception with a vector below 32 other than 6, 14, 21,
  -- 29 and 30 ends the program. It prints the vector with its error code, 0 where it has none, and
  -- then six lines with the interrupted registers, flags, segments, `rip` and `rsp`, the vector and
  -- the error code; nothing else changes.
  pub deliver_unexpected :
      (v : ℕ)
      → v < 32
      → v ≢ 6
      → v ≢ 14
      → v ≢ 21
      → v ≢ 29
      → v ≢ 30
      → let code : ℕ = if has_error_code v then err else 0 in
        deliver env glob v err c s
        ≡ aborts (reported c.regs v code c.rip c.cs c.rflags c.rsp c.ss s)
  deliver_unexpected v h a b d e f =
      let agree : has_error_code v ≡ one_word v = has_error_code-one_word v d e f in
      deliver-exit_of v agree
      ∙ rw agree (
          ap exit_of (
            exception_handler-reported c.regs v (if one_word v then err else 0) c.rip c.cs c.rflags
              c.rsp c.ss s h a b))

  -- With `exception_handler` registered, a control protection (21), VMM communication (29) or
  -- security (30) exception ends the program with wrong values printed: the processor pushes an
  -- error code for these vectors and the stub a zero above it, so that 0 is printed as the error
  -- code, the error code as `rip`, `rip` as `cs`, `cs` as the flags, the flags as `rsp` and `rsp` as
  -- `ss`.
  pub deliver_unaligned :
      (v : ℕ)
      → (v ≡ 21) ⊎ (v ≡ 29) ⊎ (v ≡ 30)
      → deliver env glob v err c s ≡ aborts (reported c.regs v 0 err c.rip c.cs c.rflags c.rsp s)
  unfolding has_error_code one_word
  deliver_unaligned v which =
      let coded : has_error_code v ≡ true = ground arith in
      let long : one_word v ≡ false = ground arith in
      deliver-shifted v coded long
      ∙ ap exit_of (
          exception_handler-reported c.regs v 0 err c.rip c.cs c.rflags c.rsp s (omega arith)
            (λ e. omega (arith, e)) (λ e. omega (arith, e)))
