-- ===== src/PEnclave/Stack.antt =====
-- Where on the interrupted stack the entry code of exception.S puts the frame, since the gates of
-- signal.h keep the current stack: server/exception/exception_p_enclave/Enclave.
use atc22_ae.Base.{
  ℕ, ◌+◌, ◌-◌, ◌%◌, ◌^◌, ◌≤◌, ◌<◌, ◌≡◌, ◌≢◌, ◌∙◌, ap, arith, Bool, [], if◌then◌else◌,
}
use atc22_ae.Signal.{TrapFrame, Handled}
use atc22_ae.Entry.{enter}
use atc22_ae.Machine.{Regs, Machine, Resumed}
use atc22_ae.Entry.Frame.{enter-exit_of, frame_ptr-sub}
use atc22_ae.Entry.Context.{machine, pushed_words, exit_of}
use atc22_ae.PEnclave.Ecall.{interrupted}
use atc22_ae.PEnclave.Deliver.{trap, interrupted-machine, has_error_code-one_word}

-- Let `rsp` be from 192 to below 2^64, and the vector not 21, 29 or 30. Whatever the handler is, it
-- is called with the frame for the interrupted context at the address 176 below `rsp` aligned down
-- to 16, and the run ends as it leaves this frame. This address is a multiple of 16, and the 176
-- bytes of the frame cover all but at most 15 of the 128 bytes below `rsp`, the red zone in which a
-- function of the System V ABI keeps its own values.
pub enter-interrupted :
    {S : Type 0} (handler : ℕ → TrapFrame → S → Handled S) (clobber : Regs → Regs) (v err : ℕ)
    (c : Resumed) (s : S)
    → v ≢ 21
    → v ≢ 29
    → v ≢ 30
    → 192 ≤ c.rsp
    → c.rsp < 2 ^ 64
    → let ptr : ℕ = c.rsp - c.rsp % 16 - 176 in
      (enter handler clobber v (interrupted v err c) s ≡ exit_of (handler ptr (trap v err c) s))
      × (ptr % 16 ≡ 0)
      × (ptr ≤ c.rsp - 128)
      × (c.rsp < ptr + 176 + 16)
enter-interrupted handler clobber v err c s a b d enough bound =
    let top : ℕ = c.rsp - c.rsp % 16 in
    let (above, whole, low, high) = frame_ptr-sub v c.rsp enough bound in
    (
      ap (λ (m : Machine). enter handler clobber v m s) (interrupted-machine v err c)
          ∙ ap
              (λ (coded : Bool).
                enter handler clobber v
                  (machine c.regs (top - (if coded then 48 else 40))
                    (pushed_words coded err c.rip c.cs c.rflags c.rsp c.ss []))
                  s)
              (has_error_code-one_word v a b d)
          ∙ enter-exit_of handler clobber c.regs _ err c.rip c.cs c.rflags c.rsp c.ss [] s v
          ∙ ap (λ (ptr : ℕ). exit_of (handler ptr (trap v err c) s)) (omega (arith, above)),
      omega (arith, above, whole),
      omega arith,
      omega arith,
    )
