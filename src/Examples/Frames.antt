-- ===== src/Examples/Frames.antt =====
-- The theorems on single exceptions and on the entry code at a concrete context and enclave.
use atc22_ae.Base.{ℕ, ◌+◌, ◌-◌, ◌%◌, ◌≤◌, ◌<◌, ◌≡◌, refl, inl, arith, [], if◌then◌else◌, ◌==◌, u64}
use atc22_ae.Signal.{TrapFrame, Handled, returned}
use atc22_ae.Entry.{one_word, enter}
use atc22_ae.Machine.{aborts}
use atc22_ae.Entry.Frame.{enter-exit_of}
use atc22_ae.Entry.Context.{frame_ptr, frame_of, pushed_words, machine, exit_of}
use atc22_ae.PEnclave.{increment}
use atc22_ae.PEnclave.Ecall.{deliver, has_error_code, interrupted}
use atc22_ae.PEnclave.Deliver.{trap, deliver_ud, reported, deliver_unexpected, deliver_unaligned}
use atc22_ae.PEnclave.Resumes.{deliver-context}
use atc22_ae.PEnclave.Stack.{enter-interrupted}
use atc22_ae.Examples.Exceptions.{regs, context, env, glob, enclave}

deliver-context_example :
    record context { rip = u64 (0x401000 + 2) }
    ≡ (if 6 == 6 then record context { rip = u64 (0x401000 + 2) } else context)
deliver-context_example =
    deliver-context env glob refl 0 context (record context { rip = u64 (0x401000 + 2) }) enclave
      (record enclave { ud_count = increment 0 }) 6 (omega arith)
      (deliver_ud env glob refl 0 context enclave)

-- A general protection fault with the error code 0x18.
deliver_unexpected_example :
    deliver env glob 13 0x18 context enclave
    ≡ aborts (
        reported regs 13
          (if has_error_code 13 then 0x18 else 0)
          0x401000
          8
          0x202
          0x7ffff8
          0
          enclave)
deliver_unexpected_example =
    deliver_unexpected env glob refl 0x18 context enclave 13 (omega arith) (λ e. omega (arith, e))
      (λ e. omega (arith, e)) (λ e. omega (arith, e)) (λ e. omega (arith, e))
      (λ e. omega (arith, e))

-- A control protection exception with the error code 3.
deliver_unaligned_example :
    deliver env glob 21 3 context enclave
    ≡ aborts (reported regs 21 0 3 0x401000 8 0x202 0x7ffff8 enclave)
deliver_unaligned_example = deliver_unaligned env glob refl 3 context enclave 21 (inl refl)

-- A handler that skips two bytes, at the stack of a context.
abbrev skipping : ℕ → TrapFrame → ℕ → Handled ℕ
skipping ptr tf n = returned (record tf { rip = tf.rip + 2 }) (n + 1)

enter-exit_of_example :
    enter skipping env.clobber 13
      (machine regs 0x7fffc8 (pushed_words (one_word 13) 0x18 0x401000 8 0x202 0x7ffff8 0 []))
      5
    ≡ exit_of (
        skipping
          (frame_ptr 13 0x7fffc8)
          (frame_of regs 13 (if one_word 13 then 0x18 else 0) 0x401000 8 0x202 0x7ffff8 0)
          5)
enter-exit_of_example =
    enter-exit_of skipping env.clobber regs 0x7fffc8 0x18 0x401000 8 0x202 0x7ffff8 0 [] 5 13

-- An interrupt at vector 32.
enter-interrupted_example :
    let ptr : ℕ = 0x7ffff8 - 0x7ffff8 % 16 - 176 in
    (enter skipping env.clobber 32 (interrupted 32 0 context) 5
      ≡ exit_of (skipping ptr (trap 32 0 context) 5))
    × (ptr % 16 ≡ 0)
    × (ptr ≤ 0x7ffff8 - 128)
    × (0x7ffff8 < ptr + 176 + 16)
enter-interrupted_example =
    enter-interrupted skipping env.clobber 32 0 context 5 (λ e. omega (arith, e))
      (λ e. omega (arith, e)) (λ e. omega (arith, e)) (omega arith) (omega arith)
