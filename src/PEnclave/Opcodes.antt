-- ===== src/PEnclave/Opcodes.antt =====
-- The loop of `ud2` instructions in `ecall_exception`
-- (server/exception/exception_p_enclave/Enclave/Enclave.cpp).
use atc22_ae.Base.{ℕ, zero, suc, ◌+◌, ◌^◌, ◌<◌, ◌≡◌, refl, ◌∙◌, arith, some, ==_self, u32, u64}
use atc22_ae.Machine.{Resumed}
use atc22_ae.PEnclave.{Enclave, increment, exception_handler}
use atc22_ae.PEnclave.Ecall.{Env, Globals, value, resume_at, ud2, ud2_loop}
use atc22_ae.PEnclave.Deliver.{deliver_ud}

module _ (env : Env) (glob : Globals) (registered : glob.g_handler ≡ some exception_handler)
    (c : Resumed) where
  ud2_lem : (s : Enclave) → ud2 env glob c s ≡ value (record s { ud_count = increment s.ud_count })
  unfolding ud2 resume_at
  ud2_lem s = rw (deliver_ud env glob registered 0 c s, ==_self (u64 (c.rip + 2))) refl

  -- With `exception_handler` registered and a counter below 2^32, the loop of `ud2` instructions
  -- runs through: each one is counted once, modulo 2^32, and skipped, and nothing else changes.
  pub ud2_loop_lem :
      (left : ℕ) (s : Enclave)
      → s.ud_count < 2 ^ 32
      → ud2_loop env glob left c s ≡ value (record s { ud_count = u32 (s.ud_count + left) })
  unfolding ud2_loop
  ud2_loop_lem zero s small =
      let same : u32 (s.ud_count + zero) ≡ s.ud_count = omega arith in rw same refl
  ud2_loop_lem (suc left) s small =
      let count : u32 (increment s.ud_count + left) ≡ u32 (s.ud_count + suc left) = omega arith in
      rw (ud2_lem s) (
        ud2_loop_lem left (record s { ud_count = increment s.ud_count }) (omega arith)
        ∙ rw count refl)
