-- ===== src/SgxEnclave/Counts.antt =====
-- What `ecall_exception` of server/exception/exception_sgx/Enclave/Enclave.cpp returns and leaves
-- behind.
use atc22_ae.Base.{
  ℕ, zero, suc, ◌+◌, ◌^◌, ◌<◌, ◌≡◌, refl, ◌∙◌, ap, arith, ==_self, some, [], ◌∷◌, u32, u64,
}
use atc22_ae.Sgx.{sgx_success}
use atc22_ae.Gu.{Info, register, unregister, Verdict}
use atc22_ae.SgxEnclave.{
  Enclave, Env, value, exception_handler, printf_ocall, ud2, ud2_loop, report, total_time, measure,
  after_register, ecall_exception,
}

module _ (env : Env)
    (direct : (h : Info → Enclave → Verdict × Info × Enclave) (i : Info) (s : Enclave)
      → env.dispatch h i s ≡ h i s) where
  ud2_lem : (s : Enclave) → ud2 env s ≡ value (record s { ud_count = u32 (s.ud_count + 1) })
  unfolding ud2 exception_handler
  ud2_lem s =
      rw
        (
          direct exception_handler (record { exception_vector = 6; rip = env.ud2_rip }) s,
          ==_self (u64 (env.ud2_rip + 2)),
        )
        refl

  sgx_ud2_loop_lem :
      (left : ℕ) (s : Enclave)
      → s.ud_count < 2 ^ 32
      → ud2_loop env left s ≡ value (record s { ud_count = u32 (s.ud_count + left) })
  unfolding ud2_loop
  sgx_ud2_loop_lem zero s small =
      let same : u32 (s.ud_count + zero) ≡ s.ud_count = omega arith in rw same refl
  sgx_ud2_loop_lem (suc left) s small =
      let count : u32 (u32 (s.ud_count + 1) + left) ≡ u32 (s.ud_count + suc left) = omega arith in
      rw (ud2_lem s) (
        sgx_ud2_loop_lem left (record s { ud_count = u32 (s.ud_count + 1) }) (omega arith)
        ∙ rw count refl)

-- If the handler is registered, the SDK calls it and resumes what it leaves, and the counter is
-- below 2^32, then the ecall ends with SGX_SUCCESS: it has counted one invalid opcode for each of
-- the `nrepeats` instructions (modulo 2^32), has printed the four lines of the report and nothing
-- else, and has unregistered the handler that it registered.
pub ecall_exception-IsCounted :
    (env : Env) (handler nrepeats : ℕ) (s : Enclave)
    → ((h : Info → Enclave → Verdict × Info × Enclave) (i : Info) (s : Enclave)
        → env.dispatch h i s ≡ h i s)
    → env.registration ≡ some handler
    → s.ud_count < 2 ^ 32
    → ecall_exception env nrepeats s
      ≡ value (
        sgx_success,
        record {
          ud_count = u32 (s.ud_count + nrepeats);
          output =
              ("Average time = %.3lf (cycles)\n\n", total_time env ∷ nrepeats ∷ [])
              ∷ ("Total Time = %lld (cycles)\n", total_time env ∷ [])
              ∷ ("Count = %d\n", nrepeats ∷ [])
              ∷ ("test #UD OK\n", [])
              ∷ s.output;
          sdk_calls = unregister handler ∷ register handler ∷ s.sdk_calls;
        },
      )
unfolding ecall_exception after_register measure report printf_ocall
ecall_exception-IsCounted env handler nrepeats s direct r small =
    ap (λ o. after_register o env nrepeats s) r
    ∙ rw
        (sgx_ud2_loop_lem env direct nrepeats
          (record s { sdk_calls = register handler ∷ s.sdk_calls }) small)
        refl
