-- ===== src/SgxEnclave.antt =====
-- The SGX enclave of the exception benchmark, server/exception/exception_sgx/Enclave/Enclave.cpp.
-- The clock is an ocall here (`ocall_rdtscp`), and there is no measurement of page faults.
pub mod Counts
use Prim.Native.String.{String}
use atc22_ae.Base.{
  ℕ, zero, suc, ◌+◌, ◌-◌, ◌%◌, ◌^◌, Option, none, some, List, [], ◌∷◌, ◌==◌, if◌then◌else◌, u32,
  u64,
}
use atc22_ae.Sgx.{SgxStatus, sgx_success, sgx_error_unexpected}
use atc22_ae.Gu.{Line, Info, SdkCall, register, unregister, Verdict, exception_continue_execution}

-- `g_ud_count`, what has been printed, and the calls of the SDK, the last one first.
pub record Enclave : Type 0 where
  pub ud_count : ℕ
  pub output : List Line
  pub sdk_calls : List SdkCall

-- The enclave when it has been created.
abbrev pub loaded : Enclave
loaded = record { ud_count = 0; output = []; sdk_calls = [] }

unfoldable pub printf_ocall : String → List ℕ → Enclave → Enclave
printf_ocall fmt args s = record s { output = (fmt, args) ∷ s.output }

unfoldable pub exception_handler : Info → Enclave → Verdict × Info × Enclave
exception_handler info s =
    let vec : ℕ = u32 info.exception_vector in
    if vec == 0x6
    then (
      exception_continue_execution,
      record info { rip = u64 (info.rip + 2) },
      record s { ud_count = u32 (s.ud_count + 1) },
    )
    else (
      exception_continue_execution,
      info,
      printf_ocall "ERROR: unexcept exception: %lld @ %016llx\n" (vec ∷ info.rip ∷ []) s,
    )

-- What the code calls but does not define: `sgx_register_exception_handler` (NULL is `none`), the
-- SDK's way to the handler, and the two answers of `ocall_rdtscp`.
pub record Env : Type 0 where
  pub registration : Option ℕ
  pub dispatch :
      (Info → Enclave → Verdict × Info × Enclave) → Info → Enclave → Verdict × Info × Enclave
  pub time_begin : ℕ
  pub time_end : ℕ
  pub ud2_rip : ℕ

-- How the ecall ends: by its return, or at an instruction that is not its own.
pub data Run (A : Type 0) : Type 0 where
  value : A → Run A
  astray : Run A

infixl 5 ◌>>=◌
abbrev pub ◌>>=◌ : {A B : Type 0} → Run A → (A → Run B) → Run B
value a >>= f = f a
astray >>= f = astray

unfoldable pub ud2 : Env → Enclave → Run Enclave
ud2 env s =
    let (verdict, info, s') =
      env.dispatch exception_handler (record { exception_vector = 6; rip = env.ud2_rip }) s in
    if info.rip == u64 (env.ud2_rip + 2) then value s' else astray

unfoldable pub ud2_loop : Env → ℕ → Enclave → Run Enclave
ud2_loop env zero s = value s
ud2_loop env (suc left) s = ud2 env s >>= λ s'. ud2_loop env left s'

-- `time_end - time_begin - 12432` on `uint64_t`.
abbrev pub total_time : Env → ℕ
total_time env = u64 (env.time_end + 2 ^ 65 - env.time_begin - 12432)

unfoldable pub report : Env → (nrepeats : ℕ) → Enclave → Enclave
report env nrepeats s =
    printf_ocall "Average time = %.3lf (cycles)\n\n" (total_time env ∷ nrepeats ∷ []) (
      printf_ocall "Total Time = %lld (cycles)\n" (total_time env ∷ [])
        (printf_ocall "Count = %d\n" (nrepeats ∷ []) (printf_ocall "test #UD OK\n" [] s)))

unfoldable pub measure : Env → (handler nrepeats : ℕ) → Enclave → Run (SgxStatus × Enclave)
measure env handler nrepeats s = do
  s₁ ← ud2_loop env nrepeats s
  let s₂ = report env nrepeats s₁
  value (sgx_success, record s₂ { sdk_calls = unregister handler ∷ s₂.sdk_calls })

-- What follows the registration.
unfoldable pub after_register :
    Option ℕ → Env → (nrepeats : ℕ) → Enclave → Run (SgxStatus × Enclave)
after_register none env nrepeats s = value (sgx_error_unexpected, s)
after_register (some h) env nrepeats s =
    measure env h nrepeats (record s { sdk_calls = register h ∷ s.sdk_calls })

unfoldable pub ecall_exception : Env → (nrepeats : ℕ) → Enclave → Run (SgxStatus × Enclave)
ecall_exception env nrepeats s = after_register env.registration env nrepeats s
