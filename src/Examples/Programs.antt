-- ===== src/Examples/Programs.antt =====
-- The theorems on whole programs, with bridges that answer what the enclave's code comes to.
use Prim.Native.String.{String}
use atc22_ae.Base.{ℕ, ◌≡◌, refl, ap, arith, some, List, [], ◌∷◌, ◌++◌, length, u32}
use atc22_ae.Outcome.{success}
use atc22_ae.Sgx.{SgxStatus, sgx_success, sgx_error_unexpected, sgx_error_enclave_lost, Event}
use atc22_ae.App
use atc22_ae.App.{ocall_print_string, print_error_message, main}
use atc22_ae.App.SgxApp.{ocall_rdtscp}
use atc22_ae.Gu
use atc22_ae.Gu.Counts.{transcript}
use atc22_ae.SgxEnclave
use atc22_ae.PEnclave.{Enclave, loaded}
use atc22_ae.PEnclave.Measure
use atc22_ae.PEnclave.Counts.{start_lines}
use atc22_ae.PEnclave.Ecall
use atc22_ae.PEnclave.Ecall.{Globals, pages, ecall_exception}
use atc22_ae.Program.{shown, time_line, around}
use atc22_ae.Program.GuProgram.{GuBridge, gu_main-counted, gu_main-refused}
use atc22_ae.Program.PEnclaveProgram.{PBridge, p_main-counted, p_main-interrupted}
use atc22_ae.PEnclave.Trace.Runs.{came}
use atc22_ae.Examples.Steps.{disturbed, noisy}
use atc22_ae.Program.SgxProgram.{SgxBridge, sgx_main-counted}
use atc22_ae.Examples.Tables.{mmu, entry_at, mmu-IsMapped, mmu-writable}
use atc22_ae.Examples.Exceptions.{env, blank, env-Obeys}
use atc22_ae.Examples.Readings.{t, tsc-IsCounter}
use atc22_ae.Examples.Benchmarks.{gu, gu_refused, accepted, refused}

-- Only the format is shown.
abbrev format : String × List ℕ → String
format line = line.0

abbrev Answer : Type 0
Answer = (SgxStatus × SgxStatus) × List Event

abbrev app_with : (ℕ → Answer) → App.Env
app_with answer = record {
  create_enclave = λ file eid. (sgx_success, 2);
  ecall_exception = λ eid n. answer n;
  elapsed = (1, 500);
  atoi = λ _. 1000;
}

abbrev of_gu : Gu.Run (SgxStatus × Gu.Enclave) → Answer
of_gu (Gu.value (st, s)) = ((sgx_success, st), shown format s.output)
of_gu (Gu.died s) = ((sgx_error_enclave_lost, sgx_error_unexpected), shown format s.output)
of_gu Gu.astray = ((sgx_error_enclave_lost, sgx_error_unexpected), [])

gu_bridge :
    (g : Gu.Env) → GuBridge (app_with (λ n. of_gu (Gu.ecall_exception g n Gu.loaded))) g format
gu_bridge g = record {
  crashed = sgx_error_enclave_lost;
  retval = sgx_error_unexpected;
  crashed_fails = refl;
  returns = λ eid n st s' e. ap of_gu e;
  dies = λ eid n s' e. ap of_gu e;
}

abbrev gu_app : App.Env
gu_app = app_with (λ n. of_gu (Gu.ecall_exception gu n Gu.loaded))

gu_main-counted_example : main gu_app 2 "app" "1000" ≡ (
  success,
  around gu_app "1000" (shown format (transcript t 1000 1000 []) ++ time_line gu_app ∷ []),
)
gu_main-counted_example =
    gu_main-counted gu_app gu t format (gu_bridge gu) "app" "1000" 0x5000 (λ e. omega (arith, e))
      refl tsc-IsCounter (λ h i s. refl) refl accepted

abbrev refused_app : App.Env
refused_app = app_with (λ n. of_gu (Gu.ecall_exception gu_refused n Gu.loaded))

gu_main-refused_example : main refused_app 2 "app" "1000" ≡ (
  success,
  around refused_app "1000" (
      shown format (
        ("ERROR: mprotect returns: %d\n", 22 ∷ [])
        ∷ ("Register exception handler OK!\n", [])
        ∷ ("Starting...\n", [])
        ∷ [])
      ++ print_error_message sgx_error_enclave_lost),
)
unfolding gu_bridge
gu_main-refused_example =
    gu_main-refused refused_app gu_refused format (gu_bridge gu_refused) "app" "1000" 0x5000 22
      (λ e. omega (arith, e)) refl refl refused (λ e. omega (arith, e))

abbrev of_p : Ecall.Run (SgxStatus × Globals × Enclave) → Answer
of_p (Ecall.value (st, g, s)) = ((sgx_success, st), shown format s.output)
of_p _ = ((sgx_error_enclave_lost, sgx_error_unexpected), [])

abbrev p_app : App.Env
p_app = app_with (λ n. of_p (ecall_exception 2 env n blank (loaded mmu)))

p_bridge : PBridge p_app env 2 blank mmu format
p_bridge = record { returns = λ eid n st g s' e. ap of_p e }

p_main-counted_example : main p_app 2 "app" "1000" ≡ (
  success,
  around p_app "1000" (
      shown format (Measure.transcript t 1000 32768 1000 0 (start_lines env (loaded mmu)))
      ++ time_line p_app ∷ []),
)
p_main-counted_example =
    p_main-counted p_app env t 0 blank mmu format p_bridge "app" "1000" entry_at
      (λ e. omega (arith, e)) refl tsc-IsCounter (mmu-IsMapped pages (omega arith))
      (env-Obeys pages (omega arith)) mmu-writable

-- The application with the run that an interrupt disturbs.
abbrev p_noisy : App.Env
p_noisy = app_with λ n. (
  (sgx_success, sgx_success),
  shown format (Ecall.report_counts (Ecall.report_ud2 env 1000 disturbed)).output,
)

p_main-interrupted_example : main p_noisy 2 "app" "1000" ≡ (
  success,
  around p_noisy "1000" (
      shown format (
        Measure.transcript t 1000 32768 1000
          (u32 (length (came noisy)))
          (start_lines env (loaded mmu)))
      ++ time_line p_noisy ∷ []),
)
p_main-interrupted_example =
    p_main-interrupted p_noisy env t blank mmu format "app" "1000" entry_at _ noisy
      (λ e. omega (arith, e)) refl tsc-IsCounter (mmu-IsMapped pages (omega arith))
      (env-Obeys pages (omega arith)) mmu-writable refl

abbrev sgx_env : SgxEnclave.Env
sgx_env = record {
  registration = some 0x5000;
  dispatch = λ h i s. h i s;
  time_begin = ocall_rdtscp 1000 1;
  time_end = ocall_rdtscp 900000 1;
  ud2_rip = 0x401000;
}

abbrev of_sgx : SgxEnclave.Run (SgxStatus × SgxEnclave.Enclave) → Answer
of_sgx (SgxEnclave.value (st, s)) = ((sgx_success, st), shown format s.output)
of_sgx SgxEnclave.astray = ((sgx_error_enclave_lost, sgx_error_unexpected), [])

abbrev sgx_app : App.Env
sgx_app = app_with (λ n. of_sgx (SgxEnclave.ecall_exception sgx_env n SgxEnclave.loaded))

sgx_bridge : SgxBridge sgx_app sgx_env format 1000 1 900000 1
sgx_bridge = record { begins = refl; ends = refl; returns = λ eid n st s' e. ap of_sgx e }

sgx_main-counted_example : main sgx_app 2 "app" "1000" ≡ (
  success,
  around sgx_app "1000" (
      shown format (
        ("Average time = %.3lf (cycles)\n\n", 886568 ∷ 1000 ∷ [])
        ∷ ("Total Time = %lld (cycles)\n", 886568 ∷ [])
        ∷ ("Count = %d\n", 1000 ∷ [])
        ∷ ("test #UD OK\n", [])
        ∷ [])
      ++ time_line sgx_app ∷ []),
)
sgx_main-counted_example =
    sgx_main-counted sgx_app sgx_env format 1000 1 900000 1 sgx_bridge "app" "1000" 0x5000
      (λ e. omega (arith, e)) refl (λ h i s. refl) refl (omega arith) (omega arith) (omega arith)
      (omega arith) (omega arith)
