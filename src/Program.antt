-- ===== src/Program.antt =====
-- The three programs of server/exception as a whole: the application (App/App.cpp) with the enclave
-- that it calls (Enclave/Enclave.cpp), joined by the bridges that the SDK generates.
pub mod PEnclaveProgram
pub mod GuProgram
pub mod SgxProgram
use Prim.Native.String.{String}
use atc22_ae.Base.{ℕ, ◌≡◌, ◌≢◌, refl, true, false, List, [], ◌∷◌, ◌++◌, ◌∙◌, u32}
use atc22_ae.Outcome.{success}
use atc22_ae.Sgx.{
  SgxStatus, sgx_success, same_status, Event, printed, created, called, destroyed, num,
}
use atc22_ae.App.{
  Env, enclave_filename, creation, benchmark_exception_ecall, print_error_message,
  ocall_print_string, main,
}
use atc22_ae.App.Exit.{main-success}

-- The lines that `printf_ocall` hands to `ocall_print_string`, the last one first in `output`;
-- `format` is `vsnprintf` with the buffer of `printf_ocall`.
abbrev pub shown : (format : String × List ℕ → String) → List (String × List ℕ) → List Event
shown format [] = []
shown format (line ∷ older) = shown format older ++ ocall_print_string (format line) ∷ []

abbrev pub time_line : Env → Event
time_line env =
    printed "Time elapsed: %ld.%06ld seconds\n" (num env.elapsed.0 ∷ num env.elapsed.1 ∷ [])

module _ (env : Env) (eid nrepeats : ℕ) (ocalls : List Event) where
  ecall-returned :
      env.ecall_exception eid nrepeats ≡ ((sgx_success, sgx_success), ocalls)
      → (benchmark_exception_ecall env eid nrepeats).1
        ≡ called eid nrepeats ∷ (ocalls ++ time_line env ∷ [])
  unfolding benchmark_exception_ecall
  ecall-returned e = rw e refl

  ecall-crashed :
      (ret retval : SgxStatus)
      → env.ecall_exception eid nrepeats ≡ ((ret, retval), ocalls)
      → same_status ret sgx_success ≡ false
      → (benchmark_exception_ecall env eid nrepeats).1
        ≡ called eid nrepeats ∷ (ocalls ++ print_error_message ret)
  unfolding benchmark_exception_ecall
  ecall-crashed ret retval e f = rw (e, f) refl

-- What `main` does between the creation and the destruction of the enclave.
abbrev pub around : Env → (arg : String) → List Event → List Event
around env arg during =
    created enclave_filename
    ∷ printed "N = %d\n" (num (u32 (env.atoi arg)) ∷ [])
    ∷ called (creation env).1 (u32 (env.atoi arg))
    ∷ (during ++ printed "Done.\n" [] ∷ destroyed (creation env).1 ∷ [])

module _ (env : Env) (name arg : String) (some_runs : u32 (env.atoi arg) ≢ 0)
    (starts : same_status (creation env).0 sgx_success ≡ true) (ocalls : List Event) where
  pub main-returned :
      env.ecall_exception (creation env).1 (u32 (env.atoi arg))
        ≡ ((sgx_success, sgx_success), ocalls)
      → main env 2 name arg ≡ (success, around env arg (ocalls ++ time_line env ∷ []))
  main-returned e =
      main-success env name arg some_runs starts
      ∙ rw (ecall-returned env (creation env).1 (u32 (env.atoi arg)) ocalls e) refl

  pub main-crashed :
      (ret retval : SgxStatus)
      → env.ecall_exception (creation env).1 (u32 (env.atoi arg)) ≡ ((ret, retval), ocalls)
      → same_status ret sgx_success ≡ false
      → main env 2 name arg ≡ (success, around env arg (ocalls ++ print_error_message ret))
  main-crashed ret retval e f =
      main-success env name arg some_runs starts
      ∙ rw (ecall-crashed env (creation env).1 (u32 (env.atoi arg)) ocalls ret retval e f) refl
