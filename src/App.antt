-- ===== src/App.antt =====
-- The application of the exception benchmark, server/exception/exception_gu_enclave/App/App.cpp
-- (exception_p_enclave/App/App.cpp is the same text, and exception_sgx/App/App.cpp adds
-- `ocall_rdtscp`).
pub mod Exit
pub mod PEnclaveApp
pub mod SgxApp
use Prim.Native.String.{String}
use atc22_ae.Base.{
  ℕ, ◌+◌, ◌%◌, ◌^◌, Bool, true, false, not, ◌||◌, Option, none, some, List, [], ◌∷◌, ◌++◌, ◌==◌,
  if◌then◌else◌, u32,
}
use atc22_ae.Outcome.{Status, success, failure}
use atc22_ae.Sgx.{
  SgxStatus, sgx_success, sgx_error_unexpected, sgx_error_invalid_parameter,
  sgx_error_out_of_memory, sgx_error_enclave_lost, sgx_error_invalid_enclave,
  sgx_error_invalid_enclave_id, sgx_error_invalid_signature, sgx_error_out_of_epc,
  sgx_error_no_device, sgx_error_memory_map_conflict, sgx_error_invalid_metadata,
  sgx_error_device_busy, sgx_error_invalid_version, sgx_error_invalid_attribute,
  sgx_error_enclave_file_access, same_status, Arg, num, str, Event, printed, created, called,
  destroyed, ErrEntry, entry, print_loop,
}

-- App.h.
abbrev pub enclave_filename : String
enclave_filename = "enclave.signed.so"

-- As it is before the enclave is created.
abbrev pub global_eid : ℕ
global_eid = 0

abbrev pub sgx_errlist : List ErrEntry
sgx_errlist =
    entry sgx_error_unexpected "Unexpected error occurred." none
    ∷ entry sgx_error_invalid_parameter "Invalid parameter." none
    ∷ entry sgx_error_out_of_memory "Out of memory." none
    ∷ entry sgx_error_enclave_lost "Power transition occurred."
        (some "Please refer to the sample \"PowerTransition\" for details.")
    ∷ entry sgx_error_invalid_enclave "Invalid enclave image." none
    ∷ entry sgx_error_invalid_enclave_id "Invalid enclave identification." none
    ∷ entry sgx_error_invalid_signature "Invalid enclave signature." none
    ∷ entry sgx_error_out_of_epc "Out of EPC memory." none
    ∷ entry sgx_error_no_device "Invalid SGX device." (
        some
          "Please make sure SGX module is enabled in the BIOS, and install SGX driver afterwards.")
    ∷ entry sgx_error_memory_map_conflict "Memory map conflicted." none
    ∷ entry sgx_error_invalid_metadata "Invalid enclave metadata." none
    ∷ entry sgx_error_device_busy "SGX device was busy." none
    ∷ entry sgx_error_invalid_version "Enclave version was invalid." none
    ∷ entry sgx_error_invalid_attribute "Enclave was not authorized." none
    ∷ entry sgx_error_enclave_file_access "Can't open enclave file." none
    ∷ []

unfoldable pub print_error_message : SgxStatus → List Event
print_error_message ret =
    print_loop (printed "Error: Unexpected error occurred.\n" [] ∷ []) sgx_errlist ret

-- What the SDK and the C library answer: the status of `sgx_create_enclave` for the file and the id
-- in `global_eid` behind it, the status of the ecall's bridge, what the enclave returned, and what its ocalls did, the
-- time between the two calls of `gettimeofday`, and `atoi`, whose result is an `int` by its 32-bit
-- pattern.
pub record Env : Type 0 where
  pub create_enclave : (file : String) (eid : ℕ) → SgxStatus × ℕ
  pub ecall_exception : (eid nrepeats : ℕ) → (SgxStatus × SgxStatus) × List Event
  pub elapsed : ℕ × ℕ
  pub atoi : String → ℕ

abbrev pub creation : Env → SgxStatus × ℕ
creation env = env.create_enclave enclave_filename global_eid

-- The result, the id in `global_eid`, and what has been done.
unfoldable pub initialize_enclave : Env → Status × ℕ × List Event
initialize_enclave env =
    if not (same_status (creation env).0 sgx_success)
    then (
      failure,
      (creation env).1,
      created enclave_filename ∷ print_error_message (creation env).0,
    )
    else (success, (creation env).1, created enclave_filename ∷ [])

unfoldable pub benchmark_exception_ecall : Env → (eid nrepeats : ℕ) → Status × List Event
benchmark_exception_ecall env eid nrepeats =
    let ((ret, retval), ocalls) = env.ecall_exception eid nrepeats in
    if not (same_status ret sgx_success)
    then (failure, called eid nrepeats ∷ (ocalls ++ print_error_message ret))
    else if not (same_status retval sgx_success)
    then (failure, called eid nrepeats ∷ (ocalls ++ print_error_message retval))
    else (
      success,
      called eid nrepeats
          ∷ (ocalls
              ++ printed "Time elapsed: %ld.%06ld seconds\n"
                  (num env.elapsed.0 ∷ num env.elapsed.1 ∷ [])
                ∷ []),
    )

-- What the enclave calls to print.
unfoldable pub ocall_print_string : String → Event
ocall_print_string text = printed "%s" (str text ∷ [])

-- `nrepeats` is 0 unless there is exactly one argument.
abbrev pub nrepeats_of : Env → (argc : ℕ) (arg : String) → ℕ
nrepeats_of env argc arg = if argc == 2 then u32 (env.atoi arg) else 0

-- From the creation of the enclave on.
unfoldable pub run_enclave : Env → (nrepeats : ℕ) → Status × ℕ × List Event → Status × List Event
run_enclave env nrepeats (failure, eid, done) =
    (failure, done ++ printed "Error: enclave initialization failed\n" [] ∷ [])
run_enclave env nrepeats (success, eid, done) = (
  success,
  done
      ++ printed "N = %d\n" (num nrepeats ∷ [])
        ∷ ((benchmark_exception_ecall env eid nrepeats).1
            ++ printed "Done.\n" [] ∷ destroyed eid ∷ []),
)

-- `arg` is `argv[1]`, and is read only if there are two arguments. `nrepeats <= 0` on a `uint32_t`
-- is `nrepeats == 0`.
unfoldable pub main : Env → (argc : ℕ) (name arg : String) → Status × List Event
main env argc name arg =
    let nrepeats = nrepeats_of env argc arg in
    if not (argc == 2) || (nrepeats == 0)
    then (failure, printed "Usage: %s <NUM_OF_EXCEPTION>\n" (str name ∷ []) ∷ [])
    else run_enclave env nrepeats (initialize_enclave env)
