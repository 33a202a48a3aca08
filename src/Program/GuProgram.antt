-- ===== src/Program/GuProgram.antt =====
-- The program of the GU-Enclave: server/exception/exception_gu_enclave/App/App.cpp with
-- Enclave/Enclave.cpp beside it.
use Prim.Native.String.{String}
use atc22_ae.Base.{
  ℕ, ◌≡◌, ◌≢◌, ◌+◌, ap, ◌∙◌, true, false, some, List, [], ◌∷◌, ◌++◌, bit_or, u32, arith,
}
use atc22_ae.Outcome.{success}
use atc22_ae.Sgx.{SgxStatus, sgx_success, same_status}
use atc22_ae.App
use atc22_ae.App.{creation, ocall_print_string, print_error_message, main}
use atc22_ae.Gu
use atc22_ae.Gu.{Info, Line, Verdict, Enclave, loaded, buf_size, flag_r, flag_u}
use atc22_ae.Gu.Counts.{transcript, ecall_exception-success}
use atc22_ae.Gu.Refused.{ecall_exception-died}
use atc22_ae.Counter.{IsCounter}
use atc22_ae.Program.{shown, time_line, around, main-returned, main-crashed}

-- What the bridge of the ecall does with the enclave that has been created: it hands on what the
-- enclave returns, with `SGX_SUCCESS` as its own status; where the enclave aborts it answers another
-- status, and leaves `retval` as it was. The enclave's lines reach the terminal in order.
pub record GuBridge (env : App.Env) (gu : Gu.Env) (format : Line → String) : Type 0 where
  pub crashed : SgxStatus
  pub retval : SgxStatus
  pub crashed_fails : same_status crashed sgx_success ≡ false
  pub returns :
      (eid n : ℕ) (status : SgxStatus) (s' : Enclave)
      → Gu.ecall_exception gu n loaded ≡ Gu.value (status, s')
      → env.ecall_exception eid n ≡ ((sgx_success, status), shown format s'.output)
  pub dies :
      (eid n : ℕ) (s' : Enclave)
      → Gu.ecall_exception gu n loaded ≡ Gu.died s'
      → env.ecall_exception eid n ≡ ((crashed, retval), shown format s'.output)

-- Let the argument be a count other than 0 modulo 2^32 and the creation succeed; let the SDK
-- register the handler and call it on each exception, the hypercall of `mprotect` answer 0, and
-- `rdtscp` read a counter as `IsCounter` says; and let the bridge hand on what the new enclave
-- returns and prints. Then `main` creates the enclave, calls it, destroys it and ends with 0, and
-- what the enclave prints between is exactly the twelve lines of `transcript`, with one invalid
-- opcode for each run.
pub gu_main-counted :
    (env : App.Env) (gu : Gu.Env) (t : ℕ → ℕ) (format : Line → String)
    (bridge : GuBridge env gu format) (name arg : String) (handler : ℕ)
    → u32 (env.atoi arg) ≢ 0
    → same_status (creation env).0 sgx_success ≡ true
    → IsCounter gu.tsc t
    → ((h : Info → Enclave → Verdict × Info × Enclave) (i : Info) (t : Enclave)
        → gu.dispatch h i t ≡ h i t)
    → gu.registration ≡ some handler
    → Gu.mprotect gu gu.test_buf buf_size (bit_or flag_r flag_u) ≡ 0
    → let n : ℕ = u32 (env.atoi arg) in
      main env 2 name arg
      ≡ (success, around env arg (shown format (transcript t n n []) ++ time_line env ∷ []))
gu_main-counted env gu t format bridge name arg handler n c counter direct r m =
    let (s', ran, counted) =
      ecall_exception-success gu t handler (u32 (env.atoi arg)) loaded counter direct r m
        (omega arith) in
    let count : u32 (0 + u32 (env.atoi arg)) ≡ u32 (env.atoi arg) = omega arith in
    main-returned env name arg n c _ (
      bridge.returns (creation env).1 (u32 (env.atoi arg)) sgx_success s' ran
      ∙ ap (λ (l : List Line). ((sgx_success, sgx_success), shown format l)) counted.printed
      ∙ ap
          (λ (k : ℕ).
            ((sgx_success, sgx_success), shown format (transcript t (u32 (env.atoi arg)) k [])))
          count)

-- Let the argument be a count other than 0 modulo 2^32, the creation and the registration succeed
-- and the hypercall of `mprotect` answer other than 0, so that the enclave aborts; and let the
-- bridge then answer a status other than `SGX_SUCCESS`. Then the enclave prints its two lines of the
-- start and the answer of the hypercall, `print_error_message` follows, and `main` still prints
-- "Done.", destroys the enclave and ends with 0.
pub gu_main-refused :
    (env : App.Env) (gu : Gu.Env) (format : Line → String) (bridge : GuBridge env gu format)
    (name arg : String) (handler ret : ℕ)
    → u32 (env.atoi arg) ≢ 0
    → same_status (creation env).0 sgx_success ≡ true
    → gu.registration ≡ some handler
    → Gu.mprotect gu gu.test_buf buf_size (bit_or flag_r flag_u) ≡ ret
    → ret ≢ 0
    → main env 2 name arg ≡ (
      success,
      around env arg (
          shown format (
            ("ERROR: mprotect returns: %d\n", ret ∷ [])
            ∷ ("Register exception handler OK!\n", [])
            ∷ ("Starting...\n", [])
            ∷ [])
          ++ print_error_message bridge.crashed),
    )
gu_main-refused env gu format bridge name arg handler ret n c r m ne =
    let (s', ran, kept, calls, lines) =
      ecall_exception-died gu handler ret (u32 (env.atoi arg)) loaded r m ne in
    main-crashed env name arg n c _ bridge.crashed bridge.retval
      (bridge.dies (creation env).1 (u32 (env.atoi arg)) s' ran
        ∙ ap (λ (l : List Line). ((bridge.crashed, bridge.retval), shown format l)) lines)
      bridge.crashed_fails
