-- ===== src/Program/SgxProgram.antt =====
-- The program of the SGX enclave: server/exception/exception_sgx/App/App.cpp with
-- Enclave/Enclave.cpp beside it, which reads the clock of the application.
use Prim.Native.String.{String}
use atc22_ae.Base.{ℕ, ◌+◌, ◌-◌, ◌*◌, ◌<◌, ◌≤◌, ◌^◌, ◌≡◌, ◌≢◌, arith, true, some, [], ◌∷◌, ◌++◌, u32}
use atc22_ae.Counter.{joined-sum}
use atc22_ae.Outcome.{success}
use atc22_ae.Sgx.{SgxStatus, sgx_success, same_status}
use atc22_ae.App
use atc22_ae.App.{creation}
use atc22_ae.App.SgxApp.{ocall_rdtscp, main}
use atc22_ae.Gu.{Line, Info, Verdict}
use atc22_ae.SgxEnclave
use atc22_ae.SgxEnclave.{Enclave, loaded, total_time}
use atc22_ae.SgxEnclave.Counts.{ecall_exception-IsCounted}
use atc22_ae.Program.{shown, time_line, around, main-returned}

-- What the bridges do with the enclave that has been created, where it returns: they hand its
-- status on, the enclave's lines reach the terminal in order, and the enclave gets what
-- `ocall_rdtscp` makes of the registers.
pub record SgxBridge (env : App.Env) (sgx : SgxEnclave.Env) (format : Line → String)
    (lo hi lo' hi' : ℕ) : Type 0 where
  pub begins : sgx.time_begin ≡ ocall_rdtscp lo hi
  pub ends : sgx.time_end ≡ ocall_rdtscp lo' hi'
  pub returns :
      (eid n : ℕ) (status : SgxStatus) (s' : Enclave)
      → SgxEnclave.ecall_exception sgx n loaded ≡ SgxEnclave.value (status, s')
      → env.ecall_exception eid n ≡ ((sgx_success, status), shown format s'.output)

ocall_rdtscp-sum : (lo hi : ℕ) → lo < 2 ^ 32 → hi < 2 ^ 32 → ocall_rdtscp lo hi ≡ hi * 2 ^ 32 + lo
unfolding ocall_rdtscp
ocall_rdtscp-sum lo hi a b = joined-sum lo hi a b

-- Let the argument be a count other than 0 modulo 2^32 and the creation succeed; let the SDK
-- register the handler and call it on each exception, and the second reading of the clock be at
-- least 12432 above the first, the halves of both below 2^32; and let the bridges hand on what the
-- new enclave returns and prints and what `ocall_rdtscp` returns. Then `main` creates the enclave,
-- calls it, destroys it and ends with 0, and what the enclave prints between is exactly its four
-- lines: the run's count, the cycles between the readings less 12432, and both for the average.
pub sgx_main-counted :
    (env : App.Env) (sgx : SgxEnclave.Env) (format : Line → String) (lo hi lo' hi' : ℕ)
    (bridge : SgxBridge env sgx format lo hi lo' hi') (name arg : String) (handler : ℕ)
    → u32 (env.atoi arg) ≢ 0
    → same_status (creation env).0 sgx_success ≡ true
    → ((h : Info → Enclave → Verdict × Info × Enclave) (i : Info) (t : Enclave)
        → sgx.dispatch h i t ≡ h i t)
    → sgx.registration ≡ some handler
    → lo < 2 ^ 32
    → hi < 2 ^ 32
    → lo' < 2 ^ 32
    → hi' < 2 ^ 32
    → hi * 2 ^ 32 + lo + 12432 ≤ hi' * 2 ^ 32 + lo'
    → let total : ℕ = hi' * 2 ^ 32 + lo' - (hi * 2 ^ 32 + lo) - 12432 in
      let n : ℕ = u32 (env.atoi arg) in
      main env 2 name arg ≡ (
        success,
        around env arg (
            shown format (
              ("Average time = %.3lf (cycles)\n\n", total ∷ n ∷ [])
              ∷ ("Total Time = %lld (cycles)\n", total ∷ [])
              ∷ ("Count = %d\n", n ∷ [])
              ∷ ("test #UD OK\n", [])
              ∷ [])
            ++ time_line env ∷ []),
      )
sgx_main-counted env sgx format lo hi lo' hi' bridge name arg handler runs c direct r a b a' b'
      later =
    let total : total_time sgx ≡ hi' * 2 ^ 32 + lo' - (hi * 2 ^ 32 + lo) - 12432 = omega (
      arith,
      bridge.begins,
      bridge.ends,
      ocall_rdtscp-sum lo hi a b,
      ocall_rdtscp-sum lo' hi' a' b',
    ) in
    rw (← total) (
      main-returned env name arg runs c _ (
        bridge.returns (creation env).1 (u32 (env.atoi arg)) sgx_success _ (
          ecall_exception-IsCounted sgx handler (u32 (env.atoi arg)) loaded direct r
            (omega arith))))
