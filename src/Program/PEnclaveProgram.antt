-- ===== src/Program/PEnclaveProgram.antt =====
-- The program of the P-Enclave: server/exception/exception_p_enclave/App/App.cpp, which is the text
-- of exception_gu_enclave/App/App.cpp, with Enclave/Enclave.cpp beside it.
use Prim.Native.String.{String}
use atc22_ae.Base.{
  ℕ, suc, ◌+◌, ◌%◌, ◌<◌, ◌≡◌, ◌≢◌, ap, arith, ◌∙◌, true, List, [], ◌∷◌, ◌++◌, length, u32,
}
use mathlib.Core.Path.{ap₂}
use atc22_ae.Outcome.{success}
use atc22_ae.Sgx.{SgxStatus, sgx_success, same_status}
use atc22_ae.App
use atc22_ae.App.{creation}
use atc22_ae.App.PEnclaveApp.{main}
use atc22_ae.Paging.Walk.{phys_of}
use atc22_ae.Paging.{Mmu}
use atc22_ae.Counter.{IsCounter}
use atc22_ae.PEnclave.{Enclave, Line, loaded}
use atc22_ae.PEnclave.Measure.{transcript}
use atc22_ae.PEnclave.Buffer.{IsMapped}
use atc22_ae.PEnclave.Ecall
use atc22_ae.PEnclave.Ecall.{Globals, pages, ecall_exception}
use atc22_ae.PEnclave.Writes.{Obeys}
use atc22_ae.PEnclave.Counts.{start_lines, ecall_exception-Counted}
use atc22_ae.PEnclave.Trace.Runs.{Interrupted, came}
use atc22_ae.PEnclave.Trace.Whole.{started, ecall_exception-Tallied}
use atc22_ae.Program.{shown, time_line, around, main-returned}

-- What the bridge of the ecall does with the enclave that has been created, with `mmu` for its page
-- tables, where it returns: it hands its status on, and the enclave's lines reach the terminal in
-- order.
pub record PBridge (env : App.Env) (p : Ecall.Env) (tries : ℕ) (glob : Globals) (mmu : Mmu)
    (format : Line → String) : Type 0 where
  pub returns :
      (eid n : ℕ) (status : SgxStatus) (glob' : Globals) (s' : Enclave)
      → ecall_exception tries p n glob (loaded mmu) ≡ Ecall.value (status, glob', s')
      → env.ecall_exception eid n ≡ ((sgx_success, status), shown format s'.output)

-- Let the argument be a count other than 0 modulo 2^32 and the creation succeed; let the buffer be
-- mapped as `IsMapped` says with every page present and writable, the processor fault on stores as
-- `Obeys` says, `rdtscp` read a counter as `IsCounter` says, and a store be tried twice or more; and
-- let the bridge hand on what the new enclave returns and prints. Then `main` creates the enclave,
-- calls it, destroys it and ends with 0, and what the enclave prints between is exactly the lines of
-- `start_lines` and `transcript`, which end with no interrupt, one invalid opcode for each run, and
-- 32768 page faults.
pub p_main-counted :
    (env : App.Env) (p : Ecall.Env) (t : ℕ → ℕ) (k : ℕ) (glob : Globals) (mmu : Mmu)
    (format : Line → String) (bridge : PBridge env p (suc (suc k)) glob mmu format)
    (name arg : String) (a : ℕ → ℕ)
    → u32 (env.atoi arg) ≢ 0
    → same_status (creation env).0 sgx_success ≡ true
    → IsCounter p.tsc t
    → IsMapped (phys_of mmu) p.cr3 p.test_buf pages a
    → Obeys p (phys_of mmu) p.cr3 p.test_buf pages a
    → ((i : ℕ) → i < pages → phys_of mmu (a i) % 4 ≡ 3)
    → let n : ℕ = u32 (env.atoi arg) in
      main env 2 name arg ≡ (
        success,
        around env arg (
            shown format (transcript t n 32768 n 0 (start_lines p (loaded mmu)))
            ++ time_line env ∷ []),
      )
p_main-counted env p t k glob mmu format bridge name arg a c starts counter mapped cpu bits =
    let n : ℕ = u32 (env.atoi arg) in
    let (s', ran, counted) =
      ecall_exception-Counted k p t n glob (loaded mmu) a counter mapped cpu bits (omega arith)
        (omega arith) in
    let count : u32 (0 + u32 (env.atoi arg)) ≡ u32 (env.atoi arg) = omega arith in
    main-returned env name arg c starts _ (
      bridge.returns (creation env).1 n sgx_success _ s' ran
      ∙ ap (λ (l : List Line). ((sgx_success, sgx_success), shown format l)) counted.printed
      ∙ ap
          (λ (ud : ℕ). (
            (sgx_success, sgx_success),
            shown format (transcript t n 32768 ud 0 (start_lines p (loaded mmu))),
          ))
          count)

-- Let the argument be a count other than 0 modulo 2^32 and the creation succeed; let the buffer be
-- mapped as `IsMapped` says with every page present and writable, the processor fault on stores as
-- `Obeys` says, and `rdtscp` read a counter as `IsCounter` says. Let the loops of the new enclave
-- run to their end with any interrupts of a vector from 32 on between their stores and `ud2`, and
-- let the bridge hand on a success and what the enclave has printed. Then `main` ends with 0, and what
-- it shows between the call and the time is exactly the lines of `start_lines` and `transcript`,
-- which end with the number of the interrupts that came, modulo 2^32, one invalid opcode for each
-- run, and 32768 page faults.
pub p_main-interrupted :
    (env : App.Env) (p : Ecall.Env) (t : ℕ → ℕ) (glob : Globals) (mmu : Mmu)
    (format : Line → String) (name arg : String) (a : ℕ → ℕ) (s' : Enclave)
    (run : Interrupted p
      (started p glob (loaded mmu)).0
      (u32 (env.atoi arg))
      (started p glob (loaded mmu)).1
      s')
    → u32 (env.atoi arg) ≢ 0
    → same_status (creation env).0 sgx_success ≡ true
    → IsCounter p.tsc t
    → IsMapped (phys_of mmu) p.cr3 p.test_buf pages a
    → Obeys p (phys_of mmu) p.cr3 p.test_buf pages a
    → ((i : ℕ) → i < pages → phys_of mmu (a i) % 4 ≡ 3)
    → env.ecall_exception (creation env).1 (u32 (env.atoi arg))
      ≡ ((sgx_success, sgx_success), shown format s'.output)
    → let n : ℕ = u32 (env.atoi arg) in
      let irqs : ℕ = u32 (length (came run)) in
      main env 2 name arg ≡ (
        success,
        around env arg (
            shown format (transcript t n 32768 n irqs (start_lines p (loaded mmu)))
            ++ time_line env ∷ []),
      )
p_main-interrupted env p t glob mmu format name arg a s' run c starts counter mapped cpu bits ran =
    let n : ℕ = u32 (env.atoi arg) in
    let tallied =
      ecall_exception-Tallied p t n glob (loaded mmu) s' a counter mapped cpu bits (omega arith)
        (omega arith) (omega arith) run in
    let count : u32 (0 + u32 (env.atoi arg)) ≡ u32 (env.atoi arg) = omega arith in
    let irqs : u32 (0 + length (came run)) ≡ u32 (length (came run)) = omega arith in
    main-returned env name arg c starts _ (
      ran
      ∙ ap (λ (l : List Line). ((sgx_success, sgx_success), shown format l)) tallied.printed
      ∙ ap₂
          (λ (ud intr : ℕ). (
            (sgx_success, sgx_success),
            shown format (transcript t n 32768 ud intr (start_lines p (loaded mmu))),
          ))
          count irqs)
