-- ===== src/App/Exit.antt =====
-- The exit status of server/exception/exception_gu_enclave/App/App.cpp, and when it destroys its
-- enclave.
use Prim.Native.String.{String}
use atc22_ae.Base.{
  ℕ, ◌≡◌, ◌≢◌, refl, true, ◌↔◌, ◌⊎◌, ◌%◌, ◌^◌, arith, Bool-cases, inl, inr, [], ◌∷◌, ◌++◌, ◌==◌,
  ==_of_ne, eq_of_==, ap, u32,
}
use atc22_ae.Outcome.{Status, success, failure}
use atc22_ae.Sgx.{SgxStatus, other, same_status, sgx_success, num, printed, created, destroyed}
use atc22_ae.App.{
  Env, enclave_filename, creation, initialize_enclave, benchmark_exception_ecall, run_enclave, main,
}

-- With one argument whose value is not 0 modulo 2^32, and an enclave that is created, the program
-- exits with 0 whatever the ecall's bridge and the ecall itself answer; it creates the enclave
-- first, makes the call with that value, and destroys the enclave last.
pub main-success :
    (env : Env) (name arg : String)
    → u32 (env.atoi arg) ≢ 0
    → same_status (creation env).0 sgx_success ≡ true
    → main env 2 name arg ≡ (
      success,
      created enclave_filename
          ∷ printed "N = %d\n" (num (u32 (env.atoi arg)) ∷ [])
          ∷ ((benchmark_exception_ecall env (creation env).1 (u32 (env.atoi arg))).1
              ++ printed "Done.\n" [] ∷ destroyed (creation env).1 ∷ []),
    )
unfolding main run_enclave initialize_enclave
main-success env name arg n c = rw (==_of_ne (u32 (env.atoi arg)) 0 n, c) refl

same_status-sgx_success : (r : SgxStatus) → same_status r sgx_success ≡ true → r ≡ sgx_success
same_status-sgx_success sgx_success e = refl
same_status-sgx_success (other n) e = absurd (ground (arith, e))
same_status-sgx_success _ e = absurd cc

run_enclave-created :
    (env : Env) (nrepeats : ℕ)
    → ((run_enclave env nrepeats (initialize_enclave env)).0 ≡ success)
      ↔ (same_status (creation env).0 sgx_success ≡ true)
unfolding run_enclave initialize_enclave
run_enclave-created env nrepeats = elim (Bool-cases (same_status (creation env).0 sgx_success)) [
  | inl h ↦ rw h (λ _. refl, λ _. refl)
  | inr h ↦ rw h (λ e. absurd cc, λ e. absurd cc)
]

Status-cases : (st : Status) → (st ≡ success) ⊎ (st ≡ failure)
Status-cases success = inl refl
Status-cases failure = inr refl

-- The exit status is 0 exactly if there is one argument, its value is not 0 modulo 2^32, and
-- `sgx_create_enclave` for "enclave.signed.so" and the id 0 answers `SGX_SUCCESS`; otherwise it is
-- -1. What the ecall answers has no part in it.
pub main-status :
    (env : Env) (argc : ℕ) (name arg : String)
    → (((main env argc name arg).0 ≡ success) ↔ (
        (argc ≡ 2)
        × (env.atoi arg % 2 ^ 32 ≢ 0)
        × ((env.create_enclave "enclave.signed.so" 0).0 ≡ sgx_success)))
      × (((main env argc name arg).0 ≡ success) ⊎ ((main env argc name arg).0 ≡ failure))
unfolding main
main-status env argc name arg = elim (Bool-cases (argc == 2)) [
  | inr other_count ↦
      rw other_count
        ((λ e. absurd cc, λ (two, some, made). absurd (ground (arith, two, other_count))), inr refl)
  | inl two ↦ elim (Bool-cases (u32 (env.atoi arg) == 0)) [
    | inl none ↦
        rw (two, none)
          (
            (λ e. absurd cc, λ (_, some, _). absurd (some (eq_of_== (u32 (env.atoi arg)) 0 none))),
            inr refl,
          )
    | inr some ↦
        rw (two, some)
          (
            let (ends, made) = run_enclave-created env (u32 (env.atoi arg)) in
                (
                  λ e. (
                    eq_of_== argc 2 two,
                    λ zero. absurd (ground (arith, zero, some)),
                    same_status-sgx_success _ (ends e),
                  ),
                  λ (_, _, e). made (ap (λ r. same_status r sgx_success) e),
                ),
            Status-cases _,
          )
  ]
]
