-- ===== src/Gu/Refused.antt =====
-- What `ecall_exception` of server/exception/exception_gu_enclave/Enclave/Enclave.cpp leaves
-- behind, if the hypervisor refuses the change of the permissions.
use atc22_ae.Base.{ℕ, ◌≡◌, ◌≢◌, refl, ◌∙◌, ap, ==_of_ne, some, List, [], ◌∷◌, bit_or}
use atc22_ae.Gu.{
  Line, Enclave, Env, died, printf_ocall, pages, buf_size, flag_r, flag_u, mprotect, after_protect,
  register, measure, after_register, ecall_exception,
}
use atc22_ae.Gu.Loops.{store_loop-eq}
use atc22_ae.Gu.Counts.{before_protect, before_protect_output}

measure_died :
    (env : Env) (handler ret nrepeats : ℕ) (s : Enclave)
    → mprotect env env.test_buf buf_size (bit_or flag_r flag_u) ≡ ret
    → ret ≢ 0
    → measure env handler nrepeats (record (printf_ocall "Starting...\n" [] s) {
      sdk_calls = register handler ∷ (printf_ocall "Starting...\n" [] s).sdk_calls;
    })
      ≡ died (
          printf_ocall "ERROR: mprotect returns: %d\n"
            (ret ∷ [])
            (before_protect env handler nrepeats s))
unfolding measure after_protect
measure_died env handler ret nrepeats s m ne = rw (m, ==_of_ne ret 0 ne) refl

-- If the handler is registered and the hypercall returns another value than 0, the program ends with
-- that value printed last, behind the two lines of the start, no invalid opcode counted, and the
-- handler still registered.
pub ecall_exception-died :
    (env : Env) (handler ret nrepeats : ℕ) (s : Enclave)
    → env.registration ≡ some handler
    → mprotect env env.test_buf buf_size (bit_or flag_r flag_u) ≡ ret
    → ret ≢ 0
    → (s' : Enclave) × (ecall_exception env nrepeats s ≡ died s')
      × (s'.ud_count ≡ s.ud_count)
      × (s'.sdk_calls ≡ register handler ∷ s.sdk_calls)
      × (s'.output
          ≡ ("ERROR: mprotect returns: %d\n", ret ∷ [])
            ∷ ("Register exception handler OK!\n", [])
            ∷ ("Starting...\n", [])
            ∷ s.output)
unfolding ecall_exception after_register printf_ocall
ecall_exception-died env handler ret nrepeats s r m ne = (
  printf_ocall "ERROR: mprotect returns: %d\n" (ret ∷ []) (before_protect env handler nrepeats s),
  ap (λ o. after_register o env nrepeats (printf_ocall "Starting...\n" [] s)) r
      ∙ measure_died env handler ret nrepeats s m ne,
  ap (λ (t : Enclave). t.ud_count) (store_loop-eq pages env.test_buf 0 _),
  ap (λ (t : Enclave). t.sdk_calls) (store_loop-eq pages env.test_buf 0 _),
  ap (λ (l : List Line). ("ERROR: mprotect returns: %d\n", ret ∷ []) ∷ l)
      (before_protect_output env handler nrepeats s),
)
