-- ===== src/Gu/Counts.antt =====
-- What `ecall_exception` of server/exception/exception_gu_enclave/Enclave/Enclave.cpp returns,
-- leaves behind and prints, if the hypervisor grants the change of the permissions.
use atc22_ae.Base.{
  ℕ, ◌+◌, ◌-◌, ◌*◌, ◌^◌, ◌<◌, ◌≡◌, refl, sym, ◌∙◌, ap, arith, some, List, [], ◌∷◌, bit_or, u32,
}
use atc22_ae.Sgx.{sgx_success}
use atc22_ae.Gu.{
  Line, Info, Enclave, Verdict, Env, value, printf_ocall, pages, buf_size, flag_r, flag_u, mprotect,
  store_loop, ud2_loop, report_writes, report_ud2, after_protect, register, unregister, measure,
  after_register, ecall_exception, rdtscp, elapsed,
}
use atc22_ae.Counter.{IsCounter, joined-reading, reading-bound}
use atc22_ae.Gu.Loops.{ud2_loop_lem, store_loop-eq, store_loop-stored}

-- The lines of a run to the end, the last one first, over those of before: the counter reads `t 0`
-- to `t 3`, and `count` invalid opcodes have been counted.
abbrev pub transcript : (t : ℕ → ℕ) (nrepeats count : ℕ) → List Line → List Line
transcript t nrepeats count older =
    ("#UD Count = %d\n", count ∷ [])
    ∷ ("Average time = %.3lf (cycles)\n\n", (t 3 - t 2 - 60) ∷ nrepeats ∷ [])
    ∷ ("Total Time = %lld (cycles)\n", (t 3 - t 2 - 60) ∷ [])
    ∷ ("Count = %d\n", nrepeats ∷ [])
    ∷ ("test #UD OK\n", [])
    ∷ ("Average time = %.3lf (cycles)\n\n", (t 1 - t 0 - 60) ∷ 32768 ∷ [])
    ∷ ("Total Time = %lld (cycles)\n", (t 1 - t 0 - 60) ∷ [])
    ∷ ("Write Count = %d\n", 32768 ∷ [])
    ∷ ("write OK\n", [])
    ∷ ("read OK: %d\n", 0 ∷ [])
    ∷ ("Register exception handler OK!\n", [])
    ∷ ("Starting...\n", [])
    ∷ older

-- What a run to the end leaves behind.
pub record Counted (t : ℕ → ℕ) (start handler nrepeats : ℕ) (s s' : Enclave) : Type 0 where
  pub ud_count : s'.ud_count ≡ u32 (s.ud_count + nrepeats)
  pub written : (j : ℕ) → j < pages → s'.byte_at (start + 4096 * j) ≡ 1
  pub sdk_calls : s'.sdk_calls ≡ unregister handler ∷ register handler ∷ s.sdk_calls
  pub printed : s'.output ≡ transcript t nrepeats (u32 (s.ud_count + nrepeats)) s.output

module _ (env : Env) (handler nrepeats : ℕ) (s : Enclave) where
  -- The state in which the permissions are changed.
  abbrev pub before_protect : Enclave
  before_protect = store_loop pages env.test_buf 0 (
      printf_ocall "Register exception handler OK!\n" []
        (record (printf_ocall "Starting...\n" [] s) {
          sdk_calls = register handler ∷ (printf_ocall "Starting...\n" [] s).sdk_calls;
        }))

  -- Behind the second store loop.
  abbrev stored : Enclave
  stored =
      store_loop pages env.test_buf 1
        (printf_ocall "read OK: %d\n" (before_protect.byte_at env.test_buf ∷ []) before_protect)

  abbrev before_ud2 : Enclave
  before_ud2 = report_writes env stored

  abbrev ended : Enclave
  ended =
      let s₄ = record before_ud2 { ud_count = u32 (before_ud2.ud_count + nrepeats) } in
      let s₅ = report_ud2 env nrepeats s₄ in
      let s₆ = printf_ocall "#UD Count = %d\n" (s₅.ud_count ∷ []) s₅ in
      record s₆ { sdk_calls = unregister handler ∷ s₆.sdk_calls }

  measure_run :
      mprotect env env.test_buf buf_size (bit_or flag_r flag_u) ≡ 0
      → ud2_loop env nrepeats before_ud2
        ≡ value (record before_ud2 { ud_count = u32 (before_ud2.ud_count + nrepeats) })
      → measure env handler nrepeats (record (printf_ocall "Starting...\n" [] s) {
        sdk_calls = register handler ∷ (printf_ocall "Starting...\n" [] s).sdk_calls;
      })
        ≡ value (sgx_success, ended)
  unfolding measure after_protect
  measure_run m u = rw (m, u) refl

  ecall_run :
      env.registration ≡ some handler
      → mprotect env env.test_buf buf_size (bit_or flag_r flag_u) ≡ 0
      → ud2_loop env nrepeats before_ud2
        ≡ value (record before_ud2 { ud_count = u32 (before_ud2.ud_count + nrepeats) })
      → ecall_exception env nrepeats s ≡ value (sgx_success, ended)
  unfolding ecall_exception after_register
  ecall_run r m u =
      ap (λ o. after_register o env nrepeats (printf_ocall "Starting...\n" [] s)) r
      ∙ measure_run m u

  stored_count : stored.ud_count ≡ s.ud_count
  unfolding printf_ocall
  stored_count =
      ap (λ (t : Enclave). t.ud_count) (store_loop-eq pages env.test_buf 1 _)
      ∙ ap (λ (t : Enclave). t.ud_count) (store_loop-eq pages env.test_buf 0 _)

  before_ud2_count : before_ud2.ud_count ≡ s.ud_count
  unfolding report_writes printf_ocall
  before_ud2_count = stored_count

  stored_calls : stored.sdk_calls ≡ register handler ∷ s.sdk_calls
  unfolding printf_ocall
  stored_calls =
      ap (λ (t : Enclave). t.sdk_calls) (store_loop-eq pages env.test_buf 1 _)
      ∙ ap (λ (t : Enclave). t.sdk_calls) (store_loop-eq pages env.test_buf 0 _)

  read_first : before_protect.byte_at env.test_buf ≡ 0
  read_first =
      let here : env.test_buf + 4096 * 0 ≡ env.test_buf = omega arith in
      ap before_protect.byte_at (sym here)
      ∙ store_loop-stored pages env.test_buf 0
          (printf_ocall "Register exception handler OK!\n" []
            (record (printf_ocall "Starting...\n" [] s) {
              sdk_calls = register handler ∷ (printf_ocall "Starting...\n" [] s).sdk_calls;
            }))
          0 (omega arith)

  pub before_protect_output :
      before_protect.output
      ≡ ("Register exception handler OK!\n", []) ∷ ("Starting...\n", []) ∷ s.output
  unfolding printf_ocall
  before_protect_output = ap (λ (t : Enclave). t.output) (store_loop-eq pages env.test_buf 0 _)

  stored_output :
      stored.output
      ≡ ("read OK: %d\n", 0 ∷ [])
        ∷ ("Register exception handler OK!\n", [])
        ∷ ("Starting...\n", [])
        ∷ s.output
  unfolding printf_ocall
  stored_output =
      ap (λ (t : Enclave). t.output) (store_loop-eq pages env.test_buf 1 _)
      ∙ ap (λ (b : ℕ). ("read OK: %d\n", b ∷ []) ∷ before_protect.output) read_first
      ∙ ap (λ (l : List Line). ("read OK: %d\n", 0 ∷ []) ∷ l) before_protect_output

  module _ (t : ℕ → ℕ) (counter : IsCounter env.tsc t) where
    reads : (k : ℕ) → rdtscp env k ≡ t k
    unfolding rdtscp
    reads k = joined-reading env.tsc t counter k

    first_total : elapsed (rdtscp env 0) (rdtscp env 1) ≡ t 1 - t 0 - 60
    first_total = omega (arith, reads 0, reads 1, counter.first, reading-bound env.tsc t counter 1)

    second_total : elapsed (rdtscp env 2) (rdtscp env 3) ≡ t 3 - t 2 - 60
    second_total =
        omega (arith, reads 2, reads 3, counter.second, reading-bound env.tsc t counter 3)

    ended-transcript : ended.output ≡ transcript t nrepeats (u32 (s.ud_count + nrepeats)) s.output
    unfolding report_writes report_ud2 printf_ocall
    ended-transcript = rw (stored_count, first_total, second_total, stored_output) refl

    ended-Counted : Counted t env.test_buf handler nrepeats s ended
    unfolding report_writes report_ud2 printf_ocall
    ended-Counted = record {
      ud_count = ap (λ (t : ℕ). u32 (t + nrepeats)) before_ud2_count;
      written = λ j h. store_loop-stored pages env.test_buf 1 _ j h;
      sdk_calls = ap (λ l. unregister handler ∷ l) stored_calls;
      printed = ended-transcript;
    }

-- If the handler is registered and the hypercall returns 0, the SDK calls the handler and resumes
-- what it leaves, `rdtscp` reads a counter as `IsCounter` says, and the count of invalid opcodes is
-- below 2^32, then the ecall ends with SGX_SUCCESS. It has counted one invalid opcode for each of
-- the `nrepeats` instructions (modulo 2^32), has stored 1 in each page, has unregistered the
-- handler that it registered, and has printed the twelve lines of `transcript`: the byte read is 0,
-- the times are those between the readings less 60, and the last line is the count.
pub ecall_exception-success :
    (env : Env) (t : ℕ → ℕ) (handler nrepeats : ℕ) (s : Enclave)
    → IsCounter env.tsc t
    → ((h : Info → Enclave → Verdict × Info × Enclave) (i : Info) (s : Enclave)
        → env.dispatch h i s ≡ h i s)
    → env.registration ≡ some handler
    → mprotect env env.test_buf buf_size (bit_or flag_r flag_u) ≡ 0
    → s.ud_count < 2 ^ 32
    → (s' : Enclave) × (ecall_exception env nrepeats s ≡ value (sgx_success, s'))
      × Counted t env.test_buf handler nrepeats s s'
ecall_exception-success env t handler nrepeats s counter direct r m small = (
  ended env handler nrepeats s,
  ecall_run env handler nrepeats s r m (
      ud2_loop_lem env direct nrepeats (before_ud2 env handler nrepeats s)
        (rw (before_ud2_count env handler nrepeats s) small)),
  ended-Counted env handler nrepeats s t counter,
)
