-- ===== src/Gu.antt =====
-- The GU-Enclave of the exception benchmark,
-- server/exception/exception_gu_enclave/Enclave/Enclave.cpp and mm.h. Exceptions reach its handler
-- through the SDK, page permissions are changed by a hypercall; both are parameters.
pub mod Loops
pub mod Counts
pub mod Refused
use Prim.Native.String.{String}
use atc22_ae.Base.{
  ℕ, zero, suc, ◌+◌, ◌-◌, ◌/◌, ◌%◌, ◌^◌, Bool, true, false, Option, none, some, List, [], ◌∷◌, ◌==◌,
  if◌then◌else◌, bit_or, u32, u64, ◌<<<◌,
}
use atc22_ae.Sgx.{SgxStatus, sgx_success, sgx_error_unexpected}

abbrev pub Line : Type 0
Line = String × List ℕ

-- The parts of `sgx_exception_info_t` that the handler reads or writes.
pub record Info : Type 0 where
  pub exception_vector : ℕ
  pub rip : ℕ

-- The calls that register a handler with the SDK, with the pointer that stands for it, and that
-- unregister it.
pub data SdkCall : Type 0 where
  register : ℕ → SdkCall
  unregister : ℕ → SdkCall

-- `g_ud_count`, the bytes that the loops store, what has been printed, and the calls of the SDK, the
-- last one first.
pub record Enclave : Type 0 where
  pub ud_count : ℕ
  pub byte_at : ℕ → ℕ
  pub output : List Line
  pub sdk_calls : List SdkCall

-- The enclave when it has been created: the counter and the buffer hold zeros.
abbrev pub loaded : Enclave
loaded = record { ud_count = 0; byte_at = λ _. 0; output = []; sdk_calls = [] }

-- The one result that the handler returns.
pub data Verdict : Type 0 where
  exception_continue_execution : Verdict

unfoldable pub printf_ocall : String → List ℕ → Enclave → Enclave
printf_ocall fmt args s = record s { output = (fmt, args) ∷ s.output }

unfoldable pub exception_handler : Info → Enclave → Verdict × Info × Enclave
exception_handler info s =
    let vec : ℕ = u32 info.exception_vector in
    if vec == 0x6
    then (
      exception_continue_execution,
      record info { rip = u64 (info.rip + 2) },
      record s { ud_count = u32 (s.ud_count + 1) },
    )
    else (
      exception_continue_execution,
      info,
      printf_ocall "ERROR: unexcept exception: %lld @ %016llx\n" (vec ∷ info.rip ∷ []) s,
    )

abbrev pub Dispatcher : Type 0
Dispatcher = (Info → Enclave → Verdict × Info × Enclave) → Info → Enclave → Verdict × Info × Enclave

abbrev pub pgsize : ℕ
pgsize = 4096

-- `128 << 20`
abbrev pub buf_size : ℕ
buf_size = 128 <<< 20

abbrev pub flag_r : ℕ
flag_r = 1 <<< 0

abbrev pub flag_w : ℕ
flag_w = 1 <<< 1

abbrev pub flag_x : ℕ
flag_x = 1 <<< 2

abbrev pub flag_u : ℕ
flag_u = 1 <<< 9

-- What the code calls but does not define: `sgx_register_exception_handler` (NULL is `none`), the
-- SDK's way to the handler, the hypercall by its number and three arguments, and the registers
-- `eax` and `edx` behind each `rdtscp`.
pub record Env : Type 0 where
  pub registration : Option ℕ
  pub dispatch : Dispatcher
  pub vmmcall : ℕ → ℕ → ℕ → ℕ → ℕ
  pub tsc : ℕ → ℕ × ℕ
  pub test_buf : ℕ
  pub ud2_rip : ℕ

-- How the ecall ends: by its return, by `abort()`, or at an instruction that is not its own.
pub data Run (A : Type 0) : Type 0 where
  value : A → Run A
  died : Enclave → Run A
  astray : Run A

infixl 5 ◌>>=◌
abbrev pub ◌>>=◌ : {A B : Type 0} → Run A → (A → Run B) → Run B
value a >>= f = f a
died s >>= f = died s
astray >>= f = astray

-- `mprotect` of mm.h; its result is the `int` in `eax`.
unfoldable pub mprotect : Env → (addr len flags : ℕ) → ℕ
mprotect env addr len flags = u32 (env.vmmcall 0x80006666 addr len flags)

-- `for (int i = 0; i < BUF_SIZE; i += PGSIZE) test_buf[i] = x;`. The faults
-- of these stores are taken to be the monitor's: it makes each store pass, and the enclave sees
-- nothing of them.
unfoldable pub store_loop : (left : ℕ) (v x : ℕ) → Enclave → Enclave
store_loop zero v x s = s
store_loop (suc left) v x s =
    store_loop left (v + pgsize) x (record s { byte_at = λ q. if q == v then x else s.byte_at q })

-- `ud2`: the SDK calls the handler, and execution goes on at the `rip` that it leaves.
unfoldable pub ud2 : Env → Enclave → Run Enclave
ud2 env s =
    let (verdict, info, s') =
      env.dispatch exception_handler (record { exception_vector = 6; rip = env.ud2_rip }) s in
    if info.rip == u64 (env.ud2_rip + 2) then value s' else astray

unfoldable pub ud2_loop : Env → ℕ → Enclave → Run Enclave
ud2_loop env zero s = value s
ud2_loop env (suc left) s = ud2 env s >>= λ s'. ud2_loop env left s'

-- Reading number `k` of the clock.
unfoldable pub rdtscp : Env → (k : ℕ) → ℕ
rdtscp env k = bit_or (u64 ((env.tsc k).1 <<< 32)) (env.tsc k).0

-- `time_end - time_begin - 60` on `uint64_t`.
abbrev pub elapsed : (begin end : ℕ) → ℕ
elapsed begin end = u64 (end + 2 ^ 65 - begin - 60)

abbrev pub pages : ℕ
pages = buf_size / pgsize

unfoldable pub report_writes : Env → Enclave → Enclave
report_writes env s =
    let total : ℕ = elapsed (rdtscp env 0) (rdtscp env 1) in
    printf_ocall "Average time = %.3lf (cycles)\n\n" (total ∷ pages ∷ []) (
      printf_ocall "Total Time = %lld (cycles)\n" (total ∷ [])
        (printf_ocall "Write Count = %d\n" (pages ∷ []) (printf_ocall "write OK\n" [] s)))

unfoldable pub report_ud2 : Env → (nrepeats : ℕ) → Enclave → Enclave
report_ud2 env nrepeats s =
    let total : ℕ = elapsed (rdtscp env 2) (rdtscp env 3) in
    printf_ocall "Average time = %.3lf (cycles)\n\n" (total ∷ nrepeats ∷ []) (
      printf_ocall "Total Time = %lld (cycles)\n" (total ∷ [])
        (printf_ocall "Count = %d\n" (nrepeats ∷ []) (printf_ocall "test #UD OK\n" [] s)))

-- What follows the hypercall that takes the write permission away.
unfoldable pub after_protect : Env → (ret : ℕ) → Enclave → Run Enclave
after_protect env ret s =
    if ret == 0
    then value (printf_ocall "read OK: %d\n" (s.byte_at env.test_buf ∷ []) s)
    else died (printf_ocall "ERROR: mprotect returns: %d\n" (ret ∷ []) s)

-- Behind a successful registration, up to the end.
unfoldable pub measure : Env → (handler nrepeats : ℕ) → Enclave → Run (SgxStatus × Enclave)
measure env handler nrepeats s = do
  let s₁ = store_loop pages env.test_buf 0 (printf_ocall "Register exception handler OK!\n" [] s)
  let ret = mprotect env env.test_buf buf_size (bit_or flag_r flag_u)
  s₂ ← after_protect env ret s₁
  let s₃ = report_writes env (store_loop pages env.test_buf 1 s₂)
  s₄ ← ud2_loop env nrepeats s₃
  let s₅ = report_ud2 env nrepeats s₄
  let s₆ = printf_ocall "#UD Count = %d\n" (s₅.ud_count ∷ []) s₅
  value (sgx_success, record s₆ { sdk_calls = unregister handler ∷ s₆.sdk_calls })

-- What follows the registration.
unfoldable pub after_register :
    Option ℕ → Env → (nrepeats : ℕ) → Enclave → Run (SgxStatus × Enclave)
after_register none env nrepeats s = value (sgx_error_unexpected, s)
after_register (some h) env nrepeats s =
    measure env h nrepeats (record s { sdk_calls = register h ∷ s.sdk_calls })

unfoldable pub ecall_exception : Env → (nrepeats : ℕ) → Enclave → Run (SgxStatus × Enclave)
ecall_exception env nrepeats s =
    after_register env.registration env nrepeats (printf_ocall "Starting...\n" [] s)
