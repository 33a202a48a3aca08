-- ===== src/Examples/Benchmarks.antt =====
-- The theorems on the applications, on the enclaves that get their exceptions from the SDK, and on
-- the edge-call benchmark, at concrete answers of what they call.
use atc22_ae.Base.{
  ℕ, ◌+◌, ◌-◌, ◌≡◌, refl, arith, true, ◌↔◌, ◌⊎◌, ◌≢◌, ◌%◌, ◌^◌, some, List, [], ◌∷◌, bit_or,
}
use atc22_ae.Sgx.{sgx_success, sgx_error_unexpected}
use atc22_ae.Examples.Readings.{t, tsc, tsc-IsCounter}
use atc22_ae.App
use atc22_ae.App.{creation, nrepeats_of, benchmark_exception_ecall}
use atc22_ae.App.Exit.{main-status}
use atc22_ae.Outcome.{success, failure}
use atc22_ae.Gu
use atc22_ae.Gu.{Info, Line, register, unregister}
use atc22_ae.Gu.Counts.{Counted, ecall_exception-success}
use atc22_ae.SgxEnclave
use atc22_ae.SgxEnclave.{total_time}
use atc22_ae.Bench.{Double, Host, cmpfunc, write_loop, wrote, run_bench}
use atc22_ae.Bench

abbrev pub app : App.Env
app = record {
  create_enclave = λ file eid. (sgx_success, 2);
  ecall_exception = λ eid n. ((sgx_error_unexpected, sgx_success), []);
  elapsed = (1, 500);
  atoi = λ _. 1000;
}

main-status_example :
    (((App.main app 2 "app" "1000").0 ≡ success)
      ↔ ((◌≡◌ {A = ℕ} 2 2) × (◌≢◌ {A = ℕ} (1000 % 2 ^ 32) 0) × (sgx_success ≡ sgx_success)))
    × (((App.main app 2 "app" "1000").0 ≡ success) ⊎ ((App.main app 2 "app" "1000").0 ≡ failure))
main-status_example = main-status app 2 "app" "1000"

-- The GU-Enclave with an SDK that calls the handler.
abbrev pub gu : Gu.Env
gu = record {
  registration = some 0x5000;
  dispatch = λ h i s. h i s;
  vmmcall = λ n a b c. 0;
  tsc = tsc;
  test_buf = 0x10000000;
  ud2_rip = 0x401000;
}

abbrev pub gu_enclave : Gu.Enclave
gu_enclave = record { ud_count = 3; byte_at = λ _. 7; output = []; sdk_calls = [] }

pub accepted : Gu.mprotect gu 0x10000000 Gu.buf_size (bit_or Gu.flag_r Gu.flag_u) ≡ 0
unfolding Gu.mprotect
accepted = refl

ecall_exception-success_example :
    (s' : Gu.Enclave) × (Gu.ecall_exception gu 1000 gu_enclave ≡ Gu.value (sgx_success, s'))
    × Counted t 0x10000000 0x5000 1000 gu_enclave s'
ecall_exception-success_example =
    ecall_exception-success gu t 0x5000 1000 gu_enclave tsc-IsCounter (λ h i s. refl) refl accepted
      (omega arith)

abbrev pub gu_refused : Gu.Env
gu_refused = record gu { vmmcall = λ n a b c. 22 }

pub refused : Gu.mprotect gu_refused 0x10000000 Gu.buf_size (bit_or Gu.flag_r Gu.flag_u) ≡ 22
unfolding Gu.mprotect
refused = refl

abbrev pub sgx : SgxEnclave.Env
sgx = record {
  registration = some 0x5000;
  dispatch = λ h i s. h i s;
  time_begin = 1000;
  time_end = 900000;
  ud2_rip = 0x401000;
}

abbrev pub sgx_enclave : SgxEnclave.Enclave
sgx_enclave = record { ud_count = 3; output = []; sdk_calls = [] }

-- Numbers in place of `double`, and a world that is the list of events.
abbrev pub double : Double
double = record {
  Carrier = ℕ;
  of_nat = λ n. n;
  half = 0;
  add = λ a b. a + b;
  sub = λ a b. a - b;
  mul = λ a b. a;
  div = λ a b. a;
  sqrt = λ a. a;
  to_u64 = λ a. a;
}

abbrev pub host : Host (List (Bench.Event ℕ)) ℕ
host = record {
  emit = λ e w. e ∷ w;
  qsort = λ cmp n t. t;
  out_name = λ name. name;
  result_path = λ tag now. tag;
  time = λ w. (1700000000, w);
  chdir_ok = λ path w. true;
  fopen_ok = λ path w. true;
}
