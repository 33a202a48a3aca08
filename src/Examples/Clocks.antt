-- ===== src/Examples/Clocks.antt =====
-- The timed calls on a processor whose state is its counter, which stops at 2^32 - 1, and a run of
-- the edge-call benchmark that is refused.
use atc22_ae.Base.{ℕ, ◌+◌, ◌-◌, ◌^◌, arith, true, false, ltb, if◌then◌else◌}
use atc22_ae.Sgx.{sgx_success, sgx_error_unexpected}
use atc22_ae.Bench.{Host}
use atc22_ae.Timing.{Cpu}
use atc22_ae.Timing.Clock.{IsClock}
use atc22_ae.EdgeApp.{Sdk}

abbrev time : ℕ → ℕ
time w = if ltb w (2 ^ 32 - 1) then w else 2 ^ 32 - 1

abbrev counter : Cpu ℕ
counter = record {
  tsc = λ w. ((time w, 0), w + 20);
  syscall = λ num w. w + 100;
  vmmcall = λ num w. w + 1000;
}

counter-IsClock : IsClock counter time
counter-IsClock = record {
  low = λ w. ground arith;
  high = λ w. omega arith;
  halves = λ w. omega arith;
  forward = λ w. ground arith;
  forward_syscall = λ num w. ground arith;
  forward_vmmcall = λ num w. ground arith;
}

abbrev silent : Host ℕ ℕ
silent = record {
  emit = λ e w. w;
  qsort = λ cmp n t. t;
  out_name = λ name. name;
  result_path = λ tag now. tag;
  time = λ w. (1700000000, w);
  chdir_ok = λ path w. true;
  fopen_ok = λ path w. true;
}

-- The ecall of the last benchmark is refused.
abbrev refusing : Sdk ℕ
refusing = record {
  create_enclave = λ file eid w. ((sgx_success, 2), w);
  destroy_enclave = λ eid w. w;
  ecall_hello = λ eid message w. w;
  ecall_empty = λ eid w. w + 50;
  ecall_bench_enclave_rdtscp = λ eid count cells w. ((sgx_success, cells), w);
  ecall_bench_ocall_empty = λ eid count cells w. ((sgx_error_unexpected, cells), w);
  enclave_rdtsc = false;
  eenter_eexit_stats = true;
  ecall_get_eenter_stats = λ eid count cycles w. ((3, 30), w);
  get_eexit_stats = λ count cycles w. ((4, 20), w);
}
