-- ===== src/Examples/Measured.antt =====
-- The whole runs of the two edge-call programs in a world that is the list of events and a counter,
-- which stops at 2^32 - 1.
use atc22_ae.Base.{
  ℕ, ◌+◌, ◌-◌, ◌^◌, ◌≡◌, refl, arith, Bool, true, false, none, List, [], ◌∷◌, ltb, if◌then◌else◌,
}
use atc22_ae.Sgx.{sgx_success}
use atc22_ae.Bench.{Host, printed, closed, stats_csv, bench_in_app}
use atc22_ae.Bench.Measured.{measured_stats}
use atc22_ae.Bench.Cells.{bench_in_app-cells}
use atc22_ae.Bench
use atc22_ae.Timing.{Cpu, rdtscp, bench_rdtscp, bench_syscall, bench_hypercall, value}
use atc22_ae.Timing.Clock.{IsClock}
use atc22_ae.EdgeEnclave
use atc22_ae.EdgeEnclave.{Edge}
use atc22_ae.EdgeApp.{Sdk, native_main, main, ocall_rdtscp}
use atc22_ae.EdgeApp.Clock.{IsEdgeClock}
use atc22_ae.EdgeApp.Run.{EdgeBridge}
use atc22_ae.EdgeApp.Measures.{app_run, AppMeasures, opened_world}
use atc22_ae.EdgeApp.Native.{told, native_main-Measured}
use atc22_ae.EdgeApp.Measured.{EdgeRun, edge_main-EdgeRun}
use atc22_ae.Examples.Benchmarks.{double}

abbrev World : Type 0
World = List (Bench.Event ℕ) × ℕ

abbrev time : World → ℕ
time w = if ltb w.1 (2 ^ 32 - 1) then w.1 else 2 ^ 32 - 1

abbrev later : ℕ → World → World
later cycles w = (w.0, w.1 + cycles)

abbrev cpu : Cpu World
cpu = record {
  tsc = λ w. ((time w, 0), later 20 w);
  syscall = λ num w. later 100 w;
  vmmcall = λ num w. later 1000 w;
}

cpu-IsClock : IsClock cpu time
cpu-IsClock = record {
  low = λ w. ground arith;
  high = λ w. omega arith;
  halves = λ w. omega arith;
  forward = λ w. ground arith;
  forward_syscall = λ num w. ground arith;
  forward_vmmcall = λ num w. ground arith;
}

abbrev host : Host World ℕ
host = record {
  emit = λ e w. (e ∷ w.0, w.1 + 5);
  qsort = λ cmp n t. t;
  out_name = λ name. name;
  result_path = λ tag now. tag;
  time = λ w. (1700000000, w);
  chdir_ok = λ path w. true;
  fopen_ok = λ path w. true;
}

native_main-Measured_example :
    let w : World = ([], 7) in
    let (a, w₁) =
      app_run double host "rdtscp" 0 (bench_rdtscp cpu) (opened_world host "native" w) in
    let (b, w₂) = app_run double host "syscall" a (bench_syscall cpu) w₁ in
    let (c, w₃) = app_run double host "hypercall" a (bench_hypercall cpu) w₂ in
    (native_main double host cpu w
      ≡ value 0 (host.emit (closed stats_csv) (told double host cpu a b c w₃)))
    × AppMeasures double host time
        (bench_rdtscp cpu)
        (λ u. (rdtscp cpu u).1)
        "rdtscp"
        0
        (opened_world host "native" w)
    × AppMeasures double host time
        (bench_syscall cpu)
        (λ u. later 100 (rdtscp cpu u).1)
        "syscall"
        a
        w₁
    × AppMeasures double host time
        (bench_hypercall cpu)
        (λ u. later 1000 (rdtscp cpu u).1)
        "hypercall"
        a
        w₂
native_main-Measured_example =
    native_main-Measured double host cpu time ([], 7) cpu-IsClock refl refl (λ name w. refl)

-- A file opens as long as nothing has been printed.
abbrev before_output : List (Bench.Event ℕ) → Bool
before_output (printed format args ∷ w) = false
before_output _ = true

abbrev full_disk : Host World ℕ
full_disk = record host { fopen_ok = λ path w. before_output w.0 }

bench_in_app-cells_example :
    (bench_in_app double host "rdtscp" 0 10 100 (bench_rdtscp cpu) (λ j. 0) ([], 7)
      ≡ bench_in_app double host "rdtscp" 0 10 100 (bench_rdtscp cpu) (λ j. 3 + j) ([], 7))
    × (measured_stats double host (bench_rdtscp cpu) "rdtscp" 0 10 100 (λ j. 0) ([], 7)
        ≡ measured_stats double host (bench_rdtscp cpu) "rdtscp" 0 10 100 (λ j. 3 + j) ([], 7))
bench_in_app-cells_example =
    bench_in_app-cells double host (bench_rdtscp cpu) "rdtscp" 0 10 100 (λ j. 0) (λ j. 3 + j)
      ([], 7)

-- The clock outside the enclave, as the ocall reads it.
abbrev outside : World → ℕ × World
outside w = rdtscp cpu w

abbrev edge : Edge World
edge = record {
  cpu = cpu;
  inside = false;
  ocall_rdtscp = outside;
  ocall_empty = later 70;
  ocall_print_string = λ s w. w;
  bufsiz = 8192;
  vsnprintf_string = λ s. s;
}

abbrev sdk : Sdk World
sdk = record {
  create_enclave = λ file eid w. ((sgx_success, 2), w);
  destroy_enclave = λ eid w. w;
  ecall_hello = λ eid message w. w;
  ecall_empty = λ eid w. later 50 w;
  ecall_bench_enclave_rdtscp = λ eid count cells w. (
    (sgx_success, (EdgeEnclave.ecall_bench_enclave_rdtscp edge count cells w).0),
    (EdgeEnclave.ecall_bench_enclave_rdtscp edge count cells w).1,
  );
  ecall_bench_ocall_empty = λ eid count cells w. (
    (sgx_success, (EdgeEnclave.ecall_bench_ocall_empty edge count cells w).0),
    (EdgeEnclave.ecall_bench_ocall_empty edge count cells w).1,
  );
  enclave_rdtsc = false;
  eenter_eexit_stats = true;
  ecall_get_eenter_stats = λ eid count cycles w. ((3, 30), w);
  get_eexit_stats = λ count cycles w. ((4, 20), w);
}

bridge : EdgeBridge sdk edge 2
bridge = record { rdtscp = λ count cells w. refl; ocall_empty = λ count cells w. refl }

edge-IsEdgeClock : IsEdgeClock double host cpu sdk edge 2 time
unfolding ocall_rdtscp
edge-IsEdgeClock = record {
  outside = cpu-IsClock;
  inside = cpu-IsClock;
  ocall = refl;
  forward_ocall = λ w. ground arith;
  forward_ecall = λ w. ground arith;
}

edge_main-EdgeRun_example :
    let w : World = ([], 7) in
    (u : World) × EdgeRun double host cpu sdk edge 2 time (opened_world host "" w) u
    × (main double host cpu sdk none w ≡ value 0 (host.emit (closed stats_csv) u))
edge_main-EdgeRun_example =
    edge_main-EdgeRun double host cpu sdk edge none 2 time ([], 7) ([], 7) refl bridge
      edge-IsEdgeClock refl refl (λ name w. refl)
