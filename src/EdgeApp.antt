-- ===== src/EdgeApp.antt =====
-- The application of the edge-call benchmark, server/edge-calls/App/App.cpp, and the program that
-- runs without an enclave, server/edge-calls/Native/main.cpp.
pub mod Exit
pub mod Run
pub mod Clock
pub mod Refused
pub mod Measures
pub mod Native
pub mod Measured
pub mod Errors
use Prim.Native.String.{String}
use atc22_ae.Base.{
  ℕ, ◌+◌, ◌-◌, ◌%◌, ◌^◌, Bool, true, false, not, Option, none, some, List, [], ◌∷◌, ◌++◌, ltb, map,
  u32, u64, if◌then◌else◌,
}
use atc22_ae.Sgx.{SgxStatus, sgx_success, same_status, print_loop}
use atc22_ae.Sgx
use atc22_ae.App
use atc22_ae.Bench.{
  Double, Host, Event, Arg, num, str, code, real, printed, wrote, stats_csv, print_all,
  bench_in_app, bench_in_enclave, run_bench,
}
use atc22_ae.Timing.{
  Call, Ran, value, exited, ◌>>=◌, lift, Cpu, rdtscp, bench_rdtscp, bench_syscall, bench_hypercall,
}

-- App.h.
abbrev pub enclave_filename : String
enclave_filename = "enclave.signed.so"

-- As it is before the enclave is created.
abbrev pub global_eid : ℕ
global_eid = 0

abbrev pub ErrEntry : Type 0
ErrEntry = Sgx.ErrEntry

-- The table of this program is the text of that of the exception benchmark.
abbrev pub sgx_errlist : List ErrEntry
sgx_errlist = App.sgx_errlist

-- The events of the shared loop, with the arguments of this program.
module _ {D : Type 0} where
  abbrev pub arg : Sgx.Arg → Arg D
  arg (Sgx.num n) = num n
  arg (Sgx.str s) = str s

  abbrev pub event : Sgx.Event → Event D
  event (Sgx.printed format args) = printed format (map arg args)
  event _ = printed "" []

  -- Behind the loop: the line that names the code where no entry has been printed.
  abbrev pub or_code : SgxStatus → List Sgx.Event → List (Event D)
  or_code ret [] =
      printed
        "Error code is 0x%X. Please refer to the \"Intel SGX SDK Developer Reference\" for more details.\n"
        (code ret ∷ [])
      ∷ []
  or_code ret (e ∷ rest) = map event (e ∷ rest)

  unfoldable pub print_error_message : SgxStatus → List (Event D)
  print_error_message ret = or_code ret (print_loop [] sgx_errlist ret)

-- What the program reaches: `sgx_create_enclave` with its status and the id in `global_eid` behind
-- it, the ecalls
-- through their bridges, `sgx_destroy_enclave`, and the counters of the build with
-- `EENTER_EEXIT_STATS`.
pub record Sdk (W : Type 0) : Type 0 where
  pub create_enclave : (file : String) (eid : ℕ) → W → (SgxStatus × ℕ) × W
  pub destroy_enclave : (eid : ℕ) → W → W
  pub ecall_hello : (eid : ℕ) (message : String) → W → W
  pub ecall_empty : (eid : ℕ) → W → W
  pub ecall_bench_enclave_rdtscp :
      (eid count : ℕ) (all_cycles : ℕ → ℕ) → W → (SgxStatus × (ℕ → ℕ)) × W
  pub ecall_bench_ocall_empty : (eid count : ℕ) (all_cycles : ℕ → ℕ) → W → (SgxStatus × (ℕ → ℕ)) × W
  -- The build without `ENCLAVE_RDTSC` reads the clock outside.
  pub enclave_rdtsc : Bool
  -- The build with `EENTER_EEXIT_STATS` has a count and the cycles of both directions: those that
  -- the ecall stored in two zeros, and those of `sgx_get_eexit_stats`.
  pub eenter_eexit_stats : Bool
  pub ecall_get_eenter_stats : (eid : ℕ) (count cycles : ℕ) → W → (ℕ × ℕ) × W
  pub get_eexit_stats : (count cycles : ℕ) → W → (ℕ × ℕ) × W

-- The static arrays of `bench_in_app` and `bench_in_enclave`, before each of their calls.
abbrev pub fresh : ℕ → ℕ
fresh i = 0

-- `warmup_times` and `test_times` of the two `bench_main`.
abbrev pub warmup : ℕ
warmup = 10000

abbrev pub tests : ℕ
tests = 1000000

-- `printf`, whose result is not read.
abbrev pub say : {W D : Type 0} → Host W D → String → List (Arg D) → W → Ran W ℕ
say host format args w = value 0 (host.emit (printed format args) w)

-- `argc > 1 ? argv[1] : ""`
abbrev pub tag_of : Option String → String
tag_of none = ""
tag_of (some given) = given

module _ {W : Type 0} (double : Double) (host : Host W double.Carrier) (cpu : Cpu W)
    (sdk : Sdk W) where
  -- 0, or -1 by its pattern, and the id in `global_eid`.
  unfoldable pub initialize_enclave : Call W (ℕ × ℕ)
  initialize_enclave w =
      let ((ret, eid), w₁) = sdk.create_enclave enclave_filename global_eid w in
      if not (same_status ret sgx_success)
      then ((2 ^ 32 - 1, eid), print_all double host (print_error_message ret) w₁)
      else ((0, eid), w₁)

  unfoldable pub ocall_print_string : String → W → W
  ocall_print_string text w = host.emit (printed "%s" (str text ∷ [])) w

  unfoldable pub ocall_empty : W → W
  ocall_empty w = w

  unfoldable pub ocall_rdtscp : Call W ℕ
  ocall_rdtscp w = rdtscp cpu w

  unfoldable pub bench_ecall_empty : (eid : ℕ) → Call W ℕ
  bench_ecall_empty eid w =
      let (a, w₁) = rdtscp cpu w in
      let (b, w₂) = rdtscp cpu (sdk.ecall_empty eid w₁) in (u64 (b + 2 ^ 64 - a), w₂)

  -- The offset of the last benchmark.
  unfoldable pub time_enclave : (eid time_rdtscp : ℕ) → W → Ran W ℕ
  time_enclave eid time_rdtscp w =
      if sdk.enclave_rdtsc
      then value time_rdtscp w
      else bench_in_enclave double host print_error_message "enclave_rdtscp" 0 warmup tests
          (sdk.ecall_bench_enclave_rdtscp eid) fresh w

  -- One direction of the block of `EENTER_EEXIT_STATS`.
  unfoldable pub report_latency :
      (count_format cycles_format latency_format name : String) (count cycles : ℕ) → W → Ran W ℕ
  report_latency count_format cycles_format latency_format name count cycles = do
    let average = double.div (double.of_nat cycles) (double.of_nat count)
    _ ← say host count_format (num count ∷ [])
    _ ← say host cycles_format (num cycles ∷ [])
    _ ← say host latency_format (real average ∷ [])
    λ w.
        value 0 (host.emit (wrote stats_csv "%s,%d,%lf\n" (str name ∷ num 0 ∷ real average ∷ [])) w)

  unfoldable pub report_stats : (eid : ℕ) → W → Ran W ℕ
  report_stats eid = do
    _ ← say host "\n" []
    (count, cycles) ← lift (sdk.ecall_get_eenter_stats eid 0 0)
    _ ←
        report_latency "  eenter_count = %lld\n" "  eenter_cycles = %lld\n"
          "EENTER latency = %.3lf\n" "eenter" count cycles
    (count', cycles') ← lift (sdk.get_eexit_stats 0 0)
    report_latency "  eexit_count = %lld\n" "  eexit_cycles = %lld\n" "EEXIT latency = %.3lf\n"
        "eexit" count' cycles'

  unfoldable pub bench_main : (eid : ℕ) → W → Ran W ℕ
  bench_main eid = do
    time_rdtscp ← λ w.
        bench_in_app double host "rdtscp" 0 warmup tests (bench_rdtscp cpu) fresh
          (sdk.ecall_hello eid "Hello world!\n" w)
    time_ecall ←
        bench_in_app double host "ecall_empty" time_rdtscp warmup tests (bench_ecall_empty eid)
          fresh
    time_enclave_rdtscp ← time_enclave eid time_rdtscp
    time_ocall ←
        bench_in_enclave double host print_error_message "ocall_empty" time_enclave_rdtscp warmup
          tests (sdk.ecall_bench_ocall_empty eid) fresh
    _ ← say host "rdtcsp: %ld\n" (num time_rdtscp ∷ [])
    _ ← say host "ecall: %ld\n" (num time_ecall ∷ [])
    _ ← say host "ocall: %ld\n" (num time_ocall ∷ [])
    _ ← λ w. if sdk.eenter_eexit_stats then report_stats eid w else value 0 w
    value 0

  -- Behind the creation of the enclave.
  unfoldable pub run_enclave : (tag : String) (eid : ℕ) → W → Ran W ℕ
  run_enclave tag eid = do
    ret ← run_bench double host tag (bench_main eid)
    λ w. value ret (sdk.destroy_enclave eid w)

  -- `argument` is `argv[1]` where there is one.
  unfoldable pub main : (argument : Option String) → W → Ran W ℕ
  main argument w =
      let ((ret, eid), w₁) = initialize_enclave w in
      if ltb ret (2 ^ 31)
      then run_enclave (tag_of argument) eid w₁
      else value (2 ^ 32 - 1) (host.emit (printed "Enter a character before exit ...\n" []) w₁)

-- Native/main.cpp.
module _ {W : Type 0} (double : Double) (host : Host W double.Carrier) (cpu : Cpu W) where
  unfoldable pub native_bench_main : W → Ran W ℕ
  native_bench_main = do
    time_rdtscp ← bench_in_app double host "rdtscp" 0 warmup tests (bench_rdtscp cpu) fresh
    time_syscall ←
        bench_in_app double host "syscall" time_rdtscp warmup tests (bench_syscall cpu) fresh
    time_hypercall ←
        bench_in_app double host "hypercall" time_rdtscp warmup tests (bench_hypercall cpu) fresh
    _ ← say host "rdtscp: %ld\n" (num time_rdtscp ∷ [])
    _ ← say host "syscall: %ld\n" (num time_syscall ∷ [])
    _ ← say host "hypercall: %ld\n" (num time_hypercall ∷ [])
    value 0

  unfoldable pub native_main : W → Ran W ℕ
  native_main = run_bench double host "native" native_bench_main
