-- ===== src/Bench.antt =====
-- The statistics of the benchmarks and their files, server/edge-calls/Include/bench.h, with
-- user_types.h.
pub mod Compare
pub mod Permuted
pub mod Results
pub mod Extremes
pub mod Reordered
pub mod Measured
pub mod Cells
use Prim.Native.String.{String}
use atc22_ae.Base.{
  ℕ, zero, suc, ◌+◌, ◌-◌, ◌/◌, ◌%◌, ◌^◌, Bool, true, false, List, [], ◌∷◌, ◌==◌, ltb, if◌then◌else◌,
  bit_or, u32, u64, ◌<<<◌,
}
use atc22_ae.Sgx.{SgxStatus, sgx_success, same_status}
use atc22_ae.Timing.{Call, Ran, value, exited, crashed, ◌>>=◌, lift, batched_bench}

-- `MAX_RUN_TIMES`
abbrev pub max_run_times : ℕ
max_run_times = 2000000

-- The arithmetic of `double` with the library's `sqrt`.
pub record Double : Type 1 where
  pub Carrier : Type 0
  pub of_nat : ℕ → Carrier
  pub half : Carrier
  pub add : Carrier → Carrier → Carrier
  pub sub : Carrier → Carrier → Carrier
  pub mul : Carrier → Carrier → Carrier
  pub div : Carrier → Carrier → Carrier
  pub sqrt : Carrier → Carrier
  pub to_u64 : Carrier → ℕ

-- The `int` result by its 32-bit pattern.
unfoldable pub cmpfunc : (aa bb : ℕ) → ℕ
cmpfunc aa bb = if ltb bb aa then 1 else if ltb aa bb then 2 ^ 32 - 1 else 0

-- What is printed and written.
pub data Arg (D : Type 0) : Type 0 where
  num : ℕ → Arg D
  real : D → Arg D
  str : String → Arg D
  code : SgxStatus → Arg D

pub data Event (D : Type 0) : Type 0 where
  printed : String → List (Arg D) → Event D
  opened : (path : String) (mode : String) → Event D
  wrote : (path : String) (format : String) → List (Arg D) → Event D
  closed : (path : String) → Event D
  made_directory : (path : String) → Event D
  changed_directory : (path : String) → Event D

-- The file of `g_stats_file`.
abbrev pub stats_csv : String
stats_csv = "stats.csv"

-- The C library and the state outside: `qsort` of the first `n` cells, `snprintf` of the two paths,
-- `time`, whether `chdir` and `fopen` succeed, and how an event changes the world.
pub record Host (W : Type 0) (D : Type 0) : Type 0 where
  pub emit : Event D → W → W
  pub qsort : (ℕ → ℕ → ℕ) → (n : ℕ) → (ℕ → ℕ) → ℕ → ℕ
  pub out_name : String → String
  pub result_path : (tag : String) (now : ℕ) → String
  pub time : Call W ℕ
  pub chdir_ok : String → W → Bool
  pub fopen_ok : String → W → Bool

-- `t[i] = all_cycles[i + warmup_times]` for `i` below `n`.
abbrev pub samples : (warmup_times n : ℕ) (all_cycles : ℕ → ℕ) → ℕ → ℕ
samples warmup_times n all_cycles i = if ltb i n then all_cycles (i + warmup_times) else 0

-- What `bench_stats` computes.
pub record Stats (D : Type 0) : Type 0 where
  pub median : D
  pub ave : D
  pub min : D
  pub max : D
  pub std : D

module _ (double : Double) where
  -- The two sums of the loop over `t`.
  unfoldable pub sum_loop :
      (left i : ℕ) (t : ℕ → ℕ) (sum sum2 : double.Carrier) → double.Carrier × double.Carrier
  sum_loop zero i t sum sum2 = (sum, sum2)
  sum_loop (suc left) i t sum sum2 =
      sum_loop left (i + 1) t (double.add sum (double.of_nat (t i))) (
        double.add sum2
          (double.mul (double.mul (double.of_nat 1) (double.of_nat (t i))) (double.of_nat (t i))))

  -- The loop that writes the samples to the file, in the order of the measurement.
  unfoldable pub write_loop :
      (path : String) (left i warmup_times : ℕ) (all_cycles : ℕ → ℕ) → List (Event double.Carrier)
  write_loop path zero i warmup_times all_cycles = []
  write_loop path (suc left) i warmup_times all_cycles =
      wrote path "%ld\n" (num (all_cycles (i + warmup_times)) ∷ [])
      ∷ write_loop path left (i + 1) warmup_times all_cycles

  -- The five numbers. With no sample the source reads `t[-1]`.
  unfoldable pub stats : (time_offset n : ℕ) (t : ℕ → ℕ) → Stats double.Carrier
  stats time_offset n t =
      let (sum, sum2) = sum_loop n 0 t (double.of_nat 0) (double.of_nat 0) in
      let offset = double.of_nat time_offset in
      let ave = double.div (double.mul (double.of_nat 1) sum) (double.of_nat n) in
      record {
        median =
            double.sub
              (double.div (double.of_nat (u64 (t (n / 2) + t ((n - 1) / 2)))) (double.of_nat 2))
              offset;
        ave = double.sub ave offset;
        min = double.sub (double.of_nat (t 0)) offset;
        max = double.sub (double.of_nat (t (n - 1))) offset;
        std = double.sqrt (double.sub (double.div sum2 (double.of_nat n)) (double.mul ave ave));
      }

  -- What is printed of the numbers, and the row of the file of statistics.
  unfoldable pub report : Stats double.Carrier → List (Event double.Carrier)
  report r =
      printed "Median = %.3lf\n" (real r.median ∷ [])
      ∷ printed "Average = %.3lf\n" (real r.ave ∷ [])
      ∷ printed "Min = %.3lf\n" (real r.min ∷ [])
      ∷ printed "Max = %.3lf\n" (real r.max ∷ [])
      ∷ printed "Deviation = %.3lf\n" (real r.std ∷ [])
      ∷ printed "\n" []
      ∷ []

  unfoldable pub stats_row : String → Stats double.Carrier → Event double.Carrier
  stats_row name r =
      wrote stats_csv "%s,%lf,%lf,%lf,%lf,%lf\n"
        (str name ∷ real r.median ∷ real r.ave ∷ real r.min ∷ real r.max ∷ real r.std ∷ [])

module _ {W : Type 0} (double : Double) (host : Host W double.Carrier) where
  abbrev pub print_all : List (Event double.Carrier) → W → W
  print_all [] w = w
  print_all (e ∷ rest) w = print_all rest (host.emit e w)

  -- The sorted copy.
  abbrev pub sorted : (warmup_times n : ℕ) (all_cycles : ℕ → ℕ) → ℕ → ℕ
  sorted warmup_times n all_cycles = host.qsort cmpfunc n (samples warmup_times n all_cycles)

  -- Where the file of the samples opens.
  unfoldable pub saved_stats :
      String → (time_offset warmup_times test_times : ℕ) (all_cycles : ℕ → ℕ) → Call W ℕ
  saved_stats name time_offset warmup_times test_times all_cycles w =
      let r = stats double time_offset test_times (sorted warmup_times test_times all_cycles) in
      let path = host.out_name name in
      let w₁ = host.emit (opened path "w") (print_all (report double r) w) in
      let w₂ = print_all (write_loop double path test_times 0 warmup_times all_cycles) w₁ in
      let w₃ = host.emit (stats_row double name r) (host.emit (closed path) w₂) in
      (double.to_u64 (double.add r.median double.half), w₃)

  -- Where it does not, `fprintf` or `fclose` is called with NULL.
  unfoldable pub bench_stats :
      String → (time_offset warmup_times test_times : ℕ) (all_cycles : ℕ → ℕ) → W → Ran W ℕ
  bench_stats name time_offset warmup_times test_times all_cycles w =
      let r = stats double time_offset test_times (sorted warmup_times test_times all_cycles) in
      let path = host.out_name name in
      let w₁ = print_all (report double r) w in
      if host.fopen_ok path w₁
      then lift (saved_stats name time_offset warmup_times test_times all_cycles) w
      else crashed (host.emit (opened path "w") w₁)

  -- `cells` is what the function's static array holds when it is called.
  unfoldable pub bench_in_app :
      String → (time_offset warmup_times test_times : ℕ) → Call W ℕ → (cells : ℕ → ℕ) → W → Ran W ℕ
  bench_in_app name time_offset warmup_times test_times bench_fn cells w =
      let w₁ = host.emit (printed "Benchmark %s in App:\n" (str name ∷ [])) w in
      let (all_cycles, w₂) = batched_bench bench_fn (warmup_times + test_times) cells w₁ in
      bench_stats name time_offset warmup_times test_times all_cycles w₂

  -- `ecall_bench_fn` takes the count and the array, and returns the status of the bridge and the
  -- array.
  unfoldable pub bench_in_enclave :
      (print_error_message : SgxStatus → List (Event double.Carrier))
      → String
      → (time_offset warmup_times test_times : ℕ)
      → ((count : ℕ) (all_cycles : ℕ → ℕ) → Call W (SgxStatus × (ℕ → ℕ)))
      → (cells : ℕ → ℕ) → W
      → Ran W ℕ
  bench_in_enclave print_error_message name time_offset warmup_times test_times ecall_bench_fn cells
        w =
      let w₁ = host.emit (printed "Benchmark %s in Enclave:\n" (str name ∷ [])) w in
      let ((ret, all_cycles), w₂) = ecall_bench_fn (warmup_times + test_times) cells w₁ in
      if same_status ret sgx_success
      then bench_stats name time_offset warmup_times test_times all_cycles w₂
      else exited 0 (print_all (print_error_message ret) w₂)

  -- Results by their 32-bit patterns, -1 as 2^32 - 1. Behind `fopen`.
  unfoldable pub run_main : (bench_main : W → Ran W ℕ) → W → Ran W ℕ
  run_main bench_main = do ret ← bench_main; λ w. value ret (host.emit (closed stats_csv) w)

  unfoldable pub open_stats : (bench_main : W → Ran W ℕ) → W → Ran W ℕ
  open_stats bench_main w =
      let go = run_main bench_main (
        host.emit (wrote stats_csv "Name,Median,Average,Min,Max,Deviation\n" [])
          (host.emit (opened stats_csv "w") w)) in
      if host.fopen_ok stats_csv w
      then go
      else value (2 ^ 32 - 1) (host.emit (opened stats_csv "w") w)

  unfoldable pub run_bench : (tag : String) (bench_main : W → Ran W ℕ) → W → Ran W ℕ
  run_bench tag bench_main w =
      let (now, w₁) = host.time w in
      let path = host.result_path tag now in
      let w₂ = host.emit (made_directory path) w₁ in
      let w₃ = host.emit (changed_directory path) w₂ in
      if host.chdir_ok path w₂ then open_stats bench_main w₃ else value (2 ^ 32 - 1) w₃
