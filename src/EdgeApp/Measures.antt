-- ===== src/EdgeApp/Measures.antt =====
-- The benchmarks of server/edge-calls as the two programs run them, with their numbers of calls: in
-- the application, and in the enclave through an ecall that succeeds.
use Prim.Native.String.{String}
use atc22_ae.Base.{ℕ, [], ◌∷◌}
use atc22_ae.Bench.{Double, Host, str, printed, opened, wrote, stats_csv}
use atc22_ae.Bench.Results.{entered}
use atc22_ae.Bench.Measured.{Measured, saved_run, app_saved}
use atc22_ae.Bench.Measured
use atc22_ae.Timing.{Call}
use atc22_ae.EdgeApp.{fresh, warmup, tests}

-- The world in which the batch of `bench_in_enclave` starts.
abbrev pub announced : {W D : Type 0} → Host W D → String → W → W
announced host name w = host.emit (printed "Benchmark %s in Enclave:\n" (str name ∷ [])) w

-- The world in which `run_bench` calls `bench_main`.
abbrev pub opened_world : {W D : Type 0} → Host W D → String → W → W
opened_world host tag w =
    host.emit (wrote stats_csv "Name,Median,Average,Min,Max,Deviation\n" [])
      (host.emit (opened stats_csv "w") (entered host tag w))

module _ {W : Type 0} (double : Double) (host : Host W double.Carrier) where
  -- A benchmark, with the median and the world behind it.
  abbrev pub app_run : (name : String) (time_offset : ℕ) → Call W ℕ → Call W ℕ
  app_run name time_offset fn = app_saved double host fn name time_offset warmup tests fresh

  abbrev pub enclave_run : (name : String) (time_offset : ℕ) → Call W ℕ → Call W ℕ
  enclave_run name time_offset fn w =
      saved_run double host fn name time_offset warmup tests fresh (announced host name w)

  -- Such a benchmark that starts in `w` measures the advance of the clock over `fn`, up to the
  -- world of `stop`.
  abbrev pub AppMeasures : (time : W → ℕ) → Call W ℕ → (W → W) → String → ℕ → W → Type 0
  AppMeasures time fn stop name time_offset w =
      Measured double host time fn stop name time_offset warmup tests fresh
        (Measured.announced host name w) (app_run name time_offset fn w)

  abbrev pub EnclaveMeasures : (time : W → ℕ) → Call W ℕ → (W → W) → String → ℕ → W → Type 0
  EnclaveMeasures time fn stop name time_offset w =
      Measured double host time fn stop name time_offset warmup tests fresh (announced host name w)
        (enclave_run name time_offset fn w)
