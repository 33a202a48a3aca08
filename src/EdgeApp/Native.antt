-- ===== src/EdgeApp/Native.antt =====
-- The whole run of server/edge-calls/Native/main.cpp: three benchmarks of Include/bench.h over the
-- timed calls of Include/common.h.
use atc22_ae.Base.{ℕ, ◌+◌, ◌≡◌, refl, ◌∙◌, ap, true, [], ◌∷◌}
use atc22_ae.Bench.{Double, Host, num, printed, closed, stats_csv, stats, sorted, report, print_all}
use atc22_ae.Bench.Results.{directory, closed_after, directory, made, entered, run_bench-opened}
use atc22_ae.Bench.Measured.{Opens, saved_run-Measured, bench_in_app-app_saved}
use atc22_ae.Bench.Measured
use atc22_ae.EdgeApp.Measures.{app_run, AppMeasures, opened_world}
use atc22_ae.EdgeApp.Run.{bind-value}
use atc22_ae.Timing.{
  value, batched_bench, Cpu, rdtscp, bench_rdtscp, bench_syscall, bench_hypercall,
}
use atc22_ae.Timing.Clock.{IsClock, bench-exact}
use atc22_ae.EdgeApp.{fresh, warmup, tests, native_bench_main, native_main}

module _ {W : Type 0} (double : Double) (host : Host W double.Carrier) (cpu : Cpu W) where
  -- The three numbers at the end of the report.
  abbrev pub told : (time_rdtscp time_syscall time_hypercall : ℕ) → W → W
  told time_rdtscp time_syscall time_hypercall w =
      host.emit (printed "hypercall: %ld\n" (num time_hypercall ∷ [])) (
        host.emit (printed "syscall: %ld\n" (num time_syscall ∷ []))
          (host.emit (printed "rdtscp: %ld\n" (num time_rdtscp ∷ [])) w))

  native_bench_main-told :
      (w : W)
      → Opens host
      → let (a, w₁) = app_run double host "rdtscp" 0 (bench_rdtscp cpu) w in
        let (b, w₂) = app_run double host "syscall" a (bench_syscall cpu) w₁ in
        let (c, w₃) = app_run double host "hypercall" a (bench_hypercall cpu) w₂ in
        native_bench_main double host cpu w ≡ value 0 (told a b c w₃)
  unfolding native_bench_main
  native_bench_main-told w opens =
      let (a, w₁) = app_run double host "rdtscp" 0 (bench_rdtscp cpu) w in
      let (b, w₂) = app_run double host "syscall" a (bench_syscall cpu) w₁ in
      bind-value _ _ _
        (bench_in_app-app_saved double host (bench_rdtscp cpu) "rdtscp" 0 warmup tests fresh w
          opens)
        (bind-value _ _ _
          (bench_in_app-app_saved double host (bench_syscall cpu) "syscall" a warmup tests fresh w₁
            opens)
          (bind-value _ _ _
            (bench_in_app-app_saved double host (bench_hypercall cpu) "hypercall" a warmup tests
              fresh w₂ opens)
            refl))

  -- The first benchmark up to the report, from the world in which `bench_main` is called.
  abbrev pub first_cells : W → ℕ → ℕ
  first_cells w =
      (batched_bench (bench_rdtscp cpu) (10000 + 1000000) fresh
        (Measured.announced host "rdtscp" w)).0

  abbrev pub first_reported : W → W
  first_reported w =
      print_all double host
        (report double (stats double 0 1000000 (sorted double host 10000 1000000 (first_cells w))))
        (batched_bench (bench_rdtscp cpu) (10000 + 1000000) fresh
          (Measured.announced host "rdtscp" w)).1

  -- Let the directory of results, the file of statistics and every file of samples open, and let the
  -- registers of `rdtscp` hold the halves of a counter that nothing turns back. Then the program runs three benchmarks
  -- one after the other, of `rdtscp`, `syscall` and `vmmcall`, the last two with the median of the
  -- first as their offset, prints the three medians, closes the file and returns 0. In each
  -- benchmark each of the 1,010,000 cells is the counter's exact advance over its call, no cell
  -- behind them is written, the statistics are those of the sorted samples, and the file has one
  -- line for each sample, in the order of the measurement.
  pub native_main-Measured :
      (time : W → ℕ) (w : W)
      → IsClock cpu time
      → host.chdir_ok (directory host "native" w) (made host "native" w) ≡ true
      → host.fopen_ok stats_csv (entered host "native" w) ≡ true
      → Opens host
      → let (a, w₁) =
          app_run double host "rdtscp" 0 (bench_rdtscp cpu) (opened_world host "native" w) in
        let (b, w₂) = app_run double host "syscall" a (bench_syscall cpu) w₁ in
        let (c, w₃) = app_run double host "hypercall" a (bench_hypercall cpu) w₂ in
        (native_main double host cpu w ≡ value 0 (host.emit (closed stats_csv) (told a b c w₃)))
        × AppMeasures double host time
            (bench_rdtscp cpu)
            (λ u. (rdtscp cpu u).1)
            "rdtscp"
            0
            (opened_world host "native" w)
        × AppMeasures double host time
            (bench_syscall cpu)
            (λ u. cpu.syscall 0x8000dead (rdtscp cpu u).1)
            "syscall"
            a
            w₁
        × AppMeasures double host time
            (bench_hypercall cpu)
            (λ u. cpu.vmmcall 0x8000dead (rdtscp cpu u).1)
            "hypercall"
            a
            w₂
  unfolding native_main
  native_main-Measured time w clock dir file opens =
      let w₀ : W = opened_world host "native" w in
      let (a, w₁) = app_run double host "rdtscp" 0 (bench_rdtscp cpu) w₀ in
      let (b, w₂) = app_run double host "syscall" a (bench_syscall cpu) w₁ in
      (
        run_bench-opened double host "native" (native_bench_main double host cpu) w dir file
            ∙ ap (closed_after host) (native_bench_main-told w₀ opens),
        saved_run-Measured double host time (bench_rdtscp cpu) _ "rdtscp" 0 warmup tests fresh
            (Measured.announced host "rdtscp" w₀) (λ u. (bench-exact cpu time clock u).0),
        saved_run-Measured double host time (bench_syscall cpu) _ "syscall" a warmup tests fresh
            (Measured.announced host "syscall" w₁) (λ u. (bench-exact cpu time clock u).1),
        saved_run-Measured double host time (bench_hypercall cpu) _ "hypercall" a warmup tests fresh
            (Measured.announced host "hypercall" w₂) (λ u. (bench-exact cpu time clock u).2),
      )
