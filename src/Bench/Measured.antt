-- ===== src/Bench/Measured.antt =====
-- One benchmark of server/edge-calls/Include/bench.h with a timed call of Include/common.h, in the
-- application or in the enclave: the cycles measured, the statistics of them and the file that
-- holds them.
use Prim.Native.String.{String}
use atc22_ae.Base.{ℕ, suc, ◌+◌, ◌≤◌, ◌<◌, ◌≡◌, refl, some, List, [], ◌∷◌, get_elem?, length, true}
use atc22_ae.Bench.{
  Double, Host, Event, num, str, printed, opened, wrote, closed, Stats, sorted, stats, report,
  stats_row, write_loop, print_all, saved_stats, bench_stats, bench_in_app,
}
use atc22_ae.Bench.Results.{length-write_loop, get_elem?-write_loop}
use atc22_ae.Timing.{Call, Ran, lift, batched_bench}
use atc22_ae.Timing.Batch.{after, batched_bench-world, batched_bench-cell, batched_bench-outside}

-- The batch that starts in `w`, with `bench_stats` behind it, and the same where the file of the
-- samples opens.
abbrev pub measured_stats :
    {W : Type 0} (double : Double)
    → Host W double.Carrier
    → Call W ℕ
    → String
    → (time_offset warmup_times test_times : ℕ) → (cells : ℕ → ℕ) → W
    → Ran W ℕ
measured_stats double host fn name time_offset warmup_times test_times cells w =
    let (all_cycles, w') = batched_bench fn (warmup_times + test_times) cells w in
    bench_stats double host name time_offset warmup_times test_times all_cycles w'

abbrev pub saved_run :
    {W : Type 0} (double : Double)
    → Host W double.Carrier
    → Call W ℕ
    → String
    → (time_offset warmup_times test_times : ℕ) → (cells : ℕ → ℕ) → Call W ℕ
saved_run double host fn name time_offset warmup_times test_times cells w =
    let (all_cycles, w') = batched_bench fn (warmup_times + test_times) cells w in
    saved_stats double host name time_offset warmup_times test_times all_cycles w'

-- Every file of samples opens, whenever it is asked for.
abbrev pub Opens : {W D : Type 0} → Host W D → Type 0
Opens {W} host = (name : String) (w : W) → host.fopen_ok (host.out_name name) w ≡ true

pub measured_stats-saved_run :
    {W : Type 0} (double : Double) (host : Host W double.Carrier) (fn : Call W ℕ) (name : String)
    (time_offset warmup_times test_times : ℕ) (cells : ℕ → ℕ) (w : W)
    → Opens host
    → measured_stats double host fn name time_offset warmup_times test_times cells w
      ≡ lift (saved_run double host fn name time_offset warmup_times test_times cells) w
unfolding bench_stats
measured_stats-saved_run double host fn name time_offset warmup_times test_times cells w opens =
    rw (opens name _) refl

module _ {W : Type 0} (double : Double) (host : Host W double.Carrier) (time : W → ℕ)
    (fn : Call W ℕ) (stop : W → W) (name : String) (time_offset warmup_times test_times : ℕ)
    (cells : ℕ → ℕ) (w : W) where
  -- The world `w` behind `k` calls of the timed function.
  abbrev behind : (k : ℕ) → W
  behind k = after fn k w

  abbrev path : String
  path = host.out_name name

  -- A benchmark that starts its batch in `w` and ends with the result and the world `ran` has
  -- measured `cycles`: cell k holds the advance of the clock over the timed call behind k + 1
  -- others, up to the world of `stop`; no cell behind the measured ones is written; the result is
  -- the rounded median of the sorted samples; and the world has seen the report, the file with a
  -- line for each sample behind the warm-up, in the order of the measurement, and the row of the
  -- statistics.
  pub record Measured (ran : ℕ × W) : Type 0 where
    pub cycles : ℕ → ℕ
    pub exact :
        (k : ℕ)
        → k < warmup_times + test_times
        → cycles k + time (behind (suc k)) ≡ time (stop (behind (suc k)))
    pub kept : (j : ℕ) → warmup_times + test_times ≤ j → cycles j ≡ cells j
    pub numbers : Stats double.Carrier
    pub of_sorted :
        numbers
        ≡ stats double time_offset test_times (sorted double host warmup_times test_times cycles)
    pub median : ran.0 ≡ double.to_u64 (double.add numbers.median double.half)
    pub lines : List (Event double.Carrier)
    pub each : length lines ≡ test_times
    pub line :
        (k : ℕ)
        → k < test_times
        → get_elem? lines k ≡ some (wrote path "%ld\n" (num (cycles (k + warmup_times)) ∷ []))
    pub world :
        ran.1
        ≡ host.emit (stats_row double name numbers) (
            host.emit (closed path) (
              print_all double host lines (
                host.emit (opened path "w") (
                  print_all double host
                    (report double numbers)
                    (behind (suc (warmup_times + test_times)))))))

  pub saved_run-Measured :
      ((u : W) → (fn u).0 + time u ≡ time (stop u))
      → Measured (saved_run double host fn name time_offset warmup_times test_times cells w)
  unfolding saved_stats
  saved_run-Measured advance =
      let count : ℕ = warmup_times + test_times in
      let cycles : ℕ → ℕ = (batched_bench fn count cells w).0 in
      record {
        cycles = cycles;
        exact = λ k h. rw (batched_bench-cell fn count cells w k h) (advance (behind (suc k)));
        kept = batched_bench-outside fn count cells w;
        numbers =
            stats double time_offset test_times (sorted double host warmup_times test_times cycles);
        of_sorted = refl;
        median = refl;
        lines = write_loop double path test_times 0 warmup_times cycles;
        each = length-write_loop double path test_times 0 warmup_times cycles;
        line = get_elem?-write_loop double path test_times warmup_times cycles;
        world = rw (batched_bench-world fn count cells w) refl;
      }

-- The world in which the batch of `bench_in_app` starts.
abbrev pub announced : {W D : Type 0} → Host W D → String → W → W
announced host name w = host.emit (printed "Benchmark %s in App:\n" (str name ∷ [])) w

-- A benchmark in the application that starts in `w`, where its file opens.
abbrev pub app_saved :
    {W : Type 0} (double : Double)
    → Host W double.Carrier
    → Call W ℕ
    → String
    → (time_offset warmup_times test_times : ℕ) → (cells : ℕ → ℕ) → Call W ℕ
app_saved double host fn name time_offset warmup_times test_times cells w =
    saved_run double host fn name time_offset warmup_times test_times cells (announced host name w)

pub bench_in_app-app_saved :
    {W : Type 0} (double : Double) (host : Host W double.Carrier) (fn : Call W ℕ) (name : String)
    (time_offset warmup_times test_times : ℕ) (cells : ℕ → ℕ) (w : W)
    → Opens host
    → bench_in_app double host name time_offset warmup_times test_times fn cells w
      ≡ lift (app_saved double host fn name time_offset warmup_times test_times cells) w
unfolding bench_in_app
bench_in_app-app_saved double host fn name time_offset warmup_times test_times cells w opens =
    measured_stats-saved_run double host fn name time_offset warmup_times test_times cells
      (announced host name w) opens
