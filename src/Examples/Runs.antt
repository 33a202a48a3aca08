-- ===== src/Examples/Runs.antt =====
-- The run of the edge-call benchmark, the statistics of a small sample and the test of the host.
use atc22_ae.Base.{
  ℕ, ◌+◌, ◌-◌, ◌*◌, ◌/◌, ◌≤◌, ◌<◌, ◌≡◌, ◌≢◌, ◌↔◌, refl, arith, List, [], ltb, if◌then◌else◌, u32,
}
use atc22_ae.Bench.{
  Host, cmpfunc, samples, sorted, stats, report, stats_row, saved_stats, opened, closed, wrote,
  stats_csv,
}
use atc22_ae.Bench
use atc22_ae.Bench.Compare.{cmpfunc_lem}
use atc22_ae.Bench.Permuted.{IsPermuted, IsPermuted-refl}
use atc22_ae.Bench.Extremes.{IsQsort, IsLeast, IsGreatest, stats-extremes}
use atc22_ae.Bench.Reordered.{bench_stats-reordered}
use atc22_ae.Host
use atc22_ae.Host.{Reply, returned, test_main-status}
use atc22_ae.Examples.Benchmarks.{double, host}

abbrev World : Type 0
World = List (Bench.Event ℕ)

-- Four samples behind two of the warm-up, in order.
abbrev rising : ℕ → ℕ
rising i = if ltb i 8 then 10 * i else 0

in_order : (i j : ℕ) → i ≤ j → j < 4 → cmpfunc (samples 2 4 rising i) (samples 2 4 rising j) ≢ 1
in_order i j h b e =
    let (same, above, below) = cmpfunc_lem (samples 2 4 rising i) (samples 2 4 rising j) in
    let less = above.0 e in ground (arith, less)

sample-IsQsort : IsQsort cmpfunc 4 (samples 2 4 rising) (sorted double host 2 4 rising)
sample-IsQsort = record { permuted = IsPermuted-refl 4 (samples 2 4 rising); ordered = in_order }

stats-extremes_example :
    let f : ℕ → ℕ = samples 2 4 rising in
    let q : ℕ → ℕ = sorted double host 2 4 rising in
    let r = stats double 7 4 q in
    (lo hi middle : ℕ) × IsLeast f 4 lo
    × IsGreatest f 4 hi
    × (middle ≡ q (4 / 2) + q ((4 - 1) / 2))
    × (lo + lo ≤ middle)
    × (middle ≤ hi + hi)
    × (r.min ≡ lo - 7)
    × (r.max ≡ hi - 7)
    × (r.median ≡ middle - 7)
stats-extremes_example =
    stats-extremes double host 7 2 4 rising (omega arith) sample-IsQsort (λ i b. ground arith)

-- The same samples measured in the other order, and a library that sorts by turning them round.
abbrev falling : ℕ → ℕ
falling i = if ltb i 6 then 70 - 10 * i else 0

abbrev turning : Host World ℕ
turning = record host { qsort = λ cmp n t i. t (n - 1 - i) }

turned : (i : ℕ) → i < 4 → samples 2 4 falling (3 - i) ≡ samples 2 4 rising i
turned i b = ground arith

falling-IsPermuted : IsPermuted 4 (samples 2 4 rising) (samples 2 4 falling)
falling-IsPermuted = record {
  place = λ i. 3 - i;
  back = λ i. 3 - i;
  place_lt = λ i b. omega arith;
  back_lt = λ i b. omega arith;
  back-place = λ i b. omega arith;
  place-back = λ i b. omega arith;
  cells = λ i b. ground arith;
}

falling-IsQsort : IsQsort cmpfunc 4 (samples 2 4 falling) (sorted double turning 2 4 falling)
falling-IsQsort = record {
  permuted = record {
    place = λ i. 3 - i;
    back = λ i. 3 - i;
    place_lt = λ i b. omega arith;
    back_lt = λ i b. omega arith;
    back-place = λ i b. omega arith;
    place-back = λ i b. omega arith;
    cells = λ i b. refl;
  };
  ordered = λ i j h b. rw (turned i (omega arith), turned j b) (in_order i j h b);
}

bench_stats-reordered_example :
    let r = stats double 7 4 (sorted double host 2 4 rising) in
    let r' = stats double 7 4 (sorted double turning 2 4 falling) in
    (report double r ≡ report double r')
    × (stats_row double "ocall_empty" r ≡ stats_row double "ocall_empty" r')
    × ((saved_stats double host "ocall_empty" 7 2 4 rising []).0
        ≡ (saved_stats double turning "ocall_empty" 7 2 4 falling []).0)
bench_stats-reordered_example =
    bench_stats-reordered double host turning "ocall_empty" 7 2 4 rising falling [] [] (omega arith)
      falling-IsPermuted sample-IsQsort falling-IsQsort

-- A hypervisor that answers the number it is given.
abbrev answer : ℕ → Reply
answer num = returned num

test_main-status_example :
    ((Host.main answer).1 ≡ Host.exited 0)
    ↔ ((ret : ℕ) × (answer 2333 ≡ returned ret) × (u32 ret ≡ 2333))
test_main-status_example = test_main-status answer
