-- ===== src/Bench/Reordered.antt =====
-- What `bench_stats` of server/edge-calls/Include/bench.h reports does not depend on the order of
-- the samples, nor on the `qsort` that sorts them.
use Prim.Native.String.{String}
use atc22_ae.Base.{ℕ, zero, suc, ◌+◌, ◌-◌, ◌/◌, ◌≤◌, ◌<◌, ◌≡◌, refl, ap, arith}
use atc22_ae.Bench.{
  cmpfunc, Double, Host, samples, sorted, sum_loop, stats, report, stats_row, saved_stats,
}
use atc22_ae.Bench.Permuted.{IsPermuted, IsPermuted-sym, IsPermuted-trans, rising_unique}
use atc22_ae.Bench.Extremes.{IsQsort, rising}

-- Two arrays with the same cells, from the `i`-th on, have the same sums.
sum_loop-same :
    (double : Double) (left i : ℕ) (t t' : ℕ → ℕ) (sum sum2 : double.Carrier)
    → ((j : ℕ) → i ≤ j → j < i + left → t j ≡ t' j)
    → sum_loop double left i t sum sum2 ≡ sum_loop double left i t' sum sum2
unfolding sum_loop
sum_loop-same double zero i t t' sum sum2 same = refl
sum_loop-same double (suc left) i t t' sum sum2 same =
    rw (same i (omega arith) (omega arith))
      (sum_loop-same double left (i + 1) t t' _ _ λ j a b. same j (omega arith) (omega arith))

stats-same :
    (double : Double) (time_offset n : ℕ) (t t' : ℕ → ℕ)
    → 0 < n
    → ((j : ℕ) → j < n → t j ≡ t' j)
    → stats double time_offset n t ≡ stats double time_offset n t'
unfolding stats
stats-same double time_offset n t t' h same =
    rw
      (
        sum_loop-same double n 0 t t' (double.of_nat 0) (double.of_nat 0)
            (λ j a b. same j (omega arith)),
        same (n / 2) (omega arith),
        same ((n - 1) / 2) (omega arith),
        same 0 h,
        same (n - 1) (omega arith),
      )
      refl

-- The sorted samples of two measurements that hold the same ones in another order.
sorted-same :
    (n : ℕ) (f f' q q' : ℕ → ℕ)
    → IsPermuted n f f'
    → IsQsort cmpfunc n f q
    → IsQsort cmpfunc n f' q'
    → (i : ℕ) → i < n
    → q i ≡ q' i
sorted-same n f f' q q' p sorts sorts' =
    rising_unique n q q'
      (IsPermuted-trans (IsPermuted-sym sorts.permuted) (IsPermuted-trans p sorts'.permuted))
      (rising n f q sorts) (rising n f' q' sorts')

-- Let there be a sample, and let two measurements have the same samples behind the warm-up, each as
-- often, in any order. With two C libraries whose `qsort` with `cmpfunc` sorts them as the C
-- standard says, `bench_stats` computes the same statistics of both: it prints the same report,
-- writes the same row to the file of statistics and, where its file of samples opens, returns the
-- same median.
pub bench_stats-reordered :
    {W W' : Type 0} (double : Double) (host : Host W double.Carrier)
    (host' : Host W' double.Carrier) (name : String) (time_offset warmup_times n : ℕ)
    (all_cycles all_cycles' : ℕ → ℕ) (w : W) (w' : W')
    → 0 < n
    → IsPermuted n (samples warmup_times n all_cycles) (samples warmup_times n all_cycles')
    → IsQsort cmpfunc n
        (samples warmup_times n all_cycles)
        (sorted double host warmup_times n all_cycles)
    → IsQsort cmpfunc n
        (samples warmup_times n all_cycles')
        (sorted double host' warmup_times n all_cycles')
    → let r = stats double time_offset n (sorted double host warmup_times n all_cycles) in
      let r' = stats double time_offset n (sorted double host' warmup_times n all_cycles') in
      (report double r ≡ report double r')
      × (stats_row double name r ≡ stats_row double name r')
      × ((saved_stats double host name time_offset warmup_times n all_cycles w).0
          ≡ (saved_stats double host' name time_offset warmup_times n all_cycles' w').0)
unfolding saved_stats
bench_stats-reordered double host host' name time_offset warmup_times n all_cycles all_cycles' w w'
      h p sorts sorts' =
    let same =
      stats-same double time_offset n (sorted double host warmup_times n all_cycles)
        (sorted double host' warmup_times n all_cycles') h (sorted-same n _ _ _ _ p sorts sorts') in
    (ap (report double) same, ap (stats_row double name) same, rw same refl)
