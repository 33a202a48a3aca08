-- ===== src/Bench/Extremes.antt =====
-- The order statistics of `bench_stats` in server/edge-calls/Include/bench.h, for a `qsort` that
-- sorts.
use atc22_ae.Base.{ℕ, ◌+◌, ◌-◌, ◌/◌, ◌^◌, ◌≤◌, ◌<◌, ◌≡◌, ◌≢◌, refl, ap, ◌∙◌, arith, u64}
use atc22_ae.Bench.{cmpfunc, Double, Host, samples, sorted, stats}
use atc22_ae.Bench.Compare.{cmpfunc_lem}
use atc22_ae.Bench.Permuted.{IsPermuted, IsRising}

-- What the C standard says of `qsort` on the first `n` cells: its result holds the same cells, each
-- once, and no cell is greater than a later one by the comparison.
pub record IsQsort (cmp : ℕ → ℕ → ℕ) (n : ℕ) (t q : ℕ → ℕ) : Type 0 where
  pub permuted : IsPermuted n t q
  pub ordered : (i j : ℕ) → i ≤ j → j < n → cmp (q i) (q j) ≢ 1

-- `x` is the least, or the greatest, of `f 0` to `f (n - 1)`.
abbrev pub IsLeast : (ℕ → ℕ) → ℕ → ℕ → Type 0
IsLeast f n x = ((i : ℕ) × (i < n) × (x ≡ f i)) × ((j : ℕ) → j < n → x ≤ f j)

abbrev pub IsGreatest : (ℕ → ℕ) → ℕ → ℕ → Type 0
IsGreatest f n x = ((i : ℕ) × (i < n) × (x ≡ f i)) × ((j : ℕ) → j < n → f j ≤ x)

module _ (n : ℕ) (t q : ℕ → ℕ) (sorts : IsQsort cmpfunc n t q) where
  pub rising : IsRising n q
  rising i j h b = ground (arith, sorts.ordered i j h b, cmpfunc_lem (q i) (q j))

  at_back : (j : ℕ) → j < n → q (sorts.permuted.back j) ≡ t j
  at_back j b =
      sorts.permuted.cells (sorts.permuted.back j) (sorts.permuted.back_lt j b)
      ∙ ap t (sorts.permuted.place-back j b)

  first-IsLeast : 0 < n → IsLeast t n (q 0)
  first-IsLeast h = (
    (sorts.permuted.place 0, sorts.permuted.place_lt 0 h, sorts.permuted.cells 0 h),
    λ j b. omega (
      arith,
      at_back j b,
      rising 0 (sorts.permuted.back j) (omega arith) (sorts.permuted.back_lt j b),
    ),
  )

  last-IsGreatest : 0 < n → IsGreatest t n (q (n - 1))
  last-IsGreatest h = (
    (
      sorts.permuted.place (n - 1),
      sorts.permuted.place_lt (n - 1) (omega arith),
      sorts.permuted.cells (n - 1) (omega arith),
    ),
    λ j b. omega (
      arith,
      at_back j b,
      rising (sorts.permuted.back j) (n - 1) (omega (arith, sorts.permuted.back_lt j b))
          (omega arith),
    ),
  )

  top : 0 < n → ((i : ℕ) → i < n → t i < 2 ^ 63) → q (n - 1) < 2 ^ 63
  top h small = let (i, b, e) = (last-IsGreatest h).0 in omega (arith, small i b)

-- Let there be a sample, let `qsort` with `cmpfunc` sort the samples as the C standard says, and
-- let the samples be below 2^63. Then `bench_stats` takes for the minimum and the maximum the least
-- and the greatest of the samples behind the warm-up, and for the median half the sum of the two
-- middle ones in order, which lies between them, each less the offset.
pub stats-extremes :
    {W : Type 0} (double : Double) (host : Host W double.Carrier) (time_offset warmup_times n : ℕ)
    (all_cycles : ℕ → ℕ)
    → 0 < n
    → IsQsort cmpfunc n
        (samples warmup_times n all_cycles)
        (sorted double host warmup_times n all_cycles)
    → ((i : ℕ) → i < n → all_cycles (i + warmup_times) < 2 ^ 63)
    → let f : ℕ → ℕ = samples warmup_times n all_cycles in
      let r = stats double time_offset n (sorted double host warmup_times n all_cycles) in
      let q : ℕ → ℕ = sorted double host warmup_times n all_cycles in
      let offset = double.of_nat time_offset in
      (lo hi middle : ℕ) × IsLeast f n lo
      × IsGreatest f n hi
      × (middle ≡ q (n / 2) + q ((n - 1) / 2))
      × (lo + lo ≤ middle)
      × (middle ≤ hi + hi)
      × (r.min ≡ double.sub (double.of_nat lo) offset)
      × (r.max ≡ double.sub (double.of_nat hi) offset)
      × (r.median ≡ double.sub (double.div (double.of_nat middle) (double.of_nat 2)) offset)
unfolding stats
stats-extremes double host time_offset warmup_times n all_cycles h sorts small =
    let f : ℕ → ℕ = samples warmup_times n all_cycles in
    let q : ℕ → ℕ = sorted double host warmup_times n all_cycles in
    let low = rising n f q sorts 0 ((n - 1) / 2) (omega arith) (omega arith) in
    let low' = rising n f q sorts 0 (n / 2) (omega arith) (omega arith) in
    let high = rising n f q sorts ((n - 1) / 2) (n - 1) (omega arith) (omega arith) in
    let high' = rising n f q sorts (n / 2) (n - 1) (omega arith) (omega arith) in
    let small_last : q (n - 1) < 2 ^ 63 = top n f q sorts h (λ i b. ground (arith, small i b)) in
    let whole : u64 (q (n / 2) + q ((n - 1) / 2)) ≡ q (n / 2) + q ((n - 1) / 2) = omega arith in
    (
      q 0,
      q (n - 1),
      q (n / 2) + q ((n - 1) / 2),
      first-IsLeast n f q sorts h,
      last-IsGreatest n f q sorts h,
      refl,
      omega arith,
      omega arith,
      refl,
      refl,
      rw whole refl,
    )
