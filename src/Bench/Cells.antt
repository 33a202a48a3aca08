-- ===== src/Bench/Cells.antt =====
-- The array of `bench_in_app` of server/edge-calls/Include/bench.h is static: a later call finds
-- the cells of an earlier one. What it does with them.
use Prim.Native.String.{String}
use atc22_ae.Base.{
  ℕ, zero, suc, ◌+◌, ◌<◌, ◌≡◌, refl, sym, ◌∙◌, ap, inl, inr, arith, Bool-cases, ltb, ltb→lt,
}
use atc22_ae.Bench.{
  Double, Host, cmpfunc, stats, samples, write_loop, saved_stats, bench_stats, bench_in_app,
}
use atc22_ae.Timing.{Call, batched_bench}
use mathlib.Core.Path.{fun_ext}
use atc22_ae.Bench.Measured.{measured_stats}
use atc22_ae.Timing.Batch.{batched_bench-world, batched_bench-cell}

write_loop-same :
    (double : Double) (path : String) (left i warmup_times : ℕ) (t t' : ℕ → ℕ)
    → ((k : ℕ) → k < i + left + warmup_times → t k ≡ t' k)
    → write_loop double path left i warmup_times t ≡ write_loop double path left i warmup_times t'
unfolding write_loop
write_loop-same double path zero i warmup_times t t' same = refl
write_loop-same double path (suc left) i warmup_times t t' same =
    rw
      (
        same (i + warmup_times) (omega arith),
        write_loop-same double path left (i + 1) warmup_times t t' (λ k h. same k (omega arith)),
      )
      refl

samples-same :
    (warmup_times n : ℕ) (t t' : ℕ → ℕ)
    → ((k : ℕ) → k < warmup_times + n → t k ≡ t' k)
    → samples warmup_times n t ≡ samples warmup_times n t'
samples-same warmup_times n t t' same = fun_ext λ i. elim (Bool-cases (ltb i n)) [
  | inl h ↦ rw h (same (i + warmup_times) (omega (arith, ltb→lt i n h)))
  | inr h ↦ rw h refl
]

module _ {W : Type 0} (double : Double) (host : Host W double.Carrier) where
  bench_stats-same :
      (name : String) (time_offset warmup_times n : ℕ) (t t' : ℕ → ℕ) (w : W)
      → ((k : ℕ) → k < warmup_times + n → t k ≡ t' k)
      → bench_stats double host name time_offset warmup_times n t w
        ≡ bench_stats double host name time_offset warmup_times n t' w
  unfolding bench_stats saved_stats
  bench_stats-same name time_offset warmup_times n t t' w same =
      rw
        (
          ap (λ f. stats double time_offset n (host.qsort cmpfunc n f))
              (samples-same warmup_times n t t' same),
          write_loop-same double (host.out_name name) n 0 warmup_times t t'
              (λ k h. same k (omega arith)),
        )
        refl

  measured_stats-cells :
      (fn : Call W ℕ) (name : String) (time_offset warmup_times n : ℕ) (cells cells' : ℕ → ℕ)
      (w : W)
      → measured_stats double host fn name time_offset warmup_times n cells w
        ≡ measured_stats double host fn name time_offset warmup_times n cells' w
  measured_stats-cells fn name time_offset warmup_times n cells cells' w =
      let count : ℕ = warmup_times + n in
      let same_world : (batched_bench fn count cells w).1 ≡ (batched_bench fn count cells' w).1 =
        batched_bench-world fn count cells w ∙ sym (batched_bench-world fn count cells' w) in
      rw same_world (
        bench_stats-same name time_offset warmup_times n _ _ _ (λ k h.
          batched_bench-cell fn count cells w k h ∙ sym (batched_bench-cell fn count cells' w k h)))

  -- What the static array holds when a benchmark starts has no part in it: a call of
  -- `bench_in_app`, and a batch in the enclave with `bench_stats` behind it, end in the same way,
  -- with the same median and world where they return, for any two contents of the array.
  pub bench_in_app-cells :
      (fn : Call W ℕ) (name : String) (time_offset warmup_times n : ℕ) (cells cells' : ℕ → ℕ)
      (w : W)
      → (bench_in_app double host name time_offset warmup_times n fn cells w
          ≡ bench_in_app double host name time_offset warmup_times n fn cells' w)
        × (measured_stats double host fn name time_offset warmup_times n cells w
            ≡ measured_stats double host fn name time_offset warmup_times n cells' w)
  unfolding bench_in_app
  bench_in_app-cells fn name time_offset warmup_times n cells cells' w = (
    measured_stats-cells fn name time_offset warmup_times n cells cells' _,
    measured_stats-cells fn name time_offset warmup_times n cells cells' w,
  )
