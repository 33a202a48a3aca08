-- ===== src/Timing/Batch.antt =====
-- What `batched_bench` of server/edge-calls/Include/common.h stores, and which cells it leaves
-- alone.
use atc22_ae.Base.{ℕ, zero, suc, ◌+◌, ◌≤◌, ◌<◌, ◌≡◌, ◌⊎◌, inl, inr, refl, ◌∙◌, arith}
use atc22_ae.Timing.{Call, set_cell, batch_loop, batched_bench}

module _ {W : Type 0} (bench_fn : Call W ℕ) where
  -- The world after `k` calls.
  abbrev pub after : (k : ℕ) → W → W
  after zero w = w
  after (suc k) w = after k (bench_fn w).1

  batch_loop-world :
      (left i : ℕ) (cells : ℕ → ℕ) (w : W) → (batch_loop bench_fn left i cells w).1 ≡ after left w
  unfolding batch_loop
  batch_loop-world zero i cells w = refl
  batch_loop-world (suc left) i cells w =
      batch_loop-world left (i + 1) (set_cell i (bench_fn w).0 cells) (bench_fn w).1

  batch_loop-outside :
      (left i : ℕ) (cells : ℕ → ℕ) (w : W) (j : ℕ)
      → (j < i) ⊎ (i + left ≤ j)
      → (batch_loop bench_fn left i cells w).0 j ≡ cells j
  unfolding batch_loop
  batch_loop-outside zero i cells w j h = refl
  batch_loop-outside (suc left) i cells w j h =
      batch_loop-outside left (i + 1) (set_cell i (bench_fn w).0 cells) (bench_fn w).1 j
        (ground arith)
      ∙ ground arith

  batch_loop-cell :
      (left i : ℕ) (cells : ℕ → ℕ) (w : W) (k : ℕ)
      → k < left
      → (batch_loop bench_fn left i cells w).0 (i + k) ≡ (bench_fn (after k w)).0
  unfolding batch_loop
  batch_loop-cell zero i cells w k h = absurd (omega arith)
  batch_loop-cell (suc left) i cells w zero h =
      batch_loop-outside left (i + 1) (set_cell i (bench_fn w).0 cells) (bench_fn w).1 (i + 0)
        (inl (omega arith))
      ∙ ground arith
  batch_loop-cell (suc left) i cells w (suc k) h =
      let next : i + suc k ≡ i + 1 + k = omega arith in
      rw next (
        batch_loop-cell left (i + 1) (set_cell i (bench_fn w).0 cells) (bench_fn w).1 k
          (omega arith))

  -- `batched_bench` calls the function `count + 1` times. Cell k below `count` holds the result of
  -- call k + 2, so the result of the first one is dropped; a cell from `count` on is not written.
  pub batched_bench-world :
      (count : ℕ) (cells : ℕ → ℕ) (w : W)
      → (batched_bench bench_fn count cells w).1 ≡ after (suc count) w
  unfolding batched_bench
  batched_bench-world count cells w = batch_loop-world count 0 cells (bench_fn w).1

  pub batched_bench-cell :
      (count : ℕ) (cells : ℕ → ℕ) (w : W) (k : ℕ)
      → k < count
      → (batched_bench bench_fn count cells w).0 k ≡ (bench_fn (after (suc k) w)).0
  unfolding batched_bench
  batched_bench-cell count cells w k h =
      let same : 0 + k ≡ k = omega arith in
      rw same at (batch_loop-cell count 0 cells (bench_fn w).1 k h)

  pub batched_bench-outside :
      (count : ℕ) (cells : ℕ → ℕ) (w : W) (j : ℕ)
      → count ≤ j
      → (batched_bench bench_fn count cells w).0 j ≡ cells j
  unfolding batched_bench
  batched_bench-outside count cells w j h =
      batch_loop-outside count 0 cells (bench_fn w).1 j (inr (omega arith))
