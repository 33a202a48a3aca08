-- ===== src/Timing.antt =====
-- The timed calls that the enclave, its application and the native program share,
-- server/edge-calls/Include/common.h.
pub mod Batch
pub mod Clock
use atc22_ae.Base.{ℕ, zero, suc, ◌+◌, ◌-◌, ◌%◌, ◌^◌, ◌==◌, if◌then◌else◌, bit_or, u64, ◌<<<◌}

-- A call that returns, and one that may end the program, by `exit(code)` or by a crash, on the state
-- `W` of the world.
abbrev pub Call : Type 0 → Type 0 → Type 0
Call W A = W → A × W

pub data Ran (W A : Type 0) : Type 0 where
  value : A → W → Ran W A
  exited : (code : ℕ) → W → Ran W A
  crashed : W → Ran W A

infixl 5 ◌>>=◌
abbrev pub ◌>>=◌ : {W A B : Type 0} → (W → Ran W A) → (A → W → Ran W B) → W → Ran W B
◌>>=◌ m f w = elim (m w) [
  | value a w' ↦ f a w'
  | exited code w' ↦ exited code w'
  | crashed w' ↦ crashed w'
]

abbrev pub lift : {W A : Type 0} → Call W A → W → Ran W A
lift m w = value (m w).0 (m w).1

-- The instructions that are measured: `rdtscp` with its two registers, `syscall` and `vmmcall` with
-- the number in `rax`.
pub record Cpu (W : Type 0) : Type 0 where
  pub tsc : Call W (ℕ × ℕ)
  pub syscall : ℕ → W → W
  pub vmmcall : ℕ → W → W

module _ {W : Type 0} (cpu : Cpu W) where
  unfoldable pub rdtscp : Call W ℕ
  rdtscp w = let ((lo, hi), w') = cpu.tsc w in (bit_or (u64 (hi <<< 32)) lo, w')

  unfoldable pub bench_rdtscp : Call W ℕ
  bench_rdtscp w = let (a, w₁) = rdtscp w in let (b, w₂) = rdtscp w₁ in (u64 (b + 2 ^ 64 - a), w₂)

  unfoldable pub bench_syscall : Call W ℕ
  bench_syscall w =
      let (a, w₁) = rdtscp w in
      let (b, w₂) = rdtscp (cpu.syscall 0x8000dead w₁) in (u64 (b + 2 ^ 64 - a), w₂)

  unfoldable pub bench_hypercall : Call W ℕ
  bench_hypercall w =
      let (a, w₁) = rdtscp w in
      let (b, w₂) = rdtscp (cpu.vmmcall 0x8000dead w₁) in (u64 (b + 2 ^ 64 - a), w₂)

-- `all_cycles[i] = x`
abbrev pub set_cell : (i x : ℕ) → (ℕ → ℕ) → ℕ → ℕ
set_cell i x all_cycles j = if j == i then x else all_cycles j

-- The loop from `i` on, with `left` rounds to go.
unfoldable pub batch_loop :
    {W : Type 0} → Call W ℕ → (left i : ℕ) (all_cycles : ℕ → ℕ) → Call W (ℕ → ℕ)
batch_loop bench_fn zero i all_cycles w = (all_cycles, w)
batch_loop bench_fn (suc left) i all_cycles w =
    batch_loop bench_fn left (i + 1) (set_cell i (bench_fn w).0 all_cycles) (bench_fn w).1

unfoldable pub batched_bench :
    {W : Type 0} → Call W ℕ → (count : ℕ) (all_cycles : ℕ → ℕ) → Call W (ℕ → ℕ)
batched_bench bench_fn count all_cycles w = batch_loop bench_fn count 0 all_cycles (bench_fn w).1
