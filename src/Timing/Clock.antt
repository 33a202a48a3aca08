-- ===== src/Timing/Clock.antt =====
-- What the timed calls of server/edge-calls/Include/common.h measure, for a counter that does not
-- run backwards.
use atc22_ae.Base.{ℕ, ◌+◌, ◌-◌, ◌*◌, ◌^◌, ◌≤◌, ◌<◌, ◌≡◌, ◌∙◌, arith, u64}
use atc22_ae.Counter.{joined-sum}
use atc22_ae.Timing.{Call, Cpu, rdtscp, bench_rdtscp, bench_syscall, bench_hypercall}

-- A call that returns the counter's value of the moment it is made, and takes time.
pub record IsReading {W : Type 0} (read : Call W ℕ) (time : W → ℕ) : Type 0 where
  pub reads : (w : W) → (read w).0 ≡ time w
  pub forward : (w : W) → time w ≤ time (read w).1
  pub bound : (w : W) → time w < 2 ^ 64

-- What the manuals say of `rdtscp`: the two registers hold the halves of the counter, and no
-- instruction turns the counter back.
pub record IsClock {W : Type 0} (cpu : Cpu W) (time : W → ℕ) : Type 0 where
  pub low : (w : W) → (cpu.tsc w).0.0 < 2 ^ 32
  pub high : (w : W) → (cpu.tsc w).0.1 < 2 ^ 32
  pub halves : (w : W) → (cpu.tsc w).0.1 * 2 ^ 32 + (cpu.tsc w).0.0 ≡ time w
  pub forward : (w : W) → time w ≤ time (cpu.tsc w).1
  pub forward_syscall : (num : ℕ) (w : W) → time w ≤ time (cpu.syscall num w)
  pub forward_vmmcall : (num : ℕ) (w : W) → time w ≤ time (cpu.vmmcall num w)

-- The difference of two readings with a call between them, as the source computes it.
abbrev pub difference : {W : Type 0} → Call W ℕ → (W → W) → W → ℕ
difference read between w = u64 ((read (between (read w).1)).0 + 2 ^ 64 - (read w).0)

pub difference-exact :
    {W : Type 0} (read : Call W ℕ) (time : W → ℕ) (between : W → W)
    → IsReading read time
    → ((w : W) → time w ≤ time (between w))
    → (w : W) → difference read between w + time w ≡ time (between (read w).1)
difference-exact read time between clock forward w = omega (
  arith,
  clock.reads w,
  clock.reads (between (read w).1),
  clock.forward w,
  forward (read w).1,
  clock.bound (between (read w).1),
)

module _ {W : Type 0} (cpu : Cpu W) (time : W → ℕ) (clock : IsClock cpu time) where
  rdtscp-time : (w : W) → (rdtscp cpu w).0 ≡ time w
  unfolding rdtscp
  rdtscp-time w =
      joined-sum (cpu.tsc w).0.0 (cpu.tsc w).0.1 (clock.low w) (clock.high w) ∙ clock.halves w

  rdtscp-forward : (w : W) → time w ≤ time (rdtscp cpu w).1
  unfolding rdtscp
  rdtscp-forward w = clock.forward w

  pub rdtscp-IsReading : IsReading (rdtscp cpu) time
  rdtscp-IsReading = record {
    reads = rdtscp-time;
    forward = rdtscp-forward;
    bound = λ w. omega (arith, clock.halves w, clock.low w, clock.high w);
  }

  -- Let the registers of `rdtscp` hold the halves of a counter that nothing turns back. Then the
  -- cycles that the three timed calls return are the counter's advance from the first reading to
  -- the second, exactly and without a wrap: over `rdtscp` itself, with the `syscall`, and with the
  -- `vmmcall`.
  pub bench-exact :
      (w : W)
      → let w₁ = (rdtscp cpu w).1 in
        ((bench_rdtscp cpu w).0 + time w ≡ time w₁)
        × ((bench_syscall cpu w).0 + time w ≡ time (cpu.syscall 0x8000dead w₁))
        × ((bench_hypercall cpu w).0 + time w ≡ time (cpu.vmmcall 0x8000dead w₁))
  unfolding bench_rdtscp bench_syscall bench_hypercall
  bench-exact w = (
    difference-exact (rdtscp cpu) time (λ w. w) rdtscp-IsReading (λ w. omega arith) w,
    difference-exact (rdtscp cpu) time (cpu.syscall 0x8000dead) rdtscp-IsReading
        (clock.forward_syscall 0x8000dead) w,
    difference-exact (rdtscp cpu) time (cpu.vmmcall 0x8000dead) rdtscp-IsReading
        (clock.forward_vmmcall 0x8000dead) w,
  )
