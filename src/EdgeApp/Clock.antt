-- ===== src/EdgeApp/Clock.antt =====
-- What server/edge-calls measures across the edge of the enclave: the ecall timed by App/App.cpp,
-- and the ocall timed by Enclave/Enclave.cpp, with the clock read in the enclave or outside.
use atc22_ae.Base.{ℕ, ◌+◌, ◌≤◌, ◌≡◌, arith, Bool, true, false, if◌then◌else◌}
use atc22_ae.Bench.{Double, Host}
use atc22_ae.Timing.{Call, Cpu, rdtscp}
use atc22_ae.Timing.Clock.{IsReading, IsClock, difference-exact, rdtscp-IsReading}
use atc22_ae.EdgeEnclave.{Edge, enclave_rdtscp, bench_enclave_rdtscp, bench_ocall_empty}
use atc22_ae.EdgeApp.{Sdk, bench_ecall_empty, ocall_rdtscp}

IsReading-if :
    {W : Type 0} (c : Bool) (a b : Call W ℕ) (time : W → ℕ)
    → IsReading a time
    → IsReading b time
    → IsReading (λ w. if c then a w else b w) time
IsReading-if true a b time p q = p
IsReading-if false a b time p q = q

module _ {W : Type 0} (double : Double) (host : Host W double.Carrier) (cpu : Cpu W) (sdk : Sdk W)
    (edge : Edge W) (eid : ℕ) (time : W → ℕ) where
  -- The clock on both sides of the edge: the enclave and the application read the same counter, the
  -- ocall for the clock does what the application's function does, and the empty calls take time.
  pub record IsEdgeClock : Type 0 where
    pub outside : IsClock cpu time
    pub inside : IsClock edge.cpu time
    pub ocall : edge.ocall_rdtscp ≡ ocall_rdtscp double host cpu sdk
    pub forward_ocall : (w : W) → time w ≤ time (edge.ocall_empty w)
    pub forward_ecall : (w : W) → time w ≤ time (sdk.ecall_empty eid w)

  module _ (clock : IsEdgeClock) where
    ocall_rdtscp-IsReading : IsReading (ocall_rdtscp double host cpu sdk) time
    unfolding ocall_rdtscp
    ocall_rdtscp-IsReading = rdtscp-IsReading cpu time clock.outside

    enclave_rdtscp-IsReading : IsReading (enclave_rdtscp edge) time
    unfolding enclave_rdtscp
    enclave_rdtscp-IsReading =
        IsReading-if edge.inside (rdtscp edge.cpu) edge.ocall_rdtscp time
          (rdtscp-IsReading edge.cpu time clock.inside) (rw clock.ocall ocall_rdtscp-IsReading)

    -- Let both sides of the edge read one counter that nothing turns back, the enclave by itself or
    -- through the ocall. Then the cycles that the timed ecall, the enclave's two readings and the
    -- timed ocall return are the counter's advance between their readings, exactly and without a
    -- wrap.
    pub edge-exact :
        (w : W)
        → let w₁ = (rdtscp cpu w).1 in
          let w₂ = (enclave_rdtscp edge w).1 in
          ((bench_ecall_empty double host cpu sdk eid w).0 + time w ≡ time (sdk.ecall_empty eid w₁))
          × ((bench_enclave_rdtscp edge w).0 + time w ≡ time w₂)
          × ((bench_ocall_empty edge w).0 + time w ≡ time (edge.ocall_empty w₂))
    unfolding bench_ecall_empty bench_enclave_rdtscp bench_ocall_empty
    edge-exact w = (
      difference-exact (rdtscp cpu) time (sdk.ecall_empty eid)
          (rdtscp-IsReading cpu time clock.outside) clock.forward_ecall w,
      difference-exact (enclave_rdtscp edge) time (λ w. w) enclave_rdtscp-IsReading
          (λ w. omega arith) w,
      difference-exact (enclave_rdtscp edge) time edge.ocall_empty enclave_rdtscp-IsReading
          clock.forward_ocall w,
    )
