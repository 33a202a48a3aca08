-- ===== src/EdgeApp/Run.antt =====
-- A run of server/edge-calls/App/App.cpp with the enclave of Enclave/Enclave.cpp beside it, from the
-- creation of the enclave to its destruction.
use Prim.Native.String.{String}
use atc22_ae.Base.{ℕ, ◌+◌, ◌≡◌, refl, ap, ◌∙◌, Bool, true, false, Option, List, if◌then◌else◌}
use atc22_ae.Sgx.{SgxStatus, sgx_success}
use atc22_ae.Bench.{Double, Host, Event, closed, stats_csv, bench_in_enclave, run_bench}
use atc22_ae.Timing.{Ran, value, exited, crashed, lift, Call, Cpu, batched_bench}
use atc22_ae.Bench.Measured.{Opens, measured_stats-saved_run}
use atc22_ae.EdgeApp.Measures.{announced, enclave_run, opened_world}
use atc22_ae.Bench.Results.{closed_after, directory, made, entered, run_bench-opened}
use atc22_ae.EdgeEnclave
use atc22_ae.EdgeEnclave.{Edge, bench_ocall_empty, bench_enclave_rdtscp}
use atc22_ae.EdgeApp.{
  Sdk, enclave_filename, global_eid, tag_of, fresh, warmup, tests, print_error_message,
  initialize_enclave, time_enclave, report_latency, report_stats, bench_main, run_enclave, main,
}

-- The bridges of the two measuring ecalls succeed, and do what the enclave's functions do.
pub record EdgeBridge {W : Type 0} (sdk : Sdk W) (edge : Edge W) (eid : ℕ) : Type 0 where
  pub rdtscp :
      (count : ℕ) (cells : ℕ → ℕ) (w : W)
      → sdk.ecall_bench_enclave_rdtscp eid count cells w ≡ (
        (sgx_success, (EdgeEnclave.ecall_bench_enclave_rdtscp edge count cells w).0),
        (EdgeEnclave.ecall_bench_enclave_rdtscp edge count cells w).1,
      )
  pub ocall_empty :
      (count : ℕ) (cells : ℕ → ℕ) (w : W)
      → sdk.ecall_bench_ocall_empty eid count cells w ≡ (
        (sgx_success, (EdgeEnclave.ecall_bench_ocall_empty edge count cells w).0),
        (EdgeEnclave.ecall_bench_ocall_empty edge count cells w).1,
      )

-- A run that comes back.
abbrev pub Returns : {W : Type 0} → Ran W ℕ → Type 0
Returns {W} r = (a : ℕ) × (w : W) × (r ≡ value a w)

-- What follows a run that comes back.
pub bind-value :
    {W : Type 0} (f : ℕ → W → Ran W ℕ) {m r : Ran W ℕ} (a : ℕ) (w : W)
    → m ≡ value a w
    → f a w ≡ r
    → elim m [ value b u ↦ f b u | exited code u ↦ exited code u | crashed u ↦ crashed u ] ≡ r
bind-value f a w e rest = rw e rest

pub bind-crashed :
    {W : Type 0} (f : ℕ → W → Ran W ℕ) {m : Ran W ℕ} (w : W)
    → m ≡ crashed w
    → elim m [ value b u ↦ f b u | exited code u ↦ exited code u | crashed u ↦ crashed u ]
      ≡ crashed w
bind-crashed f w e = rw e refl

Returns-if :
    {W : Type 0} (c : Bool) (r r' : Ran W ℕ)
    → Returns r
    → Returns r'
    → Returns (if c then r else r')
Returns-if true r r' a b = a
Returns-if false r r' a b = b

lift-if :
    {W : Type 0} (c : Bool) (r : Ran W ℕ) (p q : ℕ × W)
    → r ≡ value q.0 q.1
    → (if c then value p.0 p.1 else r) ≡ value (if c then p else q).0 (if c then p else q).1
lift-if true r p q e = refl
lift-if false r p q e = e

abbrev Batches : {W : Type 0} → Call W ℕ → (ℕ → (ℕ → ℕ) → W → (SgxStatus × (ℕ → ℕ)) × W) → Type 0
Batches {W} fn ecall =
    (count : ℕ) (cells : ℕ → ℕ) (w : W)
    → ecall count cells w
      ≡ ((sgx_success, (batched_bench fn count cells w).0), (batched_bench fn count cells w).1)

module _ {W : Type 0} (double : Double) (host : Host W double.Carrier) where
  bench_in_enclave-Batches :
      (opens : Opens host) (fn : Call W ℕ) (ecall : ℕ → (ℕ → ℕ) → W → (SgxStatus × (ℕ → ℕ)) × W)
      → Batches fn ecall
      → (message : SgxStatus → List (Event double.Carrier)) (name : String) (time_offset : ℕ)
        (w : W)
      → bench_in_enclave double host message name time_offset warmup tests ecall fresh w
        ≡ lift (enclave_run double host name time_offset fn) w
  unfolding bench_in_enclave
  bench_in_enclave-Batches opens fn ecall same message name time_offset w =
      rw (same (warmup + tests) fresh (announced host name w)) (
        measured_stats-saved_run double host fn name time_offset warmup tests fresh
          (announced host name w) opens)

module _ {W : Type 0} (double : Double) (host : Host W double.Carrier) (cpu : Cpu W) (sdk : Sdk W)
    (edge : Edge W) (eid : ℕ) (bridge : EdgeBridge sdk edge eid) (opens : Opens host) where
  ocall_empty-Batches : Batches (bench_ocall_empty edge) (sdk.ecall_bench_ocall_empty eid)
  unfolding EdgeEnclave.ecall_bench_ocall_empty
  ocall_empty-Batches = bridge.ocall_empty

  rdtscp-Batches : Batches (bench_enclave_rdtscp edge) (sdk.ecall_bench_enclave_rdtscp eid)
  unfolding EdgeEnclave.ecall_bench_enclave_rdtscp
  rdtscp-Batches = bridge.rdtscp

  -- The measurement of the ocall is the batch of the enclave's `bench_ocall_empty` with the
  -- statistics of the application.
  pub bench_in_enclave-ocall :
      (time_offset : ℕ) (w : W)
      → bench_in_enclave double host print_error_message "ocall_empty" time_offset warmup tests
          (sdk.ecall_bench_ocall_empty eid)
          fresh
          w
        ≡ lift (enclave_run double host "ocall_empty" time_offset (bench_ocall_empty edge)) w
  bench_in_enclave-ocall =
      bench_in_enclave-Batches double host opens (bench_ocall_empty edge)
        (sdk.ecall_bench_ocall_empty eid) ocall_empty-Batches print_error_message "ocall_empty"

  -- The offset of the ocall's benchmark: the median of the first benchmark, or, in the build where
  -- the enclave reads the clock by an ocall, that of the enclave's readings.
  abbrev pub offset_run : (time_rdtscp : ℕ) → Call W ℕ
  offset_run time_rdtscp w =
      if sdk.enclave_rdtsc
      then (time_rdtscp, w)
      else enclave_run double host "enclave_rdtscp" 0 (bench_enclave_rdtscp edge) w

  pub time_enclave-offset_run :
      (t : ℕ) (w : W) → time_enclave double host cpu sdk eid t w ≡ lift (offset_run t) w
  unfolding time_enclave
  time_enclave-offset_run t w =
      lift-if sdk.enclave_rdtsc _ (t, w) _
        (bench_in_enclave-Batches double host opens (bench_enclave_rdtscp edge)
          (sdk.ecall_bench_enclave_rdtscp eid) rdtscp-Batches print_error_message "enclave_rdtscp" 0
          w)

  pub stats_block-Returns :
      (w : W)
      → Returns
          (if sdk.eenter_eexit_stats then report_stats double host cpu sdk eid w else value 0 w)
  unfolding report_stats report_latency
  stats_block-Returns w = Returns-if sdk.eenter_eexit_stats _ _ (0, _, refl) (0, w, refl)

pub main-created :
    {W : Type 0} (double : Double) (host : Host W double.Carrier) (cpu : Cpu W) (sdk : Sdk W)
    (argument : Option String) (eid : ℕ) (w w₁ : W)
    → sdk.create_enclave enclave_filename global_eid w ≡ ((sgx_success, eid), w₁)
    → main double host cpu sdk argument w ≡ run_enclave double host cpu sdk (tag_of argument) eid w₁
unfolding main initialize_enclave
main-created double host cpu sdk argument eid w w₁ e = rw e refl

run_enclave-returned :
    {W : Type 0} (double : Double) (host : Host W double.Carrier) (cpu : Cpu W) (sdk : Sdk W)
    (tag : String) (eid : ℕ) (w u : W)
    → run_bench double host tag (bench_main double host cpu sdk eid) w ≡ value 0 u
    → run_enclave double host cpu sdk tag eid w ≡ value 0 (sdk.destroy_enclave eid u)
unfolding run_enclave
run_enclave-returned {W} double host cpu sdk tag eid w u e =
    ap {B = Ran W ℕ}
      (λ r. elim r [
        | value ret w' ↦ value ret (sdk.destroy_enclave eid w')
        | exited code w' ↦ exited code w'
        | crashed w' ↦ crashed w'
      ])
      e

-- `main` around a `bench_main` that returns.
pub edge_main-returned :
    {W : Type 0} (double : Double) (host : Host W double.Carrier) (cpu : Cpu W) (sdk : Sdk W)
    (argument : Option String) (eid : ℕ) (w w₁ u : W)
    → sdk.create_enclave enclave_filename global_eid w ≡ ((sgx_success, eid), w₁)
    → host.chdir_ok (directory host (tag_of argument) w₁) (made host (tag_of argument) w₁) ≡ true
    → host.fopen_ok stats_csv (entered host (tag_of argument) w₁) ≡ true
    → bench_main double host cpu sdk eid (opened_world host (tag_of argument) w₁) ≡ value 0 u
    → main double host cpu sdk argument w
      ≡ value 0 (sdk.destroy_enclave eid (host.emit (closed stats_csv) u))
edge_main-returned double host cpu sdk argument eid w w₁ u created dir file ran =
    let bench =
      run_bench-opened double host (tag_of argument) (bench_main double host cpu sdk eid) w₁ dir
        file
      ∙ ap (closed_after host) ran in
    main-created double host cpu sdk argument eid w w₁ created
    ∙ run_enclave-returned double host cpu sdk (tag_of argument) eid w₁ _ bench
