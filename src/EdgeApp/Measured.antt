-- ===== src/EdgeApp/Measured.antt =====
-- The whole run of server/edge-calls/App/App.cpp with the enclave of Enclave/Enclave.cpp beside it,
-- and what its benchmarks measure.
use Prim.Native.String.{String}
use atc22_ae.Base.{
  ℕ, ◌≡◌, refl, ap, ◌∙◌, ◌⊎◌, inl, inr, true, false, Bool-cases, Option, [], ◌∷◌, if◌then◌else◌,
}
use atc22_ae.Sgx.{sgx_success}
use atc22_ae.Bench.{Double, Host, num, printed, closed, stats_csv}
use atc22_ae.Bench.Results.{directory, made, entered}
use atc22_ae.Bench.Measured.{Opens, saved_run-Measured, bench_in_app-app_saved}
use atc22_ae.Bench.Measured
use atc22_ae.Timing.{value, Cpu, rdtscp, bench_rdtscp}
use atc22_ae.Timing.Clock.{bench-exact}
use atc22_ae.EdgeEnclave.{Edge, enclave_rdtscp, bench_ocall_empty, bench_enclave_rdtscp}
use atc22_ae.EdgeApp.{
  Sdk, enclave_filename, global_eid, tag_of, fresh, warmup, tests, bench_ecall_empty, report_stats,
  bench_main, main,
}
use atc22_ae.EdgeApp.Measures.{app_run, enclave_run, AppMeasures, EnclaveMeasures, opened_world}
use atc22_ae.EdgeApp.Run.{
  EdgeBridge, bench_in_enclave-ocall, offset_run, time_enclave-offset_run, stats_block-Returns,
  edge_main-returned, bind-value,
}
use atc22_ae.EdgeApp.Clock.{IsEdgeClock, edge-exact}

-- The three numbers at the end of the report.
abbrev pub told : {W D : Type 0} → Host W D → (time_rdtscp time_ecall time_ocall : ℕ) → W → W
told host time_rdtscp time_ecall time_ocall w =
    host.emit (printed "ocall: %ld\n" (num time_ocall ∷ [])) (
      host.emit (printed "ecall: %ld\n" (num time_ecall ∷ []))
        (host.emit (printed "rdtcsp: %ld\n" (num time_rdtscp ∷ [])) w))

module _ {W : Type 0} (double : Double) (host : Host W double.Carrier) (cpu : Cpu W) (sdk : Sdk W)
    (edge : Edge W) (eid : ℕ) where
  -- Where the offset of the ocall's benchmark comes from: the build in which the enclave reads the
  -- clock itself takes the median of the first benchmark; the other one measures the enclave's
  -- readings.
  abbrev pub Offset : (time : W → ℕ) (time_rdtscp : ℕ) → W → (offset : ℕ) → W → Type 0
  Offset time time_rdtscp w offset w' =
      ((sdk.enclave_rdtsc ≡ true) × (offset ≡ time_rdtscp) × (w' ≡ w))
      ⊎ ((sdk.enclave_rdtsc ≡ false)
          × (enclave_run double host "enclave_rdtscp" 0 (bench_enclave_rdtscp edge) w
              ≡ (offset, w'))
          × EnclaveMeasures double host time (bench_enclave_rdtscp edge)
              (λ u. (enclave_rdtscp edge u).1) "enclave_rdtscp" 0 w)

  -- The four benchmarks of `bench_main` from the world `w` on, and the world `u` behind what it
  -- prints of them.
  pub record EdgeRun (time : W → ℕ) (w u : W) : Type 0 where
    pub time_rdtscp : ℕ
    pub time_ecall : ℕ
    pub offset : ℕ
    pub time_ocall : ℕ
    pub w₁ : W
    pub w₂ : W
    pub w₃ : W
    pub w₄ : W
    pub first :
        app_run double host "rdtscp" 0 (bench_rdtscp cpu) (sdk.ecall_hello eid "Hello world!\n" w)
        ≡ (time_rdtscp, w₁)
    pub first_measures :
        AppMeasures double host time
          (bench_rdtscp cpu)
          (λ x. (rdtscp cpu x).1)
          "rdtscp"
          0
          (sdk.ecall_hello eid "Hello world!\n" w)
    pub second :
        app_run double host "ecall_empty" time_rdtscp (bench_ecall_empty double host cpu sdk eid) w₁
        ≡ (time_ecall, w₂)
    pub second_measures :
        AppMeasures double host time
          (bench_ecall_empty double host cpu sdk eid)
          (λ x. sdk.ecall_empty eid (rdtscp cpu x).1)
          "ecall_empty"
          time_rdtscp
          w₁
    pub third : Offset time time_rdtscp w₂ offset w₃
    pub fourth :
        enclave_run double host "ocall_empty" offset (bench_ocall_empty edge) w₃ ≡ (time_ocall, w₄)
    pub fourth_measures :
        EnclaveMeasures double host time
          (bench_ocall_empty edge)
          (λ x. edge.ocall_empty (enclave_rdtscp edge x).1)
          "ocall_empty"
          offset
          w₃
    pub block :
        (v : ℕ) × ((if sdk.eenter_eexit_stats
            then report_stats double host cpu sdk eid
                (told host time_rdtscp time_ecall time_ocall w₄)
            else value 0 (told host time_rdtscp time_ecall time_ocall w₄))
          ≡ value v u)

  module _ (bridge : EdgeBridge sdk edge eid) (opens : Opens host) where
    bench_main-returned :
        (w x₁ x₂ x₃ x₄ u : W) (a b t c v : ℕ)
        → app_run double host "rdtscp" 0 (bench_rdtscp cpu) (sdk.ecall_hello eid "Hello world!\n" w)
          ≡ (a, x₁)
        → app_run double host "ecall_empty" a (bench_ecall_empty double host cpu sdk eid) x₁
          ≡ (b, x₂)
        → offset_run double host cpu sdk edge eid bridge opens a x₂ ≡ (t, x₃)
        → enclave_run double host "ocall_empty" t (bench_ocall_empty edge) x₃ ≡ (c, x₄)
        → (if sdk.eenter_eexit_stats
            then report_stats double host cpu sdk eid (told host a b c x₄)
            else value 0 (told host a b c x₄))
          ≡ value v u
        → bench_main double host cpu sdk eid w ≡ value 0 u
    unfolding bench_main
    bench_main-returned w x₁ x₂ x₃ x₄ u a b t c v first second offset ocall block =
        bind-value _ a x₁
          (bench_in_app-app_saved double host (bench_rdtscp cpu) "rdtscp" 0 warmup tests fresh
              (sdk.ecall_hello eid "Hello world!\n" w) opens
            ∙ ap (λ p. value p.0 p.1) first)
          (bind-value _ b x₂
            (bench_in_app-app_saved double host (bench_ecall_empty double host cpu sdk eid)
                "ecall_empty" a warmup tests fresh x₁ opens
              ∙ ap (λ p. value p.0 p.1) second)
            (bind-value _ t x₃
              (time_enclave-offset_run double host cpu sdk edge eid bridge opens a x₂
                ∙ ap (λ p. value p.0 p.1) offset)
              (bind-value _ c x₄
                (bench_in_enclave-ocall double host cpu sdk edge eid bridge opens t x₃
                  ∙ ap (λ p. value p.0 p.1) ocall)
                (bind-value _ v u block refl))))

    module _ (time : W → ℕ) (clock : IsEdgeClock double host cpu sdk edge eid time) where
      offset_lem :
          (a : ℕ) (w : W)
          → let (t, w') = offset_run double host cpu sdk edge eid bridge opens a w in
            Offset time a w t w'
      offset_lem a w = elim (Bool-cases sdk.enclave_rdtsc) [
        | inl e ↦ inl (e, rw e refl, rw e refl)
        | inr e ↦ inr (
          e,
          rw e refl,
          saved_run-Measured double host time (bench_enclave_rdtscp edge) _ "enclave_rdtscp" 0
              warmup tests fresh _ (λ x. (edge-exact double host cpu sdk edge eid time clock x).1),
        )
      ]

      bench_main-EdgeRun :
          (w : W) → (u : W) × EdgeRun time w u × (bench_main double host cpu sdk eid w ≡ value 0 u)
      bench_main-EdgeRun w =
          let (a, w₁) =
            app_run double host "rdtscp" 0 (bench_rdtscp cpu)
              (sdk.ecall_hello eid "Hello world!\n" w) in
          let (b, w₂) =
            app_run double host "ecall_empty" a (bench_ecall_empty double host cpu sdk eid) w₁ in
          let (t, w₃) = offset_run double host cpu sdk edge eid bridge opens a w₂ in
          let (c, w₄) = enclave_run double host "ocall_empty" t (bench_ocall_empty edge) w₃ in
          let (v, u, ran) =
            stats_block-Returns double host cpu sdk edge eid bridge opens (told host a b c w₄) in
          let run : EdgeRun time w u = record {
            time_rdtscp = a;
            time_ecall = b;
            offset = t;
            time_ocall = c;
            w₁ = w₁;
            w₂ = w₂;
            w₃ = w₃;
            w₄ = w₄;
            first = refl;
            first_measures =
                saved_run-Measured double host time (bench_rdtscp cpu) _ "rdtscp" 0 warmup tests
                  fresh (Measured.announced host "rdtscp" (sdk.ecall_hello eid "Hello world!\n" w))
                  (λ x. (bench-exact cpu time clock.outside x).0);
            second = refl;
            second_measures =
                saved_run-Measured double host time (bench_ecall_empty double host cpu sdk eid) _
                  "ecall_empty" a warmup tests fresh (Measured.announced host "ecall_empty" w₁)
                  (λ x. (edge-exact double host cpu sdk edge eid time clock x).0);
            third = offset_lem a w₂;
            fourth = refl;
            fourth_measures =
                saved_run-Measured double host time (bench_ocall_empty edge) _ "ocall_empty" t
                  warmup tests fresh _
                  (λ x. (edge-exact double host cpu sdk edge eid time clock x).2);
            block = (v, ran);
          } in
          (u, run, bench_main-returned w w₁ w₂ w₃ w₄ u a b t c v refl refl refl refl ran)

-- Let the creation of the enclave succeed, the bridges of the two measuring ecalls succeed and do
-- what the enclave's functions do, the directory of results, the file of statistics and every file
-- of samples open, and both sides of the edge read one counter that nothing turns back. Then the program calls
-- `ecall_hello`, runs its benchmarks one after the other (`rdtscp`, the ecall, in the build where
-- the enclave has no clock the enclave's readings, and the ocall), each with the offset that the
-- one before it gives, prints the three medians, runs the block of `EENTER_EEXIT_STATS` where it is
-- built, closes the file, destroys the enclave and returns 0. In each benchmark each of the
-- 1,010,000 cells is the counter's exact advance over its call, the statistics are those of the
-- sorted samples, and the file has one line for each sample, in the order of the measurement.
pub edge_main-EdgeRun :
    {W : Type 0} (double : Double) (host : Host W double.Carrier) (cpu : Cpu W) (sdk : Sdk W)
    (edge : Edge W) (argument : Option String) (eid : ℕ) (time : W → ℕ) (w w₁ : W)
    → sdk.create_enclave enclave_filename global_eid w ≡ ((sgx_success, eid), w₁)
    → EdgeBridge sdk edge eid
    → IsEdgeClock double host cpu sdk edge eid time
    → host.chdir_ok (directory host (tag_of argument) w₁) (made host (tag_of argument) w₁) ≡ true
    → host.fopen_ok stats_csv (entered host (tag_of argument) w₁) ≡ true
    → Opens host
    → (u : W) × EdgeRun double host cpu sdk edge eid time (opened_world host (tag_of argument) w₁) u
      × (main double host cpu sdk argument w
          ≡ value 0 (sdk.destroy_enclave eid (host.emit (closed stats_csv) u)))
edge_main-EdgeRun double host cpu sdk edge argument eid time w w₁ created bridge clock dir file
      opens =
    let (u, run, ran) =
      bench_main-EdgeRun double host cpu sdk edge eid bridge opens time clock
        (opened_world host (tag_of argument) w₁) in
    (u, run, edge_main-returned double host cpu sdk argument eid w w₁ u created dir file ran)
