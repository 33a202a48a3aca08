-- ===== src/Bench/Results.antt =====
-- What `bench_stats` and `run_bench` of server/edge-calls/Include/bench.h write, and how they end.
use Prim.Native.String.{String}
use atc22_ae.Base.{
  ℕ, zero, suc, ◌+◌, ◌<◌, ◌≡◌, refl, ap, arith, true, false, some, List, [], ◌∷◌, get_elem?, length,
}
use atc22_ae.Sgx.{SgxStatus, sgx_success, same_status}
use atc22_ae.Bench.{
  Double, Host, Event, num, str, printed, opened, wrote, closed, made_directory, changed_directory,
  stats_csv, write_loop, print_all, bench_in_enclave, run_main, open_stats, run_bench,
}
use atc22_ae.Timing.{Ran, value, exited, crashed}

module _ (double : Double) where
  write_from :
      (path : String) (left i warmup_times : ℕ) (all_cycles : ℕ → ℕ) (k : ℕ)
      → k < left
      → get_elem? (write_loop double path left i warmup_times all_cycles) k
        ≡ some (wrote path "%ld\n" (num (all_cycles (i + k + warmup_times)) ∷ []))
  unfolding write_loop
  write_from path zero i warmup_times all_cycles k h = absurd (omega arith)
  write_from path (suc left) i warmup_times all_cycles zero h =
      let same : i + 0 ≡ i = omega arith in rw same refl
  write_from path (suc left) i warmup_times all_cycles (suc k) h =
      let next : i + suc k ≡ i + 1 + k = omega arith in
      rw next (write_from path left (i + 1) warmup_times all_cycles k (omega arith))

  pub length-write_loop :
      (path : String) (left i warmup_times : ℕ) (all_cycles : ℕ → ℕ)
      → length (write_loop double path left i warmup_times all_cycles) ≡ left
  unfolding write_loop
  length-write_loop path zero i warmup_times all_cycles = refl
  length-write_loop path (suc left) i warmup_times all_cycles =
      ap suc (length-write_loop path left (i + 1) warmup_times all_cycles)

-- Line k of a benchmark's file is measurement number `warmup_times + k`.
pub get_elem?-write_loop :
    (double : Double) (path : String) (test_times warmup_times : ℕ) (all_cycles : ℕ → ℕ) (k : ℕ)
    → k < test_times
    → get_elem? (write_loop double path test_times 0 warmup_times all_cycles) k
      ≡ some (wrote path "%ld\n" (num (all_cycles (k + warmup_times)) ∷ []))
get_elem?-write_loop double path test_times warmup_times all_cycles k h =
    let same : 0 + k ≡ k = omega arith in
    rw same at (write_from double path test_times 0 warmup_times all_cycles k h)

-- If the bridge of the ecall answers an error, the program ends with status 0, the one of success,
-- when it has printed the message of the error: no statistics are computed and no file is written.
pub bench_in_enclave-error :
    {W : Type 0} (double : Double) (host : Host W double.Carrier)
    (message : SgxStatus → List (Event double.Carrier)) (name : String)
    (time_offset warmup_times test_times : ℕ)
    (ecall : (count : ℕ) (all_cycles : ℕ → ℕ) → W → (SgxStatus × (ℕ → ℕ)) × W)
    (cells all_cycles : ℕ → ℕ) (w w' : W) (ret : SgxStatus)
    → ecall
        (warmup_times + test_times)
        cells
        (host.emit (printed "Benchmark %s in Enclave:\n" (str name ∷ [])) w)
      ≡ ((ret, all_cycles), w')
    → same_status ret sgx_success ≡ false
    → bench_in_enclave double host message name time_offset warmup_times test_times ecall cells w
      ≡ exited 0 (print_all double host (message ret) w')
unfolding bench_in_enclave
bench_in_enclave-error double host message name time_offset warmup_times test_times ecall cells
      all_cycles w w' ret e h =
    rw (e, h) refl

-- The result of `bench_main` in an open directory with an open file of statistics: closed behind it.
abbrev pub closed_after : {W D : Type 0} → Host W D → Ran W ℕ → Ran W ℕ
closed_after host (value ret w) = value ret (host.emit (closed stats_csv) w)
closed_after host (exited code w) = exited code w
closed_after host (crashed w) = crashed w

closed_after-run_main :
    {W : Type 0} (double : Double) (host : Host W double.Carrier) (bench_main : W → Ran W ℕ) (w : W)
    → run_main double host bench_main w ≡ closed_after host (bench_main w)
unfolding run_main
closed_after-run_main double host bench_main w = closed_by (bench_main w)
  where
    closed_by :
        (r : Ran _ ℕ)
        → elim r [
          | value a w' ↦ value a (host.emit (closed stats_csv) w')
          | exited code w' ↦ exited code w'
          | crashed w' ↦ crashed w'
        ]
          ≡ closed_after host r
    closed_by (value a w') = refl
    closed_by (exited code w') = refl
    closed_by (crashed w') = refl

-- The directory of the results, and the world when it has been made and entered.
abbrev pub directory : {W D : Type 0} → Host W D → String → W → String
directory host tag w = host.result_path tag (host.time w).0

abbrev pub made : {W D : Type 0} → Host W D → String → W → W
made host tag w = host.emit (made_directory (directory host tag w)) (host.time w).1

abbrev pub entered : {W D : Type 0} → Host W D → String → W → W
entered host tag w = host.emit (changed_directory (directory host tag w)) (made host tag w)

-- If the result directory can be entered and the file of statistics opened, `run_bench` runs
-- `bench_main` once, behind the header line of the file, and ends as it does: with its result and
-- the file closed, or, if it has ended the program or crashed, with that and the file still open.
pub run_bench-opened :
    {W : Type 0} (double : Double) (host : Host W double.Carrier) (tag : String)
    (bench_main : W → Ran W ℕ) (w : W)
    → host.chdir_ok (directory host tag w) (made host tag w) ≡ true
    → host.fopen_ok stats_csv (entered host tag w) ≡ true
    → run_bench double host tag bench_main w
      ≡ closed_after host (
          bench_main (
            host.emit
              (wrote stats_csv "Name,Median,Average,Min,Max,Deviation\n" [])
              (host.emit (opened stats_csv "w") (entered host tag w))))
unfolding run_bench open_stats
run_bench-opened double host tag bench_main w c f =
    rw (c, f)
      (closed_after-run_main double host bench_main (
        host.emit (wrote stats_csv "Name,Median,Average,Min,Max,Deviation\n" [])
          (host.emit (opened stats_csv "w") (entered host tag w))))
