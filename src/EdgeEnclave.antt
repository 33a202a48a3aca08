-- ===== src/EdgeEnclave.antt =====
-- The enclave of the edge-call benchmark, server/edge-calls/Enclave/Enclave.cpp.
pub mod Text
use atc22_ae.Base.{
  Option, some, ℕ, zero, suc, ◌+◌, ◌-◌, ◌%◌, ◌^◌, Bool, true, false, List, [], ◌∷◌, ◌==◌, length,
  if◌then◌else◌, u64,
}
use atc22_ae.Timing.{Call, Cpu, rdtscp, batched_bench}

-- `BUFSIZ` of the SDK's stdio.h is a parameter; glibc's is 8192.
module _ (bufsiz : ℕ) where
  -- The bytes up to the first NUL: what a C string is.
  abbrev pub c_string : List ℕ → List ℕ
  c_string [] = []
  c_string (x ∷ rest) = let go = c_string rest in if x == 0 then [] else x ∷ go

  abbrev pub take : {A : Type 0} → ℕ → List A → List A
  take zero xs = []
  take (suc n) [] = []
  take (suc n) (x ∷ xs) = x ∷ take n xs

  -- `text` is what `vsnprintf` makes of the format; it stores at most `bufsiz - 1` bytes of it. The
  -- string goes to `ocall_print_string`; the result is its length and one.
  unfoldable pub printf : {W : Type 0} → (List ℕ → W → W) → (text : List ℕ) → Call W ℕ
  printf ocall_print_string text w =
      let buf = c_string (take (bufsiz - 1) text) in (length buf + 1, ocall_print_string buf w)

-- What the enclave reaches outside: the clock through the ocall, and the empty ocall. `inside` says
-- that it is built with `ENCLAVE_RDTSC` and reads the clock itself.
pub record Edge (W : Type 0) : Type 0 where
  pub cpu : Cpu W
  pub inside : Bool
  pub ocall_rdtscp : Call W ℕ
  pub ocall_empty : W → W
  pub ocall_print_string : List ℕ → W → W
  pub bufsiz : ℕ
  pub vsnprintf_string : List ℕ → List ℕ

module _ {W : Type 0} (edge : Edge W) where
  unfoldable pub ecall_hello : (message : List ℕ) → W → W
  ecall_hello message w =
      (printf edge.bufsiz edge.ocall_print_string (edge.vsnprintf_string message) w).1

  unfoldable pub ecall_empty : W → W
  ecall_empty w = w

  unfoldable pub enclave_rdtscp : Call W ℕ
  enclave_rdtscp w = if edge.inside then rdtscp edge.cpu w else edge.ocall_rdtscp w

  unfoldable pub bench_enclave_rdtscp : Call W ℕ
  bench_enclave_rdtscp w =
      let (a, w₁) = enclave_rdtscp w in
      let (b, w₂) = enclave_rdtscp w₁ in (u64 (b + 2 ^ 64 - a), w₂)

  unfoldable pub bench_ocall_empty : Call W ℕ
  bench_ocall_empty w =
      let (a, w₁) = enclave_rdtscp w in
      let (b, w₂) = enclave_rdtscp (edge.ocall_empty w₁) in (u64 (b + 2 ^ 64 - a), w₂)

  unfoldable pub ecall_bench_enclave_rdtscp : (count : ℕ) (all_cycles : ℕ → ℕ) → Call W (ℕ → ℕ)
  ecall_bench_enclave_rdtscp count all_cycles = batched_bench bench_enclave_rdtscp count all_cycles

  unfoldable pub ecall_bench_ocall_empty : (count : ℕ) (all_cycles : ℕ → ℕ) → Call W (ℕ → ℕ)
  ecall_bench_ocall_empty count all_cycles = batched_bench bench_ocall_empty count all_cycles

-- `stats` are the two counters of the build with `EENTER_EEXIT_STATS`; `count` and `cycles` are
-- what the pointers point to, and a NULL is `none`.
unfoldable pub ecall_get_eenter_stats :
    (stats : Option (ℕ × ℕ)) (count cycles : Option ℕ) → Option ℕ × Option ℕ
ecall_get_eenter_stats (some (eenters, spent)) (some count) (some cycles) =
    (some eenters, some spent)
ecall_get_eenter_stats stats count cycles = (count, cycles)
