-- ===== src/PEnclave/Measure.antt =====
-- The part of `ecall_exception` behind the registration of the handler
-- (server/exception/exception_p_enclave/Enclave/Enclave.cpp): its two store loops, `mprotect`
-- between them, the loop of `ud2`, and the reports.
use atc22_ae.Base.{
  ℕ, suc, ◌+◌, ◌-◌, ◌%◌, ◌^◌, ◌<◌, ◌≡◌, refl, ◌∙◌, ap, arith, some, List, [], ◌∷◌, ltb, u32,
}
use atc22_ae.Outcome.{done, success}
use atc22_ae.Paging.{Mmu, pte_p, mprotect}
use atc22_ae.Paging.Walk.{phys_of}
use atc22_ae.Paging.Protect.Range.{page, IsProtectable}
use mathlib.Core.Path.{subst₂, sym}
use atc22_ae.Paging.Protect.{mprotect-IsProtected}
use atc22_ae.Machine.{Resumed}
use atc22_ae.PEnclave.{Enclave, Line, printf_ocall, exception_handler}
use atc22_ae.PEnclave.Ecall.{
  Env, Globals, value, ud2_loop, store_loop, pages, after_protect, protect_buf, report_writes,
  report_ud2, report_counts, measure, buf_size, rdtscp, elapsed,
}
use atc22_ae.Counter.{IsCounter, joined-reading, reading-bound}
use atc22_ae.PEnclave.Buffer.{IsMapped, Holds, Holds-first, Holds-protected}
use atc22_ae.PEnclave.Writes.{Obeys, Stored, store_loop-writable, store_loop-protected}
use atc22_ae.PEnclave.Opcodes.{ud2_loop_lem}

-- The state that `measure` returns, from the state after the second store loop.
abbrev reported : Env → (nrepeats : ℕ) → Enclave → Enclave
reported env nrepeats s₃ =
    let s₄ = report_writes env s₃ in
    report_counts (report_ud2 env nrepeats (record s₄ { ud_count = u32 (s₄.ud_count + nrepeats) }))

module _ (tries : ℕ) (env : Env) (glob : Globals) (nrepeats : ℕ) where
  measure_run :
      (s s₁ s₂ s₃ : Enclave)
      → store_loop env glob tries pages env.store_context env.test_buf s ≡ value s₁
      → protect_buf env s₁ ≡ value s₂
      → store_loop env glob tries pages env.store_context env.test_buf s₂ ≡ value s₃
      → ud2_loop env glob nrepeats env.ud2_context (report_writes env s₃)
        ≡ value (record (report_writes env s₃) {
          ud_count = u32 ((report_writes env s₃).ud_count + nrepeats);
        })
      → measure tries env glob nrepeats s ≡ value (reported env nrepeats s₃)
  unfolding measure
  measure_run s s₁ s₂ s₃ e₁ e₂ e₃ e₄ = rw (e₁, e₂, e₃, e₄) refl

pub protect_buf_run :
    (env : Env) (s : Enclave) (m m' : Mmu)
    → s.mmu ≡ m
    → mprotect m env.test_buf buf_size pte_p ≡ done (success, m')
    → protect_buf env s
      ≡ value (printf_ocall "read OK: %d\n" (s.byte_at env.test_buf ∷ []) (record s { mmu = m' }))
unfolding protect_buf after_protect
protect_buf_run env s m m' same ran = rw (same, ran) refl

-- The lines from the first read on, the last one first, over those of before: the counter reads
-- `t 0` to `t 3`, and the three counts are `pf`, `ud` and `intr`.
abbrev pub transcript : (t : ℕ → ℕ) (nrepeats pf ud intr : ℕ) → List Line → List Line
transcript t nrepeats pf ud intr older =
    ("#PF Count = %d\n\n", pf ∷ [])
    ∷ ("#UD Count = %d\n", ud ∷ [])
    ∷ ("Interrupt Count = %d\n", intr ∷ [])
    ∷ ("Average time = %.3lf (cycles)\n\n", (t 3 - t 2 - 60) ∷ nrepeats ∷ [])
    ∷ ("Total Time = %lld (cycles)\n", (t 3 - t 2 - 60) ∷ [])
    ∷ ("Count = %d\n", nrepeats ∷ [])
    ∷ ("test #UD OK\n", [])
    ∷ ("Average time = %.3lf (cycles)\n\n", (t 1 - t 0 - 60) ∷ 32768 ∷ [])
    ∷ ("Total Time = %lld (cycles)\n", (t 1 - t 0 - 60) ∷ [])
    ∷ ("Write Count = %d\n", 32768 ∷ [])
    ∷ ("write OK\n", [])
    ∷ ("read OK: %d\n", 0 ∷ [])
    ∷ older

-- The state that the loops lead to, from the state that they start in: the counters, the lines
-- printed over `older`, and the bytes stored.
pub record Counted (t : ℕ → ℕ) (start nrepeats : ℕ) (older : List Line) (s s' : Enclave)
    : Type 0 where
  pub pf_count : s'.pf_count ≡ u32 (s.pf_count + pages)
  pub ud_count : s'.ud_count ≡ u32 (s.ud_count + nrepeats)
  pub intr_count : s'.intr_count ≡ s.intr_count
  pub forwarded : s'.forwarded ≡ s.forwarded
  pub zeroed : (j : ℕ) → j < pages → s'.byte_at (page start j) ≡ 0
  pub printed :
      s'.output
      ≡ transcript t nrepeats
          (u32 (s.pf_count + pages))
          (u32 (s.ud_count + nrepeats))
          s.intr_count
          older

from_first :
    (env : Env) (glob : Globals) (tries n : ℕ) (c : Resumed) (start : ℕ) (s s' : Enclave)
    → store_loop env glob tries n c (page start 0) s ≡ value s'
    → store_loop env glob tries n c start s ≡ value s'
from_first env glob tries n c start s s' ran =
    let first : start ≡ page start 0 = omega arith in
    ap (λ (v : ℕ). store_loop env glob tries n c v s) first ∙ ran

module _ (env : Env) (t : ℕ → ℕ) (counter : IsCounter env.tsc t) where
  reads : (k : ℕ) → rdtscp env k ≡ t k
  unfolding rdtscp
  reads k = joined-reading env.tsc t counter k

  pub first_total : elapsed (rdtscp env 0) (rdtscp env 1) ≡ t 1 - t 0 - 60
  first_total = omega (arith, reads 0, reads 1, counter.first, reading-bound env.tsc t counter 1)

  pub second_total : elapsed (rdtscp env 2) (rdtscp env 3) ≡ t 3 - t 2 - 60
  second_total = omega (arith, reads 2, reads 3, counter.second, reading-bound env.tsc t counter 3)

  -- The counters and the output after the two store loops and the reports.
  Counted-reported :
      (nrepeats start : ℕ) (s s₁ s₂ s₃ : Enclave)
      → Stored start 0 pages s s₁
      → s₁.pf_count ≡ s.pf_count
      → s₂.pf_count ≡ s₁.pf_count
      → s₂.ud_count ≡ s₁.ud_count
      → s₂.intr_count ≡ s₁.intr_count
      → s₂.forwarded ≡ s₁.forwarded
      → s₂.output ≡ ("read OK: %d\n", s₁.byte_at start ∷ []) ∷ s₁.output
      → Stored start 0 pages s₂ s₃
      → s₃.pf_count ≡ u32 (s₂.pf_count + pages)
      → Counted t start nrepeats s.output s (reported env nrepeats s₃)
  unfolding report_writes report_ud2 report_counts printf_ocall
  Counted-reported nrepeats start s s₁ s₂ s₃ st₁ p₁ p₂ u₂ i₂ f₂ o₂ st₃ p₃ =
      let pf : s₃.pf_count ≡ u32 (s.pf_count + pages) = omega arith in
      let ud : s₃.ud_count ≡ s.ud_count = st₃.ud_count ∙ u₂ ∙ st₁.ud_count in
      let intr : s₃.intr_count ≡ s.intr_count = st₃.intr_count ∙ i₂ ∙ st₁.intr_count in
      let here : page start 0 ≡ start = omega arith in
      let zero_first : s₁.byte_at start ≡ 0 =
        ap s₁.byte_at (sym here) ∙ st₁.zeroed 0 (omega arith) (omega arith) in
      let out : s₃.output ≡ ("read OK: %d\n", 0 ∷ []) ∷ s.output =
        st₃.output ∙ o₂ ∙ rw (zero_first, st₁.output) refl in
      record {
        pf_count = pf;
        ud_count = ap (λ (t : ℕ). u32 (t + nrepeats)) ud;
        intr_count = intr;
        forwarded = st₃.forwarded ∙ f₂ ∙ st₁.forwarded;
        zeroed = λ j h. st₃.zeroed j (omega arith) h;
        printed = rw (pf, ud, intr, first_total, second_total, out) refl;
      }

module _ (k : ℕ) (env : Env) (t : ℕ → ℕ) (counter : IsCounter env.tsc t) (glob : Globals)
    (nrepeats : ℕ) (registered : glob.g_handler ≡ some exception_handler) (ph : ℕ → ℕ) (a : ℕ → ℕ)
    (ok : IsMapped ph env.cr3 env.test_buf pages a)
    (cpu : Obeys env ph env.cr3 env.test_buf pages a)
    (start_bits : (i : ℕ) → i < pages → ph (a i) % 4 ≡ 3) where
  abbrev Result : Enclave → Type 0
  Result s =
      (s' : Enclave) × (measure (suc (suc k)) env glob nrepeats s ≡ value s')
      × Counted t env.test_buf nrepeats s.output s s'

  -- From the second store loop on.
  from_protected :
      (s s₁ s₂ : Enclave)
      → store_loop env glob (suc (suc k)) pages env.store_context env.test_buf s ≡ value s₁
      → Stored env.test_buf 0 pages s s₁
      → s₁.pf_count ≡ s.pf_count
      → protect_buf env s₁ ≡ value s₂
      → s₂.pf_count ≡ s₁.pf_count
      → s₂.ud_count ≡ s₁.ud_count
      → s₂.intr_count ≡ s₁.intr_count
      → s₂.forwarded ≡ s₁.forwarded
      → s₂.output ≡ ("read OK: %d\n", s₁.byte_at env.test_buf ∷ []) ∷ s₁.output
      → Holds ph env.cr3 env.test_buf pages a (λ j. ltb j 0) s₂.mmu
      → s.pf_count < 2 ^ 32
      → s.ud_count < 2 ^ 32
      → Result s
  from_protected s s₁ s₂ e₁ st₁ p₁ e₂ p₂ u₂ i₂ f₂ o₂ h₂ pf ud =
      let (s₃, e₃, st₃, h₃, p₃) =
        store_loop-protected env glob registered ph env.cr3 env.test_buf pages a ok cpu
          env.store_context k pages 0 s₂ (omega arith) h₂ (omega arith) in
      let ud₃ : (report_writes env s₃).ud_count < 2 ^ 32 =
        unfold report_writes printf_ocall in rw (st₃.ud_count ∙ u₂ ∙ st₁.ud_count) ud in
      (
        reported env nrepeats s₃,
        measure_run (suc (suc k)) env glob nrepeats s s₁ s₂ s₃ e₁ e₂
            (from_first env glob (suc (suc k)) pages env.store_context env.test_buf s₂ s₃ e₃)
            (ud2_loop_lem env glob registered env.ud2_context nrepeats (report_writes env s₃) ud₃),
        Counted-reported env t counter nrepeats env.test_buf s s₁ s₂ s₃ st₁ p₁ p₂ u₂ i₂ f₂ o₂ st₃
            p₃,
      )

  -- From `mprotect` on.
  from_Stored :
      (s s₁ : Enclave)
      → ph ≡ phys_of s.mmu
      → s.mmu.cached_cr3 ≡ env.cr3
      → store_loop env glob (suc (suc k)) pages env.store_context env.test_buf s ≡ value s₁
      → Stored env.test_buf 0 pages s s₁
      → s₁.mmu ≡ s.mmu
      → s₁.pf_count ≡ s.pf_count
      → s.pf_count < 2 ^ 32
      → s.ud_count < 2 ^ 32
      → Result s
  from_Stored s s₁ same root e₁ st₁ m₁ p₁ pf ud =
      let (m', ran, prot) =
        mprotect-IsProtected s.mmu env.test_buf 1 pages ok.whole ok.fits (omega arith)
          (rw root ok.root)
          (subst₂ (λ f t. IsProtectable f t env.test_buf pages) same (sym root) ok.tables) in
      from_protected s s₁ _ e₁ st₁ p₁ (protect_buf_run env s₁ s.mmu m' m₁ ran)
        (unfold printf_ocall in refl) (unfold printf_ocall in refl) (unfold printf_ocall in refl)
        (unfold printf_ocall in refl) (unfold printf_ocall in refl)
        (unfold printf_ocall in
          Holds-protected ph env.cr3 env.test_buf pages a ok s.mmu m' same root prot)
        pf ud

  pub measure_lem :
      (s : Enclave)
      → ph ≡ phys_of s.mmu
      → s.mmu.cached_cr3 ≡ env.cr3
      → s.pf_count < 2 ^ 32
      → s.ud_count < 2 ^ 32
      → Result s
  measure_lem s same root pf ud =
      let (s₁, e₁, st₁, m₁, p₁) =
        store_loop-writable env glob registered ph env.cr3 env.test_buf pages a ok cpu
          env.store_context (suc k) pages 0 s (omega arith)
          (Holds-first ph env.cr3 env.test_buf pages a ok s.mmu same root start_bits) in
      from_Stored s s₁ same root
        (from_first env glob (suc (suc k)) pages env.store_context env.test_buf s s₁ e₁) st₁ m₁ p₁
        pf ud
