-- ===== src/PEnclave/Trace/Interrupted.antt =====
-- `ecall_exception` (server/exception/exception_p_enclave/Enclave/Enclave.cpp) with interrupts
-- anywhere in its loops: what it counts and prints then.
use mathlib.Core.Path.{subst}
use atc22_ae.Base.{
  ℕ, ◌+◌, ◌%◌, ◌^◌, ◌<◌, ◌≡◌, refl, sym, ◌∙◌, ap, arith, Bool, true, some, List, [], ◌∷◌, ◌++◌,
  length, length-append, ltb, u32,
}
use mathlib.Core.List.{append_assoc}
use atc22_ae.Outcome.{done, success}
use atc22_ae.Paging.{Mmu, pte_p, mprotect}
use atc22_ae.Paging.Walk.{phys_of}
use atc22_ae.Paging.Protect.{mprotect-IsProtected}
use atc22_ae.Paging.Protect.Range.{page, IsProtectable}
use atc22_ae.PEnclave.{Enclave, printf_ocall, exception_handler}
use atc22_ae.PEnclave.Ecall.{
  Env, Globals, value, pages, buf_size, protect_buf, report_writes, report_ud2, report_counts,
}
use atc22_ae.Counter.{IsCounter}
use atc22_ae.PEnclave.Buffer.{IsMapped, Holds, Holds-first, Holds-protected}
use atc22_ae.PEnclave.Writes.{Obeys}
use atc22_ae.PEnclave.Measure.{transcript, protect_buf_run, first_total, second_total}
use atc22_ae.PEnclave.Trace.{Happening, Reach, opcodes, faults, interrupts}
use atc22_ae.PEnclave.Trace.Open.{closed-all}
use atc22_ae.PEnclave.Trace.Tally.{Tally, Tally-first, Reach-Tally, faults-closed, faults-none}
use atc22_ae.PEnclave.Trace.Runs.{Interrupted, came, Tallied}
use atc22_ae.PEnclave.Trace.Refines.{value_inj}

protect_buf_inv :
    (env : Env) (s s' : Enclave) (m m' : Mmu)
    → s.mmu ≡ m
    → mprotect m env.test_buf buf_size pte_p ≡ done (success, m')
    → protect_buf env s ≡ value s'
    → printf_ocall "read OK: %d\n" (s.byte_at env.test_buf ∷ []) (record s { mmu = m' }) ≡ s'
protect_buf_inv env s s' m m' same ran e =
    value_inj _ _ (sym (protect_buf_run env s m m' same ran) ∙ e)

module _ (env : Env) (glob : Globals) (nrepeats : ℕ)
    (registered : glob.g_handler ≡ some exception_handler) (t : ℕ → ℕ)
    (counter : IsCounter env.tsc t) (a : ℕ → ℕ) (s s' : Enclave) (root : s.mmu.cached_cr3 ≡ env.cr3)
    (ok : IsMapped (phys_of s.mmu) env.cr3 env.test_buf pages a)
    (cpu : Obeys env (phys_of s.mmu) env.cr3 env.test_buf pages a)
    (start_bits : (i : ℕ) → i < pages → phys_of s.mmu (a i) % 4 ≡ 3) (pf : s.pf_count < 2 ^ 32)
    (ud : s.ud_count < 2 ^ 32) (intr : s.intr_count < 2 ^ 32)
    (run : Interrupted env glob nrepeats s s') where
  abbrev At : Enclave → (ℕ → Bool) → List Happening → Enclave → Type 0
  At from at_first hs to =
      Tally env glob registered (phys_of s.mmu) env.cr3 env.test_buf pages a ok cpu from at_first hs
        to

  -- A loop that starts with the pages of `at_first` writable.
  abbrev loop :
      {from to : Enclave} {hs : List Happening} (at_first : ℕ → Bool)
      → Holds (phys_of s.mmu) env.cr3 env.test_buf pages a at_first from.mmu
      → from.ud_count < 2 ^ 32
      → from.pf_count < 2 ^ 32
      → from.intr_count < 2 ^ 32
      → Reach env glob env.test_buf pages from hs to
      → At from at_first hs to
  loop {from} at_first h u p k r =
      Reach-Tally env glob registered (phys_of s.mmu) env.cr3 env.test_buf pages a ok cpu from
        at_first
        (Tally-first env glob registered (phys_of s.mmu) env.cr3 env.test_buf pages a ok cpu from
          at_first h u p k)
        r

  filled_lem : At s (λ _. true) run.way₁ run.filled
  filled_lem =
      loop (λ _. true)
        (Holds-first (phys_of s.mmu) env.cr3 env.test_buf pages a ok s.mmu refl root start_bits) ud
        pf intr run.filling

  no_fault : faults run.way₁ ≡ 0
  no_fault =
      faults-none env glob registered (phys_of s.mmu) env.cr3 env.test_buf pages a ok cpu s
        (λ _. true) filled_lem λ i b. refl

  -- The state behind `mprotect`.
  protected_lem :
      (m' : Mmu) × Holds (phys_of s.mmu) env.cr3 env.test_buf pages a (λ j. ltb j 0) m'
      × (printf_ocall "read OK: %d\n" (0 ∷ []) (record run.filled { mmu = m' }) ≡ run.protected)
  protected_lem =
      let (m', ran, prot) =
        mprotect-IsProtected s.mmu env.test_buf 1 pages ok.whole ok.fits (omega arith)
          (rw root ok.root)
          (subst (λ r. IsProtectable (phys_of s.mmu) r env.test_buf pages) (sym root) ok.tables) in
      let here : page env.test_buf 0 ≡ env.test_buf = omega arith in
      let zero_first : run.filled.byte_at env.test_buf ≡ 0 =
        ap run.filled.byte_at (sym here)
        ∙ filled_lem.zeroed 0 (omega arith) (run.all_filled 0 (omega arith)) in
      (
        m',
        Holds-protected (phys_of s.mmu) env.cr3 env.test_buf pages a ok s.mmu m' refl root prot,
        ap (λ b. printf_ocall "read OK: %d\n" (b ∷ []) (record run.filled { mmu = m' }))
              (sym zero_first)
            ∙ protect_buf_inv env run.filled run.protected s.mmu m' (filled_lem.kept no_fault) ran
                run.protecting,
      )

  abbrev protected : Enclave
  protected = printf_ocall "read OK: %d\n" (0 ∷ []) (record run.filled { mmu = protected_lem.0 })

  written_lem : At protected (λ j. ltb j 0) run.way₂ run.written
  written_lem =
      loop (λ j. ltb j 0) (unfold printf_ocall in protected_lem.1)
        (unfold printf_ocall in omega (arith, filled_lem.ud_count))
        (unfold printf_ocall in omega (arith, filled_lem.pf_count))
        (unfold printf_ocall in omega (arith, filled_lem.intr_count))
        (subst (λ p. Reach env glob env.test_buf pages p run.way₂ run.written) (sym protected_lem.2)
          run.writing)

  skipped_lem : At (report_writes env run.written) written_lem.writable run.way₃ run.skipped
  skipped_lem =
      loop written_lem.writable (unfold report_writes printf_ocall in written_lem.holds)
        (unfold report_writes printf_ocall in omega (arith, written_lem.ud_count))
        (unfold report_writes printf_ocall in omega (arith, written_lem.pf_count))
        (unfold report_writes printf_ocall in omega (arith, written_lem.intr_count)) run.skipping

  each_page : faults run.way₂ ≡ pages
  each_page =
      faults-closed env glob registered (phys_of s.mmu) env.cr3 env.test_buf pages a ok cpu
        protected (λ j. ltb j 0) written_lem run.all_written
      ∙ closed-all pages

  no_more : faults run.way₃ ≡ 0
  no_more =
      faults-none env glob registered (phys_of s.mmu) env.cr3 env.test_buf pages a ok cpu
        (report_writes env run.written) written_lem.writable skipped_lem
        λ i b. written_lem.wrote i b (run.all_written i b)

  pf_lem : run.skipped.pf_count ≡ u32 (s.pf_count + pages)
  pf_lem =
      let first = filled_lem.pf_count in
      let second : run.written.pf_count ≡ u32 (run.filled.pf_count + faults run.way₂) =
        unfold printf_ocall in written_lem.pf_count in
      let third : run.skipped.pf_count ≡ u32 (run.written.pf_count + faults run.way₃) =
        unfold report_writes printf_ocall in skipped_lem.pf_count in
      omega (arith, first, second, third, no_fault, each_page, no_more)

  ud_lem : run.skipped.ud_count ≡ u32 (s.ud_count + nrepeats)
  ud_lem =
      let first = filled_lem.ud_count in
      let second : run.written.ud_count ≡ u32 (run.filled.ud_count + opcodes run.way₂) =
        unfold printf_ocall in written_lem.ud_count in
      let third : run.skipped.ud_count ≡ u32 (run.written.ud_count + opcodes run.way₃) =
        unfold report_writes printf_ocall in skipped_lem.ud_count in
      omega (arith, first, second, third, run.no_opcode₁, run.no_opcode₂, run.all_skipped)

  intr_lem : run.skipped.intr_count ≡ u32 (s.intr_count + length (came run))
  intr_lem =
      let first = filled_lem.intr_count in
      let second : run.written.intr_count
          ≡ u32 (run.filled.intr_count + length (interrupts run.way₂)) =
        unfold printf_ocall in written_lem.intr_count in
      let third : run.skipped.intr_count
          ≡ u32 (run.written.intr_count + length (interrupts run.way₃)) =
        unfold report_writes printf_ocall in skipped_lem.intr_count in
      omega (
        arith,
        first,
        second,
        third,
        length-append (interrupts run.way₃) (interrupts run.way₂ ++ interrupts run.way₁),
        length-append (interrupts run.way₂) (interrupts run.way₁),
      )

  forwarded_lem : run.skipped.forwarded ≡ came run ++ s.forwarded
  forwarded_lem =
      let second : run.written.forwarded ≡ interrupts run.way₂ ++ run.filled.forwarded =
        unfold printf_ocall in written_lem.forwarded in
      let third : run.skipped.forwarded ≡ interrupts run.way₃ ++ run.written.forwarded =
        unfold report_writes printf_ocall in skipped_lem.forwarded in
      rw
        (
          third,
          second,
          filled_lem.forwarded,
          append_assoc (interrupts run.way₃) (interrupts run.way₂ ++ interrupts run.way₁)
              s.forwarded,
          append_assoc (interrupts run.way₂) (interrupts run.way₁) s.forwarded,
        )
        refl

  printed_lem :
      (report_counts (report_ud2 env nrepeats run.skipped)).output
      ≡ transcript t nrepeats
          (u32 (s.pf_count + pages))
          (u32 (s.ud_count + nrepeats))
          (u32 (s.intr_count + length (came run)))
          s.output
  unfolding report_writes report_ud2 report_counts printf_ocall
  printed_lem =
      rw
        (
          pf_lem,
          ud_lem,
          intr_lem,
          skipped_lem.output,
          written_lem.output,
          filled_lem.output,
          first_total env t counter,
          second_total env t counter,
        )
        refl

  pub Interrupted-Tallied : Tallied t env.test_buf nrepeats (came run) s.output s s'
  unfolding report_writes report_ud2 report_counts printf_ocall
  Interrupted-Tallied = record {
    pf_count = rw run.ends pf_lem;
    ud_count = rw run.ends ud_lem;
    intr_count = rw run.ends intr_lem;
    forwarded = rw run.ends forwarded_lem;
    zeroed =
        λ j h. rw run.ends (skipped_lem.still _ (written_lem.zeroed j h (run.all_written j h)));
    printed = ap (λ (x : Enclave). x.output) run.ends ∙ printed_lem;
  }
