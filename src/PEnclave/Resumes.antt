-- ===== src/PEnclave/Resumes.antt =====
-- Exceptions of the P-Enclave (exception.S, signal.h and Enclave.cpp of
-- server/exception/exception_p_enclave/Enclave) that are resumed keep the interrupted context.
use mathlib.Core.Path.{subst}
use atc22_ae.Base.{
  ℕ, ◌+◌, ◌≤◌, ◌<◌, ◌≡◌, ◌≢◌, ◌⊎◌, refl, sym, ◌∙◌, inl, inr, arith, Bool-cases, some, ◌==◌,
  eq_of_==, u64, if◌then◌else◌, false,
}
use atc22_ae.Outcome.{Outcome, done, aborted, out_of_fuel, Status, success, failure}
use atc22_ae.Paging.{Mmu}
use atc22_ae.Signal.{TrapFrame}
use atc22_ae.Machine.{Resumed, Exit, resumes}
use atc22_ae.Entry.Context.{resume, exit_of}
use atc22_ae.PEnclave.{Enclave, increment, after_mprotect, page_fault, exception_handler}
use atc22_ae.PEnclave.Ecall.{Env, Globals, deliver}
use atc22_ae.PEnclave.Deliver.{
  trap, deliver_ud, deliver_interrupt, deliver_unexpected, deliver_unaligned, deliver-page_fault,
}

resumes_inj :
    {c c' : Resumed} {s s' : Enclave} (e : Exit Enclave)
    → e ≡ resumes c s
    → e ≡ resumes c' s'
    → (c ≡ c') × (s ≡ s')
resumes_inj {c} {c'} {s} {s'} e p q = (cc, cc)

-- What the page-fault case leaves where it resumes.
after_mprotect-resumes :
    (t : TrapFrame) (s s' : Enclave) (c' : Resumed) (r : Outcome (Status × Mmu))
    → exit_of (after_mprotect t s r) ≡ resumes c' s'
    → (m : Mmu) × (r ≡ done (success, m)) × (resume t ≡ c') × (record s { mmu = m } ≡ s')
unfolding after_mprotect
after_mprotect-resumes t s s' c' (done (success, m)) e =
    (m, refl, (resumes_inj _ refl e).0, (resumes_inj _ refl e).1)
after_mprotect-resumes t s s' c' (done (failure, m)) e = absurd cc
after_mprotect-resumes t s s' c' aborted e = absurd cc
after_mprotect-resumes t s s' c' out_of_fuel e = absurd cc

-- The vectors that the handler tells apart.
vector_cases : (v : ℕ) → (v ≡ 6) ⊎ (v ≡ 14) ⊎ (32 ≤ v) ⊎ ((v < 32) × (v ≢ 6) × (v ≢ 14))
vector_cases v = elim (Bool-cases (v == 6)) [
  | inl ud ↦ inl (eq_of_== v 6 ud)
  | inr not_ud ↦ elim (Bool-cases (v == 14)) [
    | inl pf ↦ inr (inl (eq_of_== v 14 pf))
    | inr not_pf ↦ inr (inr (ground arith))
  ]
]

-- The vectors for which the stub pushes a word too many.
error_cases : (v : ℕ) → ((v ≡ 21) ⊎ (v ≡ 29) ⊎ (v ≡ 30)) ⊎ ((v ≢ 21) × (v ≢ 29) × (v ≢ 30))
error_cases v = ground arith

module _ (env : Env) (glob : Globals) (registered : glob.g_handler ≡ some exception_handler)
    (err : ℕ) (c c' : Resumed) (s s' : Enclave) where
  -- The context in which an exception that is resumed goes on: behind the two bytes of an invalid
  -- opcode, and where it was otherwise.
  abbrev Kept : ℕ → Type 0
  Kept v = c' ≡ (if v == 6 then record c { rip = u64 (c.rip + 2) } else c)

  ud_lem : deliver env glob 6 err c s ≡ resumes c' s' → Kept 6
  ud_lem e = sym (resumes_inj _ (deliver_ud env glob registered err c s) e).0

  page_fault_lem : deliver env glob 14 err c s ≡ resumes c' s' → Kept 14
  unfolding page_fault
  page_fault_lem e =
      let (m, ran, same, rest) =
        after_mprotect-resumes (trap 14 err c) (record s { pf_count = increment s.pf_count }) s' c'
          _ (sym (deliver-page_fault env glob registered err c s) ∙ e) in
      sym same

  interrupt_lem : (v : ℕ) → 32 ≤ v → v < 256 → deliver env glob v err c s ≡ resumes c' s' → Kept v
  interrupt_lem v low high e =
      let same : c ≡ c' =
        (resumes_inj _ (deliver_interrupt env glob registered err c s v low high) e).0 in
      let other : (v == 6) ≡ false = ground arith in rw other (sym same)

  ended_lem :
      (v : ℕ) → v < 32 → v ≢ 6 → v ≢ 14 → deliver env glob v err c s ≡ resumes c' s' → Kept v
  ended_lem v below not_ud not_pf e = elim (error_cases v) [
    | inl which ↦
        let ended = deliver_unaligned env glob registered err c s v which in absurd (cc (ended, e))
    | inr (a, b, d) ↦
        let ended = deliver_unexpected env glob registered err c s v below not_ud not_pf a b d in
        absurd (cc (ended, e))
  ]

  kept_lem : (v : ℕ) → v < 256 → deliver env glob v err c s ≡ resumes c' s' → Kept v
  kept_lem v high e = elim (vector_cases v) [
    | inl ud ↦
        subst Kept (sym ud) (ud_lem (subst (λ x. deliver env glob x err c s ≡ resumes c' s') ud e))
    | inr (inl pf) ↦
        subst Kept (sym pf)
          (page_fault_lem (subst (λ x. deliver env glob x err c s ≡ resumes c' s') pf e))
    | inr (inr (inl irq)) ↦ interrupt_lem v irq high e
    | inr (inr (inr (below, not_ud, not_pf))) ↦ ended_lem v below not_ud not_pf e
  ]

  -- With `exception_handler` registered, any exception or interrupt, with any error code and in any
  -- context and state, is transparent where it is resumed: every register, `cs`, the flags, `rsp`
  -- and `ss` are what they were, and so is `rip`, but for an invalid opcode, behind whose two bytes
  -- it goes on.
  pub deliver-context :
      (v : ℕ)
      → v < 256
      → deliver env glob v err c s ≡ resumes c' s'
      → c' ≡ (if v == 6 then record c { rip = u64 (c.rip + 2) } else c)
  deliver-context v high e = kept_lem v high e
