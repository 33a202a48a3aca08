-- ===== src/PEnclave/Trace/Tally.antt =====
-- The counters of Enclave.cpp (server/exception/exception_p_enclave/Enclave) along the steps of the
-- benchmark.
use mathlib.Core.Path.{subst}
use atc22_ae.Base.{
  ℕ, ◌+◌, ◌^◌, ◌≤◌, ◌<◌, ◌≡◌, inl, inr, refl, ap, arith, Bool, true, false, Bool-cases, ==_self,
  some, List, [], ◌∷◌, ◌++◌, length, u32,
}
use atc22_ae.Paging.Protect.Range.{page}
use atc22_ae.Machine.{Resumed, Exit, resumes}
use atc22_ae.PEnclave.{Enclave, exception_handler}
use atc22_ae.PEnclave.Ecall.{Env, Globals, deliver}
use atc22_ae.PEnclave.Deliver.{deliver_ud, deliver_interrupt}
use atc22_ae.PEnclave.Buffer.{IsMapped, Holds, Holds-write}
use atc22_ae.PEnclave.Writes.{Obeys, stored, fault_lem}
use atc22_ae.PEnclave.Trace.Open.{closed, opened, closed-opened, closed-none}
use atc22_ae.PEnclave.Trace.{
  Happening, opcode, interrupt, write, fault, Step, ud2, irq, pass, trap, Reach, here, next,
  opcodes, faults, interrupts, Wrote,
}

resumes_inj :
    {c c' : Resumed} {s s' : Enclave} (e : Exit Enclave)
    → e ≡ resumes c s
    → e ≡ resumes c' s'
    → s ≡ s'
resumes_inj {s} e p q = cc

module _ (env : Env) (glob : Globals) (registered : glob.g_handler ≡ some exception_handler)
    (ph : ℕ → ℕ) (r start n : ℕ) (a : ℕ → ℕ) (ok : IsMapped ph r start n a)
    (cpu : Obeys env ph r start n a) (s : Enclave) (at_first : ℕ → Bool) where
  -- From a state in which the pages that `at_first` names are writable. After `hs` the pages that
  -- `writable` names are writable; the counters and the interrupts handed on are those of `hs`;
  -- each fault has made one page writable, and every page written is.
  pub record Tally (hs : List Happening) (t : Enclave) : Type 0 where
    pub writable : ℕ → Bool
    pub holds : Holds ph r start n a writable t.mmu
    pub ud_count : t.ud_count ≡ u32 (s.ud_count + opcodes hs)
    pub pf_count : t.pf_count ≡ u32 (s.pf_count + faults hs)
    pub intr_count : t.intr_count ≡ u32 (s.intr_count + length (interrupts hs))
    pub forwarded : t.forwarded ≡ interrupts hs ++ s.forwarded
    pub output : t.output ≡ s.output
    pub once : faults hs + closed n writable ≡ closed n at_first
    pub wrote : (i : ℕ) → i < n → Wrote hs i → writable i ≡ true
    pub zeroed : (i : ℕ) → i < n → Wrote hs i → t.byte_at (page start i) ≡ 0
    pub still : (q : ℕ) → s.byte_at q ≡ 0 → t.byte_at q ≡ 0
    pub kept : faults hs ≡ 0 → t.mmu ≡ s.mmu

  writable_of_pass :
      (w : ℕ → Bool) (t : Enclave) (i : ℕ)
      → Holds ph r start n a w t.mmu
      → i < n
      → env.store_faults env.cr3 t.mmu (page start i) ≡ false
      → w i ≡ true
  writable_of_pass w t i h b e = elim (Bool-cases (w i)) [
    | inl open_ ↦ open_
    | inr shut ↦ cc (cpu.protected w t.mmu i h b shut)
  ]

  read_only_of_trap :
      (w : ℕ → Bool) (t : Enclave) (i : ℕ)
      → Holds ph r start n a w t.mmu
      → i < n
      → env.store_faults env.cr3 t.mmu (page start i) ≡ true
      → w i ≡ false
  read_only_of_trap w t i h b e = elim (Bool-cases (w i)) [
    | inl open_ ↦ cc (cpu.writable w t.mmu i h b open_)
    | inr shut ↦ shut
  ]

  Tally-ud2 :
      {hs : List Happening} {t u : Enclave} (c c' : Resumed)
      → Tally hs t
      → deliver env glob 6 0 c t ≡ resumes c' u
      → Tally (opcode ∷ hs) u
  Tally-ud2 {hs} {t} {u} c c' y e =
      subst (Tally (opcode ∷ hs)) (resumes_inj _ (deliver_ud env glob registered 0 c t) e) (record {
        writable = y.writable;
        holds = y.holds;
        ud_count = omega (arith, y.ud_count);
        pf_count = y.pf_count;
        intr_count = y.intr_count;
        forwarded = y.forwarded;
        output = y.output;
        once = y.once;
        wrote = y.wrote;
        zeroed = y.zeroed;
        kept = y.kept;
        still = y.still;
      })

  Tally-irq :
      {hs : List Happening} {t u : Enclave} (v err : ℕ) (c c' : Resumed)
      → Tally hs t
      → 32 ≤ v
      → v < 256
      → deliver env glob v err c t ≡ resumes c' u
      → Tally (interrupt v ∷ hs) u
  Tally-irq {hs} {t} {u} v err c c' y low high e =
      subst (Tally (interrupt v ∷ hs))
        (resumes_inj _ (deliver_interrupt env glob registered err c t v low high) e)
        (record {
          writable = y.writable;
          holds = y.holds;
          ud_count = y.ud_count;
          pf_count = y.pf_count;
          intr_count = omega (arith, y.intr_count);
          forwarded = ap (λ l. (v, 0) ∷ l) y.forwarded;
          output = y.output;
          once = y.once;
          wrote = y.wrote;
          zeroed = y.zeroed;
          kept = y.kept;
          still = y.still;
        })

  Tally-pass :
      {hs : List Happening} {t : Enclave} (i : ℕ)
      → Tally hs t
      → i < n
      → env.store_faults env.cr3 t.mmu (page start i) ≡ false
      → Tally (write i ∷ hs) (stored (page start i) t)
  Tally-pass {hs} {t} i y b e = record {
    writable = y.writable;
    holds = y.holds;
    ud_count = y.ud_count;
    pf_count = y.pf_count;
    intr_count = y.intr_count;
    forwarded = y.forwarded;
    output = y.output;
    once = y.once;
    wrote = λ j q m. written j q m;
    zeroed = λ j q m. cleared j q m;
    kept = y.kept;
    still = λ q z. ground (arith, y.still q z);
  }
    where
      written : (j : ℕ) → j < n → Wrote (write i ∷ hs) j → y.writable j ≡ true
      written j q (inl same) = rw same (writable_of_pass y.writable t i y.holds b e)
      written j q (inr before) = y.wrote j q before

      cleared :
          (j : ℕ)
          → j < n
          → Wrote (write i ∷ hs) j
          → (stored (page start i) t).byte_at (page start j) ≡ 0
      cleared j q (inl same) = rw same (rw (==_self (page start i)) refl)
      cleared j q (inr before) = ground (arith, y.zeroed j q before)

  Tally-trap :
      {hs : List Happening} {t u : Enclave} (i : ℕ) (c c' : Resumed)
      → Tally hs t
      → i < n
      → env.store_faults env.cr3 t.mmu (page start i) ≡ true
      → deliver env glob 14 3 c (record t { cr2 = page start i }) ≡ resumes c' u
      → Tally (fault i ∷ hs) u
  Tally-trap {hs} {t} {u} i c c' y b f e =
      subst (Tally (fault i ∷ hs))
        (resumes_inj _
          (fault_lem env glob registered ph r start n a ok cpu c i y.writable t y.holds b) e)
        (record {
          writable = opened i y.writable;
          holds =
              Holds-write ph r start n a ok i y.holds b (opened i y.writable) (ground arith)
                (λ j ne. ground arith);
          ud_count = y.ud_count;
          pf_count = omega (arith, y.pf_count);
          intr_count = y.intr_count;
          forwarded = y.forwarded;
          output = y.output;
          once = omega (
            arith,
            y.once,
            closed-opened n i y.writable b (read_only_of_trap y.writable t i y.holds b f),
          );
          wrote = λ j q m. ground (arith, y.wrote j q m);
          zeroed = λ j q m. y.zeroed j q m;
          kept = λ none_. absurd (omega arith);
          still = λ q z. y.still q z;
        })

  Tally-step :
      {hs : List Happening} {t u : Enclave} {h : Happening}
      → Tally hs t
      → Step env glob start n t h u
      → Tally (h ∷ hs) u
  Tally-step y (ud2 c c' e) = Tally-ud2 c c' y e
  Tally-step y (irq v err c c' low high e) = Tally-irq v err c c' y low high e
  Tally-step y (pass i b e) = Tally-pass i y b e
  Tally-step y (trap i c c' b f e) = Tally-trap i c c' y b f e

  pub Tally-first :
      Holds ph r start n a at_first s.mmu
      → s.ud_count < 2 ^ 32
      → s.pf_count < 2 ^ 32
      → s.intr_count < 2 ^ 32
      → Tally [] s
  Tally-first h ud pf intr = record {
    writable = at_first;
    holds = h;
    ud_count = omega arith;
    pf_count = omega arith;
    intr_count = omega arith;
    forwarded = refl;
    output = refl;
    once = omega arith;
    wrote = λ i b m. elim m [ ];
    zeroed = λ i b m. elim m [ ];
    kept = λ none_. refl;
    still = λ q z. z;
  }

  pub Reach-Tally :
      {hs : List Happening} {t : Enclave} → Tally [] s → Reach env glob start n s hs t → Tally hs t
  Reach-Tally first here = first
  Reach-Tally first (next r st) = Tally-step (Reach-Tally first r) st

  -- Once every page has been written, each page that was read-only at first has faulted.
  pub faults-closed :
      {hs : List Happening} {t : Enclave}
      → Tally hs t
      → ((i : ℕ) → i < n → Wrote hs i)
      → faults hs ≡ closed n at_first
  faults-closed y all =
      let none_left = closed-none n y.writable (λ i b. y.wrote i b (all i b)) in
      omega (arith, y.once, none_left)

  -- Where every page was writable at first, none has faulted.
  pub faults-none :
      {hs : List Happening} {t : Enclave}
      → Tally hs t
      → ((i : ℕ) → i < n → at_first i ≡ true)
      → faults hs ≡ 0
  faults-none y all = omega (arith, y.once, closed-none n at_first all)
