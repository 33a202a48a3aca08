-- ===== src/PEnclave/Writes.antt =====
-- The store loops of `ecall_exception` (server/exception/exception_p_enclave/Enclave/Enclave.cpp):
-- over writable pages, and over pages that `mprotect` has made read-only, where each store faults
-- once.
use atc22_ae.Base.{
  ℕ, zero, suc, ◌+◌, ◌^◌, ◌≤◌, ◌<◌, ◌≡◌, refl, sym, ◌∙◌, inl, inr, arith, Bool, true, false,
  Bool-cases, ==_self, some, if◌then◌else◌, ◌==◌, ltb, u32,
}
use mathlib.Core.Path.{subst}
use atc22_ae.Paging.{Mmu, phys_offset, pgsize, write_entry}
use atc22_ae.Paging.Protect.Range.{page}
use atc22_ae.Machine.{Resumed, resumes}
use atc22_ae.PEnclave.{Enclave, increment, exception_handler}
use atc22_ae.PEnclave.Ecall.{Env, Globals, value, deliver, resume_at, store_byte, store_loop}
use atc22_ae.PEnclave.Fault.{fault-leaf}
use atc22_ae.PEnclave.Buffer.{IsMapped, Holds, Holds-leaf, Holds-IsLow, Holds-write}

-- What the loops rely on in the processor: a store to a page of the buffer faults exactly if the
-- page's entry is not writable. (The upper levels are as at the start, where they permit it, and
-- `mprotect` has flushed what it changed.)
pub record Obeys (env : Env) (ph : ℕ → ℕ) (r start n : ℕ) (a : ℕ → ℕ) : Type 0 where
  pub writable :
      (w : ℕ → Bool) (m : Mmu) (i : ℕ)
      → Holds ph r start n a w m
      → i < n
      → w i ≡ true
      → env.store_faults env.cr3 m (page start i) ≡ false
  pub protected :
      (w : ℕ → Bool) (m : Mmu) (i : ℕ)
      → Holds ph r start n a w m
      → i < n
      → w i ≡ false
      → env.store_faults env.cr3 m (page start i) ≡ true

-- The state after a store of 0 at `v`.
abbrev pub stored : ℕ → Enclave → Enclave
stored v s = record s { byte_at = λ q. if q == v then 0 else s.byte_at q }

store_loop-suc :
    (env : Env) (glob : Globals) (tries left : ℕ) (c : Resumed) (v v' : ℕ) (s s' : Enclave)
    → store_byte env glob tries c v s ≡ value s'
    → v + pgsize ≡ v'
    → store_loop env glob tries (suc left) c v s ≡ store_loop env glob tries left c v' s'
unfolding store_loop
store_loop-suc env glob tries left c v v' s s' e p = rw (e, p) refl

-- What both loops leave alone, and what they do to the bytes of the pages from `i` on.
pub record Stored (start i n : ℕ) (s s' : Enclave) : Type 0 where
  pub ud_count : s'.ud_count ≡ s.ud_count
  pub intr_count : s'.intr_count ≡ s.intr_count
  pub output : s'.output ≡ s.output
  pub forwarded : s'.forwarded ≡ s.forwarded
  pub kept : (q : ℕ) → s.byte_at q ≡ 0 → s'.byte_at q ≡ 0
  pub zeroed : (j : ℕ) → i ≤ j → j < n → s'.byte_at (page start j) ≡ 0

Stored-step :
    (start i n : ℕ) (s t s' : Enclave)
    → t.ud_count ≡ s.ud_count
    → t.intr_count ≡ s.intr_count
    → t.output ≡ s.output
    → t.forwarded ≡ s.forwarded
    → ((q : ℕ) → t.byte_at q ≡ (if q == page start i then 0 else s.byte_at q))
    → Stored start (suc i) n t s'
    → Stored start i n s s'
Stored-step start i n s t s' u k o f b rest = record {
  ud_count = rest.ud_count ∙ u;
  intr_count = rest.intr_count ∙ k;
  output = rest.output ∙ o;
  forwarded = rest.forwarded ∙ f;
  kept = λ q z. rest.kept q (ground (arith, b q));
  zeroed = λ j p c. elim (Bool-cases (j == i)) [
    | inl same ↦ ground (arith, rest.kept (page start j), b (page start j))
    | inr other ↦ rest.zeroed j (ground arith) c
  ];
}

Stored-none : (start n : ℕ) (s : Enclave) → Stored start n n s s
Stored-none start n s = record {
  ud_count = refl;
  intr_count = refl;
  output = refl;
  forwarded = refl;
  kept = λ q z. z;
  zeroed = λ j p c. absurd (omega arith);
}

module _ (env : Env) (glob : Globals) (registered : glob.g_handler ≡ some exception_handler)
    (ph : ℕ → ℕ) (r start n : ℕ) (a : ℕ → ℕ) (ok : IsMapped ph r start n a)
    (cpu : Obeys env ph r start n a) (c : Resumed) where
  store-writable :
      (k i : ℕ) (w : ℕ → Bool) (s : Enclave)
      → Holds ph r start n a w s.mmu
      → i < n
      → w i ≡ true
      → store_byte env glob (suc k) c (page start i) s ≡ value (stored (page start i) s)
  unfolding store_byte
  store-writable k i w s h b t = rw (cpu.writable w s.mmu i h b t) refl

  -- The state in which the handler resumes the store.
  abbrev pub faulted : ℕ → Enclave → Enclave
  faulted i s = record s {
    cr2 = page start i;
    mmu = write_entry s.mmu (a i + phys_offset) (page start i) 3;
    pf_count = increment s.pf_count;
  }

  pub fault_lem :
      (i : ℕ) (w : ℕ → Bool) (s : Enclave)
      → Holds ph r start n a w s.mmu
      → i < n
      → deliver env glob 14 3 c (record s { cr2 = page start i }) ≡ resumes c (faulted i s)
  fault_lem i w s h b =
      fault-leaf env glob registered 3 c (record s { cr2 = page start i }) (omega (arith, ok.whole))
        (omega (arith, ok.fits)) (rw h.root ok.root) (Holds-IsLow ph r start n a ok i h b) (a i)
        (Holds-leaf ph r start n a ok i h b)

  store-protected :
      (k i : ℕ) (w w' : ℕ → Bool) (s : Enclave)
      → Holds ph r start n a w s.mmu
      → i < n
      → w i ≡ false
      → Holds ph r start n a w' (faulted i s).mmu
      → w' i ≡ true
      → store_byte env glob (suc (suc k)) c (page start i) s
        ≡ value (stored (page start i) (faulted i s))
  unfolding store_byte resume_at
  store-protected k i w w' s h b f h' t =
      rw
        (
          cpu.protected w s.mmu i h b f,
          fault_lem i w s h b,
          ==_self c.rip,
          cpu.writable w' (faulted i s).mmu i h' b t,
        )
        refl

  -- The loop over writable pages stores its zeros and takes no fault.
  pub store_loop-writable :
      (k left i : ℕ) (s : Enclave)
      → i + left ≡ n
      → Holds ph r start n a (λ _. true) s.mmu
      → (s' : Enclave) × (store_loop env glob (suc k) left c (page start i) s ≡ value s')
        × Stored start i n s s'
        × (s'.mmu ≡ s.mmu)
        × (s'.pf_count ≡ s.pf_count)
  unfolding store_loop
  store_loop-writable k zero i s e h =
      let last : n ≡ i = omega arith in (s, refl, rw last (Stored-none start i s), refl, refl)
  store_loop-writable k (suc left) i s e h =
      let (s', ran, st, m, p) =
        store_loop-writable k left (suc i) (stored (page start i) s) (omega arith) h in
      (
        s',
        store_loop-suc env glob (suc k) left c (page start i) (page start (suc i)) s _
              (store-writable k i (λ _. true) s h (omega arith) refl) (omega arith)
            ∙ ran,
        Stored-step start i n s (stored (page start i) s) s' refl refl refl refl (λ q. refl) st,
        m,
        p,
      )

  -- The loop over read-only pages takes exactly one fault on each page and ends.
  pub store_loop-protected :
      (k left i : ℕ) (s : Enclave)
      → i + left ≡ n
      → Holds ph r start n a (λ j. ltb j i) s.mmu
      → s.pf_count < 2 ^ 32
      → (s' : Enclave) × (store_loop env glob (suc (suc k)) left c (page start i) s ≡ value s')
        × Stored start i n s s'
        × Holds ph r start n a (λ j. ltb j n) s'.mmu
        × (s'.pf_count ≡ u32 (s.pf_count + left))
  unfolding store_loop
  store_loop-protected k zero i s e h small =
      let last : n ≡ i = omega arith in
      (
        s,
        refl,
        rw last (Stored-none start i s),
        subst (λ t. Holds ph r start n a (λ j. ltb j t) s.mmu) (sym last) h,
        omega arith,
      )
  store_loop-protected k (suc left) i s e h small =
      let h' =
        Holds-write ph r start n a ok i h (omega arith) (λ j. ltb j (suc i)) (ground arith)
          (λ j ne. ground arith) in
      let (s', ran, st, m, p) =
        store_loop-protected k left (suc i) (stored (page start i) (faulted i s)) (omega arith) h'
          (omega arith) in
      (
        s',
        store_loop-suc env glob (suc (suc k)) left c (page start i) (page start (suc i)) s _
              (store-protected k i (λ j. ltb j i) (λ j. ltb j (suc i)) s h (omega arith)
                (ground arith) h' (ground arith))
              (omega arith)
            ∙ ran,
        Stored-step start i n s (stored (page start i) (faulted i s)) s' refl refl refl refl
            (λ q. refl) st,
        m,
        omega (arith, p),
      )
