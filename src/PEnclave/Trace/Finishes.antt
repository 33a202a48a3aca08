-- ===== src/PEnclave/Trace/Finishes.antt =====
-- The store loop of `ecall_exception` (server/exception/exception_p_enclave/Enclave/Enclave.cpp)
-- can be finished from wherever its faults, `ud2` and interrupts have led.
use atc22_ae.Base.{
  ℕ, zero, suc, ◌+◌, ◌*◌, ◌^◌, ◌<◌, ◌≡◌, inl, inr, refl, ◌∙◌, arith, Bool-cases, some, List, [],
  ◌∷◌, ◌++◌, ◌==◌, u32,
}
use atc22_ae.Outcome.{done, success}
use atc22_ae.Paging.{Mmu, pte_p, mprotect}
use atc22_ae.Paging.Walk.{phys_of}
use atc22_ae.Paging.Protect.Range.{page}
use atc22_ae.PEnclave.{Enclave, exception_handler}
use atc22_ae.PEnclave.Ecall.{Env, Globals}
use atc22_ae.PEnclave.Buffer.{IsMapped}
use atc22_ae.PEnclave.Writes.{Obeys}
use atc22_ae.PEnclave.Trace.{
  Happening, opcode, interrupt, write, fault, pass, trap, Reach, here, next, opcodes, interrupts,
  Wrote,
}
use atc22_ae.PEnclave.Trace.Progress.{Reach-completes, Reach-faults}
use atc22_ae.PEnclave.Trace.Refines.{Stores}

Reach-trans :
    (env : Env) (glob : Globals) (start n : ℕ) (s t : Enclave) (hs : List Happening)
    (more : List Happening) (u : Enclave)
    → Reach env glob start n s hs t
    → Reach env glob start n t more u
    → Reach env glob start n s (more ++ hs) u
Reach-trans env glob start n s t hs [] u r here = r
Reach-trans env glob start n s t hs (h ∷ more) u r (next before last) =
    next (Reach-trans env glob start n s t hs more _ r before) last

Wrote-append : (more hs : List Happening) (i : ℕ) → Wrote more i → Wrote (more ++ hs) i
Wrote-append [] hs i w = elim w [ ]
Wrote-append (write j ∷ more) hs i (inl same) = inl same
Wrote-append (write j ∷ more) hs i (inr w) = inr (Wrote-append more hs i w)
Wrote-append (opcode ∷ more) hs i w = Wrote-append more hs i w
Wrote-append (interrupt v ∷ more) hs i w = Wrote-append more hs i w
Wrote-append (fault j ∷ more) hs i w = Wrote-append more hs i w

-- One more page in front of the stores to the pages behind it.
Stores-suc :
    (env : Env) (glob : Globals) (start n : ℕ) (t u : Enclave) (m m' : List Happening) (i k : ℕ)
    → Stores env glob start n t m' (suc i) k u
    → opcodes m' ≡ opcodes m
    → interrupts m' ≡ interrupts m
    → ((j : ℕ) → Wrote m j → Wrote m' j)
    → Wrote m' i
    → Stores env glob start n t m i (suc k) u
Stores-suc env glob start n t u m m' i k rest o q kept this = record {
  way = rest.way;
  reach = rest.reach;
  same_opcodes = rest.same_opcodes ∙ o;
  same_interrupts = rest.same_interrupts ∙ q;
  earlier = λ j w. rest.earlier j (kept j w);
  wrote = λ j p b. elim (Bool-cases (j == i)) [
    | inl same ↦ let at : j ≡ i = ground arith in rw at (rest.earlier i this)
    | inr other ↦ rest.wrote j (ground arith) (omega arith)
  ];
}

module _ (env : Env) (glob : Globals) (registered : glob.g_handler ≡ some exception_handler)
    (m : Mmu) (start n : ℕ) (a : ℕ → ℕ) (ok : IsMapped (phys_of m) m.cached_cr3 start n a)
    (cpu : Obeys env (phys_of m) m.cached_cr3 start n a) (s : Enclave)
    (protect : mprotect m start (4096 * n) pte_p ≡ done (success, s.mmu)) (ud : s.ud_count < 2 ^ 32)
    (pf : s.pf_count < 2 ^ 32) (intr : s.intr_count < 2 ^ 32) {hs : List Happening} {t : Enclave}
    (r : Reach env glob start n s hs t) where
  finish_lem :
      (k i : ℕ) (more : List Happening) (u : Enclave)
      → Reach env glob start n t more u
      → i + k ≡ n
      → (t' : Enclave) × Stores env glob start n t more i k t'
  finish_lem zero i more u so_far e = (
    u,
    record {
      way = more;
      reach = so_far;
      same_opcodes = refl;
      same_interrupts = refl;
      earlier = λ j w. w;
      wrote = λ j p b. absurd (omega arith);
    },
  )
  finish_lem (suc k) i more u so_far e =
      elim (Bool-cases (env.store_faults env.cr3 u.mmu (page start i))) [
        | inr passing ↦
            let (t', rest) =
              finish_lem k (suc i) (write i ∷ more) _ (next so_far (pass i (omega arith) passing))
                (omega arith) in
            (
              t',
              Stores-suc env glob start n t t' more (write i ∷ more) i k rest refl refl
                  (λ j w. inr w) (inl refl),
            )
        | inl faulting ↦
            elim (Reach-completes env glob registered m start n a ok cpu s protect ud pf intr
              (Reach-trans env glob start n s t hs more u r so_far) i env.store_context
              (omega arith)) [
                | inl passing ↦ absurd (cc (faulting, passing))
                | inr (v, resumed, passing) ↦
                    let (t', rest) =
                      finish_lem k (suc i) (write i ∷ fault i ∷ more) _
                        (next
                          (next so_far (
                            trap i env.store_context env.store_context (omega arith) faulting
                              resumed))
                          (pass i (omega arith) passing))
                        (omega arith) in
                    (
                      t',
                      Stores-suc env glob start n t t' more (write i ∷ fault i ∷ more) i k rest refl
                          refl (λ j w. inr w) (inl refl),
                    )
              ]
      ]

  -- Let `exception_handler` be registered, `n` pages of the buffer be mapped by tables as
  -- `IsMapped` says, the processor fault on stores as `Obeys` says, `mprotect` have made the pages
  -- read-only and the counters be below 2^32. Let any `ud2`, interrupts with a vector from 32 on,
  -- stores and faults, in any order and each exception delivered through the entry code, lead to
  -- the state `t`. Then stores and their faults alone lead on from `t` until each of the `n` pages
  -- has been written, and the page faults counted in all are then exactly `n`, modulo 2^32.
  pub Reach-finishes :
      (t' : Enclave) × Stores env glob start n t [] 0 n t' × (t'.pf_count ≡ u32 (s.pf_count + n))
  Reach-finishes =
      let (t', stores) = finish_lem n 0 [] t here (omega arith) in
      (
        t',
        stores,
        Reach-faults env glob registered m start n a ok cpu s protect ud pf intr
            (Reach-trans env glob start n s t hs stores.way t' r stores.reach)
            λ i b. Wrote-append stores.way hs i (stores.wrote i (omega arith) (omega arith)),
      )
