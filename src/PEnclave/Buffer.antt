-- ===== src/PEnclave/Buffer.antt =====
-- The page tables of `test_buf` during the loops of `ecall_exception`
-- (server/exception/exception_p_enclave/Enclave/Enclave.cpp), relative to those that the loops
-- start from.
use atc22_ae.Base.{
  ℕ, zero, suc, ◌+◌, ◌*◌, ◌%◌, ◌^◌, ◌<◌, ◌≡◌, ◌≢◌, refl, sym, ◌∙◌, ap, inl, inr, arith, Bool, true,
  false, Bool-cases, ==_of_ne, ==_self, ◌==◌, ltb,
}
use atc22_ae.Paging.{Mmu, phys_offset, write_entry}
use atc22_ae.Paging.Entry.{with_flags-sum, pte_addr-div}
use atc22_ae.Paging.Walk.{leaf, hw_walk, IsLow, phys_of}
use atc22_ae.Paging.Agree.{Agrees, Avoids, hw_walk-Agrees, IsLow-Agrees}
use atc22_ae.Paging.Protect.Page.{with_flags, phys_of-write_entry}
use atc22_ae.Paging.Protect.Range.{page, touched-leaf, IsProtectable, IsUpdated, IsUpdated-Agrees}
use atc22_ae.Paging.Protect.{IsProtected}
use mathlib.Core.Path.{subst, subst₂}

-- The page tables `ph` with root `r` map the `n` pages from `start`, page `i` by the entry at
-- `a i`: different pages by different entries, below tables that `mprotect` can work on.
pub record IsMapped (ph : ℕ → ℕ) (r start n : ℕ) (a : ℕ → ℕ) : Type 0 where
  pub whole : start % 4096 ≡ 0
  pub fits : start + 4096 * n < 2 ^ 64
  pub root : r % 4096 ≡ 0
  pub tables : IsProtectable ph r start n
  pub mapped : (i : ℕ) → i < n → hw_walk ph 3 r (page start i) ≡ leaf (a i)
  pub distinct : (i j : ℕ) → i < n → j < n → a i ≡ a j → i ≡ j

-- The low bits of an entry: 3 for present and writable, 1 for present alone.
abbrev pub bits_of : Bool → ℕ
bits_of true = 3
bits_of false = 1

Agrees-store :
    (ph m m' : ℕ → ℕ) (b : ℕ)
    → ((q : ℕ) → q ≢ b → m' q ≡ m q)
    → (l table v : ℕ) → Agrees ph m l table v
    → Avoids ph l table v b
    → Agrees ph m' l table v
Agrees-store ph m m' b same zero table v h out = tt
Agrees-store ph m m' b same (suc l) table v h out =
    (same _ out.0 ∙ h.0, λ p. Agrees-store ph m m' b same l _ v (h.1 p) (out.1 p))

Agrees-refl : (ph : ℕ → ℕ) (l table v : ℕ) → Agrees ph ph l table v
Agrees-refl ph zero table v = tt
Agrees-refl ph (suc l) table v = (refl, λ p. Agrees-refl ph l _ v)

with_flags-bits : (e f : ℕ) → f < 4 → with_flags e f % 4 ≡ f
with_flags-bits e f h = omega (arith, with_flags-sum e f (omega arith), pte_addr-div e)

module _ (ph : ℕ → ℕ) (r start n : ℕ) (a : ℕ → ℕ) where
  -- Between two stores: the root and the upper levels are as at the start, and page `i` is writable
  -- if `w i` says so.
  pub record Holds (w : ℕ → Bool) (m : Mmu) : Type 0 where
    pub root : m.cached_cr3 ≡ r
    pub upper : (i : ℕ) → i < n → Agrees ph (phys_of m) 3 r (page start i)
    pub bits : (i : ℕ) → i < n → phys_of m (a i) % 4 ≡ bits_of (w i)

  module _ (ok : IsMapped ph r start n a) where
    pub Holds-leaf :
        {w : ℕ → Bool} {m : Mmu} (i : ℕ)
        → Holds w m
        → i < n
        → hw_walk (phys_of m) 3 m.cached_cr3 (page start i) ≡ leaf (a i)
    Holds-leaf {m} i h b =
        rw h.root (hw_walk-Agrees ph (phys_of m) 3 r (page start i) (h.upper i b) ∙ ok.mapped i b)

    pub Holds-IsLow :
        {w : ℕ → Bool} {m : Mmu} (i : ℕ)
        → Holds w m
        → i < n
        → IsLow (phys_of m) 3 m.cached_cr3 (page start i)
    Holds-IsLow {m} i h b =
        rw h.root (IsLow-Agrees ph (phys_of m) 3 r (page start i) (h.upper i b) (ok.tables.low i b))

    -- Making page `i` writable changes the bits of that page alone.
    pub Holds-write :
        {w : ℕ → Bool} {m : Mmu} (i : ℕ)
        → Holds w m
        → i < n
        → (w' : ℕ → Bool) → w' i ≡ true
        → ((j : ℕ) → j ≢ i → w' j ≡ w j)
        → Holds w' (write_entry m (a i + phys_offset) (page start i) 3)
    Holds-write {w} {m} i h b w' here else_ = record {
      root = unfold write_entry in h.root;
      upper = λ j c.
          Agrees-store ph (phys_of m) _ (a i)
            (λ q ne.
              phys_of-write_entry m (a i) (page start i) 3 q
              ∙ rw (==_of_ne (a i) q (λ e. ne (sym e))) refl)
            3 r (page start j) (h.upper j c) (ok.tables.apart i j (a i) b c (ok.mapped i b));
      bits = λ j c. elim (Bool-cases (i == j)) [
        | inl same ↦
            let e : i ≡ j = ground arith in
            rw (← e) (
              ap (λ (t : ℕ). t % 4) (phys_of-write_entry m (a i) (page start i) 3 (a i))
              ∙ rw (==_self (a i), here) (with_flags-bits (phys_of m (a i)) 3 (omega arith)))
        | inr other ↦
            let ne : a i ≢ a j = λ e. absurd (ground (arith, ok.distinct i j b c e)) in
            ap (λ (t : ℕ). t % 4) (phys_of-write_entry m (a i) (page start i) 3 (a j))
            ∙ rw (==_of_ne (a i) (a j) ne, else_ j (ground arith)) (h.bits j c)
      ];
    }

    -- Before the first store every page is writable.
    pub Holds-first :
        (m : Mmu)
        → ph ≡ phys_of m
        → m.cached_cr3 ≡ r
        → ((i : ℕ) → i < n → ph (a i) % 4 ≡ 3)
        → Holds (λ _. true) m
    Holds-first m same root start_bits = record {
      root = root;
      upper = λ i b. subst (λ f. Agrees ph f 3 r (page start i)) same (Agrees-refl ph 3 r _);
      bits = λ i b. subst (λ (f : ℕ → ℕ). f (a i) % 4 ≡ 3) same (start_bits i b);
    }

    -- `mprotect` with `PTE_P` makes every page of the buffer read-only.
    pub Holds-protected :
        (m m' : Mmu)
        → ph ≡ phys_of m
        → m.cached_cr3 ≡ r
        → IsProtected m start 1 n m'
        → Holds (λ j. ltb j 0) m'
    Holds-protected m m' same root p = record {
      root = p.same_root ∙ root;
      upper = λ i b.
          IsUpdated-Agrees ph r start 1 n i (phys_of m') ok.tables (omega arith) b
            (updated m m' same root p);
      bits = λ i b.
          let hit = touched-leaf ph r start n i (a i) b (ok.mapped i b) in
          let read_only : ltb i 0 ≡ false = ground arith in
          ap (λ (t : ℕ). t % 4) (updated m m' same root p (a i))
          ∙ rw (hit, read_only) (with_flags-bits (ph (a i)) 1 (omega arith));
    }
      where
        updated :
            (m m' : Mmu)
            → ph ≡ phys_of m
            → m.cached_cr3 ≡ r
            → IsProtected m start 1 n m'
            → IsUpdated ph r start 1 n (phys_of m')
        updated m m' same root p =
            subst₂ (λ f t. IsUpdated f t start 1 n (phys_of m')) (sym same) root p.entries
