-- ===== src/Paging/Protect.antt =====
-- `mprotect` of server/exception/exception_p_enclave/Enclave/paging.h: its loop over a range of
-- pages meets the description in `Range.antt`, and its fuel is enough at every argument.
pub mod Page
pub mod Range
pub mod Total
pub mod One
pub mod Wrap
pub mod Again
pub mod View
use atc22_ae.Base.{
  ℕ, zero, suc, ◌+◌, ◌*◌, ◌/◌, ◌%◌, ◌^◌, ◌≤◌, ◌<◌, ◌≡◌, ◌≢◌, refl, sym, ◌∙◌, ap, inl, inr, arith,
  Bool, true, false, Bool-cases, List, ◌∷◌, if◌then◌else◌, ◌==◌, ◌||◌, not, ltb, ltb→lt, lt→ltb,
  le→not-ltb, eq_of_==, u64,
}
use atc22_ae.Outcome.{Outcome, done, aborted, out_of_fuel, ◌>>=◌, Status, success, failure}
use atc22_ae.Paging.{Mmu, phys_offset, pgsize, write_entry, mprotect_page, mprotect_loop, mprotect}
use atc22_ae.Paging.Walk.{Walked, absent, large, leaf, hw_walk, IsLow, phys_of}
use atc22_ae.Paging.Agree.{hw_walk-Agrees, IsLow-Agrees}
use Page.{with_flags, phys_of-write_entry, mprotect_page-absent, mprotect_page-leaf}
use Range.{
  page, touched, flushes, IsProtectable, IsUpdated, IsUpdated-Agrees, IsUpdated-suc, is_leaf, flush,
}

-- The state after the first `i` pages of a range from `start`.
pub record IsProtected (s : Mmu) (start flags i : ℕ) (s' : Mmu) : Type 0 where
  pub same_root : s'.cached_cr3 ≡ s.cached_cr3
  pub entries : IsUpdated (phys_of s) s.cached_cr3 start flags i (phys_of s')
  pub tlb : s'.flushed ≡ flushes (phys_of s) s.cached_cr3 start i s.flushed

-- One turn of the `while` loop, and its end.
pub mprotect_loop-suc :
    (fuel : ℕ) (s s₁ : Mmu) (st : Status) (v w end flags : ℕ)
    → v < end
    → mprotect_page s v flags ≡ done (st, s₁)
    → u64 (v + pgsize) ≡ w
    → mprotect_loop (suc fuel) s v end flags ≡ mprotect_loop fuel s₁ w end flags
unfolding mprotect_loop
mprotect_loop-suc fuel s s₁ st v w end flags h ran e = rw (lt→ltb v end h, ran, e) refl

pub mprotect_loop-end :
    (fuel : ℕ) (s : Mmu) (v end flags : ℕ)
    → end ≤ v
    → mprotect_loop (suc fuel) s v end flags ≡ done s
unfolding mprotect_loop
mprotect_loop-end fuel s v end flags h = rw (le→not-ltb v end h) refl

-- `mprotect` on whole pages is its loop.
pub mprotect-mprotect_loop :
    (s s' : Mmu) (start flags n end : ℕ)
    → start % 4096 ≡ 0
    → u64 (start + 4096 * n) ≡ end
    → mprotect_loop (suc n) s start end flags ≡ done s'
    → mprotect s start (4096 * n) flags ≡ done (success, s')
unfolding mprotect
mprotect-mprotect_loop s s' start flags n end whole e ran =
    let a : (start % pgsize == 0) ≡ true = ground arith in
    let b : (4096 * n % pgsize == 0) ≡ true = ground arith in
    let rounds : 4096 * n / pgsize ≡ n = omega arith in rw (a, b, rounds, e, ran) refl

module _ (s : Mmu) (start flags n : ℕ) (aligned : s.cached_cr3 % 4096 ≡ 0) (bits : flags < 4096)
    (ok : IsProtectable (phys_of s) s.cached_cr3 start n) where
  -- What a round leaves behind.
  abbrev Round : (i : ℕ) (s' : Mmu) → Type 0
  Round i s' =
      (st : Status) × (s'' : Mmu) × (mprotect_page s' (page start i) flags ≡ done (st, s''))
      × IsProtected s start flags (suc i) s''

  -- One round of the loop, by the end of the page's walk.
  turn_lem :
      (i : ℕ) (s' : Mmu) (w : Walked)
      → IsProtected s start flags i s'
      → hw_walk (phys_of s) 3 s.cached_cr3 (page start i) ≡ w
      → w ≢ large
      → hw_walk (phys_of s') 3 s'.cached_cr3 (page start i) ≡ w
      → IsLow (phys_of s') 3 s'.cached_cr3 (page start i)
      → s'.cached_cr3 % 4096 ≡ 0
      → Round i s'
  unfolding flushes
  turn_lem i s' absent inv e small e' low ends = (
    failure,
    s',
    mprotect_page-absent s' (page start i) flags ends low e',
    record {
      same_root = inv.same_root;
      entries =
          IsUpdated-suc (phys_of s) s.cached_cr3 start flags i (phys_of s') (phys_of s') bits
            inv.entries absent e (λ p. refl);
      tlb = rw e inv.tlb;
    },
  )
  turn_lem i s' large inv e small e' low ends = absurd (small refl)
  turn_lem i s' (leaf a) inv e small e' low ends = (
    success,
    write_entry s' (a + phys_offset) (page start i) flags,
    mprotect_page-leaf s' (page start i) flags ends low a e',
    record {
      same_root = unfold write_entry in inv.same_root;
      entries =
          IsUpdated-suc (phys_of s) s.cached_cr3 start flags i (phys_of s') _ bits inv.entries
            (leaf a) e (phys_of-write_entry s' a (page start i) flags);
      tlb = unfold write_entry in rw e (ap (λ (l : List ℕ). page start i ∷ l) inv.tlb);
    },
  )

  round_lem : (i : ℕ) (s' : Mmu) → i < n → IsProtected s start flags i s' → Round i s'
  round_lem i s' h inv =
      let agrees =
        IsUpdated-Agrees (phys_of s) s.cached_cr3 start flags i i (phys_of s') ok (omega arith) h
          inv.entries in
      turn_lem i s' _ inv refl (ok.small i h)
        (rw inv.same_root
          (hw_walk-Agrees (phys_of s) (phys_of s') 3 s.cached_cr3 (page start i) agrees))
        (rw inv.same_root
          (IsLow-Agrees (phys_of s) (phys_of s') 3 s.cached_cr3 (page start i) agrees (ok.low i h)))
        (rw inv.same_root aligned)

  -- The loop from the `i`-th page, with `k` pages left.
  loop_lem :
      (k i : ℕ) (s' : Mmu)
      → i + k ≡ n
      → page start n < 2 ^ 64
      → IsProtected s start flags i s'
      → (s'' : Mmu) × (mprotect_loop (suc k) s' (page start i) (page start n) flags ≡ done s'')
        × IsProtected s start flags n s''
  loop_lem zero i s' e fits inv =
      let last : i ≡ n = omega arith in
      (s', mprotect_loop-end 0 s' _ _ flags (omega arith), rw last at inv)
  loop_lem (suc k) i s' e fits inv =
      let (st, s₁, ran, inv₁) = round_lem i s' (omega arith) inv in
      let (s₂, rest, inv₂) = loop_lem k (suc i) s₁ (omega arith) fits inv₁ in
      (
        s₂,
        mprotect_loop-suc (suc k) s' s₁ st _ _ _ flags (omega arith) ran (omega arith) ∙ rest,
        inv₂,
      )

-- On a range of whole pages that does not wrap, with flags of twelve bits and page tables as
-- `IsProtectable` says, `mprotect` returns 0. Then the entry of each mapped page of the range has
-- its address part kept and its flags replaced, every other word of physical memory is as before,
-- and exactly the mapped pages are flushed, in order. Pages with no entry are passed over.
pub mprotect-IsProtected :
    (s : Mmu) (start flags n : ℕ)
    → start % 4096 ≡ 0
    → start + 4096 * n < 2 ^ 64
    → flags < 4096
    → s.cached_cr3 % 4096 ≡ 0
    → IsProtectable (phys_of s) s.cached_cr3 start n
    → (s' : Mmu) × (mprotect s start (4096 * n) flags ≡ done (success, s'))
      × IsProtected s start flags n s'
mprotect-IsProtected s start flags n whole fits bits aligned ok =
    let none_yet : IsProtected s start flags 0 s = record {
      same_root = refl;
      entries = unfold touched in λ p. refl;
      tlb = unfold flushes in refl;
    } in
    let first : page start 0 ≡ start = omega arith in
    let stop : u64 (start + 4096 * n) ≡ page start n = omega arith in
    let (s', ran, inv) =
      loop_lem s start flags n aligned bits ok n 0 s (omega arith) fits none_yet in
    let here : mprotect_loop (suc n) s start (page start n) flags ≡ done s' =
      ap (λ (v : ℕ). mprotect_loop (suc n) s v (page start n) flags) (sym first) ∙ ran in
    (s', mprotect-mprotect_loop s s' start flags n _ whole stop here, inv)
