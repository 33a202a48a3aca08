-- ===== src/Paging/Protect/Page.antt =====
-- `mprotect_page` of server/exception/exception_p_enclave/Enclave/paging.h: what the call does
-- where the walk of the address ends.
use atc22_ae.Base.{
  ℕ, ◌+◌, ◌%◌, ◌≡◌, ◌∙◌, refl, arith, if◌then◌else◌, ◌==◌, bit_or, Bool-cases, inl, inr, eq_of_==,
  true, false,
}
use atc22_ae.Outcome.{done, aborted, success, failure}
use atc22_ae.Paging.{Mmu, phys_offset, null, pte_addr, get_entry, write_entry, mprotect_page}
use atc22_ae.Paging.Walk.{
  Walked, absent, large, leaf, frame, hw_walk, IsLow, phys_of, as_ptr, get_entry-hw_walk,
}

-- The new value of an entry: its address part with the given flags.
abbrev pub with_flags : ℕ → ℕ → ℕ
with_flags e flags = bit_or (pte_addr e) flags

pub phys_of-write_entry :
    (s : Mmu) (a v flags p : ℕ)
    → phys_of (write_entry s (a + phys_offset) v flags) p
      ≡ (if a == p then with_flags (phys_of s p) flags else phys_of s p)
unfolding write_entry
phys_of-write_entry s a v flags p = elim (Bool-cases (a == p)) [
  | inl hit ↦
      let e : a ≡ p = eq_of_== a p hit in
      let e' : (a + phys_offset == p + phys_offset) ≡ true = ground arith in
      rw (hit, e') (rw e refl)
  | inr miss ↦
      let e' : (a + phys_offset == p + phys_offset) ≡ false = ground arith in rw (miss, e') refl
]

module _ (s : Mmu) (v flags : ℕ) (aligned : s.cached_cr3 % 4096 ≡ 0)
    (low : IsLow (phys_of s) 3 s.cached_cr3 v) where
  page_entry : (w : Walked) → hw_walk (phys_of s) 3 s.cached_cr3 v ≡ w → get_entry s v ≡ as_ptr w
  page_entry w e =
      let root : frame s.cached_cr3 ≡ s.cached_cr3 = omega (arith, low.0) in
      get_entry-hw_walk s v aligned low ∙ rw root (rw e refl)

  pub mprotect_page-absent :
      hw_walk (phys_of s) 3 s.cached_cr3 v ≡ absent → mprotect_page s v flags ≡ done (failure, s)
  unfolding mprotect_page
  mprotect_page-absent e = rw (page_entry absent e) refl

  pub mprotect_page-large :
      hw_walk (phys_of s) 3 s.cached_cr3 v ≡ large → mprotect_page s v flags ≡ aborted
  unfolding mprotect_page
  mprotect_page-large e = rw (page_entry large e) refl

  pub mprotect_page-leaf :
      (a : ℕ)
      → hw_walk (phys_of s) 3 s.cached_cr3 v ≡ leaf a
      → mprotect_page s v flags ≡ done (success, write_entry s (a + phys_offset) v flags)
  unfolding mprotect_page
  mprotect_page-leaf a e = rw (page_entry (leaf a) e, not_null) refl
    where
      not_null : (a + phys_offset == null) ≡ false
      not_null = ground arith
