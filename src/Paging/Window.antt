-- ===== src/Paging/Window.antt =====
-- Page tables beyond the window onto physical memory: `phys_to_virt` and what stands on it in
-- server/exception/exception_p_enclave/Enclave/paging.h, where an entry's address has bit 47.
use atc22_ae.Base.{ℕ, ◌+◌, ◌-◌, ◌/◌, ◌%◌, ◌^◌, ◌≤◌, ◌≡◌, refl, ◌∙◌, arith}
use atc22_ae.Outcome.{done, failure}
use atc22_ae.Paging.{
  Mmu, phys_offset, null, p4_idx, entry_ptr, pte_addr, next_table, get_entry, mprotect_page,
}
use atc22_ae.Paging.Entry.{
  pte_addr-div, present_test, huge_test, phys_to_virt-sum, phys_to_virt-wraps,
}
use atc22_ae.Paging.Index.{p4_idx-div}
use atc22_ae.Paging.Walk.{frame, slot, hw_walk, phys_of, entry_ptr-sum}

-- The table of an entry whose address has bit 47 is looked for 2^47 bytes below.
pub next_table-beyond :
    (e : ℕ)
    → e % 2 ≡ 1
    → e / 128 % 2 ≡ 0
    → 2 ^ 47 ≤ pte_addr e
    → next_table e ≡ done (pte_addr e - 2 ^ 47)
unfolding next_table
next_table-beyond e p s h = ground (
  arith,
  present_test e,
  huge_test e,
  phys_to_virt-wraps (pte_addr e) h (omega (arith, pte_addr-div e)),
)

root_slot :
    (s : Mmu) (v : ℕ)
    → s.cached_cr3 + 4096 ≤ 2 ^ 47
    → entry_ptr (s.cached_cr3 + phys_offset) (p4_idx v) ≡ slot 3 s.cached_cr3 v + phys_offset
root_slot s v h = rw (p4_idx-div v) (entry_ptr-sum s.cached_cr3 _ h (omega arith))

module _ (s : Mmu) (v : ℕ) (low : s.cached_cr3 + 4096 ≤ 2 ^ 47) where
  get_entry-null :
      next_table (phys_of s (slot 3 s.cached_cr3 v)) ≡ done null → get_entry s v ≡ done null
  unfolding get_entry
  get_entry-null e = rw (phys_to_virt-sum s.cached_cr3 (omega arith), root_slot s v low, e) refl

  -- Let the root lie below 2^47, and let its entry for an address be present, not a large page, and
  -- lead to a table at 2^47. The processor's walk goes on in that table, but the code takes it for
  -- an absent one: `next_table` and `get_entry` return NULL, and `mprotect_page` returns -1 and
  -- changes nothing.
  pub get_entry-beyond :
      (flags : ℕ)
      → phys_of s (slot 3 s.cached_cr3 v) % 2 ≡ 1
      → phys_of s (slot 3 s.cached_cr3 v) / 128 % 2 ≡ 0
      → frame (phys_of s (slot 3 s.cached_cr3 v)) ≡ 2 ^ 47
      → (hw_walk (phys_of s) 3 s.cached_cr3 v ≡ hw_walk (phys_of s) 2 (2 ^ 47) v)
        × (next_table (phys_of s (slot 3 s.cached_cr3 v)) ≡ done null)
        × (get_entry s v ≡ done null)
        × (mprotect_page s v flags ≡ done (failure, s))
  unfolding hw_walk mprotect_page
  get_entry-beyond flags p q at =
      let e = phys_of s (slot 3 s.cached_cr3 v) in
      let there : pte_addr e ≡ 2 ^ 47 = omega (arith, pte_addr-div e, at) in
      let gone : next_table e ≡ done null =
        next_table-beyond e p q (omega (arith, there)) ∙ rw there refl in
      let found : get_entry s v ≡ done null = get_entry-null gone in
      (rw (p, q, at) refl, gone, found, rw found refl)
