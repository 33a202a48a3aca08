-- ===== src/Paging.antt =====
-- The page-table code of the P-Enclave,
-- server/exception/exception_p_enclave/Enclave/paging.h. The enclave sees physical memory through
-- a window that starts at `PHYS_OFFSET`; a pointer into it is a 64-bit number and NULL is 0.
pub mod Index
pub mod Entry
pub mod Round
pub mod Walk
pub mod Window
pub mod Agree
pub mod Protect
pub mod Dump
use atc22_ae.Base.{
  ℕ, zero, suc, ◌+◌, ◌-◌, ◌*◌, ◌/◌, ◌%◌, ◌^◌, bit_and, bit_or, Bool, true, false, ◌||◌, not, List,
  ◌∷◌, ltb, ◌==◌, if◌then◌else◌, u64, ◌>>>◌,
}
use atc22_ae.Outcome.{Outcome, done, aborted, out_of_fuel, ◌>>=◌, Status, success, failure}

abbrev pub phys_offset : ℕ
phys_offset = 0xffff800000000000

abbrev pub pgsize : ℕ
pgsize = 4096

-- `PGROUNDUP` and `PGROUNDDOWN` of a 64-bit address. The mask `~(PGSIZE-1)` is an `int`, which is
-- extended by its sign.
unfoldable pub pgroundup : ℕ → ℕ
pgroundup sz = bit_and (u64 (sz + pgsize - 1)) 0xfffffffffffff000

unfoldable pub pgrounddown : ℕ → ℕ
pgrounddown a = bit_and a 0xfffffffffffff000

abbrev pub pte_p : ℕ
pte_p = 0x001

abbrev pub pte_w : ℕ
pte_w = 0x002

abbrev pub pte_u : ℕ
pte_u = 0x004

abbrev pub pte_pwt : ℕ
pte_pwt = 0x008

abbrev pub pte_pcd : ℕ
pte_pcd = 0x010

abbrev pub pte_a : ℕ
pte_a = 0x020

abbrev pub pte_d : ℕ
pte_d = 0x040

abbrev pub pte_ps : ℕ
pte_ps = 0x080

abbrev pub pte_g : ℕ
pte_g = 0x100

-- `1ll << 63`, as a 64-bit word.
abbrev pub pte_nx : ℕ
pte_nx = 2 ^ 63

abbrev pub null : ℕ
null = 0

unfoldable pub p4_idx : ℕ → ℕ
p4_idx vaddr = bit_and (vaddr >>> (12 + 27)) 0o777

unfoldable pub p3_idx : ℕ → ℕ
p3_idx vaddr = bit_and (vaddr >>> (12 + 18)) 0o777

unfoldable pub p2_idx : ℕ → ℕ
p2_idx vaddr = bit_and (vaddr >>> (12 + 9)) 0o777

unfoldable pub p1_idx : ℕ → ℕ
p1_idx vaddr = bit_and (vaddr >>> 12) 0o777

unfoldable pub pte_addr : ℕ → ℕ
pte_addr pte = bit_and pte 0xfffffffff000

-- The mask is `~0xFFFFFFFFF000` on 64 bits.
unfoldable pub pte_flags : ℕ → ℕ
pte_flags pte = bit_and pte 0xffff000000000fff

unfoldable pub phys_to_virt : ℕ → ℕ
phys_to_virt paddr = u64 (paddr + phys_offset)

-- The memory behind the window, a 64-bit word at each address; the cached root of the page
-- table; and the addresses given to `invlpg`, the last one first.
pub record Mmu : Type 0 where
  pub mem : ℕ → ℕ
  pub cached_cr3 : ℕ
  pub flushed : List ℕ

unfoldable pub cache_cr3 : ℕ → Mmu → Mmu
cache_cr3 cr3 s = record s { cached_cr3 = cr3 }

-- `&table[i]` of a table of 8-byte entries.
unfoldable pub entry_ptr : ℕ → ℕ → ℕ
entry_ptr table i = u64 (table + 8 * i)

unfoldable pub store : (ℕ → ℕ) → ℕ → ℕ → ℕ → ℕ
store m p v q = if p == q then v else m q

unfoldable pub next_table : ℕ → Outcome ℕ
next_table pte =
    if bit_and pte pte_p == 0
    then done null
    else if not (bit_and pte pte_ps == 0)
    then aborted
    else done (phys_to_virt (pte_addr pte))

unfoldable pub get_entry : Mmu → ℕ → Outcome ℕ
get_entry s vaddr = do
  p3 ← next_table (s.mem (entry_ptr (phys_to_virt s.cached_cr3) (p4_idx vaddr)))
  if p3 == null then done null else do
    p2 ← next_table (s.mem (entry_ptr p3 (p3_idx vaddr)))
    if p2 == null then done null else do
      p1 ← next_table (s.mem (entry_ptr p2 (p2_idx vaddr)))
      if p1 == null then done null else done (entry_ptr p1 (p1_idx vaddr))

-- The write `*pte = PTE_ADDR(*pte) | flags` and the `invlpg` behind it.
unfoldable pub write_entry : Mmu → ℕ → ℕ → ℕ → Mmu
unfolding store
write_entry s pte vaddr flags = record s {
  mem = store s.mem pte (bit_or (pte_addr (s.mem pte)) flags);
  flushed = vaddr ∷ s.flushed;
}

unfoldable pub mprotect_page : Mmu → ℕ → ℕ → Outcome (Status × Mmu)
mprotect_page s vaddr flags = do
  pte ← get_entry s vaddr
  if pte == null then done (failure, s) else done (success, write_entry s pte vaddr flags)

-- The `while` loop; the status of each page is dropped.
unfoldable pub mprotect_loop : ℕ → Mmu → (start_vaddr end_vaddr flags : ℕ) → Outcome Mmu
mprotect_loop zero s start_vaddr end_vaddr flags = out_of_fuel
mprotect_loop (suc fuel) s start_vaddr end_vaddr flags =
    let more : Outcome Mmu = do
      (_, s') ← mprotect_page s start_vaddr flags
      mprotect_loop fuel s' (u64 (start_vaddr + pgsize)) end_vaddr flags
    in if ltb start_vaddr end_vaddr then more else done s

-- A round for each page and one for the test that ends the loop.
unfoldable pub mprotect : Mmu → (addr len flags : ℕ) → Outcome (Status × Mmu)
mprotect s addr len flags =
    if not (addr % pgsize == 0) || not (len % pgsize == 0) then done (failure, s) else do
      s' ← mprotect_loop (suc (len / pgsize)) s addr (u64 (addr + len)) flags
      done (success, s')
