-- ===== src/Examples/Dumps.antt =====
-- The dump of page tables whose entries are all the same.
use mathlib.Core.List.{Memᴰ}
use atc22_ae.Base.{inl, arith, ◌≡◌, refl, []}
use atc22_ae.Paging.{
  Mmu, get_entry, entry_ptr, next_table, phys_to_virt, pte_addr, p4_idx, p3_idx, p2_idx, p1_idx,
}
use atc22_ae.Outcome.{done}
use atc22_ae.Paging.Dump.Complete.{dump_pgtable-complete}
use atc22_ae.Paging.Dump.{dumped, sign_extend, vaddr_of, dump_loop, dump_inner, dump_pgtable}
use atc22_ae.Paging.Dump.Lines.{Finds, Gone, dump_pgtable-get_entry}

-- Each entry leads to the table at 0x1000 again.
abbrev looped : Mmu
looped = record { mem = λ p. 0x1003; cached_cr3 = 0x1000; flushed = [] }

fourth_line : Memᴰ (dumped 6 3 0 0 0x1003) (dump_pgtable looped 0x1000 1)
unfolding dump_pgtable dump_inner dump_loop vaddr_of sign_extend
fourth_line = Memᴰ.tail (Memᴰ.tail (Memᴰ.tail (Memᴰ.head {xs = []} refl)))

dump_pgtable-get_entry_example : Finds looped (Gone looped 0) (get_entry looped 0) 0x1003
dump_pgtable-get_entry_example = dump_pgtable-get_entry looped 1 6 0 0 0x1003 fourth_line

found : get_entry looped 0x5000 ≡ done 0xffff800000001028
unfolding get_entry next_table entry_ptr phys_to_virt pte_addr p4_idx p3_idx p2_idx p1_idx
found = refl

dump_pgtable-complete_example :
    Memᴰ (dumped 6 3 (p1_idx 0x5000) 0x5000 0x1003) (dump_pgtable looped 0x1000 512)
dump_pgtable-complete_example =
    dump_pgtable-complete looped 512 0x5000 0xffff800000001028 (omega arith) (omega arith)
      (inl (omega arith)) refl found (λ e. omega (arith, e)) (λ e. omega (arith, e))
