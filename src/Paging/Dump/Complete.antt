-- ===== src/Paging/Dump/Complete.antt =====
-- That `dump_pgtable` of server/exception/exception_p_enclave/Enclave/paging.h leaves no page out,
-- for a limit that no table reaches.
use mathlib.Core.List.{Memᴰ}
use mathlib.Core.List.Memᴰ
use mathlib.Core.Path.{subst}
use atc22_ae.Base.{
  ℕ, zero, suc, ◌+◌, ◌*◌, ◌%◌, ◌^◌, ◌≤◌, ◌<◌, ◌≡◌, ◌≢◌, ◌⊎◌, inl, inr, refl, sym, ap, ◌∙◌, arith,
  Bool, true, false, Bool-cases, ◌||◌, ◌&&◌, List, [], ◌∷◌, ◌++◌, ltb, leb, if◌then◌else◌, ◌==◌,
  bit_and, eq_of_==, ==_of_ne,
}
use atc22_ae.Outcome.{done}
use atc22_ae.Paging.{
  Mmu, null, pte_ps, pte_addr, phys_to_virt, entry_ptr, get_entry, p4_idx, p3_idx, p2_idx, p1_idx,
}
use atc22_ae.Paging.Index.{p4_idx-div, p3_idx-div, p2_idx-div, p1_idx-div, IsCanonical}
use atc22_ae.Paging.Dump.{DumpLine, dumped, vaddr_of, dump_loop, dump_inner, dump_pgtable}
use atc22_ae.Paging.Dump.Address.{vaddr_of-sum}
use atc22_ae.Paging.Dump.Lines.{entry4, entry3, entry2, IsTable}
use atc22_ae.Paging.Dump.Inverse.{get_entry-IsTable}

mem-if :
    (x : DumpLine) (c : Bool) (l l' : List DumpLine)
    → c ≡ false
    → Memᴰ x l'
    → Memᴰ x (if c then l else l')
mem-if x c l l' e m = rw e m

mem-then :
    (x : DumpLine) (c : Bool) (l l' : List DumpLine)
    → c ≡ true
    → Memᴰ x l
    → Memᴰ x (if c then l else l')
mem-then x c l l' e m = rw e m

module _ (s : Mmu) (below : ℕ → ℕ → List DumpLine) (table start_vaddr level limit : ℕ)
    (large : 512 ≤ limit) (positive : limit < 2 ^ 31) where
  -- What the loop prints for the entry `j`.
  abbrev IsOf : ℕ → DumpLine → Type 0
  IsOf j x =
      let e = s.mem (entry_ptr table j) in
      let v = vaddr_of start_vaddr level j in
      (x ≡ dumped (level * 2) level j v e)
      ⊎ (((ltb level 3 && (bit_and e pte_ps == 0)) ≡ true) × Memᴰ x (below (pte_addr e) v))

  round-Mem :
      (i : ℕ) (x : DumpLine) (stop : Bool) (skip rest : List DumpLine)
      → s.mem (entry_ptr table i) ≢ 0
      → IsOf i x
      → let e = s.mem (entry_ptr table i) in
        let v = vaddr_of start_vaddr level i in
        Memᴰ x (
          if e == 0
          then skip
          else dumped (level * 2) level i v e
            ∷ ((if ltb level 3 && (bit_and e pte_ps == 0) then below (pte_addr e) v else [])
                ++ (if stop then [] else rest)))
  round-Mem i x stop skip rest some_entry (inl e) =
      mem-if x (s.mem (entry_ptr table i) == 0) _ _ (==_of_ne _ 0 some_entry) (Memᴰ.head e)
  round-Mem i x stop skip rest some_entry (inr (c, m)) =
      mem-if x (s.mem (entry_ptr table i) == 0) _ _ (==_of_ne _ 0 some_entry) (
        Memᴰ.tail (
          Memᴰ.append_left _ (
            mem-then x (ltb level 3 && (bit_and (s.mem (entry_ptr table i)) pte_ps == 0)) _ _ c m)))

  later-Mem :
      (i n : ℕ) (x y : DumpLine) (inner skip rest : List DumpLine)
      → (leb limit (n + 1) || leb (2 ^ 31) limit) ≡ false
      → Memᴰ x skip
      → Memᴰ x rest
      → Memᴰ x (
          if s.mem (entry_ptr table i) == 0
          then skip
          else y ∷ (inner ++ (if leb limit (n + 1) || leb (2 ^ 31) limit then [] else rest)))
  later-Mem i n x y inner skip rest go a b = elim (Bool-cases (s.mem (entry_ptr table i) == 0)) [
    | inl empty ↦ mem-then x (s.mem (entry_ptr table i) == 0) _ _ empty a
    | inr there ↦ mem-if x (s.mem (entry_ptr table i) == 0) _ _ there (
        Memᴰ.tail
          (Memᴰ.append_right inner (mem-if x (leb limit (n + 1) || leb (2 ^ 31) limit) _ _ go b)))
  ]

  dump_loop-Mem :
      (left i n j : ℕ) (x : DumpLine)
      → i ≤ j
      → j < i + left
      → n ≤ i
      → i + left ≤ 512
      → s.mem (entry_ptr table j) ≢ 0
      → IsOf j x
      → Memᴰ x (dump_loop s below table start_vaddr level limit left i n)
  unfolding dump_loop
  dump_loop-Mem zero i n j x low high few whole some_entry of = absurd (omega arith)
  dump_loop-Mem (suc left) i n j x low high few whole some_entry of = elim (Bool-cases (i == j)) [
    | inl same ↦
        let e = eq_of_== i j same in
        round-Mem i x (leb limit (n + 1) || leb (2 ^ 31) limit) _ _
          (subst (λ k. s.mem (entry_ptr table k) ≢ 0) (sym e) some_entry)
          (subst (λ k. IsOf k x) (sym e) of)
    | inr other ↦
        let next : suc i ≤ j = ground arith in
        later-Mem i n x _ _ _ _ (ground arith)
          (dump_loop-Mem left (i + 1) n j x (omega arith) (omega arith) (omega arith) (omega arith)
            some_entry of)
          (dump_loop-Mem left (i + 1) (n + 1) j x (omega arith) (omega arith) (omega arith)
            (omega arith) some_entry of)
  ]

-- The address of a page by its indices.
vaddr_of-idx :
    (v : ℕ)
    → IsCanonical v
    → v % 4096 ≡ 0
    → vaddr_of
        (vaddr_of (vaddr_of (vaddr_of 0 0 (p4_idx v)) 1 (p3_idx v)) 2 (p2_idx v))
        3
        (p1_idx v)
      ≡ v
vaddr_of-idx v canonical aligned =
    vaddr_of-sum (p4_idx v) (p3_idx v) (p2_idx v) (p1_idx v) (omega (arith, p4_idx-div v))
      (omega (arith, p3_idx-div v)) (omega (arith, p2_idx-div v)) (omega (arith, p1_idx-div v))
    ∙ ground (arith, canonical, aligned, p4_idx-div v, p3_idx-div v, p2_idx-div v, p1_idx-div v)

module _ (s : Mmu) (limit : ℕ) (large : 512 ≤ limit) (positive : limit < 2 ^ 31) where
  -- The line of the entry that the indices lead to.
  listed :
      (a b c d : ℕ)
      → a < 512
      → b < 512
      → c < 512
      → d < 512
      → entry4 s a ≢ 0
      → IsTable s (entry4 s a)
      → entry3 s a b ≢ 0
      → IsTable s (entry3 s a b)
      → entry2 s a b c ≢ 0
      → IsTable s (entry2 s a b c)
      → let e = s.mem (entry_ptr (phys_to_virt (pte_addr (entry2 s a b c))) d) in
        e ≢ 0
        → Memᴰ
            (dumped 6 3 d (vaddr_of (vaddr_of (vaddr_of (vaddr_of 0 0 a) 1 b) 2 c) 3 d) e)
            (dump_pgtable s s.cached_cr3 limit)
  unfolding dump_pgtable dump_inner
  listed a b c d ha hb hc hd n4 t4 n3 t3 n2 t2 n1 =
      dump_loop-Mem s _ _ _ 0 limit large positive 512 0 0 a _ (omega arith) ha (omega arith)
        (omega arith) n4
        (inr (
          t4,
          dump_loop-Mem s _ _ _ 1 limit large positive 512 0 0 b _ (omega arith) hb (omega arith)
              (omega arith) n3
              (inr (
                t3,
                dump_loop-Mem s _ _ _ 2 limit large positive 512 0 0 c _ (omega arith) hc
                    (omega arith) (omega arith) n2
                    (inr (
                      t2,
                      dump_loop-Mem s _ _ _ 3 limit large positive 512 0 0 d _ (omega arith) hd
                          (omega arith) (omega arith) n1 (inl refl),
                    )),
              )),
        ))

-- Let the limit be from 512 to 2^31 - 1 and the root be the cached one. If `get_entry` finds for a
-- canonical address that is the first of a page a pointer other than NULL to an entry other than 0,
-- then `dump_pgtable` prints the line of level 3 with this address and this entry.
pub dump_pgtable-complete :
    (s : Mmu) (limit vaddr p : ℕ)
    → 512 ≤ limit
    → limit < 2 ^ 31
    → IsCanonical vaddr
    → vaddr % 4096 ≡ 0
    → get_entry s vaddr ≡ done p
    → p ≢ null
    → s.mem p ≢ 0
    → Memᴰ (dumped 6 3 (p1_idx vaddr) vaddr (s.mem p)) (dump_pgtable s s.cached_cr3 limit)
dump_pgtable-complete s limit vaddr p large positive canonical aligned ran ne some_entry =
    let (n4, t4, n3, t3, n2, t2, e) = get_entry-IsTable s vaddr p ran ne in
    let at : s.mem (
          entry_ptr
            (phys_to_virt (pte_addr (entry2 s (p4_idx vaddr) (p3_idx vaddr) (p2_idx vaddr))))
            (p1_idx vaddr))
        ≡ s.mem p =
      ap s.mem e in
    let line =
      listed s limit large positive (p4_idx vaddr) (p3_idx vaddr) (p2_idx vaddr) (p1_idx vaddr)
        (omega (arith, p4_idx-div vaddr)) (omega (arith, p3_idx-div vaddr))
        (omega (arith, p2_idx-div vaddr)) (omega (arith, p1_idx-div vaddr)) n4 t4 n3 t3 n2 t2
        (λ z. some_entry (sym at ∙ z)) in
    subst (λ x. Memᴰ x (dump_pgtable s s.cached_cr3 limit))
      (rw (at, vaddr_of-idx vaddr canonical aligned) refl) line
