-- ===== src/Paging/Dump/Lines.antt =====
-- The lines that `dump_pgtable` of server/exception/exception_p_enclave/Enclave/paging.h prints for
-- pages, against `get_entry` of the same file.
use mathlib.Core.Path.{subst}
use mathlib.Core.List.{Memᴰ}
use mathlib.Core.List.Memᴰ
use atc22_ae.Base.{
  ℕ, zero, suc, ◌+◌, ◌*◌, ◌/◌, ◌%◌, ◌^◌, eq_of_==, ◌≤◌, ◌<◌, ◌≡◌, ◌⊎◌, inl, inr, refl, sym, arith,
  Bool, true, false, Bool-cases, ◌||◌, ◌&&◌, List, [], ◌∷◌, ◌++◌, ltb, leb, if◌then◌else◌, ◌==◌,
  bit_and,
}
use atc22_ae.Outcome.{Outcome, done, ◌>>=◌}
use atc22_ae.Paging.{Mmu, null, pte_ps, pte_addr, phys_to_virt, entry_ptr, next_table, get_entry}
use atc22_ae.Paging.Dump.{DumpLine, dumped, vaddr_of, dump_loop, dump_inner, dump_pgtable}
use atc22_ae.Paging.Dump.Address.{vaddr_of-indices}
use atc22_ae.Paging.Index.{p4_idx-div, p3_idx-div, p2_idx-div}
use atc22_ae.Paging.Entry.{pte_addr-div, present_test}

abbrev Each : (P : DumpLine → Type 0) → List DumpLine → Type 0
Each P l = (x : DumpLine) → Memᴰ x l → P x

Each-nil : (P : DumpLine → Type 0) → Each P []
Each-nil P x m = absurd (Memᴰ.not-nil m)

Each-append :
    (P : DumpLine → Type 0) (l l' : List DumpLine) → Each P l → Each P l' → Each P (l ++ l')
Each-append P l l' a b x m = elim (Memᴰ.append_cases l m) [ inl m' ↦ a x m' | inr m' ↦ b x m' ]

Each-cons :
    (P : DumpLine → Type 0) (y : DumpLine) (l : List DumpLine) → P y → Each P l → Each P (y ∷ l)
Each-cons P y l p a x m = elim (Memᴰ.cases_cons m) [ inl e ↦ subst P (sym e) p | inr m' ↦ a x m' ]

Each-if :
    (P : DumpLine → Type 0) (c : Bool) (l l' : List DumpLine)
    → (c ≡ true → Each P l)
    → (c ≡ false → Each P l')
    → Each P (if c then l else l')
Each-if P true l l' a b = a refl
Each-if P false l l' a b = b refl

module _ (P : DumpLine → Type 0) (s : Mmu) (below : ℕ → ℕ → List DumpLine)
    (table start_vaddr level limit : ℕ)
    (own : (j : ℕ)
      → j < 512
      → P (dumped (level * 2) level j (vaddr_of start_vaddr level j) (s.mem (entry_ptr table j))))
    (deeper : (j : ℕ)
      → j < 512
      → (ltb level 3 && (bit_and (s.mem (entry_ptr table j)) pte_ps == 0)) ≡ true
      → Each P (below (pte_addr (s.mem (entry_ptr table j))) (vaddr_of start_vaddr level j))) where
  dump_loop-Each :
      (left i n : ℕ)
      → i + left ≤ 512
      → Each P (dump_loop s below table start_vaddr level limit left i n)
  unfolding dump_loop
  dump_loop-Each zero i n h = Each-nil P
  dump_loop-Each (suc left) i n h =
      Each-if P (s.mem (entry_ptr table i) == 0) _ _
        (λ _. dump_loop-Each left (i + 1) n (omega arith))
        λ _. Each-cons P _ _ (own i (omega arith)) (
          Each-append P _ _
            (Each-if P (ltb level 3 && (bit_and (s.mem (entry_ptr table i)) pte_ps == 0)) _ _
              (deeper i (omega arith)) (λ _. Each-nil P))
            (Each-if P (leb limit (n + 1) || leb (2 ^ 31) limit) _ _ (λ _. Each-nil P)
              (λ _. dump_loop-Each left (i + 1) (n + 1) (omega arith))))

-- `get_entry` comes to a pointer at which the entry `pte` stands, or to NULL for the reason `gone`.
abbrev pub Finds : Mmu → (gone : Type 0) → Outcome ℕ → (pte : ℕ) → Type 0
Finds s gone found pte =
    ((found ≡ done null) × gone) ⊎ ((p : ℕ) × (found ≡ done p) × (s.mem p ≡ pte))

-- An entry from which the code does not go on: bit 0 is clear, or it names the table at 2^47, whose
-- address in the window wraps to 0.
abbrev pub Dead : (entry : ℕ) → Type 0
Dead entry = (entry % 2 ≡ 0) ⊎ (entry / 2 ^ 12 % 2 ^ 36 ≡ 2 ^ 35)

next_table-table :
    (e : ℕ)
    → (bit_and e pte_ps == 0) ≡ true
    → ((next_table e ≡ done null) × Dead e) ⊎ (next_table e ≡ done (phys_to_virt (pte_addr e)))
unfolding next_table
next_table-table e small = elim (Bool-cases (bit_and e 1 == 0)) [
  | inl clear ↦ inl (
    ground (arith, small, clear),
    inl (omega (arith, present_test e, eq_of_== (bit_and e 1) 0 clear)),
  )
  | inr set ↦ inr (ground (arith, small, set))
]

table-wraps : (e : ℕ) → (phys_to_virt (pte_addr e) == null) ≡ true → Dead e
unfolding phys_to_virt
table-wraps e h = inr (omega (arith, pte_addr-div e, eq_of_== (phys_to_virt (pte_addr e)) null h))

Finds-level :
    (s : Mmu) (gone : Type 0) (e pte : ℕ) (k : ℕ → Outcome ℕ)
    → (bit_and e pte_ps == 0) ≡ true
    → (Dead e → gone)
    → Finds s gone (k (phys_to_virt (pte_addr e))) pte
    → Finds s gone (next_table e >>= λ p. if p == null then done null else k p) pte
Finds-level s gone e pte k small dead below = elim (next_table-table e small) [
  | inl (none, why) ↦ inl (rw none refl, dead why)
  | inr there ↦ elim (Bool-cases (phys_to_virt (pte_addr e) == null)) [
    | inl none ↦ inl (rw (there, none) refl, dead (table-wraps e none))
    | inr some ↦ rw (there, some) below
  ]
]

-- The entries that the indices lead to, from the root down.
module _ (s : Mmu) where
  abbrev pub entry4 : (a : ℕ) → ℕ
  entry4 a = s.mem (entry_ptr (phys_to_virt s.cached_cr3) a)

  abbrev pub entry3 : (a b : ℕ) → ℕ
  entry3 a b = s.mem (entry_ptr (phys_to_virt (pte_addr (entry4 a))) b)

  abbrev pub entry2 : (a b c : ℕ) → ℕ
  entry2 a b c = s.mem (entry_ptr (phys_to_virt (pte_addr (entry3 a b))) c)

  abbrev pub IsTable : (entry : ℕ) → Type 0
  IsTable entry = (bit_and entry pte_ps == 0) ≡ true

  -- One of the three entries on the way to the page of `vaddr` leads no further.
  abbrev pub Gone : (vaddr : ℕ) → Type 0
  Gone vaddr =
      let a : ℕ = vaddr / 2 ^ 39 % 512 in
      let b : ℕ = vaddr / 2 ^ 30 % 512 in
      let c : ℕ = vaddr / 2 ^ 21 % 512 in Dead (entry4 a) ⊎ Dead (entry3 a b) ⊎ Dead (entry2 a b c)

  get_entry-Finds :
      (a b c d : ℕ)
      → a < 512
      → b < 512
      → c < 512
      → d < 512
      → IsTable (entry4 a)
      → IsTable (entry3 a b)
      → IsTable (entry2 a b c)
      → Finds s
          (Gone (vaddr_of (vaddr_of (vaddr_of (vaddr_of 0 0 a) 1 b) 2 c) 3 d))
          (get_entry s (vaddr_of (vaddr_of (vaddr_of (vaddr_of 0 0 a) 1 b) 2 c) 3 d))
          (s.mem (entry_ptr (phys_to_virt (pte_addr (entry2 a b c))) d))
  unfolding get_entry
  get_entry-Finds a b c d ha hb hc hd small3 small2 small1 =
      let (canonical, aligned, i4, i3, i2, i1) = vaddr_of-indices a b c d ha hb hc hd in
      let v : ℕ = vaddr_of (vaddr_of (vaddr_of (vaddr_of 0 0 a) 1 b) 2 c) 3 d in
      rw (sym (p4_idx-div v), sym (p3_idx-div v), sym (p2_idx-div v), i4, i3, i2, i1)
        (Finds-level s _ (entry4 a) _ _ small3 inl (
          Finds-level s _ (entry3 a b) _ _ small2 (λ dead. inr (inl dead))
            (Finds-level s _ (entry2 a b c) _ _ small1 (λ dead. inr (inr dead))
              (inr (_, refl, refl)))))

abbrev IsFound : Mmu → DumpLine → Type 0
IsFound s (dumped indent level i vaddr pte) =
    level ≡ 3 → Finds s (Gone s vaddr) (get_entry s vaddr) pte

module _ (s : Mmu) (limit : ℕ) where
  pages-Each :
      (a b c : ℕ)
      → a < 512
      → b < 512
      → c < 512
      → IsTable s (entry4 s a)
      → IsTable s (entry3 s a b)
      → IsTable s (entry2 s a b c)
      → Each (IsFound s) (
          dump_inner 0 s
            (pte_addr (entry2 s a b c))
            (vaddr_of (vaddr_of (vaddr_of 0 0 a) 1 b) 2 c)
            3
            limit)
  unfolding dump_inner
  pages-Each a b c ha hb hc small3 small2 small1 =
      dump_loop-Each (IsFound s) s _ _ _ 3 limit
        (λ d hd _. get_entry-Finds s a b c d ha hb hc hd small3 small2 small1)
        (λ d hd e. absurd (ground (arith, e))) 512 0 0 (omega arith)

  tables2-Each :
      (a b : ℕ)
      → a < 512
      → b < 512
      → IsTable s (entry4 s a)
      → IsTable s (entry3 s a b)
      → Each
          (IsFound s)
          (dump_inner 1 s (pte_addr (entry3 s a b)) (vaddr_of (vaddr_of 0 0 a) 1 b) 2 limit)
  unfolding dump_inner
  tables2-Each a b ha hb small3 small2 =
      dump_loop-Each (IsFound s) s _ _ _ 2 limit (λ c hc other. absurd (omega (arith, other)))
        (λ c hc small1. pages-Each a b c ha hb hc small3 small2 small1) 512 0 0 (omega arith)

  tables3-Each :
      (a : ℕ)
      → a < 512
      → IsTable s (entry4 s a)
      → Each (IsFound s) (dump_inner 2 s (pte_addr (entry4 s a)) (vaddr_of 0 0 a) 1 limit)
  unfolding dump_inner
  tables3-Each a ha small3 =
      dump_loop-Each (IsFound s) s _ _ _ 1 limit (λ b hb other. absurd (omega (arith, other)))
        (λ b hb small2. tables2-Each a b ha hb small3 small2) 512 0 0 (omega arith)

  tables4-Each : Each (IsFound s) (dump_pgtable s s.cached_cr3 limit)
  unfolding dump_pgtable dump_inner
  tables4-Each =
      dump_loop-Each (IsFound s) s _ _ _ 0 limit (λ a ha other. absurd (omega (arith, other)))
        tables3-Each 512 0 0 (omega arith)

-- Let the root be the cached one. For every line of level 3 that `dump_pgtable` prints, with the
-- address `vaddr` and the entry `pte`, `get_entry` for this address comes to a pointer at which
-- this entry stands, and does not abort. It comes to NULL instead only where one of the three
-- entries above, by the indices of `vaddr`, is not present or names the table at 2^47.
pub dump_pgtable-get_entry :
    (s : Mmu) (limit indent i vaddr pte : ℕ)
    → Memᴰ (dumped indent 3 i vaddr pte) (dump_pgtable s s.cached_cr3 limit)
    → Finds s (Gone s vaddr) (get_entry s vaddr) pte
dump_pgtable-get_entry s limit indent i vaddr pte m =
    tables4-Each s limit (dumped indent 3 i vaddr pte) m refl
