-- ===== src/Paging/Dump.antt =====
-- `dump_pgtable` of server/exception/exception_p_enclave/Enclave/paging.h, which prints the entries
-- of the page tables.
pub mod Address
pub mod Lines
pub mod Inverse
pub mod Complete
use atc22_ae.Base.{
  ℕ, zero, suc, ◌+◌, ◌-◌, ◌*◌, ◌^◌, ◌≤◌, ◌<◌, ◌≡◌, refl, inl, inr, arith, Bool, true, false, ◌||◌,
  ◌&&◌, Bool-cases, List, [], ◌∷◌, ◌++◌, length, length-append, ltb, leb, if◌then◌else◌, ◌==◌,
  bit_and, bit_or, u64, ◌<<<◌,
}
use atc22_ae.Paging.{Mmu, pte_addr, pte_ps, phys_to_virt, entry_ptr}

-- A line: the indent, the level, the index, the address and the entry.
pub data DumpLine : Type 0 where
  dumped : (indent level i vaddr pte : ℕ) → DumpLine

-- Bit 47 is copied to the bits above it.
unfoldable pub sign_extend : ℕ → ℕ
sign_extend vaddr = if bit_and vaddr (2 ^ 47) == 0 then vaddr else bit_or vaddr (2 ^ 64 - 2 ^ 47)

unfoldable pub vaddr_of : (start_vaddr level i : ℕ) → ℕ
vaddr_of start_vaddr level i = sign_extend (u64 (start_vaddr + i <<< (12 + (3 - level) * 9)))

-- The loop over a table, with `left` entries to go and `n` printed; `below` is what the call for
-- the next level prints. `limit` is the pattern of an `int`.
unfoldable pub dump_loop :
    (s : Mmu) (below : ℕ → ℕ → List DumpLine) (table start_vaddr level limit left i n : ℕ)
    → List DumpLine
dump_loop s below table start_vaddr level limit zero i n = []
dump_loop s below table start_vaddr level limit (suc left) i n =
    let vaddr = vaddr_of start_vaddr level i in
    let pte = s.mem (entry_ptr table i) in
    let skip = dump_loop s below table start_vaddr level limit left (i + 1) n in
    let rest = dump_loop s below table start_vaddr level limit left (i + 1) (n + 1) in
    let inner =
      if ltb level 3 && (bit_and pte pte_ps == 0) then below (pte_addr pte) vaddr else [] in
    if pte == 0
    then skip
    else dumped (level * 2) level i vaddr pte
      ∷ (inner ++ (if leb limit (n + 1) || leb (2 ^ 31) limit then [] else rest))

-- By the number of levels below.
unfoldable pub dump_inner :
    (depth : ℕ) (s : Mmu) (table_paddr start_vaddr level limit : ℕ) → List DumpLine
dump_inner zero s table_paddr start_vaddr level limit =
    dump_loop s (λ _ _. []) (phys_to_virt table_paddr) start_vaddr level limit 512 0 0
dump_inner (suc depth) s table_paddr start_vaddr level limit =
    dump_loop s (λ paddr vaddr. dump_inner depth s paddr vaddr (level + 1) limit)
      (phys_to_virt table_paddr) start_vaddr level limit 512 0 0

unfoldable pub dump_pgtable : Mmu → (root_paddr limit : ℕ) → List DumpLine
dump_pgtable s root_paddr limit = dump_inner 3 s root_paddr 0 0 limit

-- The most lines for a table with `depth` levels below it.
abbrev pub most : (depth limit : ℕ) → ℕ
most zero limit = limit
most (suc depth) limit = limit * suc (most depth limit)

times_suc : (r b : ℕ) → suc r * b ≡ b + r * b
times_suc r b = grind arith

if-bounded :
    (c : Bool) (l : List DumpLine) (b : ℕ) → length l ≤ b → length (if c then l else []) ≤ b
if-bounded true l b h = h
if-bounded false l b h = omega arith

entry-bounded :
    (d : DumpLine) (inner rest : List DumpLine) (stop : Bool) (b k m : ℕ)
    → length inner ≤ b
    → (stop ≡ false → length rest ≤ k)
    → suc b + k ≡ m
    → length (d ∷ (inner ++ (if stop then [] else rest))) ≤ m
entry-bounded d inner rest true b k m h g e = omega (arith, length-append inner [])
entry-bounded d inner rest false b k m h g e = omega (arith, length-append inner rest, g refl)

stops : (n limit : ℕ) → n + 1 ≡ limit → ¬ ((leb limit (n + 1) || leb (2 ^ 31) limit) ≡ false)
stops n limit e go = ground arith

dump_loop-bounded :
    (s : Mmu) (below : ℕ → ℕ → List DumpLine) (table start_vaddr level limit b : ℕ)
    → ((p v : ℕ) → length (below p v) ≤ b)
    → (left i n room : ℕ) → n + suc room ≡ limit
    → length (dump_loop s below table start_vaddr level limit left i n) ≤ suc room * suc b
unfolding dump_loop
dump_loop-bounded s below table start_vaddr level limit b small zero i n room e = omega arith
dump_loop-bounded s below table start_vaddr level limit b small (suc left) i n zero e =
    elim (Bool-cases (s.mem (entry_ptr table i) == 0)) [
      | inl none ↦
          rw none
            (dump_loop-bounded s below table start_vaddr level limit b small left (i + 1) n zero e)
      | inr some ↦ rw some (
          entry-bounded
            (dumped (level * 2) level i (vaddr_of start_vaddr level i) (s.mem (entry_ptr table i)))
            _ _ _ b (0) _ (if-bounded _ _ b (small _ _))
            (λ (go : (leb limit (n + 1) || leb (2 ^ 31) limit) ≡ false).
              absurd (stops n limit e go))
            (grind arith))
    ]
dump_loop-bounded s below table start_vaddr level limit b small (suc left) i n (suc r) e =
    elim (Bool-cases (s.mem (entry_ptr table i) == 0)) [
      | inl none ↦
          rw none (
            dump_loop-bounded s below table start_vaddr level limit b small left (i + 1) n (suc r)
              e)
      | inr some ↦ rw some (
          entry-bounded
            (dumped (level * 2) level i (vaddr_of start_vaddr level i) (s.mem (entry_ptr table i)))
            _ _ _ b (suc r * suc b) _ (if-bounded _ _ b (small _ _))
            (λ go.
              dump_loop-bounded s below table start_vaddr level limit b small left (i + 1) (n + 1) r
                (omega arith))
            (grind arith))
    ]

dump_inner-bounded :
    (depth : ℕ) (s : Mmu) (table_paddr start_vaddr level k : ℕ)
    → length (dump_inner depth s table_paddr start_vaddr level (suc k)) ≤ most depth (suc k)
unfolding dump_inner
dump_inner-bounded zero s table_paddr start_vaddr level k = omega (
  arith,
  dump_loop-bounded s (λ _ _. []) (phys_to_virt table_paddr) start_vaddr level (suc k) 0
      (λ p v. omega arith) 512 0 0 k (omega arith),
)
dump_inner-bounded (suc depth) s table_paddr start_vaddr level k =
    dump_loop-bounded s _ _ start_vaddr level (suc k) (most depth (suc k))
      (λ p v. dump_inner-bounded depth s p v (level + 1) k) 512 0 0 k (omega arith)

-- With a limit of at least one entry for each table, `dump_pgtable` prints at most `limit` lines
-- for the root's entries, and behind each of them at most what the same limit allows for the three
-- levels below: in all limit * (1 + limit * (1 + limit * (1 + limit))) lines, whatever the memory
-- holds.
pub dump_pgtable-bounded :
    (s : Mmu) (root_paddr limit : ℕ)
    → 0 < limit
    → length (dump_pgtable s root_paddr limit) ≤ limit * suc (limit * suc (limit * suc limit))
unfolding dump_pgtable
dump_pgtable-bounded s root_paddr zero h = absurd (omega arith)
dump_pgtable-bounded s root_paddr (suc k) h = dump_inner-bounded 3 s root_paddr 0 0 k
