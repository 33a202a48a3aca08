-- ===== src/Paging/Walk.antt =====
-- The walk of `get_entry` of server/exception/exception_p_enclave/Enclave/paging.h against the
-- four-level walk of an x86-64 processor, which is written here over the levels. Both end at the
-- entry for a page; the processor reads physical memory, the code reads it through its window.
use atc22_ae.Base.{
  ℕ, zero, suc, ◌+◌, ◌*◌, ◌/◌, ◌%◌, ◌^◌, ◌≤◌, ◌<◌, ◌≡◌, refl, inl, inr, arith, ap, Bool-cases,
  eq_of_==, if◌then◌else◌, ◌==◌, false,
}
use atc22_ae.Outcome.{Outcome, done, aborted, ◌>>=◌}
use atc22_ae.Paging.{
  Mmu, phys_offset, null, p4_idx, p3_idx, p2_idx, p1_idx, pte_addr, entry_ptr, next_table,
  get_entry,
}
use atc22_ae.Paging.Index.{p4_idx-div, p3_idx-div, p2_idx-div, p1_idx-div}
use atc22_ae.Paging.Entry.{pte_addr-div, present_test, huge_test, phys_to_virt-sum}

pub data Walked : Type 0 where
  absent : Walked
  large : Walked
  leaf : ℕ → Walked

-- The physical address in bits 12 to 51 of an entry.
abbrev pub frame : ℕ → ℕ
frame e = e / 2 ^ 12 % 2 ^ 40 * 2 ^ 12

-- The address of the entry for `v` in a table that stands `l` levels above the pages.
abbrev pub slot : (l table v : ℕ) → ℕ
slot l table v = table + 8 * (v / 2 ^ (12 + 9 * l) % 512)

-- The processor's walk from a table `l` levels up: bit 0 says that an entry is present, bit 7
-- that it maps a large page. In an entry of the top table the manuals reserve bit 7, and here it
-- counts as a large page too, which `next_table` refuses in the same way.
unfoldable pub hw_walk : (ℕ → ℕ) → (l table v : ℕ) → Walked
hw_walk phys zero table v = leaf (slot 0 table v)
hw_walk phys (suc l) table v =
    let e = phys (slot (suc l) table v) in
    let below = hw_walk phys l (frame e) v in
    if e % 2 == 0 then absent else if e / 128 % 2 == 1 then large else below

-- Every table that the walk reads lies below 2^47, where the window ends.
abbrev pub IsLow : (ℕ → ℕ) → (l table v : ℕ) → Type 0
IsLow phys zero table v = table + 4096 ≤ 2 ^ 47
IsLow phys (suc l) table v =
    (table + 4096 ≤ 2 ^ 47)
    × (phys (slot (suc l) table v) % 2 ≡ 1
        → phys (slot (suc l) table v) / 128 % 2 ≡ 0
        → IsLow phys l (frame (phys (slot (suc l) table v))) v)

-- What the processor finds at a physical address, given what the window shows.
abbrev pub phys_of : Mmu → ℕ → ℕ
phys_of s p = s.mem (p + phys_offset)

-- How `get_entry` reports the end of a walk.
abbrev pub as_ptr : Walked → Outcome ℕ
as_ptr absent = done null
as_ptr large = aborted
as_ptr (leaf a) = done (a + phys_offset)

pub IsLow-table : (phys : ℕ → ℕ) (l table v : ℕ) → IsLow phys l table v → table + 4096 ≤ 2 ^ 47
IsLow-table phys zero table v h = h
IsLow-table phys (suc l) table v h = h.0

pub entry_ptr-sum :
    (table i : ℕ)
    → table + 4096 ≤ 2 ^ 47
    → i < 512
    → entry_ptr (table + phys_offset) i ≡ table + 8 * i + phys_offset
unfolding entry_ptr
entry_ptr-sum table i h b = omega arith

next_table-table :
    (e : ℕ)
    → e % 2 ≡ 1
    → e / 128 % 2 ≡ 0
    → frame e + 4096 ≤ 2 ^ 47
    → next_table e ≡ done (frame e + phys_offset)
unfolding next_table
next_table-table e p s h =
    ground (arith, present_test e, huge_test e, pte_addr-div e, phys_to_virt-sum (pte_addr e))

next_table-absent : (e : ℕ) → e % 2 ≡ 0 → next_table e ≡ done null
unfolding next_table
next_table-absent e p = ground (arith, present_test e)

next_table-large : (e : ℕ) → e % 2 ≡ 1 → e / 128 % 2 ≡ 1 → next_table e ≡ aborted
unfolding next_table
next_table-large e p s = ground (arith, present_test e, huge_test e)

-- One level of the code: read the entry, stop at NULL, go on in the table below.
step-as_ptr :
    (e : ℕ) (below : Walked) (k : ℕ → Outcome ℕ)
    → (e % 2 ≡ 1
        → e / 128 % 2 ≡ 0
        → (frame e + 4096 ≤ 2 ^ 47) × (k (frame e + phys_offset) ≡ as_ptr below))
    → (next_table e >>= λ p. if p == null then done null else k p)
      ≡ as_ptr (if e % 2 == 0 then absent else if e / 128 % 2 == 1 then large else below)
step-as_ptr e below k next = elim (Bool-cases (e % 2 == 0)) [
  | inl gone ↦ rw (gone, next_table-absent e (eq_of_== _ _ gone)) refl
  | inr there ↦ elim (Bool-cases (e / 128 % 2 == 1)) [
    | inl big ↦ rw (there, big, next_table-large e (ground arith) (eq_of_== _ _ big)) refl
    | inr small ↦
        let p : e % 2 ≡ 1 = ground arith in
        let s : e / 128 % 2 ≡ 0 = ground arith in
        let not_null : (frame e + phys_offset == null) ≡ false = ground arith in
        rw (there, small, next_table-table e p s (next p s).0, not_null) (next p s).1
  ]
]

module _ (s : Mmu) (v : ℕ) where
  -- The entry that the code reads in a table.
  read_slot :
      (l table i : ℕ)
      → table + 4096 ≤ 2 ^ 47
      → i ≡ v / 2 ^ (12 + 9 * l) % 512
      → entry_ptr (table + phys_offset) i ≡ slot l table v + phys_offset
  read_slot l table i h e = rw e (entry_ptr-sum table (v / 2 ^ (12 + 9 * l) % 512) h (omega arith))

  level :
      (l table i : ℕ) (k : ℕ → Outcome ℕ)
      → i ≡ v / 2 ^ (12 + 9 * suc l) % 512
      → IsLow (phys_of s) (suc l) table v
      → (IsLow (phys_of s) l (frame (phys_of s (slot (suc l) table v))) v
          → k (frame (phys_of s (slot (suc l) table v)) + phys_offset)
            ≡ as_ptr (hw_walk (phys_of s) l (frame (phys_of s (slot (suc l) table v))) v))
      → (next_table (s.mem (entry_ptr (table + phys_offset) i)) >>= λ p.
          if p == null then done null else k p)
        ≡ as_ptr (hw_walk (phys_of s) (suc l) table v)
  unfolding hw_walk
  level l table i k e low next = rw (read_slot (suc l) table i low.0 e) (
      step-as_ptr (phys_of s (slot (suc l) table v))
        (hw_walk (phys_of s) l (frame (phys_of s (slot (suc l) table v))) v) k
        λ p q. (IsLow-table (phys_of s) l _ v (low.1 p q), next (low.1 p q)))

  last_level :
      (table i : ℕ)
      → IsLow (phys_of s) 0 table v
      → i ≡ v / 2 ^ 12 % 512
      → done (entry_ptr (table + phys_offset) i) ≡ as_ptr (hw_walk (phys_of s) 0 table v)
  unfolding hw_walk
  last_level table i low e = ap done (read_slot 0 table i low e)

-- `get_entry` ends where the processor's walk ends: at the entry for the page, through the
-- window; at NULL where an entry on the way is absent; and it aborts at a large page. This
-- supposes that the root is aligned and that the tables on the way lie below 2^47.
pub get_entry-hw_walk :
    (s : Mmu) (v : ℕ)
    → s.cached_cr3 % 4096 ≡ 0
    → IsLow (phys_of s) 3 s.cached_cr3 v
    → get_entry s v ≡ as_ptr (hw_walk (phys_of s) 3 (frame s.cached_cr3) v)
unfolding get_entry
get_entry-hw_walk s v aligned low =
    let root : frame s.cached_cr3 ≡ s.cached_cr3 = omega (arith, low.0) in
    let window = phys_to_virt-sum s.cached_cr3 (omega (arith, low.0)) in
    rw (root, window)
      (level s v 2 s.cached_cr3 (p4_idx v) _ (p4_idx-div v) low λ low₂.
        level s v 1 _ (p3_idx v) _ (p3_idx-div v) low₂ λ low₁.
          level s v 0 _ (p2_idx v) _ (p2_idx-div v) low₁
            λ low₀. last_level s v _ (p1_idx v) low₀ (p1_idx-div v))
